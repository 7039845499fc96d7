-- ===== src/Json.antt =====
-- A value that `JSON.parse` gives, as the request validation of src/personnel and src/customers reads
-- it. The value of a number is never read.
use dsh_backend_team.Base.{Bool, Option, none, some, List, [], ◌∷◌, Text, ◌==◌, if◌then◌else◌}

mutual
  pub data Json : Type 0 where
    null num : Json
    bool : Bool → Json
    str : Text → Json
    arr : Items → Json
    obj : Fields → Json

  pub data Items : Type 0 where
    nil : Items
    cons : Json → Items → Items

  pub data Fields : Type 0 where
    end : Fields
    field : Text → Json → Fields → Fields

-- `source[key]`, `none` for `undefined`.
abbrev pub get : Text → Fields → Option Json
get key end = none
get key (field k v fs) = let rest = get key fs in if k == key then some v else rest

-- `Object.keys(source)`
abbrev pub keys : Fields → List Text
keys end = []
keys (field k v fs) = k ∷ keys fs
