-- ===== src/Personnel/Laws/Keeping.antt =====
-- No use case of src/personnel/domain takes an assignment out of the store.
use dsh_backend_team.Base.{
  ◌≡◌, refl, sym, ap, ◌∙◌, Bool, true, false, ◌||◌, List, [], ◌∷◌, Text, ◌==◌, ==_iff, any,
  any-append, replace_first, if◌then◌else◌, arith,
}
use mathlib.Core.Path.{subst}
use dsh_backend_team.Personnel.Rows.{AssignmentRow}
use dsh_backend_team.Personnel.Action.{World, Context, Result, ok, err}
use dsh_backend_team.Personnel.Store.Outcome.{
  Writes, insert_person-Writes, insert_assignment-Writes, update_person-Writes,
  update_assignment-Writes, insert_change_record-Writes, delete_person-Writes,
}
use dsh_backend_team.Personnel.Laws.Frames.{StoreRespects}
use dsh_backend_team.Personnel.Laws.Validity.{Call, after_all, after_all_lem}

abbrev pub has_assignment : Text → World → Bool
has_assignment id w = any (λ a. a.id == id) w.assignments

-- Every assignment of the first state has one of its identifier in the second.
abbrev pub KeepsAssignments : World → World → Type 0
KeepsAssignments w w' = (id : Text) → has_assignment id w ≡ true → has_assignment id w' ≡ true

any-replace_first :
    (id : Text) (row : AssignmentRow) (rows : List AssignmentRow)
    → any (λ a. a.id == id) rows ≡ true
    → any (λ a. a.id == id) (replace_first (λ a. a.id == row.id) row rows) ≡ true
any-replace_first id row [] h = h
any-replace_first id row (a ∷ rows) h = go (a.id == row.id) refl h (any-replace_first id row rows)
  where
    go :
        (b : Bool)
        → (a.id == row.id) ≡ b
        → ((a.id == id) || any (λ x. x.id == id) rows) ≡ true
        → (any (λ x. x.id == id) rows ≡ true
            → any (λ x. x.id == id) (replace_first (λ x. x.id == row.id) row rows) ≡ true)
        → any
            (λ x. x.id == id)
            (if b then row ∷ rows else a ∷ replace_first (λ x. x.id == row.id) row rows)
          ≡ true
    go true e h ih =
        let same : (a.id == id) ≡ (row.id == id) = ap (λ x. x == id) ((==_iff a.id row.id).0 e) in
        ground arith
    go false e h ih = ground arith

Writes-KeepsAssignments :
    (w target : World) (P : Type 0) (o : Result (Unit {0}) × World)
    → Writes w target P o
    → KeepsAssignments w target
    → KeepsAssignments w o.1
Writes-KeepsAssignments w target P (ok _, w') h k = subst (KeepsAssignments w) (sym h.0) k
Writes-KeepsAssignments w target P (err _, w') h k = subst (KeepsAssignments w) (sym h) (λ id e. e)

keeps_assignments : StoreRespects KeepsAssignments
keeps_assignments = record {
  order = record {
    same = λ w w' same id h. ap (any (λ a. a.id == id)) same.assignments ∙ h;
    trans = λ u v w h k id e. k id (h id e);
  };
  log = λ row. record {
    step = λ w. Writes-KeepsAssignments w _ _ _ (insert_change_record-Writes row w) (λ id h. h);
  };
  insert_person = λ row. record {
    step = λ w. Writes-KeepsAssignments w _ _ _ (insert_person-Writes row w) (λ id h. h);
  };
  update_person = λ row. record {
    step = λ w. Writes-KeepsAssignments w _ _ _ (update_person-Writes row w) (λ id h. h);
  };
  insert_assignment = λ row. record {
    step = λ w. Writes-KeepsAssignments w _ _ _ (insert_assignment-Writes row w) (λ id h.
        ground (arith, any-append (λ (a : AssignmentRow). a.id == id) w.assignments (row ∷ [])));
  };
  update_assignment = λ row. record {
    step = λ w.
        Writes-KeepsAssignments w _ _ _ (update_assignment-Writes row w)
          (λ id h. any-replace_first id row w.assignments h);
  };
  delete_person = λ id. record {
    step = λ w. Writes-KeepsAssignments w _ _ _ (delete_person-Writes id w) (λ id h. h);
  };
}

-- Whatever use cases the callers run in sequence, no assignment that was stored disappears: a
-- retraction and a closing change its row, and a deletion is refused while it is there.
pub after_all-KeepsAssignments :
    (calls : List (Context × Call)) (w : World) → KeepsAssignments w (after_all calls w)
after_all-KeepsAssignments calls w = after_all_lem keeps_assignments calls w
