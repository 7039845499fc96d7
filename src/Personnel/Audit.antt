-- ===== src/Personnel/Audit.antt =====
-- The audit log of src/personnel/domain/audit.ts, and the copy of it in service.ts, which names
-- another default operator.
use dsh_backend_team.Base.{
  Option, none, some, List, [], ◌∷◌, Text, codes, length, nat_eq, if◌then◌else◌,
}
use dsh_backend_team.Personnel.Rows.{ChangeAction}
use dsh_backend_team.Personnel.Action.{Context, Action, pure, ◌>>=◌, ◌>>◌, next_id, read_clock}
use dsh_backend_team.Personnel.Store.{insert_change_record}

pub record AuditChange : Type 0 where
  pub action : ChangeAction
  pub field_name : Text
  pub old_value : Option Text
  pub new_value : Option Text
  pub effective_from : Option Text
  pub effective_to : Option Text

module _ (c : Context) (person_id operator_id occurred_at : Text) where
  -- the loop over the changes
  unfoldable pub record_each : List AuditChange → Action (Unit {0})
  record_each [] = pure tt
  record_each (change ∷ changes) = do
    id ← next_id c
    insert_change_record (record {
      id = id;
      person_id = person_id;
      action = change.action;
      field_name = change.field_name;
      old_value = change.old_value;
      new_value = change.new_value;
      operator_id = operator_id;
      operator_name = c.operator_name;
      occurred_at = occurred_at;
      effective_from = change.effective_from;
      effective_to = change.effective_to;
    })
    record_each changes

-- `context.operatorId ?? 'system'`
abbrev operator_or_system : Option Text → Text
operator_or_system none = codes "system"
operator_or_system (some id) = id

-- `recordChanges` of audit.ts
unfoldable pub record_changes : Context → Text → List AuditChange → Action (Unit {0})
record_changes c person_id changes = do
  occurred_at ← read_clock c
  record_each c person_id (operator_or_system c.operator_id) occurred_at changes

-- `operatorIdOf` of service.ts
abbrev operator_id_of : Option Text → Text
operator_id_of none = codes "personnel-service"
operator_id_of (some id) = if nat_eq (length id) 0 then codes "personnel-service" else id

-- `recordChanges` of service.ts
unfoldable pub record_service_changes : Context → Text → List AuditChange → Action (Unit {0})
record_service_changes c person_id changes = do
  occurred_at ← read_clock c
  record_each c person_id (operator_id_of c.operator_id) occurred_at changes
