-- ===== src/Personnel/Laws/Validity.antt =====
-- No use case of src/personnel/domain breaks the store's invariant, and none forgets a change
-- record.
use dsh_backend_team.Base.{
  ◌≡◌, refl, sym, ap, ◌∙◌, List, [], ◌∷◌, ◌++◌, Text, Option, Bool, true, All, Pairs,
}
use dsh_backend_team.Personnel.Rows.{ChangeRecordRow, AssignmentRow}
use dsh_backend_team.Personnel.Action.{World, Context, Result, ok, err}
use dsh_backend_team.Personnel.Action.Rules.{SameTables}
use dsh_backend_team.Json.{Json}
use dsh_backend_team.Personnel.Store.{has_person}
use dsh_backend_team.Personnel.Store.Invariant.{
  IsValid, other_person, other_assignment, other_record,
}
use dsh_backend_team.Personnel.Store.Checks.{PersonChecked, AssignmentChecked, ChangeRecordChecked}
use dsh_backend_team.Personnel.Store.Outcome.{
  Writes, insert_person-Writes, insert_assignment-Writes, update_person-Writes,
  update_assignment-Writes, insert_change_record-Writes, delete_person-Writes,
}
use mathlib.Core.Path.{subst}
use mathlib.Core.List.{append-nil, append_assoc}
use dsh_backend_team.Personnel.Store.Preserve.{
  insert_person-IsValid, insert_assignment-IsValid, update_person-IsValid,
  update_assignment-IsValid, insert_change_record-IsValid, delete_person-IsValid,
}
use dsh_backend_team.Personnel.Assignment.{
  create_assignment, apply_due_assignments, retract_assignment,
}
use dsh_backend_team.Personnel.Service.{create_person, change_person}
use dsh_backend_team.Personnel.Status.{transition_person_status}
use dsh_backend_team.Personnel.Lifecycle.{remove_person}
use dsh_backend_team.Personnel.Laws.Frames.{
  StoreRespects, create_person-Respects, change_person-Respects, create_assignment-Respects,
  apply_due_assignments-Respects, retract_assignment-Respects, transition_person_status-Respects,
  remove_person-Respects,
}

-- A call of the service, by any of the exported use cases that write.
pub data Call : Type 0 where
  creates_person : Option Json → Call
  updates_person : Text → Option Json → Call
  creates_assignment : Text → Option Json → Call
  applies_due : Text → Call
  retracts_assignment : Text → Text → Call
  transitions_status : Text → Option Json → Call
  deletes_person : Bool → (Text → Bool) → Text → Call

-- The state after a call, whatever it returned or threw.
unfoldable pub after : Context → Call → World → World
after c (Call.creates_person input) w = (create_person c input w).1
after c (Call.updates_person id input) w = (change_person c id input w).1
after c (Call.creates_assignment id input) w = (create_assignment c id input w).1
after c (Call.applies_due as_of) w = (apply_due_assignments c as_of w).1
after c (Call.retracts_assignment id assignment_id) w = (retract_assignment c id assignment_id w).1
after c (Call.transitions_status id input) w = (transition_person_status c id input w).1
after c (Call.deletes_person authorized is_referenced id) w =
    (remove_person c authorized is_referenced id w).1

-- A sequence of calls, each by a caller of its own.
unfoldable pub after_all : List (Context × Call) → World → World
after_all [] w = w
after_all ((c, call) ∷ calls) w = after_all calls (after c call w)

module _ {R : World → World → Type 0} (s : StoreRespects R) where
  after_lem : (c : Context) (call : Call) (w : World) → R w (after c call w)
  unfolding after
  after_lem c (Call.creates_person input) w = (create_person-Respects s c input).step w
  after_lem c (Call.updates_person id input) w = (change_person-Respects s c id input).step w
  after_lem c (Call.creates_assignment id input) w =
      (create_assignment-Respects s c id input).step w
  after_lem c (Call.applies_due as_of) w = (apply_due_assignments-Respects s c as_of).step w
  after_lem c (Call.retracts_assignment id assignment_id) w =
      (retract_assignment-Respects s c id assignment_id).step w
  after_lem c (Call.transitions_status id input) w =
      (transition_person_status-Respects s c id input).step w
  after_lem c (Call.deletes_person authorized is_referenced id) w =
      (remove_person-Respects s c authorized is_referenced id).step w

  pub after_all_lem : (calls : List (Context × Call)) (w : World) → R w (after_all calls w)
  unfolding after_all
  after_all_lem [] w =
      s.order.same w w (record { persons = refl; assignments = refl; change_records = refl })
  after_all_lem ((c, call) ∷ calls) w =
      s.order.trans w (after c call w) (after_all calls (after c call w)) (after_lem c call w)
        (after_all_lem calls (after c call w))

abbrev KeepsValid : World → World → Type 0
KeepsValid w w' = IsValid w → IsValid w'

same-IsValid : (w w' : World) → SameTables w w' → KeepsValid w w'
same-IsValid w w' same v = record {
  persons_checked = subst (All PersonChecked) (sym same.persons) v.persons_checked;
  persons_distinct = subst (Pairs other_person) (sym same.persons) v.persons_distinct;
  assignments_checked = subst (All AssignmentChecked) (sym same.assignments) v.assignments_checked;
  assignments_distinct =
      subst (Pairs other_assignment) (sym same.assignments) v.assignments_distinct;
  owners_known =
      subst (λ ps. All (λ (a : AssignmentRow). has_person a.person_id ps ≡ true) w'.assignments)
        (sym same.persons)
        (subst (All (λ (a : AssignmentRow). has_person a.person_id w.persons ≡ true))
          (sym same.assignments) v.owners_known);
  records_checked = subst (All ChangeRecordChecked) (sym same.change_records) v.records_checked;
  records_distinct = subst (Pairs other_record) (sym same.change_records) v.records_distinct;
}

keeps_valid : StoreRespects KeepsValid
keeps_valid = record {
  order = record { same = same-IsValid; trans = λ u v w h k x. k (h x) };
  log = λ row. record { step = insert_change_record-IsValid row };
  insert_person = λ row. record { step = insert_person-IsValid row };
  update_person = λ row. record { step = update_person-IsValid row };
  insert_assignment = λ row. record { step = insert_assignment-IsValid row };
  update_assignment = λ row. record { step = update_assignment-IsValid row };
  delete_person = λ id. record { step = delete_person-IsValid id };
}

-- The second state's log is the first one's with records added at its end.
abbrev pub Logs : World → World → Type 0
Logs w w' = (added : List ChangeRecordRow) × (w'.change_records ≡ w.change_records ++ added)

Writes-Logs :
    (w target : World) (P : Type 0) (o : Result (Unit {0}) × World)
    → Writes w target P o
    → Logs w target
    → Logs w o.1
Writes-Logs w target P (ok _, w') h k = subst (Logs w) (sym h.0) k
Writes-Logs w target P (err _, w') h k = ([], ap (λ u. u.change_records) h ∙ sym (append-nil _))

keeps_log : StoreRespects Logs
keeps_log = record {
  order = record {
    same = λ w w' same. ([], same.change_records ∙ sym (append-nil _));
    trans = λ u v w h k. (h.0 ++ k.0, k.1 ∙ ap (λ l. l ++ k.0) h.1 ∙ append_assoc _ h.0 k.0);
  };
  log = λ row. record {
    step = λ w. Writes-Logs w _ _ _ (insert_change_record-Writes row w) (row ∷ [], refl);
  };
  insert_person = λ row. record {
    step = λ w. Writes-Logs w _ _ _ (insert_person-Writes row w) ([], sym (append-nil _));
  };
  update_person = λ row. record {
    step = λ w. Writes-Logs w _ _ _ (update_person-Writes row w) ([], sym (append-nil _));
  };
  insert_assignment = λ row. record {
    step = λ w. Writes-Logs w _ _ _ (insert_assignment-Writes row w) ([], sym (append-nil _));
  };
  update_assignment = λ row. record {
    step = λ w. Writes-Logs w _ _ _ (update_assignment-Writes row w) ([], sym (append-nil _));
  };
  delete_person = λ id. record {
    step = λ w. Writes-Logs w _ _ _ (delete_person-Writes id w) ([], sym (append-nil _));
  };
}

-- Whatever the callers do in sequence, a valid store stays valid: identifiers and employee numbers
-- stay unique, every row passes its checks, and every assignment has its person.
pub after_all-IsValid :
    (calls : List (Context × Call)) (w : World) → IsValid w → IsValid (after_all calls w)
after_all-IsValid calls w = after_all_lem keeps_valid calls w

-- Whatever the callers do in sequence, the audit log only grows at its end.
pub after_all-Logs : (calls : List (Context × Call)) (w : World) → Logs w (after_all calls w)
after_all-Logs calls w = after_all_lem keeps_log calls w
