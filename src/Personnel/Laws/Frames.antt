-- ===== src/Personnel/Laws/Frames.antt =====
-- Each use case of src/personnel/domain is built from the store's writes: what every write does
-- between its two states, each use case does too.
use dsh_backend_team.Base.{
  refl, List, [], ◌∷◌, Text, ◌==◌, Option, none, some, Bool, true, false, if◌then◌else◌,
}
use dsh_backend_team.Personnel.Rows.{
  PersonRow, AssignmentRow, AssignmentStatus, ChangeRecordRow, PersonStatus, draft, active,
  inactive,
}
use dsh_backend_team.Personnel.Action.{World, Context, Action}
use dsh_backend_team.Personnel.Action.Rules.{
  respects, Preorder, Respects, bind-Respects, seq-Respects, pure-Respects, gets-Respects,
  next_id-Respects, read_clock-Respects,
}
use dsh_backend_team.Personnel.Store.{
  insert_change_record, insert_person, update_person, insert_assignment, update_assignment,
  delete_person,
}
use dsh_backend_team.Personnel.Audit.{
  AuditChange, record_each, record_changes, record_service_changes,
}
use dsh_backend_team.Personnel.Assignment.{
  business_date, close_found, close_current_assignment, close_if_current, create_assignment_tx,
  create_assignment, record_activation, activate, activate_each, apply_due_assignments,
  retract_assignment_tx, retract_assignment,
}
use dsh_backend_team.Json.{Json}
use dsh_backend_team.Personnel.Input.{AssignmentCreateRequest}
use dsh_backend_team.Personnel.Assignment.ReportLine.{assert_report_line}
use dsh_backend_team.Personnel.Service.{
  create_person_tx, create_person, update_person_tx, change_person,
}
use dsh_backend_team.Personnel.Status.{close_assignment, transition_tx, transition_person_status}
use dsh_backend_team.Personnel.Lifecycle.{delete_unless, remove_person}

-- What is to be shown of the store's writes, once for all the use cases.
pub record StoreRespects (R : World → World → Type 0) : Type 0 where
  pub order : Preorder R
  pub log : (row : ChangeRecordRow) → Respects R (insert_change_record row)
  pub insert_person : (row : PersonRow) → Respects R (insert_person row)
  pub update_person : (row : PersonRow) → Respects R (update_person row)
  pub insert_assignment : (row : AssignmentRow) → Respects R (insert_assignment row)
  pub update_assignment : (row : AssignmentRow) → Respects R (update_assignment row)
  pub delete_person : (id : Text) → Respects R (delete_person id)

module _ {R : World → World → Type 0} (s : StoreRespects R) where
  pub record_each-Respects :
      (c : Context) (id operator at : Text) (changes : List AuditChange)
      → Respects R (record_each c id operator at changes)
  unfolding record_each
  record_each-Respects c id operator at [] = pure-Respects s.order tt
  record_each-Respects c id operator at (x ∷ xs) =
      bind-Respects s.order _ _ (next_id-Respects s.order c)
        (λ i. seq-Respects s.order _ _ (s.log _) (record_each-Respects c id operator at xs))

  pub record_changes-Respects :
      (c : Context) (id : Text) (changes : List AuditChange)
      → Respects R (record_changes c id changes)
  unfolding record_changes
  record_changes-Respects c id changes =
      bind-Respects s.order _ _ (read_clock-Respects s.order c)
        (λ at. record_each-Respects c id _ at changes)

  pub record_service_changes-Respects :
      (c : Context) (id : Text) (changes : List AuditChange)
      → Respects R (record_service_changes c id changes)
  unfolding record_service_changes
  record_service_changes-Respects c id changes =
      bind-Respects s.order _ _ (read_clock-Respects s.order c)
        (λ at. record_each-Respects c id _ at changes)

  close_found-Respects :
      (r : Option AssignmentRow) (from now : Text) → Respects R (close_found r from now)
  close_found-Respects none from now = pure-Respects s.order tt
  close_found-Respects (some a) from now = s.update_assignment _

  pub close_current_assignment-Respects :
      (id from now : Text) → Respects R (close_current_assignment id from now)
  unfolding close_current_assignment
  close_current_assignment-Respects id from now =
      bind-Respects s.order _ _ (gets-Respects s.order _) (λ r. close_found-Respects r from now)

  close_if_current-Respects :
      (status : AssignmentStatus) (id from now : Text)
      → Respects R (close_if_current status id from now)
  close_if_current-Respects AssignmentStatus.current id from now =
      close_current_assignment-Respects id from now
  close_if_current-Respects AssignmentStatus.pending id from now = pure-Respects s.order tt
  close_if_current-Respects AssignmentStatus.closed id from now = pure-Respects s.order tt
  close_if_current-Respects AssignmentStatus.retracted id from now = pure-Respects s.order tt

  assert_report_line-Respects :
      (p : PersonRow) (m : Option Text) (from : Text) → Respects R (assert_report_line p m from)
  assert_report_line-Respects p m from = record {
    step = λ w.
        s.order.same w w (record { persons = refl; assignments = refl; change_records = refl });
  }

  pub create_assignment_tx-Respects :
      (c : Context) (id : Text) (request : AssignmentCreateRequest) (status : AssignmentStatus)
      (now : Text)
      → Respects R (create_assignment_tx c id request status now)
  unfolding create_assignment_tx
  create_assignment_tx-Respects c id request status now =
      search
        (
          respects, s.order, assert_report_line-Respects, close_if_current-Respects,
          s.insert_assignment, record_changes-Respects,
        )
        depth 30

  business_date-Respects : (today : Option Text) (c : Context) → Respects R (business_date today c)
  unfolding business_date
  business_date-Respects none c = search (respects, s.order) depth 10
  business_date-Respects (some today) c = pure-Respects s.order today

  either-Respects :
      {A : Type 0} (b : Bool) (m n : Action A)
      → Respects R m
      → Respects R n
      → Respects R (if b then m else n)
  either-Respects true m n h k = h
  either-Respects false m n h k = k

  pub create_assignment-Respects :
      (c : Context) (id : Text) (input : Option Json) → Respects R (create_assignment c id input)
  unfolding create_assignment
  create_assignment-Respects c id input =
      search (respects, s.order, business_date-Respects, create_assignment_tx-Respects) depth 30

  record_activation-Respects :
      (c : Context) (previous : Option AssignmentRow) (pending : AssignmentRow)
      → Respects R (record_activation c previous pending)
  unfolding record_activation
  record_activation-Respects c none pending = pure-Respects s.order tt
  record_activation-Respects c (some previous) pending =
      either-Respects (previous.id == pending.id) _ _ (pure-Respects s.order tt)
        (record_changes-Respects c pending.person_id _)

  activate-Respects :
      (c : Context) (now : Text) (pending : AssignmentRow) → Respects R (activate c now pending)
  unfolding activate
  activate-Respects c now pending =
      search
        (
          respects, s.order, close_current_assignment-Respects, s.update_assignment,
          record_activation-Respects,
        )
        depth 30

  activate_each-Respects :
      (c : Context) (now : Text) (due : List AssignmentRow) → Respects R (activate_each c now due)
  unfolding activate_each
  activate_each-Respects c now [] = pure-Respects s.order tt
  activate_each-Respects c now (pending ∷ rest) =
      seq-Respects s.order _ _ (activate-Respects c now pending) (activate_each-Respects c now rest)

  pub apply_due_assignments-Respects :
      (c : Context) (as_of : Text) → Respects R (apply_due_assignments c as_of)
  unfolding apply_due_assignments
  apply_due_assignments-Respects c as_of =
      search (respects, s.order, activate_each-Respects) depth 30

  pub retract_assignment-Respects :
      (c : Context) (id assignment_id : Text) → Respects R (retract_assignment c id assignment_id)
  unfolding retract_assignment retract_assignment_tx
  retract_assignment-Respects c id assignment_id =
      search (respects, s.order, s.update_assignment, record_changes-Respects) depth 30

  pub create_person-Respects :
      (c : Context) (input : Option Json) → Respects R (create_person c input)
  unfolding create_person create_person_tx
  create_person-Respects c input =
      search
        (respects, s.order, s.insert_person, s.insert_assignment, record_service_changes-Respects)
        depth 30

  pub change_person-Respects :
      (c : Context) (id : Text) (input : Option Json) → Respects R (change_person c id input)
  unfolding change_person update_person_tx
  change_person-Respects c id input =
      search (respects, s.order, s.update_person, record_service_changes-Respects) depth 30

  close_assignment-Respects :
      (to : PersonStatus) (a : Option AssignmentRow) (from now : Text)
      → Respects R (close_assignment to a from now)
  close_assignment-Respects draft a from now = pure-Respects s.order tt
  close_assignment-Respects active a from now = pure-Respects s.order tt
  close_assignment-Respects inactive none from now = pure-Respects s.order tt
  close_assignment-Respects inactive (some a) from now = s.update_assignment _

  pub transition_person_status-Respects :
      (c : Context) (id : Text) (input : Option Json)
      → Respects R (transition_person_status c id input)
  unfolding transition_person_status transition_tx
  transition_person_status-Respects c id input =
      search
        (respects, s.order, s.update_person, close_assignment-Respects, record_changes-Respects)
        depth 30

  delete_unless-Respects :
      (c : Context) (id : Text) (person : PersonRow) (b : Bool)
      → Respects R (delete_unless c id person b)
  delete_unless-Respects c id person true =
      search (respects, s.order, record_changes-Respects) depth 10
  delete_unless-Respects c id person false = search (respects, s.order, s.delete_person) depth 10

  pub remove_person-Respects :
      (c : Context) (authorized : Bool) (is_referenced : Text → Bool) (id : Text)
      → Respects R (remove_person c authorized is_referenced id)
  unfolding remove_person
  remove_person-Respects c authorized is_referenced id =
      search (respects, s.order, delete_unless-Respects) depth 30
