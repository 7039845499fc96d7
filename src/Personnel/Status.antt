-- ===== src/Personnel/Status.antt =====
-- `transitionPersonStatus` of src/personnel/domain/status.ts.
use dsh_backend_team.Base.{
  Bool, true, not, ◌&&◌, ◌||◌, Option, none, some, List, [], ◌∷◌, Text, codes, ◌==◌, trim, length,
  ltb, nat_eq, if◌then◌else◌,
}
use dsh_backend_team.Personnel.Rows.{
  PersonRow, PersonStatus, draft, active, inactive, AssignmentRow, AssignmentStatus, ChangeAction,
  ErrorCode, is_draft, is_active, is_inactive,
}
use dsh_backend_team.Personnel.Action.{
  Context, Result, ok, err, Action, pure, gets, or_throw, lift, ◌>>=◌, ◌>>◌, throw_if, error,
  invalid, read_clock, transaction,
}
use dsh_backend_team.Personnel.Store.{find_person_by_id, update_person, update_assignment}
use dsh_backend_team.Json.{Json, get}
use dsh_backend_team.Personnel.Input.{is_iso_calendar_date}
use dsh_backend_team.Personnel.Audit.{AuditChange, record_changes}
use dsh_backend_team.Personnel.Effective.{effective_assignment_at}
use dsh_backend_team.Personnel.Service.{PersonDetail}

pub record StatusTransitionRequest : Type 0 where
  pub to_status : PersonStatus
  pub effective_from : Text
  pub reason : Option Text

-- `toStatus`, which is active or inactive.
abbrev target_of : Option Json → Option PersonStatus
target_of (some (Json.str t)) =
    if t == codes "active"
    then some active
    else if t == codes "inactive"
    then some inactive
    else none
target_of _ = none

abbrev date_of : Option Json → Option Text
date_of (some (Json.str t)) = if is_iso_calendar_date t then some t else none
date_of _ = none

-- The reason; the outer `none` says that it is refused.
abbrev reason_of : Option Json → Option (Option Text)
reason_of none = some none
reason_of (some Json.null) = some none
reason_of (some (Json.str t)) = if ltb 200 (length t) then none else some (some t)
reason_of (some _) = none

abbrev required {ℓ} : {A : Type ℓ} → Option A → Text → Result A
required none field = err (invalid (field ∷ []))
required (some a) field = ok a

abbrev then_request {ℓ κ} : {A : Type ℓ} {B : Type κ} → Result A → (A → Result B) → Result B
then_request (ok a) f = f a
then_request (err e) f = err e

-- `asRequest`
unfoldable pub as_request : Option Json → Result StatusTransitionRequest
as_request (some (Json.obj source)) =
    then_request (required (target_of (get (codes "toStatus") source)) (codes "toStatus")) (λ to.
      then_request (required (date_of (get (codes "effectiveFrom") source)) (codes "effectiveFrom"))
        (λ from.
          then_request (required (reason_of (get (codes "reason") source)) (codes "reason"))
            (λ reason. ok (record { to_status = to; effective_from = from; reason = reason }))))
as_request _ = err (invalid (codes "request" ∷ []))

unfoldable pub is_allowed : PersonStatus → PersonStatus → Bool
is_allowed from to = is_draft from && is_active to || is_active from && is_inactive to

-- `reason === undefined || reason === null || reason.trim() === ''`
abbrev pub is_blank : Option Text → Bool
is_blank none = true
is_blank (some t) = nat_eq (length (trim t)) 0

abbrev pub moved_person : PersonRow → StatusTransitionRequest → Text → PersonRow
moved_person person request now = record person {
  status = request.to_status;
  deactivated_on = if is_inactive request.to_status then some request.effective_from else none;
  deactivation_reason = if is_inactive request.to_status then request.reason else none;
  updated_at = now;
}

-- The end that a deactivation gives the assignment that counts on its date.
abbrev pub close_assignment : PersonStatus → Option AssignmentRow → Text → Text → Action (Unit {0})
close_assignment inactive (some a) from now =
    update_assignment
      (record a { effective_to = some from; status = AssignmentStatus.closed; updated_at = now })
close_assignment _ _ from now = pure tt

abbrev status_text : PersonStatus → Text
status_text draft = codes "draft"
status_text active = codes "active"
status_text inactive = codes "inactive"

abbrev status_logged : Text → Option Text → Option Text → Text → AuditChange
status_logged field old new from = record {
  action = ChangeAction.status_change;
  field_name = field;
  old_value = old;
  new_value = new;
  effective_from = some from;
  effective_to = none;
}

abbrev status_changes : PersonRow → StatusTransitionRequest → List AuditChange
status_changes person request =
    status_logged (codes "status") (some (status_text person.status))
      (some (status_text request.to_status)) request.effective_from
    ∷ (if is_inactive request.to_status
        then status_logged (codes "deactivationReason") person.deactivation_reason request.reason
            request.effective_from
          ∷ []
        else [])

unfoldable pub transition_tx : Context → Text → StatusTransitionRequest → Text → Action PersonDetail
transition_tx c person_id request now = do
  found ← gets (find_person_by_id person_id)
  person ← or_throw found (error ErrorCode.not_found none)
  throw_if (not (is_allowed person.status request.to_status))
      (error ErrorCode.invalid_status_transition (some person_id))
  throw_if (is_inactive request.to_status && is_blank request.reason)
      (invalid (codes "reason" ∷ []))
  update_person (moved_person person request now)
  assignment ← gets (λ w. effective_assignment_at w.assignments person_id request.effective_from)
  close_assignment request.to_status assignment request.effective_from now
  record_changes c person_id (status_changes person request)
  current ← gets (λ w. effective_assignment_at w.assignments person_id request.effective_from)
  pure (record {
    person = moved_person person request now;
    current_assignment = if is_inactive request.to_status then none else current;
  })

-- `transitionPersonStatus`
unfoldable pub transition_person_status : Context → Text → Option Json → Action PersonDetail
transition_person_status c person_id input = do
  request ← lift (as_request input)
  now ← read_clock c
  transaction (transition_tx c person_id request now)
