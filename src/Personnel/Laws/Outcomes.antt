-- ===== src/Personnel/Laws/Outcomes.antt =====
-- What a use case that returned says: the tests that it passed and what it gave back, for
-- src/personnel/domain/status.ts, assignment.ts and lifecycle.ts.
use mathlib.Core.Path.{subst}
use dsh_backend_team.Base.{
  ◌≢◌, length, trim, ◌∙◌, take, ◌⊎◌, inl, suc, inr, ℕ, ◌≡◌, refl, sym, ap, Bool, true, false, not,
  ◌&&◌, Option, none, some, List, [], ◌∷◌, or_false, Text, ==_iff, text_le, if◌then◌else◌, arith,
}
use dsh_backend_team.Personnel.Rows.{
  PersonStatus, PersonRow, AssignmentRow, AssignmentStatus, is_pending, is_inactive,
}
use dsh_backend_team.Personnel.Action.{err, Result, World, Context, ok, read_clock}
use dsh_backend_team.Personnel.Action.{pure, throw, ◌>>=◌, lift}
use dsh_backend_team.Personnel.Action.Rules.{SameTables}
use dsh_backend_team.Personnel.Lifecycle.{has_any, delete_unless, remove_person}
use dsh_backend_team.Personnel.Action.Inversion.{
  Returns, bind-Returns, gets-Returns, or_throw-Returns, lift-Returns, seq-Returns,
  throw_if-Returns, transaction-Returns, pure-Returns,
}
use dsh_backend_team.Json.{Json}
use dsh_backend_team.Personnel.Input.{AssignmentCreateRequest, validate_assignment_create}
use dsh_backend_team.Personnel.Store.{
  find_person_by_id, find_assignment_by_id, list_assignments_by_person,
}
use dsh_backend_team.Personnel.Service.{PersonDetail}
use dsh_backend_team.Personnel.Status.{
  StatusTransitionRequest, as_request, is_allowed, is_blank, moved_person, transition_tx,
  transition_person_status,
}
use dsh_backend_team.Personnel.Assignment.{
  business_date, create_assignment, check_no_overlap, create_assignment_tx, retract_assignment_tx,
  retract_assignment,
}
use dsh_backend_team.Personnel.Assignment.ReportLine.{check_report_line}

-- What a status change makes of a person: a draft becomes active, without a date and a reason of
-- a deactivation, or an active person becomes inactive, with the date and the reason of the
-- request, which is not blank.
abbrev pub IsMoved : PersonRow → StatusTransitionRequest → Text → PersonRow → Type 0
IsMoved person request now moved =
    ((person.status ≡ PersonStatus.draft)
      × ((request.to_status ≡ PersonStatus.active)
          × (moved ≡ record person {
            status = PersonStatus.active;
            deactivated_on = none;
            deactivation_reason = none;
            updated_at = now;
          })))
    ⊎ ((person.status ≡ PersonStatus.active)
        × ((request.to_status ≡ PersonStatus.inactive)
            × ((reason : Text) × ((request.reason ≡ some reason)
                  × ((trim reason ≢ [])
                      × (moved ≡ record person {
                        status = PersonStatus.inactive;
                        deactivated_on = some request.effective_from;
                        deactivation_reason = some reason;
                        updated_at = now;
                      }))))))

-- A status change that was accepted.
pub record Moved (id : Text) (request : StatusTransitionRequest) (now : Text) (w : World)
    (d : PersonDetail) : Type 0 where
  pub person : PersonRow
  pub found : find_person_by_id id w ≡ some person
  pub moved : IsMoved person request now d.person

moved_person-IsMoved :
    (person : PersonRow) (request : StatusTransitionRequest) (now : Text)
    → is_allowed person.status request.to_status ≡ true
    → (is_inactive request.to_status && is_blank request.reason) ≡ false
    → IsMoved person request now (moved_person person request now)
unfolding is_allowed
moved_person-IsMoved person request now a b = go request.to_status request.reason refl refl a b
  where
    made : PersonStatus → Option Text → PersonRow
    made to reason = moved_person person (record request { to_status = to; reason = reason }) now

    go :
        (to : PersonStatus) (reason : Option Text)
        → request.to_status ≡ to
        → request.reason ≡ reason
        → is_allowed person.status to ≡ true
        → (is_inactive to && is_blank reason) ≡ false
        → IsMoved person request now (made to reason)
    go PersonStatus.draft reason e f a b = absurd (ground arith)
    go PersonStatus.active reason e f a b = inl (ground arith, (e, refl))
    go PersonStatus.inactive none e f a b = absurd (ground arith)
    go PersonStatus.inactive (some reason) e f a b =
        inr (ground arith, (e, (reason, (f, ((λ t. ground (arith, ap length t)), refl)))))

ok-injective : {A : Type 0} (a b : A) → ◌≡◌ {A = Result A} (ok a) (ok b) → a ≡ b
ok-injective a b e = ap (λ r. elim r [ ok x ↦ x | err _ ↦ a ]) e

transition_tx-Moved :
    (c : Context) (id : Text) (request : StatusTransitionRequest) (now : Text) (w : World)
    (d : PersonDetail)
    → Returns (transition_tx c id request now) w d
    → Moved id request now w d
unfolding transition_tx
transition_tx-Moved c id request now w d h =
    let (person, (found, h₁)) = or_throw-Returns _ _ _ w d (gets-Returns _ _ w d h) in
    let (allowed, h₂) = throw_if-Returns _ _ _ w d h₁ in
    let (reasoned, h₃) = throw_if-Returns _ _ _ w d h₂ in
    let (_, (_, h₄)) = seq-Returns _ _ w d h₃ in
    let (_, (_, h₅)) = bind-Returns _ _ _ d h₄ in
    let (_, (_, h₆)) = seq-Returns _ _ _ d h₅ in
    let (_, (_, h₇)) = seq-Returns _ _ _ d h₆ in
    let (_, (_, h₈)) = bind-Returns _ _ _ d h₇ in
    record {
      person = person;
      found = found;
      moved =
          subst (IsMoved person request now) (ap (λ x. x.person) (pure-Returns _ d _ h₈))
            (moved_person-IsMoved person request now (ground arith) reasoned);
    }

-- A status change that returns was asked for by a request that is read from the body, of a person
-- that is stored: it moves a draft to active, and the person that comes back has no date and no
-- reason of a deactivation; or it moves an active person to inactive, with a reason that is not
-- blank, and the person that comes back has the request's date and reason. The time of update is
-- that of the clock, and every other field is the stored one.
pub transition_person_status-Moved :
    (c : Context) (id : Text) (input : Option Json) (w : World) (d : PersonDetail)
    → Returns (transition_person_status c id input) w d
    → (request : StatusTransitionRequest) × ((as_request input ≡ ok request)
        × Moved id request (c.clock w.ticks) w d)
unfolding transition_person_status read_clock
transition_person_status-Moved c id input w d h =
    let (request, (parsed, h₁)) = lift-Returns _ _ w d h in
    let (now, (read, h₂)) = bind-Returns (read_clock c) _ w d h₁ in
    let m =
      transition_tx-Moved c id request now (read_clock c w).1 d
        (transaction-Returns _ (read_clock c w).1 d h₂) in
    (
      request,
      (
        parsed,
        record {
          person = m.person;
          found = m.found;
          moved =
              subst (λ t. IsMoved m.person request t d.person)
                (sym (ok-injective (c.clock w.ticks) now read)) m.moved;
        },
      ),
    )

-- A retraction that was accepted.
pub record Retracted (id assignment_id : Text) (now : Text) (w : World) (r : AssignmentRow)
    : Type 0 where
  pub row : AssignmentRow
  pub found : find_assignment_by_id assignment_id w ≡ some row
  pub owned : row.person_id ≡ id
  pub was_pending : row.status ≡ AssignmentStatus.pending
  pub retracted : r ≡ record row { status = AssignmentStatus.retracted; updated_at = now }

is_pending_eq : (s : AssignmentStatus) → not (is_pending s) ≡ false → s ≡ AssignmentStatus.pending
is_pending_eq s h = ground arith

-- Only a pending assignment of the named person is retracted; the row that comes back is the
-- stored one with its status and its time of update changed.
pub retract_assignment-Retracted :
    (c : Context) (id assignment_id : Text) (w : World) (r : AssignmentRow)
    → Returns (retract_assignment c id assignment_id) w r
    → (now : Text) × Retracted id assignment_id now w r
unfolding retract_assignment retract_assignment_tx read_clock
retract_assignment-Retracted c id assignment_id w r h =
    let (now, (_, h₁)) = bind-Returns (read_clock c) _ w r h in
    let h₂ = transaction-Returns _ (read_clock c w).1 r h₁ in
    let (row, (found, h₃)) = or_throw-Returns _ _ _ _ r (gets-Returns _ _ _ r h₂) in
    let (owned, h₄) = throw_if-Returns _ _ _ _ r h₃ in
    let (pending, h₅) = throw_if-Returns _ _ _ _ r h₄ in
    let (_, (_, h₆)) = seq-Returns _ _ _ r h₅ in
    let (_, (_, h₇)) = seq-Returns _ _ _ r h₆ in
    (
      now,
      record {
        row = row;
        found = found;
        owned = (==_iff row.person_id id).0 (ground arith);
        was_pending = is_pending_eq row.status pending;
        retracted = sym (pure-Returns _ r _ h₇);
      },
    )

-- A new assignment that was accepted.
pub record Assigned (id : Text) (request : AssignmentCreateRequest) (status : AssignmentStatus)
    (w : World) (r : AssignmentRow) : Type 0 where
  pub person : PersonRow
  pub found : find_person_by_id id w ≡ some person
  pub active : person.status ≡ PersonStatus.active
  pub report_line :
      check_report_line person request.reports_to_person_id request.effective_from w ≡ ok tt
  pub apart : check_no_overlap (list_assignments_by_person id w) id request status ≡ ok tt
  pub owner : r.person_id ≡ id
  pub start : r.effective_from ≡ request.effective_from
  pub end : r.effective_to ≡ request.effective_to
  pub manager : r.reports_to_person_id ≡ request.reports_to_person_id
  pub given_status : r.status ≡ status

-- In the transaction of `createAssignment`, an assignment is made only for an active person, with
-- a report line that is accepted and no overlap, and it has the requested dates, manager and status.
create_assignment_tx-Assigned :
    (c : Context) (id : Text) (request : AssignmentCreateRequest) (status : AssignmentStatus)
    (now : Text) (w : World) (r : AssignmentRow)
    → Returns (create_assignment_tx c id request status now) w r
    → Assigned id request status w r
unfolding create_assignment_tx lift
create_assignment_tx-Assigned c id request status now w r h =
    let (person, (found, h₁)) = or_throw-Returns _ _ _ w r (gets-Returns _ _ w r h) in
    let (active, h₂) = throw_if-Returns _ _ _ w r h₁ in
    let (_, (line, h₃)) = seq-Returns _ _ w r h₂ in
    let (_, (apart, h₄)) = seq-Returns _ _ w r (gets-Returns _ _ w r h₃) in
    let (_, (_, h₅)) = seq-Returns _ _ w r (gets-Returns _ _ w r h₄) in
    let (_, (_, h₆)) = bind-Returns _ _ _ r h₅ in
    let (_, (_, h₇)) = seq-Returns _ _ _ r h₆ in
    let (_, (_, h₈)) = seq-Returns _ _ _ r h₇ in
    let made = sym (pure-Returns _ r _ h₈) in
    record {
      person = person;
      found = found;
      active = ground arith;
      report_line = line;
      apart = apart;
      owner = ap (λ x. x.person_id) made;
      start = ap (λ x. x.effective_from) made;
      end = ap (λ x. x.effective_to) made;
      manager = ap (λ x. x.reports_to_person_id) made;
      given_status = ap (λ x. x.status) made;
    }

-- The date by which an assignment is current or pending: the one that the context gives, or else
-- the first ten code units of the clock's next time.
abbrev pub IsToday : Context → ℕ → Text → Type 0
IsToday c ticks today =
    (c.today ≡ some today) ⊎ ((c.today ≡ none) × (today ≡ take 10 (c.clock ticks)))

business_date-IsToday :
    (c : Context) (w : World) (date : Text)
    → Returns (business_date c.today c) w date
    → IsToday c w.ticks date
unfolding business_date read_clock pure ◌>>=◌
business_date-IsToday c w date h = go c.today refl h
  where
    go :
        (o : Option Text)
        → c.today ≡ o
        → Returns (business_date o c) w date
        → IsToday c w.ticks date
    go none e h = inr (e, sym (ok-injective (take 10 (c.clock w.ticks)) date h))
    go (some t) e h = inl (e ∙ ap some (ok-injective t date h))

business_date_lem :
    (today : Option Text) (c : Context) (w : World) → SameTables w (business_date today c w).1
unfolding business_date read_clock pure ◌>>=◌
business_date_lem none c w = record { persons = refl; assignments = refl; change_records = refl }
business_date_lem (some t) c w = record {
  persons = refl;
  assignments = refl;
  change_records = refl;
}

-- An assignment is made only for an active person, with a report line that is accepted and no
-- overlap with the person's other assignments; it has the requested dates and manager, and it is
-- current if it starts by the business date, and pending otherwise; that date is the context's, or
-- else the first ten code units of the second time that the clock gives.
pub create_assignment-Assigned :
    (c : Context) (id : Text) (input : Option Json) (w : World) (r : AssignmentRow)
    → Returns (create_assignment c id input) w r
    → (request : AssignmentCreateRequest) × (today : Text) × (v : World)
      × ((validate_assignment_create input ≡ ok request)
          × IsToday c (suc w.ticks) today
          × SameTables w v
          × Assigned id request
              (if text_le request.effective_from today
                then AssignmentStatus.current
                else AssignmentStatus.pending)
              v
              r)
unfolding create_assignment read_clock
create_assignment-Assigned c id input w r h =
    let (request, (parsed, h₁)) = lift-Returns _ _ w r h in
    let (now, (_, h₂)) = bind-Returns (read_clock c) _ w r h₁ in
    let (today, (dated, h₃)) = bind-Returns (business_date c.today c) _ _ r h₂ in
    let same = business_date_lem c.today c (read_clock c w).1 in
    let v = (business_date c.today c (read_clock c w).1).1 in
    (
      request,
      today,
      v,
      (
        parsed,
        business_date-IsToday c (read_clock c w).1 today dated,
        record {
          persons = same.persons;
          assignments = same.assignments;
          change_records = same.change_records;
        },
        create_assignment_tx-Assigned c id request _ now v r (transaction-Returns _ v r h₃),
      ),
    )

-- A deletion that was accepted.
pub record Removable (id : Text) (authorized : Bool) (is_referenced : Text → Bool) (w : World)
    : Type 0 where
  pub may : authorized ≡ true
  pub person : PersonRow
  pub found : find_person_by_id id w ≡ some person
  pub unreferenced : is_referenced id ≡ false
  pub unassigned : list_assignments_by_person id w ≡ []

has_any_nil : {A : Type 0} (xs : List A) → has_any xs ≡ false → xs ≡ []
has_any_nil [] h = refl
has_any_nil (x ∷ xs) h = ground arith

delete_unless-Returns :
    (c : Context) (id : Text) (person : PersonRow) (b : Bool) (w : World)
    → Returns (delete_unless c id person b) w tt
    → b ≡ false
unfolding throw
delete_unless-Returns c id person true w h =
    let (_, (_, h₁)) = seq-Returns _ _ w tt h in ground arith
delete_unless-Returns c id person false w h = refl

-- A deletion that returns was asked for by an authorized caller, of a stored person without
-- assignments and without a reference of the host.
pub remove_person-Removable :
    (c : Context) (authorized : Bool) (is_referenced : Text → Bool) (id : Text) (w : World)
    → Returns (remove_person c authorized is_referenced id) w tt
    → Removable id authorized is_referenced w
unfolding remove_person
remove_person-Removable c authorized is_referenced id w h =
    let (may, h₁) = throw_if-Returns _ _ _ w tt h in
    let (person, (found, h₂)) = or_throw-Returns _ _ _ w tt (gets-Returns _ _ w tt h₁) in
    let free = delete_unless-Returns c id person _ w (gets-Returns _ _ w tt h₂) in
    let (unreferenced, unassigned) = or_false _ _ free in
    record {
      may = ground arith;
      person = person;
      found = found;
      unreferenced = unreferenced;
      unassigned = has_any_nil _ unassigned;
    }
