-- ===== src/Personnel/Assignment/Overlap.antt =====
-- `assertNoOverlap` of src/personnel/domain/assignment.ts, by the dates that an interval covers.
use dsh_backend_team.Base.{
  Bool-cases, ==_iff, text_lt, ◌==◌, ◌≢◌, All-map, ◌≡◌, refl, ◌⊎◌, inl, inr, Bool, true, false,
  ◌&&◌, Option, none, some, List, [], ◌∷◌, Text, text_le, text_le_lt_trans, All, arith,
}
use dsh_backend_team.Personnel.Rows.{
  is_current, is_retracted, is_pending, AssignmentRow, AssignmentStatus,
}
use dsh_backend_team.Personnel.Action.{ok}
use dsh_backend_team.Personnel.Store.{before_end}
use dsh_backend_team.Personnel.Input.{AssignmentCreateRequest}
use dsh_backend_team.Personnel.Assignment.{
  is_null, ranges_overlap, existing_end, is_skipped, check_no_overlap,
}

-- The date is in the interval, whose end is left out and may be open.
abbrev pub covers : Text → Option Text → Text → Bool
covers from end at = text_le from at && before_end at end

before_end_trans :
    (s at : Text) (end : Option Text)
    → text_le s at ≡ true
    → before_end at end ≡ true
    → before_end s end ≡ true
before_end_trans s at none h k = refl
before_end_trans s at (some e) h k = text_le_lt_trans s at e (ground arith) k

-- Two intervals that share a date overlap for the code's test.
ranges_overlap_complete :
    (s t at : Text) (e f : Option Text)
    → covers s e at ≡ true
    → covers t f at ≡ true
    → ranges_overlap s e t f ≡ true
unfolding ranges_overlap
ranges_overlap_complete s t at e f h k =
    let a = before_end_trans t at e (ground arith) (ground arith) in
    let b = before_end_trans s at f (ground arith) (ground arith) in ground arith

check_no_overlap-existing_end :
    (existing : List AssignmentRow) (id : Text) (request : AssignmentCreateRequest)
    (status : AssignmentStatus) (at : Text)
    → check_no_overlap existing id request status ≡ ok tt
    → covers request.effective_from request.effective_to at ≡ true
    → All
        (λ a.
          (is_skipped a id request status ≡ true)
          ⊎ (covers a.effective_from (existing_end a request status) at ≡ false))
        existing
unfolding check_no_overlap
check_no_overlap-existing_end [] id request status at h k = tt
check_no_overlap-existing_end (a ∷ rest) id request status at h k = (
  one (is_skipped a id request status) refl
      (covers a.effective_from (existing_end a request status) at) refl,
  check_no_overlap-existing_end rest id request status at (ground arith) k,
)
  where
    one :
        (s : Bool)
        → is_skipped a id request status ≡ s
        → (b : Bool) → covers a.effective_from (existing_end a request status) at ≡ b
        → (is_skipped a id request status ≡ true)
          ⊎ (covers a.effective_from (existing_end a request status) at ≡ false)
    one true e b f = inl e
    one false e false f = inr f
    one false e true f =
        let o =
          ranges_overlap_complete a.effective_from request.effective_from at
            (existing_end a request status) request.effective_to f k in
        absurd (ground arith)

-- What an assignment has to do with a request on a date that the request covers.
abbrev pub IsApart :
    Text → AssignmentCreateRequest → AssignmentStatus → Text → AssignmentRow → Type 0
IsApart id request status at a =
    (a.person_id ≢ id)
    ⊎ ((a.status ≡ AssignmentStatus.retracted)
        ⊎ ((covers a.effective_from a.effective_to at ≡ false)
            ⊎ ((a.status ≡ AssignmentStatus.current)
                × ((text_lt a.effective_from request.effective_from ≡ true)
                    × ((status ≡ AssignmentStatus.current)
                        ⊎ ((status ≡ AssignmentStatus.pending) × (a.effective_to ≡ none)))))))

skipped-IsApart :
    (a : AssignmentRow) (id : Text) (request : AssignmentCreateRequest) (status : AssignmentStatus)
    (at : Text)
    → is_skipped a id request status ≡ true
    → IsApart id request status at a
skipped-IsApart a id request status at h =
    owned (Bool-cases (a.person_id == id)) (Bool-cases (is_retracted a.status))
  where
    owned :
        (a.person_id == id ≡ true) ⊎ (a.person_id == id ≡ false)
        → (is_retracted a.status ≡ true) ⊎ (is_retracted a.status ≡ false)
        → IsApart id request status at a
    owned (inr other) r = inl (λ e. ground (arith, other, (==_iff a.person_id id).1 e))
    owned (inl own) (inl gone) = inr (inl (ground arith))
    owned (inl own) (inr stays) = inr (inr (inr (ground arith, (ground arith, inl (ground arith)))))

ended-IsApart :
    (a : AssignmentRow) (id : Text) (request : AssignmentCreateRequest) (status : AssignmentStatus)
    (at : Text)
    → covers a.effective_from (existing_end a request status) at ≡ false
    → IsApart id request status at a
ended-IsApart a id request status at h = go (Bool-cases truncated)
  where
    truncated : Bool
    truncated =
        is_pending status
        && is_current a.status
        && is_null a.effective_to
        && text_lt a.effective_from request.effective_from

    go : (truncated ≡ true) ⊎ (truncated ≡ false) → IsApart id request status at a
    go (inl cut) = inr (inr (inr (ground arith, (ground arith, inr (ground arith, ground arith)))))
    go (inr whole) = inr (inr (inl (ground arith)))

-- On every date that a request covers which passes the test, an assignment of the person that is
-- not retracted does not cover the date by its own start and end, unless it is current and began
-- before the request, and the request is to be current too, or is pending and the assignment has no
-- end.
pub check_no_overlap_sound :
    (existing : List AssignmentRow) (id : Text) (request : AssignmentCreateRequest)
    (status : AssignmentStatus) (at : Text)
    → check_no_overlap existing id request status ≡ ok tt
    → covers request.effective_from request.effective_to at ≡ true
    → All (IsApart id request status at) existing
check_no_overlap_sound existing id request status at h k =
    All-map
      (λ a o. elim o [
        | inl s ↦ skipped-IsApart a id request status at s
        | inr e ↦ ended-IsApart a id request status at e
      ])
      existing (check_no_overlap-existing_end existing id request status at h k)
