-- ===== src/Personnel/Effective.antt =====
-- The assignment that counts on a date: `effectiveAssignmentAt` of
-- src/personnel/domain/assignment.ts, which roster.ts (`effectiveAssignment`) and status.ts
-- (`currentAssignmentAt`) repeat. `localeCompare` of two ISO dates is the order of their code
-- units.
pub mod Laws
pub mod Start
use dsh_backend_team.Base.{
  Bool, not, ◌&&◌, Option, none, some, List, Text, ◌==◌, text_lt, text_le, filter, sort, head?,
}
use dsh_backend_team.Personnel.Rows.{AssignmentRow, is_retracted}
use dsh_backend_team.Personnel.Store.{before_end}

abbrev pub is_effective : Text → Text → AssignmentRow → Bool
is_effective person_id at a =
    (a.person_id == person_id)
    && not (is_retracted a.status)
    && text_le a.effective_from at
    && before_end at a.effective_to

-- `right.effective_from.localeCompare(left.effective_from) > 0`
abbrev pub starts_earlier : AssignmentRow → AssignmentRow → Bool
starts_earlier left right = text_lt left.effective_from right.effective_from

unfoldable pub effective_assignment_at : List AssignmentRow → Text → Text → Option AssignmentRow
effective_assignment_at assignments person_id at =
    head? (sort starts_earlier (filter (is_effective person_id at) assignments))
