-- ===== src/Leaves/Scope.antt =====
-- The list of src/leaves/leaves.service.ts: the rows that its `where` selects, before they are ordered
-- and cut into pages.
use vovinam_api_node.Base.{
  ℕ, Bool, true, not, ◌&&◌, ◌||◌, Option, none, some, List, ◌==◌, find_many,
}
use vovinam_api_node.Schema.{Caller, LeaveRequest, LeaveStatus, Database}
use vovinam_api_node.Ownership.{visible_student_ids}
use vovinam_api_node.Ownership.Laws.{contains}
use vovinam_api_node.Leaves.{is_instructor, teaches, class_of}

abbrev status_code : LeaveStatus → ℕ
status_code LeaveStatus.pending = 0
status_code LeaveStatus.approved = 1
status_code LeaveStatus.rejected = 2
status_code LeaveStatus.cancelled = 3

record ListLeaveRequestsQuery : Type 0 where
  pub status : Option LeaveStatus
  pub class_id : Option ℕ
  pub student_id : Option ℕ

abbrev status_filter : Option LeaveStatus → LeaveRequest → Bool
status_filter none r = true
status_filter (some s) r = status_code r.status == status_code s

abbrev id_filter : Option ℕ → ℕ → Bool
id_filter none k = true
id_filter (some a) k = k == a

-- The property `studentId` of the `where` object: what is spread later replaces what is there.
unfoldable student_filter : Option ℕ → Option (List ℕ) → LeaveRequest → Bool
student_filter asked none r = id_filter asked r.student_id
student_filter asked (some ids) r = contains r.student_id ids

abbrev class_filter : Caller → Database → LeaveRequest → Bool
class_filter caller db r =
    not (is_instructor caller.role) || teaches caller.id (class_of r.class_id db)

-- Without a visible student nothing is selected, which is what the early return answers.
unfoldable list_leaves : Caller → ListLeaveRequestsQuery → Database → List LeaveRequest
list_leaves caller query db =
    let ids = visible_student_ids caller db in
    find_many
      (λ (r : LeaveRequest).
        status_filter query.status r
        && (id_filter query.class_id r.class_id
            && (student_filter query.student_id ids r && class_filter caller db r)))
      db.leaves
