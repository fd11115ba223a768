-- ===== src/Leaves.antt =====
-- src/leaves/leaves.service.ts: absence requests.
pub mod Decisions
pub mod Scope
use vovinam_api_node.Base.{
  ℕ, ◌*◌, ◌/◌, Bool, true, false, not, ◌&&◌, ◌||◌, Option, none, some, List, [], ◌∷◌, ◌++◌, Text,
  ltb, ◌==◌, opt_eq, is_none, is_some, if◌then◌else◌, find_first, find_many, find_unique,
  update_many,
}
use vovinam_api_node.Schema.{
  Role, admin, instructor, student, parent, Caller, Class, ClassStatus, Enrollment, StudentProfile,
  LeaveRequest, LeaveStatus, Database,
}
use vovinam_api_node.Service.{
  Error, Result, ok, err, World, Action, ◌>>=◌, ◌>>◌, pure, throw_if, or_throw, gets, modify,
  record_entry, not_found, conflict, bad_request, unique_violation, record_missing,
  leave_request_created, leave_request_reviewed, leave_request_cancelled, leave_request_deleted,
}
use vovinam_api_node.Ownership.{assert_can_access, visible_student_ids}
use vovinam_api_node.Ownership.Laws.{profile_id, contains}

abbrev pub leave_id : LeaveRequest → ℕ
leave_id r = r.id

abbrev pub is_pending : LeaveStatus → Bool
is_pending LeaveStatus.pending = true
is_pending _ = false

abbrev is_active_class : ℕ → Class → Bool
is_active_class k c = c.id == k && is_active c.status
  where
    is_active : ClassStatus → Bool
    is_active ClassStatus.active = true
    is_active _ = false

abbrev is_enrolled : ℕ → ℕ → Enrollment → Bool
is_enrolled student_id class_id e =
    e.student_id == student_id && (e.class_id == class_id && is_none e.left_at)

-- The start of the UTC day of a point in time.
abbrev day_of : ℕ → ℕ
day_of now = now / 86400000 * 86400000

-- A session date as it parses; `none` for an invalid one.
abbrev pub is_past : Option ℕ → ℕ → Bool
is_past none now = true
is_past (some date) now = ltb date (day_of now)

pub record CreateLeaveRequestDto : Type 0 where
  pub student_id : ℕ
  pub class_id : ℕ
  pub session_date : Option ℕ
  pub reason : Text

abbrev date_or_zero : Option ℕ → ℕ
date_or_zero none = 0
date_or_zero (some date) = date

-- `@@unique([studentId, classId, sessionDate])`
abbrev pub same_session : LeaveRequest → LeaveRequest → Bool
same_session r s =
    s.student_id == r.student_id && (s.class_id == r.class_id && s.session_date == r.session_date)

abbrev pub add_leave : LeaveRequest → Database → Database
add_leave r db = record db { leaves = db.leaves ++ r ∷ [] }

unfoldable pub insert_leave : LeaveRequest → Action LeaveRequest
insert_leave r = do
  rows ← gets (λ db. db.leaves)
  throw_if (is_some (find_unique leave_id r.id rows)) unique_violation
  throw_if (is_some (find_first (same_session r) rows)) unique_violation
  modify (add_leave r)
  pure r

abbrev pub new_leave : ℕ → Caller → CreateLeaveRequestDto → LeaveRequest
new_leave new_id caller dto = record {
  id = new_id;
  student_id = dto.student_id;
  class_id = dto.class_id;
  requested_by_user_id = some caller.id;
  session_date = date_or_zero dto.session_date;
  reason = dto.reason;
  status = LeaveStatus.pending;
  reviewed_by_user_id = none;
  reviewed_at = none;
  review_note = none;
}

abbrev as_conflict : Error → Error
as_conflict unique_violation = conflict "A leave request for this session already exists"
as_conflict e = e

-- The `catch` around the insertion
abbrev pub session_conflict {ℓ} : {A : Type ℓ} → Result A × World → Result A × World
session_conflict (ok a, w) = (ok a, w)
session_conflict (err e, w) = (err (as_conflict e), w)

abbrev write_leave : ℕ → Caller → CreateLeaveRequestDto → Action LeaveRequest
write_leave new_id caller dto = do
  request ← insert_leave (new_leave new_id caller dto)
  record_entry (some caller.id)
      (leave_request_created request.id request.student_id request.session_date) true
  pure request

unfoldable pub create_leave : Caller → CreateLeaveRequestDto → ℕ → ℕ → Action LeaveRequest
create_leave caller dto new_id now = do
  assert_can_access caller dto.student_id
  throw_if (is_past dto.session_date now)
      (bad_request "The requested session date must be today or later")
  or_throw (← gets (λ db. find_first (is_active_class dto.class_id) db.classes)) not_found
  or_throw (← gets (λ db. find_first (is_enrolled dto.student_id dto.class_id) db.enrollments))
      (conflict "The student is not enrolled in this class")
  λ w. session_conflict (write_leave new_id caller dto w)

-- The two outcomes of a review.
pub data Decision : Type 0 where
  approve reject : Decision

abbrev pub decision_status : Decision → LeaveStatus
decision_status approve = LeaveStatus.approved
decision_status reject = LeaveStatus.rejected

abbrev or_kept : Option Text → Option Text → Option Text
or_kept none old = old
or_kept (some t) old = some t

abbrev pub reviewed_row : Decision → Option Text → ℕ → ℕ → LeaveRequest → LeaveRequest
reviewed_row decision note reviewer now r = record r {
  status = decision_status decision;
  reviewed_by_user_id = some reviewer;
  reviewed_at = some now;
  review_note = or_kept note r.review_note;
}

abbrev pub cancelled_row : LeaveRequest → LeaveRequest
cancelled_row r = record r { status = LeaveStatus.cancelled }

abbrev pub is_leave : ℕ → LeaveRequest → Bool
is_leave k r = r.id == k

abbrev pub update_leave : ℕ → (LeaveRequest → LeaveRequest) → Database → Database
update_leave k f db = record db { leaves = update_many (is_leave k) f db.leaves }

abbrev is_instructor : Role → Bool
is_instructor instructor = true
is_instructor _ = false

abbrev is_admin : Role → Bool
is_admin admin = true
is_admin _ = false

abbrev teaches : ℕ → Option Class → Bool
teaches user none = false
teaches user (some c) = c.instructor_id == user

abbrev class_of : ℕ → Database → Option Class
class_of k db = find_unique (λ (c : Class). c.id) k db.classes

-- `review` up to its update
unfoldable pub check_review : Caller → ℕ → Action LeaveRequest
check_review caller k = do
  request ← or_throw (← gets (λ db. find_unique leave_id k db.leaves)) not_found
  throw_if (not (is_pending request.status)) (conflict "Only pending requests can be reviewed")
  taught ← gets (λ db. teaches caller.id (class_of request.class_id db))
  throw_if (is_instructor caller.role && not taught) not_found
  pure request

-- `leaveRequest.update({ where: { id } })`: it has no other condition.
unfoldable pub write_leave_row : ℕ → (LeaveRequest → LeaveRequest) → Action LeaveRequest
write_leave_row k f = do
  request ← or_throw (← gets (λ db. find_unique leave_id k db.leaves)) record_missing
  modify (update_leave k f)
  pure (f request)

-- `review` from its update on
unfoldable pub write_review : Caller → ℕ → Decision → Option Text → ℕ → Action LeaveRequest
write_review caller k decision note now = do
  updated ← write_leave_row k (reviewed_row decision note caller.id now)
  record_entry (some caller.id) (leave_request_reviewed k (decision_status decision)) true
  pure updated

-- `review`
unfoldable pub review : Caller → ℕ → Decision → Option Text → ℕ → Action LeaveRequest
review caller k decision note now = check_review caller k >> write_review caller k decision note now

abbrev user_of : Option StudentProfile → Option ℕ
user_of none = none
user_of (some p) = p.user_id

-- `isOwner`
abbrev pub is_owner : ℕ → LeaveRequest → Database → Bool
is_owner user r db =
    opt_eq r.requested_by_user_id (some user)
    || opt_eq (user_of (find_unique profile_id r.student_id db.profiles)) (some user)

-- `cancel` up to its update
unfoldable pub check_cancel : Caller → ℕ → Action LeaveRequest
check_cancel caller k = do
  request ← or_throw (← gets (λ db. find_unique leave_id k db.leaves)) not_found
  throw_if (not (is_pending request.status)) (conflict "Only pending requests can be cancelled")
  owner ← gets (is_owner caller.id request)
  throw_if (not (is_admin caller.role) && not owner) not_found
  pure request

-- `cancel` from its update on
unfoldable pub write_cancel : Caller → ℕ → Action LeaveRequest
write_cancel caller k = do
  updated ← write_leave_row k cancelled_row
  record_entry (some caller.id) (leave_request_cancelled k) true
  pure updated

-- `cancel`
unfoldable pub cancel : Caller → ℕ → Action LeaveRequest
cancel caller k = check_cancel caller k >> write_cancel caller k

-- `delete`
unfoldable pub delete_leave : Caller → ℕ → Action (Unit {0})
delete_leave caller k = do
  or_throw (← gets (λ db. find_unique leave_id k db.leaves)) not_found
  modify (λ db. record db { leaves = find_many (λ r. not (is_leave k r)) db.leaves })
  record_entry (some caller.id) (leave_request_deleted k) true
