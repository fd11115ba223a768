-- ===== src/Enrollments.antt =====
-- src/classes/enrollments.service.ts: students join and leave classes. The clock and the ids of new rows are
-- arguments.
pub mod Capacity
use vovinam_api_node.Base.{
  ℕ, ◌*◌, ◌/◌, Bool, true, false, not, ◌&&◌, ◌||◌, Option, none, some, List, [], ◌∷◌, ◌++◌, leb,
  ◌==◌, is_none, is_some, find_first, find_many, find_unique, update_many, count_where,
}
use vovinam_api_node.Schema.{
  Class, ClassStatus, Enrollment, StudentProfile, StudentStatus, Database,
}
use vovinam_api_node.Service.{
  Action, ◌>>=◌, ◌>>◌, pure, throw_if, or_throw, gets, modify, transaction, record_entry, not_found,
  conflict, unique_violation, enrollment_created, enrollment_removed,
}
use vovinam_api_node.Ownership.{is_live}

abbrev pub class_key : Class → ℕ
class_key c = c.id

abbrev pub enrollment_key : Enrollment → ℕ
enrollment_key e = e.id

abbrev pub is_active_class : ClassStatus → Bool
is_active_class ClassStatus.active = true
is_active_class _ = false

abbrev pub is_active_student : StudentStatus → Bool
is_active_student StudentStatus.active = true
is_active_student _ = false

-- `startOfUtcDay`
abbrev pub start_of_utc_day : ℕ → ℕ
start_of_utc_day now = now / 86400000 * 86400000

abbrev pub is_pair : ℕ → ℕ → Enrollment → Bool
is_pair student class_id e = e.student_id == student && e.class_id == class_id

abbrev pub is_open_pair : ℕ → ℕ → Enrollment → Bool
is_open_pair student class_id e = is_pair student class_id e && is_none e.left_at

abbrev pub is_same_day : ℕ → ℕ → ℕ → Enrollment → Bool
is_same_day student class_id now e =
    is_pair student class_id e && leb (start_of_utc_day now) e.enrolled_at

abbrev pub is_member : ℕ → Enrollment → Bool
is_member class_id e = e.class_id == class_id && is_none e.left_at

abbrev pub new_enrollment : (new_id student class_id now : ℕ) → Enrollment
new_enrollment new_id student class_id now = record {
  id = new_id;
  student_id = student;
  class_id = class_id;
  enrolled_at = now;
  left_at = none;
}

-- `@@unique([studentId, classId, enrolledAt])`, and the id
abbrev same_enrollment : Enrollment → Enrollment → Bool
same_enrollment e f =
    f.id == e.id || is_pair e.student_id e.class_id f && (f.enrolled_at == e.enrolled_at)

abbrev pub add_enrollment : Enrollment → Database → Database
add_enrollment e db = record db { enrollments = db.enrollments ++ e ∷ [] }

unfoldable pub insert_enrollment : Enrollment → Action Enrollment
insert_enrollment e = do
  throw_if (is_some (← gets (λ db. find_first (same_enrollment e) db.enrollments))) unique_violation
  modify (add_enrollment e)
  pure e

abbrev pub is_live_profile : ℕ → StudentProfile → Bool
is_live_profile student p = p.id == student && is_live p

-- The checks of the transaction of `create`
unfoldable pub check_enrollment : (student class_id now : ℕ) → Action Class
check_enrollment student class_id now = do
  cls ← or_throw (← gets (λ db. find_unique class_key class_id db.classes)) not_found
  throw_if (not (is_active_class cls.status)) (conflict "Class is not active")
  profile ← or_throw (← gets (λ db. find_first (is_live_profile student) db.profiles)) not_found
  throw_if (not (is_active_student profile.status)) (conflict "Student profile is not active")
  throw_if (is_some (← gets (λ db. find_first (is_open_pair student class_id) db.enrollments)))
      (conflict "Student is already enrolled in this class")
  throw_if (is_some (← gets (λ db. find_first (is_same_day student class_id now) db.enrollments)))
      (conflict "Student was already enrolled in this class today")
  throw_if (leb cls.capacity (← gets (λ db. count_where (is_member class_id) db.enrollments)))
      (conflict "Class is full")
  pure cls

unfoldable pub create_body : (new_id student class_id now : ℕ) → Action Enrollment
create_body new_id student class_id now = do
  check_enrollment student class_id now
  insert_enrollment (new_enrollment new_id student class_id now)

-- `create`
unfoldable pub create_enrollment : (new_id student class_id now : ℕ) → Action Enrollment
create_enrollment new_id student class_id now = do
  created ← transaction (create_body new_id student class_id now)
  record_entry none (enrollment_created created.id student class_id) true
  pure created

abbrev has_key : ℕ → Enrollment → Bool
has_key k e = e.id == k

abbrev is_open_key : ℕ → Enrollment → Bool
is_open_key k e = e.id == k && is_none e.left_at

abbrev pub left_row : ℕ → Enrollment → Enrollment
left_row now e = record e { left_at = some now }

abbrev pub set_left : ℕ → ℕ → Database → Database
set_left k now db = record db {
  enrollments = update_many (has_key k) (left_row now) db.enrollments;
}

-- `remove`
unfoldable pub remove_enrollment : (k now : ℕ) → Action (Unit {0})
remove_enrollment k now = do
  or_throw (← gets (λ db. find_first (is_open_key k) db.enrollments)) not_found
  modify (set_left k now)
  record_entry none (enrollment_removed k) true

abbrev fits : Option ℕ → ℕ → Bool
fits none k = true
fits (some j) k = k == j

-- The selection of `list`, without its order and pages
unfoldable pub list_enrollments : (class_id student : Option ℕ) → Database → List Enrollment
list_enrollments class_id student db =
    find_many (λ (e : Enrollment). fits class_id e.class_id && fits student e.student_id)
      db.enrollments
