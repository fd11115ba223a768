-- ===== src/Ownership.antt =====
-- src/students/student-ownership.service.ts: which students a caller may see.
pub mod Laws
use vovinam_api_node.Base.{
  ℕ, Bool, true, false, ◌&&◌, Option, none, some, List, [], ◌∷◌, map, ◌==◌, opt_eq, is_none,
  is_some, if◌then◌else◌, not, find_first, find_many, find_unique,
}
use vovinam_api_node.Schema.{
  Role, admin, instructor, student, parent, Caller, StudentProfile, ParentStudentLink, Class,
  Enrollment, Database,
}
use vovinam_api_node.Service.{Action, ◌>>=◌, gets, throw_if, not_found}

-- The relation filter `class: { instructorId }` of an enrolment.
abbrev pub taught_by : ℕ → List Class → Enrollment → Bool
taught_by teacher classes e = elim (find_unique (λ (c : Class). c.id) e.class_id classes) [
  | none ↦ false
  | some c ↦ c.instructor_id == teacher
]

abbrev pub is_live : StudentProfile → Bool
is_live p = is_none p.deleted_at

abbrev pub is_verified_link : ℕ → ℕ → ParentStudentLink → Bool
is_verified_link parent_id student_id l =
    l.parent_user_id == parent_id && (l.student_id == student_id && l.verified)

abbrev pub is_taught_enrollment : ℕ → ℕ → List Class → Enrollment → Bool
is_taught_enrollment teacher student_id classes e =
    e.student_id == student_id && (is_none e.left_at && taught_by teacher classes e)

-- The switch on the role, for a profile that exists.
role_access : Role → ℕ → StudentProfile → Database → Bool
role_access admin caller_id profile db = true
role_access student caller_id profile db = opt_eq profile.user_id (some caller_id)
role_access parent caller_id profile db =
    is_some (find_first (is_verified_link caller_id profile.id) db.links)
role_access instructor caller_id profile db =
    is_some (find_first (is_taught_enrollment caller_id profile.id db.classes) db.enrollments)

unfoldable pub can_access : Caller → ℕ → Database → Bool
unfolding role_access
can_access caller student_id db =
    elim (find_first (λ (p : StudentProfile). p.id == student_id && is_live p) db.profiles) [
      | none ↦ false
      | some profile ↦ role_access caller.role caller.id profile db
    ]

unfoldable pub assert_can_access : Caller → ℕ → Action (Unit {0})
assert_can_access caller student_id = do
  allowed ← gets (can_access caller student_id)
  throw_if (not allowed) not_found

-- `distinct: ['studentId']` keeps the first row of each student.
distinct : List ℕ → List ℕ
distinct [] = []
distinct (x ∷ xs) = x ∷ find_many (λ y. not (y == x)) (distinct xs)

-- The relation filter `student: { deletedAt: null }` of a link.
abbrev pub links_live : List StudentProfile → ParentStudentLink → Bool
links_live profiles l = elim (find_unique (λ (p : StudentProfile). p.id) l.student_id profiles) [
  | none ↦ false
  | some p ↦ is_live p
]

abbrev pub owns : ℕ → StudentProfile → Bool
owns user p = opt_eq p.user_id (some user) && is_live p

abbrev pub sees_link : ℕ → List StudentProfile → ParentStudentLink → Bool
sees_link parent_id profiles l =
    l.parent_user_id == parent_id && (l.verified && links_live profiles l)

abbrev pub sees_enrollment : ℕ → List Class → Enrollment → Bool
sees_enrollment teacher classes e = is_none e.left_at && taught_by teacher classes e

unfoldable pub visible_of : Role → ℕ → Database → Option (List ℕ)
unfolding distinct
visible_of admin caller_id db = none
visible_of student caller_id db =
    some (map (λ (p : StudentProfile). p.id) (find_many (owns caller_id) db.profiles))
visible_of parent caller_id db = some (
    map (λ (l : ParentStudentLink). l.student_id)
      (find_many (sees_link caller_id db.profiles) db.links))
visible_of instructor caller_id db = some (
    distinct (
      map (λ (e : Enrollment). e.student_id)
        (find_many (sees_enrollment caller_id db.classes) db.enrollments)))

-- `null`, for an administrator, means that nothing is left out.
unfoldable pub visible_student_ids : Caller → Database → Option (List ℕ)
unfolding visible_of
visible_student_ids caller db = visible_of caller.role caller.id db
