-- ===== src/Ownership/Laws.antt =====
-- The two halves of src/students/student-ownership.service.ts, the guard of one student and the
-- scope of a list, against each other.
use mathlib.Core.Option.{some-injective}
use vovinam_api_node.Base.{
  ℕ, ◌≡◌, refl, Bool, true, false, not, ◌&&◌, ◌||◌, none, some, List, [], ◌∷◌, map, arith, ◌==◌,
  opt_eq, is_some, Bool-cases, inl, inr, find_first, find_many, find_unique, IsKeyed,
  find_first-keyed, find_unique-key, ◌∙◌, sym, ap, ◌⊎◌,
}
use vovinam_api_node.Schema.{
  Role, admin, instructor, student, parent, Caller, StudentProfile, ParentStudentLink, Enrollment,
  Database,
}
use vovinam_api_node.Service.{World, err, not_found}
use vovinam_api_node.Ownership.{
  is_live, is_verified_link, is_taught_enrollment, role_access, can_access, assert_can_access,
  distinct, links_live, owns, sees_link, sees_enrollment, visible_of, visible_student_ids,
}

unfoldable pub contains : ℕ → List ℕ → Bool
contains a [] = false
contains a (x ∷ xs) = x == a || contains a xs

abbrev pub profile_id : StudentProfile → ℕ
profile_id p = p.id

-- An id is among those of the chosen rows when one of the rows with that id is chosen.
pub contains-find_many {ℓ} :
    {R : Type ℓ} (key : R → ℕ) (q : R → Bool) (a : ℕ) (rows : List R)
    → contains a (map key (find_many q rows)) ≡ is_some (find_first (λ r. key r == a && q r) rows)
unfolding contains find_many find_first
contains-find_many key q a [] = refl
contains-find_many key q a (r ∷ rs) = ground (arith, contains-find_many key q a rs)

pub find_first-congr {ℓ} :
    {R : Type ℓ} (p q : R → Bool) (rows : List R)
    → ((r : R) → p r ≡ q r)
    → find_first p rows ≡ find_first q rows
unfolding find_first
find_first-congr p q [] h = refl
find_first-congr p q (r ∷ rs) h = ground (arith, h r, find_first-congr p q rs h)

contains-filter :
    (a x : ℕ) (xs : List ℕ)
    → contains a (find_many (λ y. not (y == x)) xs) ≡ (contains a xs && not (a == x))
unfolding contains find_many
contains-filter a x [] = refl
contains-filter a x (y ∷ ys) = ground (arith, contains-filter a x ys)

contains-distinct : (a : ℕ) (xs : List ℕ) → contains a (distinct xs) ≡ contains a xs
unfolding distinct contains
contains-distinct a [] = refl
contains-distinct a (x ∷ xs) =
    ground (arith, contains-filter a x (distinct xs), contains-distinct a xs)

abbrev rows_of : Database → List StudentProfile
rows_of db = db.profiles

-- The profile that the guard looks at.
abbrev pub LiveProfile : ℕ → StudentProfile → Database → Type 0
LiveProfile a x db = (find_unique profile_id a db.profiles ≡ some x) × (is_live x ≡ true)

module _ (db : Database) (keyed : IsKeyed profile_id db.profiles) (a user : ℕ) (x : StudentProfile)
    (live : LiveProfile a x db) where
  own-scope :
      is_some (find_first (λ (p : StudentProfile). p.id == a && owns user p) db.profiles)
      ≡ opt_eq x.user_id (some user)
  own-scope =
      rw (find_first-keyed profile_id a (owns user) db.profiles keyed, live.0) (ground arith)

  link-scope :
      (l : ParentStudentLink)
      → (l.student_id == a && sees_link user db.profiles l) ≡ is_verified_link user a l
  link-scope l = elim (Bool-cases (l.student_id == a)) [
    | inr other ↦ ground arith
    | inl same ↦
        let e : l.student_id ≡ a = ground arith in
        let seen : links_live db.profiles l ≡ true = rw (e, live.0, links_live) live.1 in
        ground arith
  ]

  enrollment-scope :
      (e : Enrollment)
      → (e.student_id == a && sees_enrollment user db.classes e)
        ≡ is_taught_enrollment user a db.classes e
  enrollment-scope e = refl

  is_profile : x.id ≡ a
  is_profile = find_unique-key profile_id a db.profiles x live.0

  -- For a caller whose list is scoped, a live student is in the list exactly when the guard lets the
  -- caller see the student.
  role-scope :
      (role : Role) (ids : List ℕ)
      → visible_of role user db ≡ some ids
      → contains a ids ≡ role_access role user x db
  unfolding visible_of role_access
  role-scope admin ids h = cc
  role-scope student ids h =
      rw (← some-injective _ _ h)
        (contains-find_many profile_id (owns user) a db.profiles ∙ own-scope)
  role-scope parent ids h =
      rw (← some-injective _ _ h, is_profile)
        (contains-find_many (λ (l : ParentStudentLink). l.student_id) (sees_link user db.profiles) a
            db.links
          ∙ ap is_some (
              find_first-congr
                (λ (l : ParentStudentLink). l.student_id == a && sees_link user db.profiles l)
                (is_verified_link user a) db.links link-scope))
  role-scope instructor ids h =
      rw (← some-injective _ _ h, is_profile)
        (contains-distinct a _
          ∙ contains-find_many (λ (e : Enrollment). e.student_id) (sees_enrollment user db.classes)
              a db.enrollments)

guard-live :
    (caller : Caller) (a : ℕ) (db : Database) (x : StudentProfile)
    → IsKeyed profile_id db.profiles
    → LiveProfile a x db
    → can_access caller a db ≡ role_access caller.role caller.id x db
unfolding can_access
guard-live caller a db x keyed live =
    let e : find_first (λ (p : StudentProfile). p.id == a && is_live p) db.profiles ≡ some x =
      find_first-keyed profile_id a is_live db.profiles keyed ∙ rw (live.0, live.1) in
    rw (e, can_access)

-- For every caller whose lists are scoped, a live student is within the scope exactly when the guard
-- of that student lets the caller in.
pub visible_student_ids-eq-can_access :
    (caller : Caller) (a : ℕ) (db : Database) (x : StudentProfile) (ids : List ℕ)
    → IsKeyed profile_id db.profiles
    → LiveProfile a x db
    → visible_student_ids caller db ≡ some ids
    → contains a ids ≡ can_access caller a db
unfolding visible_student_ids
visible_student_ids-eq-can_access caller a db x ids keyed live h =
    role-scope db keyed a caller.id x live caller.role ids h
    ∙ sym (guard-live caller a db x keyed live)

-- Every caller, an administrator too, gets the same 404 for a student who does not exist or whose
-- profile is deleted, and the state is untouched.
pub assert_can_access-hides :
    (caller : Caller) (a : ℕ) (w : World)
    → IsKeyed profile_id w.db.profiles
    → ((find_unique profile_id a w.db.profiles ≡ none)
        ⊎ ((x : StudentProfile) × (find_unique profile_id a w.db.profiles ≡ some x)
            × (is_live x ≡ false)))
    → assert_can_access caller a w ≡ (err not_found, w)
unfolding assert_can_access can_access
assert_can_access-hides caller a w keyed (inl e) =
    let gone : find_first (λ (p : StudentProfile). p.id == a && is_live p) w.db.profiles ≡ none =
      find_first-keyed profile_id a is_live w.db.profiles keyed ∙ rw e in
    rw (gone, can_access)
assert_can_access-hides caller a w keyed (inr (x, e, dead)) =
    let gone : find_first (λ (p : StudentProfile). p.id == a && is_live p) w.db.profiles ≡ none =
      find_first-keyed profile_id a is_live w.db.profiles keyed ∙ rw (e, dead) in
    rw (gone, can_access)
