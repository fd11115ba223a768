-- ===== src/Enrollments/Capacity.antt =====
-- No class has more students than its capacity, and no student is in a class twice at a time
-- (src/classes/enrollments.service.ts).
use mathlib.Core.Option.{some-injective}
use vovinam_api_node.Base.{
  ℕ, ◌≤◌, ◌≡◌, refl, sym, ◌∙◌, ap, false, not, ◌&&◌, none, some, [], ◌∷◌, ◌++◌, arith, leb, ◌==◌,
  ==_iff, is_some, find_first, find_unique, count_where, count_where-append, count_where-none,
  count_where-shrink, Bool-cases, Option-cases, inl, inr,
}
use vovinam_api_node.Schema.{Class, Enrollment, Database}
use vovinam_api_node.Service.{
  World, not_found, Answers, Ensures, commit-Ensures, commit, throw_if-Answers, or_throw-Answers,
  resume-Answers, resume-Ensures, resume-db, resume-keeps, or_throw, or_throw-state,
}
use vovinam_api_node.Enrollments.{
  class_key, is_active_class, is_active_student, is_open_pair, is_same_day, is_member,
  new_enrollment, same_enrollment, add_enrollment, insert_enrollment, is_live_profile,
  check_enrollment, create_body, create_enrollment, has_key, is_open_key, left_row,
  remove_enrollment,
}

pub record IsOrderly (db : Database) : Type 0 where
  pub within :
      (k : ℕ) (c : Class)
      → find_unique class_key k db.classes ≡ some c
      → count_where (is_member k) db.enrollments ≤ c.capacity
  pub single : (s k : ℕ) → count_where (is_open_pair s k) db.enrollments ≤ 1

-- What the checks have found out.
record MayJoin (student class_id : ℕ) (db : Database) (c : Class) : Type 0 where
  found : find_unique class_key class_id db.classes ≡ some c
  not_in : is_some (find_first (is_open_pair student class_id) db.enrollments) ≡ false
  has_place : leb c.capacity (count_where (is_member class_id) db.enrollments) ≡ false

check_enrollment-Answers :
    (student class_id now : ℕ) (w : World)
    → Answers (MayJoin student class_id w.db) (check_enrollment student class_id now w) w
unfolding check_enrollment
check_enrollment-Answers student class_id now w =
    let rows = w.db.enrollments in
    let cls = find_unique class_key class_id w.db.classes in
    let profile = find_first (is_live_profile student) w.db.profiles in
    resume-Answers w _ _ (or_throw cls not_found w) _ (or_throw-Answers cls not_found w) λ c found.
      resume-Answers w _ _ _ _ (throw_if-Answers (not (is_active_class c.status)) _ w) λ u active.
        resume-Answers w _ _ (or_throw profile not_found w) _ (or_throw-Answers profile not_found w)
          λ p known.
            resume-Answers w _ _ _ _ (throw_if-Answers (not (is_active_student p.status)) _ w)
              λ u a.
                resume-Answers w _ _ _ _
                  (throw_if-Answers (is_some (find_first (is_open_pair student class_id) rows)) _ w)
                  λ u not_in.
                    resume-Answers w _ _ _ _
                      (throw_if-Answers
                        (is_some (find_first (is_same_day student class_id now) rows)) _ w)
                      λ u other_day.
                        resume-Answers w _ _ _ _
                          (throw_if-Answers (leb c.capacity (count_where (is_member class_id) rows))
                            _ w)
                          λ u place.
                            (refl, record { found = found; not_in = not_in; has_place = place })

module _ (new_id student class_id now : ℕ) (c : Class) (db : Database) (h : IsOrderly db)
    (may : MayJoin student class_id db c) where
  abbrev e : Enrollment
  e = new_enrollment new_id student class_id now

  within-add :
      (k : ℕ) (d : Class)
      → find_unique class_key k db.classes ≡ some d
      → count_where (is_member k) (db.enrollments ++ e ∷ []) ≤ d.capacity
  within-add k d found = elim (Bool-cases (class_id == k)) [
    | inr other ↦
        ground (arith, count_where-append (is_member k) db.enrollments e, h.within k d found, other)
    | inl hit ↦
        let same : class_id ≡ k = (==_iff class_id k).0 hit in
        let it : c ≡ d = some-injective c d (sym may.found ∙ rw same found) in
        let place = may.has_place in
        rw (sym same) (
          ground (
            arith,
            count_where-append (is_member class_id) db.enrollments e,
            place,
            ap (λ (x : Class). x.capacity) it,
          ))
  ]

  no_pair : find_first (is_open_pair student class_id) db.enrollments ≡ none
  no_pair = elim (Option-cases (find_first (is_open_pair student class_id) db.enrollments)) [
    | inl none_found ↦ none_found
    | inr (x, one) ↦ let some_pair = may.not_in in absurd (ground (arith, one, some_pair))
  ]

  single-add : (s k : ℕ) → count_where (is_open_pair s k) (db.enrollments ++ e ∷ []) ≤ 1
  single-add s k = elim (Bool-cases (student == s && class_id == k)) [
    | inr other ↦
        ground (arith, count_where-append (is_open_pair s k) db.enrollments e, h.single s k, other)
    | inl hit ↦
        let same_student : student ≡ s = ground (arith, hit, ==_iff student s) in
        let same_class : class_id ≡ k = ground (arith, hit, ==_iff class_id k) in
        let free = count_where-none (is_open_pair student class_id) db.enrollments no_pair in
        rw (sym same_student, sym same_class)
          (ground
            (arith, count_where-append (is_open_pair student class_id) db.enrollments e, free))
  ]

  add-IsOrderly : IsOrderly (add_enrollment e db)
  add-IsOrderly = record { within = within-add; single = single-add }

create_body-Ensures :
    (new_id student class_id now : ℕ) (w : World)
    → IsOrderly w.db
    → Ensures IsOrderly (create_body new_id student class_id now w)
unfolding create_body insert_enrollment
create_body-Ensures new_id student class_id now w h =
    let e = new_enrollment new_id student class_id now in
    resume-Ensures w (MayJoin student class_id w.db) IsOrderly
      (check_enrollment student class_id now w) _ (check_enrollment-Answers student class_id now w)
      λ c may. elim (Bool-cases (is_some (find_first (same_enrollment e) w.db.enrollments))) [
        | inl taken ↦ rw taken tt
        | inr free ↦ rw free (add-IsOrderly new_id student class_id now c w.db h may)
      ]

create-IsOrderly :
    (new_id student class_id now : ℕ) (w : World)
    → IsOrderly w.db
    → IsOrderly (create_enrollment new_id student class_id now w).1.db
unfolding create_enrollment
create-IsOrderly new_id student class_id now w h =
    resume-db IsOrderly _ (commit w.db (create_body new_id student class_id now w)) (λ e v. refl)
      (commit-Ensures IsOrderly w.db (create_body new_id student class_id now w) h
        (create_body-Ensures new_id student class_id now w h))

remove-IsOrderly :
    (k now : ℕ) (w : World) → IsOrderly w.db → IsOrderly (remove_enrollment k now w).1.db
unfolding remove_enrollment
remove-IsOrderly k now w h =
    let found = find_first (is_open_key k) w.db.enrollments in
    resume-keeps IsOrderly w (or_throw found _ w) _ (or_throw-state found _ w) h λ e. record {
      within = λ j c at. omega (
        arith,
        h.within j c at,
        count_where-shrink (is_member j) (has_key k) (left_row now) w.db.enrollments
            (λ e p. ground (arith, p)),
      );
      single = λ s j. omega (
        arith,
        h.single s j,
        count_where-shrink (is_open_pair s j) (has_key k) (left_row now) w.db.enrollments
            (λ e p. ground (arith, p)),
      );
    }

pub data Reach : World → World → Type 0 where
  here : {w : World} → Reach w w
  joins :
      {v w : World}
      → Reach v w
      → (new_id student class_id now : ℕ)
      → Reach v (create_enrollment new_id student class_id now w).1
  leaves : {v w : World} → Reach v w → (k now : ℕ) → Reach v (remove_enrollment k now w).1

-- Where each class is within its capacity and each student at most once in each class, it stays so whoever
-- joins or leaves which class.
pub Reach-IsOrderly : {v w : World} → Reach v w → IsOrderly v.db → IsOrderly w.db
Reach-IsOrderly here h = h
Reach-IsOrderly (joins {w} before new_id student class_id now) h =
    create-IsOrderly new_id student class_id now w (Reach-IsOrderly before h)
Reach-IsOrderly (leaves {w} before k now) h = remove-IsOrderly k now w (Reach-IsOrderly before h)
