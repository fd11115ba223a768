-- ===== src/Exams/Capacity.antt =====
-- No exam takes more registrations than its capacity, and no student registers twice for one
-- (`register` of src/exams/exams.service.ts).
use mathlib.Core.Option.{some-injective}
use vovinam_api_node.Base.{
  ℕ, ◌≤◌, ◌≡◌, refl, sym, ◌∙◌, ap, Bool, false, not, ◌&&◌, none, some, List, [], ◌∷◌, ◌++◌, arith,
  ltb, leb, ◌==◌, ==_iff, is_some, find_first, find_unique, find_unique-key, count_where,
  count_where-append, count_where-none, Bool-cases, Option-cases, inl, inr,
}
use vovinam_api_node.Schema.{Caller, StudentProfile, BeltExam, ExamRegistration, Database}
use vovinam_api_node.Service.{
  World, not_found, Answers, Ensures, commit-Ensures, commit, throw_if-Answers, or_throw-Answers,
  resume-Answers, resume-Ensures, resume-db, resume-keeps, Ensures-of_db, or_throw,
}
use vovinam_api_node.Ownership.{assert_can_access, is_live}
use vovinam_api_node.Billing.Issue.{ExamFee, create_exam_fee_invoice}
use vovinam_api_node.Billing.Issuing.{create_exam_fee_invoice-eq, next_exam_fee}
use vovinam_api_node.Billing.Sequence.{is_taken}
use vovinam_api_node.Exams.{
  exam_id, registration_id, is_open, is_active, already_holds, is_registered, is_full, is_pair,
  new_registration, fee_of, insert_registration, add_registration,
}
use vovinam_api_node.Exams.Register.{
  check_registration, write_registration, register_body, register,
}

-- Cancelled registrations take no place, but they are registrations: the pair of exam and student is
-- unique with them.
pub record IsOrderly (db : Database) : Type 0 where
  pub within :
      (k c : ℕ) (e : BeltExam)
      → find_unique exam_id k db.exams ≡ some e
      → e.capacity ≡ some c
      → count_where (is_registered k) db.registrations ≤ c
  pub single : (k s : ℕ) → count_where (is_pair k s) db.registrations ≤ 1

-- What the checks have found out about the exam and the student.
pub record MayRegister (exam_key student_id : ℕ) (db : Database) (found : BeltExam × StudentProfile)
    : Type 0 where
  pub exam_found : find_unique exam_id exam_key db.exams ≡ some found.0
  pub has_place :
      is_full found.0.capacity (count_where (is_registered exam_key) db.registrations) ≡ false
  pub not_registered : is_some (find_first (is_pair exam_key student_id) db.registrations) ≡ false
  pub is_student : found.1.id ≡ student_id

found_id :
    (k : ℕ) (rows : List StudentProfile) (p : StudentProfile)
    → find_first (λ (q : StudentProfile). q.id == k && is_live q) rows ≡ some p
    → p.id ≡ k
unfolding find_first
found_id k [] p h = cc
found_id k (r ∷ rs) p h = ground (arith, ==_iff r.id k, found_id k rs p)

check_registration-Answers :
    (exam_key student_id now : ℕ) (w : World)
    → Answers
        (MayRegister exam_key student_id w.db)
        (check_registration exam_key student_id now w)
        w
unfolding check_registration
check_registration-Answers exam_key student_id now w =
    let db = w.db in
    let full : BeltExam → Bool =
      λ e. is_full e.capacity (count_where (is_registered exam_key) db.registrations) in
    let twice = is_some (find_first (is_pair exam_key student_id) db.registrations) in
    let known = find_first (λ (p : StudentProfile). p.id == student_id && is_live p) db.profiles in
    resume-Answers w _ _ (or_throw (find_unique exam_id exam_key db.exams) not_found w) _
      (or_throw-Answers (find_unique exam_id exam_key db.exams) not_found w)
      λ exam found.
        resume-Answers w _ _ _ _ (throw_if-Answers (not (is_open exam.status)) _ w) λ u opened.
          resume-Answers w _ _ _ _ (throw_if-Answers (ltb exam.registration_deadline now) _ w)
            λ u early.
              resume-Answers w _ _ (or_throw known not_found w) _
                (or_throw-Answers known not_found w)
                λ profile who.
                  resume-Answers w _ _ _ _ (throw_if-Answers (not (is_active profile.status)) _ w)
                    λ u active.
                      resume-Answers w _ _ _ _
                        (throw_if-Answers
                          (already_holds profile.current_belt_rank_id exam.target_rank_id db.ranks)
                          _ w)
                        λ u below.
                          resume-Answers w _ _ _ _ (throw_if-Answers (full exam) _ w) λ u place.
                            resume-Answers w _ _ _ _ (throw_if-Answers twice _ w) λ u single. (
                              refl,
                              record {
                                exam_found = found;
                                has_place = place;
                                not_registered = single;
                                is_student = found_id student_id db.profiles profile who;
                              },
                            )

-- The fee touches neither exams nor registrations.
abbrev SameExams : Database → Database → Type 0
SameExams db v = (v.exams ≡ db.exams) × (v.registrations ≡ db.registrations)

fee-SameExams :
    (new_id student : ℕ) (fee : ExamFee) (registration creator year : ℕ) (w : World)
    → SameExams w.db (create_exam_fee_invoice new_id student fee registration creator year w).1.db
fee-SameExams new_id student fee registration creator year w =
    elim (Bool-cases
      (is_taken (next_exam_fee new_id student fee registration creator year w) w.db)) [
        | inl taken ↦
            rw (create_exam_fee_invoice-eq new_id student fee registration creator year w, taken)
              (refl, refl)
        | inr free ↦
            rw (create_exam_fee_invoice-eq new_id student fee registration creator year w, free)
              (refl, refl)
      ]

module _ (exam_key student_id : ℕ) (exam : BeltExam) (profile : StudentProfile) (db v : Database)
    (h : IsOrderly db) (may : MayRegister exam_key student_id db (exam, profile))
    (r : ExamRegistration) (its_exam : r.exam_id ≡ exam_key)
    (its_student : r.student_id ≡ student_id) (same : v.exams ≡ db.exams)
    (more : v.registrations ≡ db.registrations ++ r ∷ []) where
  within-add :
      (k c : ℕ) (e : BeltExam)
      → find_unique exam_id k db.exams ≡ some e
      → e.capacity ≡ some c
      → count_where (is_registered k) (db.registrations ++ r ∷ []) ≤ c
  within-add k c e found cap = elim (Bool-cases (exam_key == k)) [
    | inr other ↦
        rw (count_where-append (is_registered k) db.registrations r, its_exam, other)
          (omega (arith, h.within k c e found cap))
    | inl here ↦
        let same_key : exam_key ≡ k = (==_iff exam_key k).0 here in
        let same_row : exam ≡ e = some-injective exam e (sym may.exam_found ∙ rw same_key found) in
        let cap : exam.capacity ≡ some c = rw same_row cap in
        let place : leb c (count_where (is_registered exam_key) db.registrations) ≡ false =
          ap (λ o. is_full o (count_where (is_registered exam_key) db.registrations)) (sym cap)
          ∙ may.has_place in
        rw (count_where-append (is_registered k) db.registrations r, sym same_key)
          (ground (arith, place))
  ]

  no_pair : find_first (is_pair exam_key student_id) db.registrations ≡ none
  no_pair = elim (Option-cases (find_first (is_pair exam_key student_id) db.registrations)) [
    | inl e ↦ e
    | inr (x, e) ↦ let some_pair = may.not_registered in absurd (ground (arith, e, some_pair))
  ]

  single-add : (k s : ℕ) → count_where (is_pair k s) (db.registrations ++ r ∷ []) ≤ 1
  single-add k s = elim (Bool-cases (is_pair k s r)) [
    | inr other ↦
        rw (count_where-append (is_pair k s) db.registrations r, other)
          (omega (arith, h.single k s))
    | inl new ↦
        let same_exam : r.exam_id ≡ k = ground (arith, new, ==_iff r.exam_id k) in
        let same_student : r.student_id ≡ s = ground (arith, new, ==_iff r.student_id s) in
        let pair : count_where (is_pair k s) db.registrations ≡ 0 =
          count_where-none (is_pair k s) db.registrations
            (rw (sym same_exam, sym same_student, its_exam, its_student) no_pair) in
        rw (count_where-append (is_pair k s) db.registrations r, new, pair) (omega arith)
  ]

  add-IsOrderly : IsOrderly v
  add-IsOrderly = record {
    within = λ k c e found cap. rw more (within-add k c e (rw same at found) cap);
    single = λ k s. rw more (single-add k s);
  }

write_registration-Ensures :
    (caller : Caller) (exam_key student_id new_id invoice_key year : ℕ) (exam : BeltExam)
    (profile : StudentProfile) (w : World)
    → IsOrderly w.db
    → MayRegister exam_key student_id w.db (exam, profile)
    → Ensures IsOrderly (write_registration caller new_id invoice_key year exam profile w)
unfolding write_registration insert_registration
write_registration-Ensures caller exam_key student_id new_id invoice_key year exam profile w h may =
    let r = new_registration new_id exam profile in
    let after : World = record w { db = add_registration r w.db } in
    let fee = create_exam_fee_invoice invoice_key profile.id (fee_of exam) new_id caller.id year in
    let same = fee-SameExams invoice_key profile.id (fee_of exam) new_id caller.id year after in
    elim (Bool-cases (is_some (find_unique registration_id new_id w.db.registrations))) [
      | inl taken ↦ rw taken tt
      | inr free ↦
          elim (Bool-cases (is_some (find_first (is_pair exam.id profile.id) w.db.registrations))) [
            | inl taken ↦ rw (free, taken) tt
            | inr single ↦
                rw (free, single)
                  (Ensures-of_db IsOrderly _ (
                    resume-db IsOrderly _ (fee after) (λ i v. refl)
                      (add-IsOrderly exam_key student_id exam profile w.db (fee after).1.db h may r
                        (find_unique-key exam_id exam_key w.db.exams exam may.exam_found)
                        may.is_student same.0 same.1)))
          ]
    ]

register_body-Ensures :
    (caller : Caller) (exam_key student_id new_id invoice_key now year : ℕ) (w : World)
    → IsOrderly w.db
    → Ensures IsOrderly (register_body caller exam_key student_id new_id invoice_key now year w)
unfolding register_body
register_body-Ensures caller exam_key student_id new_id invoice_key now year w h =
    resume-Ensures w (MayRegister exam_key student_id w.db) IsOrderly
      (check_registration exam_key student_id now w) _
      (check_registration-Answers exam_key student_id now w)
      λ (exam, profile) may.
        write_registration-Ensures caller exam_key student_id new_id invoice_key year exam profile w
          h may

assert_can_access-state :
    (caller : Caller) (student_id : ℕ) (w : World) → (assert_can_access caller student_id w).1 ≡ w
unfolding assert_can_access
assert_can_access-state caller student_id w = refl

-- Registering keeps every exam within its capacity and every pair of exam and student single,
-- whoever registers whom, and whether or not the fee can be issued.
pub register-IsOrderly :
    (caller : Caller) (exam_key student_id new_id invoice_key now year : ℕ) (w : World)
    → IsOrderly w.db
    → IsOrderly (register caller exam_key student_id new_id invoice_key now year w).1.db
unfolding register
register-IsOrderly caller exam_key student_id new_id invoice_key now year w h =
    resume-keeps IsOrderly w (assert_can_access caller student_id w) _
      (assert_can_access-state caller student_id w) h
      λ u.
        resume-db IsOrderly _
          (commit w.db (register_body caller exam_key student_id new_id invoice_key now year w))
          (λ r v. refl)
          (commit-Ensures IsOrderly w.db
            (register_body caller exam_key student_id new_id invoice_key now year w) h
            (register_body-Ensures caller exam_key student_id new_id invoice_key now year w h))
