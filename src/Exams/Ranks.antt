-- ===== src/Exams/Ranks.antt =====
-- A recorded result never moves a belt down (`recordResult` of src/exams/exams.service.ts).
use mathlib.Core.Option
use vovinam_api_node.Base.{
  ℕ, suc, ◌≤◌, ◌≡◌, refl, sym, ◌∙◌, ap, Bool, true, false, Option, none, some, List, [], ◌∷◌, arith,
  ==_iff, is_none, if◌then◌else◌, find_first, find_many, find_unique, find_unique-key,
  find_unique-update, Bool-cases, Option-cases, inl, inr,
}
use vovinam_api_node.Schema.{Caller, StudentProfile, BeltRank, BeltExam, ExamRegistration, Database}
use vovinam_api_node.Service.{
  World, Answers, Ensures, commit, commit-Ensures, throw_if-Answers, or_throw-Answers,
  resume-Answers, resume-Ensures, resume-db, resume-keeps, then-Ensures, or_throw, not_found,
  record_missing,
}
use vovinam_api_node.Ownership.{assert_can_access, can_access}
use vovinam_api_node.Ownership.Laws.{profile_id}
use vovinam_api_node.Exams.{
  exam_id, rank_id, registration_id, is_rank, ranks_in, not_below, already_holds, is_admin,
  has_result, is_cancelled,
}
use vovinam_api_node.Exams.Results.{
  is_examiner, Verdict, passed, missed, ExamResultDto, resolve_examiner, is_student, rank_row,
  set_rank, set_result, current_rank, promote, promote_on, guard_examiner, check_result,
  result_body, record_result,
}

-- How high a rank is; no rank, and one that is not there, are below all others.
abbrev pub height : Option BeltRank → ℕ
height none = 0
height (some r) = suc r.order_index

abbrev pub order_of : Option ℕ → List BeltRank → ℕ
order_of none ranks = 0
order_of (some k) ranks = height (find_unique rank_id k ranks)

abbrev pub belt_order : ℕ → Database → ℕ
belt_order k db = order_of (current_rank (find_unique profile_id k db.profiles)) db.ranks

-- The foreign key of `target_rank_id`.
abbrev pub HasTargets : Database → Type 0
HasTargets db =
    (k : ℕ) (e : BeltExam)
    → find_unique exam_id k db.exams ≡ some e
    → (r : BeltRank) × (find_unique rank_id e.target_rank_id db.ranks ≡ some r)

first_of_current :
    (c t : ℕ) (ranks : List BeltRank)
    → find_first (is_rank c) (ranks_in c t ranks) ≡ find_unique rank_id c ranks
unfolding find_first find_many find_unique
first_of_current c t [] = refl
first_of_current c t (r ∷ ranks) = ground (arith, first_of_current c t ranks)

first_of_target :
    (c t : ℕ) (ranks : List BeltRank)
    → find_first (is_rank t) (ranks_in c t ranks) ≡ find_unique rank_id t ranks
unfolding find_first find_many find_unique
first_of_target c t [] = refl
first_of_target c t (r ∷ ranks) = ground (arith, first_of_target c t ranks)

height-not_below :
    (o : Option BeltRank) (target : BeltRank)
    → not_below o (some target) ≡ false
    → height o ≤ suc target.order_index
height-not_below none target h = omega arith
height-not_below (some r) target h = ground arith

-- What passes the check is below the target.
already_holds-order :
    (current : Option ℕ) (t : ℕ) (ranks : List BeltRank) (target : BeltRank)
    → find_unique rank_id t ranks ≡ some target
    → already_holds current t ranks ≡ false
    → order_of current ranks ≤ order_of (some t) ranks
unfolding already_holds
already_holds-order none t ranks target e h = omega arith
already_holds-order (some c) t ranks target e h =
    let below : not_below (find_unique rank_id c ranks) (some target) ≡ false =
      ap (λ o. not_below (find_unique rank_id c ranks) o) (sym e ∙ sym (first_of_target c t ranks))
      ∙ ap (λ o. not_below o (find_first (is_rank t) (ranks_in c t ranks)))
          (sym (first_of_current c t ranks))
      ∙ h in
    rw e (height-not_below (find_unique rank_id c ranks) target below)

module _ (s t k : ℕ) (db : Database) (target : BeltRank)
    (found : find_unique rank_id t db.ranks ≡ some target)
    (below : already_holds (current_rank (find_unique profile_id s db.profiles)) t db.ranks
      ≡ false) where
  set_rank-cases :
      (o : Option StudentProfile)
      → find_unique profile_id k db.profiles ≡ o
      → order_of (current_rank o) db.ranks
        ≤ order_of
            (current_rank (Option.map (λ p. if is_student s p then rank_row t p else p) o))
            db.ranks
  set_rank-cases none e = omega arith
  set_rank-cases (some p) e = elim (Bool-cases (is_student s p)) [
    | inr other ↦ rw other (omega arith)
    | inl here ↦
        let same : k ≡ s =
          sym (find_unique-key profile_id k db.profiles p e) ∙ (==_iff p.id s).0 here in
        let row : find_unique profile_id s db.profiles ≡ some p = rw (sym same) e in
        rw here (
          already_holds-order p.current_belt_rank_id t db.ranks target found
            (ap (λ o. already_holds (current_rank o) t db.ranks) (sym row) ∙ below))
  ]

  set_rank-order : belt_order k db ≤ belt_order k (set_rank s t db)
  set_rank-order =
      rw (find_unique-update profile_id (is_student s) (rank_row t) (λ p. refl) k db.profiles)
        (set_rank-cases (find_unique profile_id k db.profiles) refl)

-- What the checks have found out.
record IsJudged (j : ℕ) (db : Database) (found : ExamRegistration × BeltExam) : Type 0 where
  its_exam : find_unique exam_id found.0.exam_id db.exams ≡ some found.1

guard_examiner-Answers :
    (b : Bool) (caller : Caller) (s : ℕ) (w : World)
    → Answers (λ u. Unit {0}) (guard_examiner b caller s w) w
unfolding guard_examiner assert_can_access
guard_examiner-Answers true caller s w = (refl, tt)
guard_examiner-Answers false caller s w = elim (Bool-cases (can_access caller s w.db)) [
  | inl y ↦ rw y (refl, tt)
  | inr n ↦ rw n refl
]

check_result-Answers :
    (caller : Caller) (j : ℕ) (w : World) → Answers (IsJudged j w.db) (check_result caller j w) w
unfolding check_result
check_result-Answers caller j w =
    let db = w.db in
    resume-Answers w _ _ (or_throw (find_unique registration_id j db.registrations) not_found w) _
      (or_throw-Answers (find_unique registration_id j db.registrations) not_found w)
      λ r known.
        resume-Answers w _ _ (or_throw (find_unique exam_id r.exam_id db.exams) record_missing w) _
          (or_throw-Answers (find_unique exam_id r.exam_id db.exams) record_missing w)
          λ exam its.
            resume-Answers w _ _ _ _
              (guard_examiner-Answers (is_admin caller.role) caller r.student_id w)
              λ u guarded.
                resume-Answers w _ _ _ _ (throw_if-Answers (has_result r.status) _ w) λ u waiting.
                  resume-Answers w _ _ _ _ (throw_if-Answers (is_cancelled r.status) _ w)
                    λ u alive. (refl, record { its_exam = its })

abbrev IsNoLower : ℕ → Database → Database → Type 0
IsNoLower k db v = belt_order k db ≤ belt_order k v

promote-Ensures :
    (s t k : ℕ) (w : World) (target : BeltRank)
    → find_unique rank_id t w.db.ranks ≡ some target
    → Ensures (IsNoLower k w.db) (promote s t w)
unfolding promote
promote-Ensures s t k w target found =
    let profile = find_unique profile_id s w.db.profiles in
    resume-Ensures w _ (IsNoLower k w.db) _ _
      (throw_if-Answers (already_holds (current_rank profile) t w.db.ranks) _ w)
      λ u below.
        resume-Ensures w _ (IsNoLower k w.db) _ _ (throw_if-Answers (is_none profile) _ w)
          λ u there. set_rank-order s t k w.db target found below

promote_on-Ensures :
    (v : Verdict) (s t k : ℕ) (w : World) (target : BeltRank)
    → find_unique rank_id t w.db.ranks ≡ some target
    → Ensures (IsNoLower k w.db) (promote_on v s t w)
unfolding promote_on
promote_on-Ensures passed s t k w target found = promote-Ensures s t k w target found
promote_on-Ensures missed s t k w target found = omega arith

result_body-Ensures :
    (caller : Caller) (j : ℕ) (dto : ExamResultDto) (examiner k : ℕ) (w : World)
    → HasTargets w.db
    → Ensures (IsNoLower k w.db) (result_body caller j dto examiner w)
unfolding result_body
result_body-Ensures caller j dto examiner k w h =
    resume-Ensures w (IsJudged j w.db) (IsNoLower k w.db) (check_result caller j w) _
      (check_result-Answers caller j w)
      λ (r, exam) judged.
        let target = h r.exam_id exam judged.its_exam in
        let after : World = record w { db = set_result j dto examiner w.db } in
        then-Ensures (IsNoLower k w.db)
          (promote_on dto.verdict r.student_id exam.target_rank_id after) _ (λ u v p. p)
          (promote_on-Ensures dto.verdict r.student_id exam.target_rank_id k after target.0
            target.1)

resolve_examiner-state :
    (caller : Caller) (asked : Option ℕ) (w : World) → (resolve_examiner caller asked w).1 ≡ w
unfolding resolve_examiner
resolve_examiner-state caller none w = refl
resolve_examiner-state caller (some k) w = elim (Bool-cases (is_admin caller.role)) [
  | inr n ↦ rw n refl
  | inl y ↦ elim (Option-cases (find_first (is_examiner k) w.db.users)) [
    | inl e ↦ rw (y, e) refl
    | inr (u, e) ↦ rw (y, e) refl
  ]
]

-- Recording a result, whoever records which, leaves no student with a lower belt than before: a
-- target rank is always there, as the foreign key of the exams has it.
pub record_result-keeps_belts :
    (caller : Caller) (j : ℕ) (dto : ExamResultDto) (k : ℕ) (w : World)
    → HasTargets w.db
    → belt_order k w.db ≤ belt_order k (record_result caller j dto w).1.db
unfolding record_result
record_result-keeps_belts caller j dto k w h =
    resume-keeps (IsNoLower k w.db) w (resolve_examiner caller dto.examiner_id w) _
      (resolve_examiner-state caller dto.examiner_id w) (omega arith)
      λ examiner.
        resume-db (IsNoLower k w.db) _ (commit w.db (result_body caller j dto examiner w))
          (λ r v. refl)
          (commit-Ensures (IsNoLower k w.db) w.db (result_body caller j dto examiner w)
            (omega arith) (result_body-Ensures caller j dto examiner k w h))
