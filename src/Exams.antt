-- ===== src/Exams.antt =====
-- src/exams/exams.service.ts: belt exams, registrations and results. The clock and the ids of new
-- rows are arguments.
pub mod Register
pub mod Results
pub mod Update
pub mod Naming
pub mod Capacity
pub mod Ranks
use vovinam_api_node.Base.{
  ℕ, zero, suc, ◌+◌, ◌*◌, Bool, true, false, not, ◌&&◌, ◌||◌, Option, none, some, List, [], ◌∷◌,
  ◌++◌, Text, codes, decimal, map, ltb, leb, ◌==◌, text_eq, is_some, is_none, if◌then◌else◌,
  find_first, find_many, find_unique, update_many, count_where,
}
use vovinam_api_node.Schema.{
  Role, admin, instructor, student, parent, Caller, User, StudentProfile, StudentStatus, BeltRank,
  BeltExam, ExamStatus, ExamRegistration, RegistrationStatus, Invoice, Database,
}
use vovinam_api_node.Service.{
  Result, ok, err, Action, ◌>>=◌, ◌>>◌, pure, throw, throw_if, or_throw, gets, modify, transaction,
  record_entry, not_found, conflict, bad_request, unique_violation, record_missing,
  belt_exam_created, exam_registration_created, exam_result_recorded,
}
use vovinam_api_node.Ownership.{assert_can_access, is_live}
use vovinam_api_node.Ownership.Laws.{profile_id}
use vovinam_api_node.Billing.Codes.{starts_with, next_sequential_code}
use vovinam_api_node.Billing.Issue.{ExamFee, create_exam_fee_invoice}

abbrev pub exam_id : BeltExam → ℕ
exam_id e = e.id

abbrev pub rank_id : BeltRank → ℕ
rank_id r = r.id

abbrev pub registration_id : ExamRegistration → ℕ
registration_id r = r.id

abbrev pub is_cancelled : RegistrationStatus → Bool
is_cancelled RegistrationStatus.cancelled = true
is_cancelled _ = false

abbrev pub has_result : RegistrationStatus → Bool
has_result RegistrationStatus.result_pass = true
has_result RegistrationStatus.result_fail = true
has_result _ = false

abbrev is_open : ExamStatus → Bool
is_open ExamStatus.open_status = true
is_open _ = false

abbrev is_active : StudentStatus → Bool
is_active StudentStatus.active = true
is_active _ = false

abbrev pub is_admin : Role → Bool
is_admin admin = true
is_admin _ = false

abbrev is_examiner_role : Role → Bool
is_examiner_role admin = true
is_examiner_role instructor = true
is_examiner_role _ = false

-- `assertTargetRank`
unfoldable pub assert_target_rank : ℕ → Action (Unit {0})
assert_target_rank rank = do
  row ← or_throw (← gets (λ db. find_unique rank_id rank db.ranks)) not_found
  throw_if (not row.is_active) (conflict "Belt rank is not active")

-- `assertDateOrder`
unfoldable pub assert_date_order : ℕ → ℕ → Action (Unit {0})
assert_date_order deadline date =
    throw_if (ltb date deadline)
      (bad_request "Registration deadline must not be after the exam date")

abbrev pub exam_prefix : ℕ → Text
exam_prefix year = codes "EXAM-" ++ (decimal year ++ codes "-")

abbrev pub has_code : Text → BeltExam → Bool
has_code code e = text_eq e.code code

unfoldable pub next_exam_code : ℕ → Database → Text
next_exam_code year db =
    next_sequential_code (exam_prefix year)
      (map (λ (e : BeltExam). e.code)
        (find_many (λ (e : BeltExam). starts_with e.code (exam_prefix year)) db.exams))
      2

-- The loop of `generateExamCode`, with the attempts that are left.
unfoldable pub generate_attempts : ℕ → ℕ → Database → Result Text
generate_attempts zero year db = err (conflict "Could not generate a unique exam code")
generate_attempts (suc more) year db =
    let again = generate_attempts more year db in
    let code = next_exam_code year db in
    if is_none (find_first (has_code code) db.exams) then ok code else again

-- `generateExamCode`
unfoldable pub generate_exam_code : ℕ → Database → Result Text
generate_exam_code year db = generate_attempts 5 year db

pub record CreateBeltExamDto : Type 0 where
  pub code : Option Text
  pub title : Text
  pub exam_date : ℕ
  pub target_rank_id : ℕ
  pub fee_amount : ℕ
  pub capacity : Option ℕ
  pub registration_deadline : ℕ

-- `dto.code ?? (await this.generateExamCode())`
abbrev pub code_or_generated : Option Text → ℕ → Database → Result Text
code_or_generated none year db = generate_exam_code year db
code_or_generated (some code) year db = ok code

abbrev pub new_exam : ℕ → Text → CreateBeltExamDto → BeltExam
new_exam new_id exam_code dto = record {
  id = new_id;
  code = exam_code;
  title = dto.title;
  exam_date = dto.exam_date;
  target_rank_id = dto.target_rank_id;
  fee_amount = dto.fee_amount;
  capacity = dto.capacity;
  registration_deadline = dto.registration_deadline;
  status = ExamStatus.draft;
}

abbrev or_fail {ℓ} : {A : Type ℓ} → Result A → Action A
or_fail (ok a) = pure a
or_fail (err e) = throw e

abbrev pub same_exam : BeltExam → BeltExam → Bool
same_exam e f = f.id == e.id || text_eq f.code e.code

unfoldable pub insert_exam : BeltExam → Action BeltExam
insert_exam e = do
  rows ← gets (λ db. db.exams)
  throw_if (is_some (find_first (same_exam e) rows)) unique_violation
  modify (λ db. record db { exams = db.exams ++ e ∷ [] })
  pure e

-- `create`
unfoldable pub create_exam : CreateBeltExamDto → ℕ → ℕ → Action BeltExam
create_exam dto new_id year = do
  assert_target_rank dto.target_rank_id
  assert_date_order dto.registration_deadline dto.exam_date
  exam_code ← or_fail (← gets (code_or_generated dto.code year))
  exam ← insert_exam (new_exam new_id exam_code dto)
  record_entry none (belt_exam_created exam.id exam.code) true
  pure exam

-- `current.orderIndex >= target.orderIndex`, when both ranks are there
abbrev pub not_below : Option BeltRank → Option BeltRank → Bool
not_below none target = false
not_below (some current) none = false
not_below (some current) (some target) = leb target.order_index current.order_index

abbrev pub is_rank : ℕ → BeltRank → Bool
is_rank k r = r.id == k

abbrev pub ranks_in : ℕ → ℕ → List BeltRank → List BeltRank
ranks_in current target ranks = find_many (λ r. is_rank current r || is_rank target r) ranks

-- The check of the student's rank, at registration and at a result.
unfoldable pub already_holds : Option ℕ → ℕ → List BeltRank → Bool
already_holds none target ranks = false
already_holds (some current) target ranks =
    let rows = ranks_in current target ranks in
    not_below (find_first (is_rank current) rows) (find_first (is_rank target) rows)

abbrev pub is_registered : ℕ → ExamRegistration → Bool
is_registered exam r = r.exam_id == exam && not (is_cancelled r.status)

abbrev pub is_full : Option ℕ → ℕ → Bool
is_full none registered = false
is_full (some capacity) registered = leb capacity registered

-- The key `examId_studentId`
abbrev pub is_pair : ℕ → ℕ → ExamRegistration → Bool
is_pair exam student_id r = r.exam_id == exam && r.student_id == student_id

abbrev pub new_registration : ℕ → BeltExam → StudentProfile → ExamRegistration
new_registration new_id exam profile = record {
  id = new_id;
  exam_id = exam.id;
  student_id = profile.id;
  current_rank_id = profile.current_belt_rank_id;
  target_rank_id = exam.target_rank_id;
  status = RegistrationStatus.pending_payment;
  result_note = none;
  examiner_id = none;
}

abbrev pub fee_of : BeltExam → ExamFee
fee_of exam = record {
  code = exam.code;
  title = exam.title;
  fee_amount = exam.fee_amount;
  exam_date = exam.exam_date;
}

abbrev pub add_registration : ExamRegistration → Database → Database
add_registration r db = record db { registrations = db.registrations ++ r ∷ [] }

-- `tx.examRegistration.create`
unfoldable pub insert_registration : ExamRegistration → Action ExamRegistration
insert_registration r = do
  rows ← gets (λ db. db.registrations)
  throw_if (is_some (find_unique registration_id r.id rows)) unique_violation
  throw_if (is_some (find_first (is_pair r.exam_id r.student_id) rows)) unique_violation
  modify (add_registration r)
  pure r
