-- ===== src/Exams/Results.antt =====
-- src/exams/exams.service.ts: `recordResult`.
use vovinam_api_node.Base.{
  ℕ, Bool, true, false, not, ◌&&◌, Option, none, some, Text, ◌==◌, is_none, find_first, find_unique,
  update_many,
}
use vovinam_api_node.Schema.{
  Caller, User, StudentProfile, BeltExam, ExamRegistration, RegistrationStatus, Database,
}
use vovinam_api_node.Service.{
  Action, ◌>>=◌, ◌>>◌, pure, throw_if, or_throw, gets, modify, transaction, record_entry, not_found,
  conflict, bad_request, record_missing, exam_result_recorded,
}
use vovinam_api_node.Ownership.{assert_can_access}
use vovinam_api_node.Ownership.Laws.{profile_id}
use vovinam_api_node.Exams.{
  exam_id, registration_id, is_cancelled, has_result, is_admin, is_examiner_role, already_holds,
}

-- The two results that may be recorded.
pub data Verdict : Type 0 where
  passed missed : Verdict

abbrev pub verdict_status : Verdict → RegistrationStatus
verdict_status passed = RegistrationStatus.result_pass
verdict_status missed = RegistrationStatus.result_fail

pub record ExamResultDto : Type 0 where
  pub verdict : Verdict
  pub result_note : Option Text
  pub examiner_id : Option ℕ

abbrev pub is_examiner : ℕ → User → Bool
is_examiner k u = u.id == k && (is_none u.deleted_at && (u.is_active && is_examiner_role u.role))

-- Who the result is attributed to.
unfoldable pub resolve_examiner : Caller → Option ℕ → Action ℕ
resolve_examiner caller none = pure caller.id
resolve_examiner caller (some k) = do
  throw_if (not (is_admin caller.role))
      (bad_request "Only an admin can attribute a different examiner")
  examiner ← or_throw (← gets (λ db. find_first (is_examiner k) db.users)) not_found
  pure examiner.id

-- A field of `data` that is undefined leaves the column.
abbrev or_kept : Option Text → Option Text → Option Text
or_kept none old = old
or_kept (some t) old = some t

abbrev pub result_row : ExamResultDto → ℕ → ExamRegistration → ExamRegistration
result_row dto examiner r = record r {
  status = verdict_status dto.verdict;
  result_note = or_kept dto.result_note r.result_note;
  examiner_id = some examiner;
}

abbrev pub is_registration : ℕ → ExamRegistration → Bool
is_registration k r = r.id == k

abbrev pub set_result : ℕ → ExamResultDto → ℕ → Database → Database
set_result k dto examiner db = record db {
  registrations = update_many (is_registration k) (result_row dto examiner) db.registrations;
}

abbrev pub is_student : ℕ → StudentProfile → Bool
is_student k p = p.id == k

abbrev pub rank_row : ℕ → StudentProfile → StudentProfile
rank_row target p = record p { current_belt_rank_id = some target }

abbrev pub set_rank : ℕ → ℕ → Database → Database
set_rank k target db = record db {
  profiles = update_many (is_student k) (rank_row target) db.profiles;
}

abbrev pub current_rank : Option StudentProfile → Option ℕ
current_rank none = none
current_rank (some p) = p.current_belt_rank_id

-- What a passed exam does to the student's rank.
unfoldable pub promote : ℕ → ℕ → Action (Unit {0})
promote student_id target = do
  profile ← gets (λ db. find_unique profile_id student_id db.profiles)
  held ← gets (λ db. already_holds (current_rank profile) target db.ranks)
  throw_if held (conflict "Student already holds this rank or higher")
  throw_if (is_none profile) record_missing
  modify (set_rank student_id target)

unfoldable pub promote_on : Verdict → ℕ → ℕ → Action (Unit {0})
promote_on passed student_id target = promote student_id target
promote_on missed student_id target = pure tt

unfoldable pub guard_examiner : Bool → Caller → ℕ → Action (Unit {0})
guard_examiner true caller student_id = pure tt
guard_examiner false caller student_id = assert_can_access caller student_id

-- The checks of the transaction, up to the first write.
unfoldable pub check_result : Caller → ℕ → Action (ExamRegistration × BeltExam)
check_result caller k = do
  registration ← or_throw (← gets (λ db. find_unique registration_id k db.registrations)) not_found
  exam ← or_throw (← gets (λ db. find_unique exam_id registration.exam_id db.exams)) record_missing
  guard_examiner (is_admin caller.role) caller registration.student_id
  throw_if (has_result registration.status) (conflict "Result already recorded")
  throw_if (is_cancelled registration.status) (conflict "Registration is cancelled")
  pure (registration, exam)

unfoldable pub result_body : Caller → ℕ → ExamResultDto → ℕ → Action ExamRegistration
result_body caller k dto examiner = do
  (registration, exam) ← check_result caller k
  modify (set_result k dto examiner)
  promote_on dto.verdict registration.student_id exam.target_rank_id
  pure (result_row dto examiner registration)

-- `recordResult`
unfoldable pub record_result : Caller → ℕ → ExamResultDto → Action ExamRegistration
record_result caller k dto = do
  examiner ← resolve_examiner caller dto.examiner_id
  updated ← transaction (result_body caller k dto examiner)
  record_entry none (exam_result_recorded k (verdict_status dto.verdict) examiner) true
  pure updated
