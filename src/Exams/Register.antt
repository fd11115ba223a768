-- ===== src/Exams/Register.antt =====
-- src/exams/exams.service.ts: `register`.
use vovinam_api_node.Base.{
  ℕ, true, not, ◌&&◌, none, ltb, ◌==◌, is_some, find_first, find_unique, count_where,
}
use vovinam_api_node.Schema.{Caller, StudentProfile, BeltExam, ExamRegistration, Invoice}
use vovinam_api_node.Service.{
  Action, ◌>>=◌, ◌>>◌, pure, throw_if, or_throw, gets, transaction, record_entry, not_found,
  conflict, exam_registration_created,
}
use vovinam_api_node.Ownership.{assert_can_access, is_live}
use vovinam_api_node.Billing.Issue.{create_exam_fee_invoice}
use vovinam_api_node.Exams.{
  exam_id, is_open, is_active, already_holds, is_registered, is_full, is_pair, new_registration,
  fee_of, insert_registration,
}

-- The checks of the transaction, up to the first write.
unfoldable pub check_registration : ℕ → ℕ → ℕ → Action (BeltExam × StudentProfile)
check_registration exam_key student_id now = do
  exam ← or_throw (← gets (λ db. find_unique exam_id exam_key db.exams)) not_found
  throw_if (not (is_open exam.status)) (conflict "Exam is not open for registration")
  throw_if (ltb exam.registration_deadline now) (conflict "Registration deadline has passed")
  profile ←
      or_throw
        (← gets
          (λ db. find_first (λ (p : StudentProfile). p.id == student_id && is_live p) db.profiles))
        not_found
  throw_if (not (is_active profile.status)) (conflict "Student profile is not active")
  held ← gets (λ db. already_holds profile.current_belt_rank_id exam.target_rank_id db.ranks)
  throw_if held (conflict "Student already holds this rank or higher")
  registered ← gets (λ db. count_where (is_registered exam_key) db.registrations)
  throw_if (is_full exam.capacity registered) (conflict "Exam is full")
  duplicate ← gets (λ db. is_some (find_first (is_pair exam_key student_id) db.registrations))
  throw_if duplicate (conflict "Student is already registered for this exam")
  pure (exam, profile)

unfoldable pub write_registration :
    Caller → ℕ → ℕ → ℕ → BeltExam → StudentProfile → Action (ExamRegistration × Invoice)
write_registration caller new_id invoice_key year exam profile = do
  created ← insert_registration (new_registration new_id exam profile)
  invoice ← create_exam_fee_invoice invoice_key profile.id (fee_of exam) created.id caller.id year
  pure (created, invoice)

unfoldable pub register_body : Caller → ℕ → ℕ → ℕ → ℕ → ℕ → ℕ → Action (ExamRegistration × Invoice)
register_body caller exam_key student_id new_id invoice_key now year = do
  (exam, profile) ← check_registration exam_key student_id now
  write_registration caller new_id invoice_key year exam profile

-- `register`
unfoldable pub register : Caller → ℕ → ℕ → ℕ → ℕ → ℕ → ℕ → Action (ExamRegistration × Invoice)
register caller exam_key student_id new_id invoice_key now year = do
  assert_can_access caller student_id
  (created, invoice) ←
      transaction (register_body caller exam_key student_id new_id invoice_key now year)
  record_entry none (exam_registration_created created.id student_id exam_key) true
  pure (created, invoice)
