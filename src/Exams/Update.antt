-- ===== src/Exams/Update.antt =====
-- src/exams/exams.service.ts: `update`.
use vovinam_api_node.Base.{
  ℕ, Bool, true, not, ◌&&◌, Option, none, some, Text, ◌==◌, text_eq, is_some, find_first,
  find_unique, update_many,
}
use vovinam_api_node.Schema.{BeltExam, ExamStatus}
use vovinam_api_node.Service.{
  Action, ◌>>=◌, ◌>>◌, pure, throw_if, or_throw, gets, modify, record_entry, not_found,
  unique_violation, belt_exam_updated,
}
use vovinam_api_node.Exams.{exam_id, assert_target_rank, assert_date_order}

pub record UpdateBeltExamDto : Type 0 where
  pub code : Option Text
  pub title : Option Text
  pub exam_date : Option ℕ
  pub target_rank_id : Option ℕ
  pub fee_amount : Option ℕ
  pub capacity : Option ℕ
  pub registration_deadline : Option ℕ
  pub status : Option ExamStatus

abbrev or_kept {ℓ} : {A : Type ℓ} → Option A → A → A
or_kept none old = old
or_kept (some new) old = new

abbrev or_same : Option ℕ → Option ℕ → Option ℕ
or_same none old = old
or_same (some new) old = some new

abbrev pub changed_exam : UpdateBeltExamDto → BeltExam → BeltExam
changed_exam dto e = record e {
  code = or_kept dto.code e.code;
  title = or_kept dto.title e.title;
  exam_date = or_kept dto.exam_date e.exam_date;
  target_rank_id = or_kept dto.target_rank_id e.target_rank_id;
  fee_amount = or_kept dto.fee_amount e.fee_amount;
  capacity = or_same dto.capacity e.capacity;
  registration_deadline = or_kept dto.registration_deadline e.registration_deadline;
  status = or_kept dto.status e.status;
}

abbrev check_new_rank : Option ℕ → Action (Unit {0})
check_new_rank none = pure tt
check_new_rank (some rank) = assert_target_rank rank

abbrev is_exam : ℕ → BeltExam → Bool
is_exam k e = e.id == k

-- Another exam with the code
abbrev holds_code : ℕ → Text → BeltExam → Bool
holds_code k code e = not (is_exam k e) && text_eq e.code code

-- `update`
unfoldable pub update_exam : ℕ → UpdateBeltExamDto → Action BeltExam
update_exam k dto = do
  exam ← or_throw (← gets (λ db. find_unique exam_id k db.exams)) not_found
  check_new_rank dto.target_rank_id
  assert_date_order (or_kept dto.registration_deadline exam.registration_deadline)
      (or_kept dto.exam_date exam.exam_date)
  taken ← gets (λ db. is_some (find_first (holds_code k (changed_exam dto exam).code) db.exams))
  throw_if taken unique_violation
  modify (λ db. record db { exams = update_many (is_exam k) (changed_exam dto) db.exams })
  record_entry none (belt_exam_updated k) true
  pure (changed_exam dto exam)
