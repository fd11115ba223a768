-- ===== src/Tests/Exams.antt =====
-- An open exam with one place, for the rank above that of one student.
use mathlib.Core.Option.{some-injective}
use vovinam_api_node.Base.{
  ◌≡◌, ◌≤◌, refl, sym, ◌==◌, Bool-cases, inl, inr, true, none, some, [], ◌∷◌, arith, codes,
  find_unique, count_where,
}
use vovinam_api_node.Schema.{BeltRank, BeltExam, ExamStatus, ExamRegistration, RegistrationStatus}
use vovinam_api_node.Service.{World}
use vovinam_api_node.Exams.Register.{register}
use vovinam_api_node.Exams.Results.{passed, ExamResultDto, record_result}
use vovinam_api_node.Exams.Capacity.{IsOrderly, register-IsOrderly}
use vovinam_api_node.Exams.Ranks.{HasTargets, belt_order, record_result-keeps_belts}
use vovinam_api_node.Tests.Payments.{db, treasurer}
use vovinam_api_node.Tests.Billing.{trainee}

abbrev yellow : BeltRank
yellow = record { id = 1; order_index = 1; is_active = true }

abbrev red : BeltRank
red = record { id = 2; order_index = 2; is_active = true }

abbrev exam : BeltExam
exam = record {
  id = 5;
  code = codes "EXAM-2026-01";
  title = codes "Red belt";
  exam_date = 400;
  target_rank_id = 2;
  fee_amount = 300;
  capacity = some 1;
  registration_deadline = 300;
  status = ExamStatus.open_status;
}

abbrev school : World
school = record {
  db = record db {
    profiles = record trainee { current_belt_rank_id = some 1 } ∷ [];
    ranks = yellow ∷ red ∷ [];
    exams = exam ∷ [];
  };
  audit_queue = [];
  store = [];
  mails = [];
}

school-IsOrderly : IsOrderly school.db
unfolding find_unique count_where
school-IsOrderly = record { within = λ k c e found cap. omega arith; single = λ k s. omega arith }

register-IsOrderly_example : IsOrderly (register treasurer 5 7 1 2 50 2026 school).1.db
register-IsOrderly_example = register-IsOrderly treasurer 5 7 1 2 50 2026 school school-IsOrderly

abbrev entry : ExamRegistration
entry = record {
  id = 1;
  exam_id = 5;
  student_id = 7;
  current_rank_id = some 1;
  target_rank_id = 2;
  status = RegistrationStatus.paid;
  result_note = none;
  examiner_id = none;
}

abbrev entered : World
entered = record school { db = record school.db { registrations = entry ∷ [] } }

abbrev verdict : ExamResultDto
verdict = record { verdict = passed; result_note = none; examiner_id = none }

entered-HasTargets : HasTargets entered.db
unfolding find_unique
entered-HasTargets k e found = elim (Bool-cases (5 == k)) [
  | inr other ↦ absurd (ground (arith, found, other))
  | inl same ↦
      let here : some exam ≡ some e = rw same at found in
      (red, rw (sym (some-injective exam e here)) refl)
]

record_result-keeps_belts_example :
    belt_order 7 entered.db ≤ belt_order 7 (record_result treasurer 1 verdict entered).1.db
record_result-keeps_belts_example =
    record_result-keeps_belts treasurer 1 verdict 7 entered entered-HasTargets
