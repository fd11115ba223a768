-- ===== src/Billing/Tuition.antt =====
-- `generateMonthly` of src/billing/billing.service.ts against the invariant of the payments.
use vovinam_api_node.Base.{ℕ, refl, List, [], ◌∷◌, find_many, Bool-cases, inl, inr}
use vovinam_api_node.Schema.{Caller}
use vovinam_api_node.Service.{World, Result, ok, err, resume, resume-db, commit, commit-keeps}
use vovinam_api_node.Payments.Invariant.{IsConsistent}
use vovinam_api_node.Billing.Issue.{next_invoice_no, is_unique_violation}
use vovinam_api_node.Billing.Sequence.{is_taken, insert_invoice-next}
use vovinam_api_node.Billing.Consistent.{add_invoice-IsConsistent, free-find_unique}
use vovinam_api_node.Billing.Monthly.{
  GenerateMonthlyDto, collect_rates, is_billed_enrollment, group_by_student, tuition_invoice,
  tuition_total, bill_body, Tally, count_outcome, bill_students, generate_monthly,
}

count_outcome-IsConsistent :
    (tally : Tally) (out : Result (Unit {0}) × World)
    → IsConsistent out.1.db
    → IsConsistent (count_outcome tally out).1.db
count_outcome-IsConsistent tally (ok u, w) h = h
count_outcome-IsConsistent tally (err e, w) h = elim (Bool-cases (is_unique_violation e)) [
  | inl y ↦ rw y h
  | inr n ↦ rw n h
]

bill_body-IsConsistent :
    (caller : Caller) (dto : GenerateMonthlyDto) (due : ℕ) (rates : List (ℕ × ℕ))
    (new_id student : ℕ) (ks : List ℕ) (w : World)
    → IsConsistent w.db
    → IsConsistent (bill_body caller dto due rates new_id student ks w).1.db
unfolding bill_body
bill_body-IsConsistent caller dto due rates new_id student ks w h =
    let i =
      tuition_invoice new_id (next_invoice_no dto.year w.db) student dto (tuition_total rates ks)
        due caller.id in
    let inserted = insert_invoice-next i dto.year w refl in
    elim (Bool-cases (is_taken i w.db)) [
      | inl taken ↦ rw (inserted, taken) h
      | inr free ↦
          rw (inserted, free)
            (add_invoice-IsConsistent i w.db _ h (free-find_unique i w.db.invoices free) refl refl
              refl)
    ]

module _ (caller : Caller) (dto : GenerateMonthlyDto) (due : ℕ) (rates : List (ℕ × ℕ))
    (new_id : ℕ → ℕ) where
  after_student :
      (rest : List (ℕ × List ℕ)) (out : Result Tally × World)
      → IsConsistent out.1.db
      → ((tally : Tally) (v : World)
          → IsConsistent v.db
          → IsConsistent (bill_students caller dto due rates new_id rest tally v).1.db)
      → IsConsistent (resume out (bill_students caller dto due rates new_id rest)).1.db
  after_student rest (ok tally, v) h k = k tally v h
  after_student rest (err e, v) h k = h

  bill_students-IsConsistent :
      (groups : List (ℕ × List ℕ)) (tally : Tally) (w : World)
      → IsConsistent w.db
      → IsConsistent (bill_students caller dto due rates new_id groups tally w).1.db
  unfolding bill_students
  bill_students-IsConsistent [] tally w h = h
  bill_students-IsConsistent ((student, ks) ∷ rest) tally w h =
      let billed = bill_body caller dto due rates (new_id student) student ks w in
      after_student rest (count_outcome tally (commit w.db billed))
        (count_outcome-IsConsistent tally (commit w.db billed) (
          commit-keeps IsConsistent w.db billed h
            (bill_body-IsConsistent caller dto due rates (new_id student) student ks w h)))
        (bill_students-IsConsistent rest)

-- The monthly close keeps invoices and payments consistent, whatever it is asked for.
pub generate_monthly-IsConsistent :
    (caller : Caller) (dto : GenerateMonthlyDto) (month_end due : ℕ) (new_id : ℕ → ℕ) (w : World)
    → IsConsistent w.db
    → IsConsistent (generate_monthly caller dto month_end due new_id w).1.db
unfolding generate_monthly
generate_monthly-IsConsistent caller dto month_end due new_id w h =
    let rates = (collect_rates w.db.tuition_rates dto.class_ids [] []).0 in
    let rows = find_many (is_billed_enrollment rates month_end w.db.profiles) w.db.enrollments in
    resume-db IsConsistent _
      (bill_students caller dto due rates new_id (group_by_student rows []) (0, 0) w) (λ t v. refl)
      (bill_students-IsConsistent caller dto due rates new_id (group_by_student rows []) (0, 0) w h)
