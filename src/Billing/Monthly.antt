-- ===== src/Billing/Monthly.antt =====
-- src/billing/billing.service.ts: `generateMonthly`. The end of the month and the tenth of it are
-- arguments, and so are the ids of the new invoices, one for each student.
use vovinam_api_node.Base.{
  ℕ, ◌+◌, Bool, true, false, ◌&&◌, ◌||◌, Option, none, some, List, [], ◌∷◌, ◌++◌, Text, codes,
  decimal, ltb, ◌==◌, is_none, if◌then◌else◌, find_many, find_unique, map, sum_of,
}
use vovinam_api_node.Schema.{
  Caller, Class, Enrollment, StudentProfile, StudentStatus, Invoice, InvoiceItem, InvoiceType,
  InvoiceStatus,
}
use vovinam_api_node.Service.{
  Result, ok, err, World, Action, ◌>>=◌, ◌>>◌, pure, gets, transaction, record_entry,
  tuition_generated,
}
use vovinam_api_node.Ownership.{is_live}
use vovinam_api_node.Billing.Issue.{
  insert_invoice, insert_items, next_invoice_no, is_unique_violation,
}

pub record GenerateMonthlyDto : Type 0 where
  pub month : ℕ
  pub year : ℕ
  pub class_ids : List ℕ

abbrev rate_of : ℕ → List (ℕ × Option ℕ) → Option ℕ
rate_of k [] = none
rate_of k ((c, rate) ∷ rates) = if c == k then rate else rate_of k rates

abbrev has_key : ℕ → ℕ × ℕ → Bool
has_key k entry = entry.0 == k

-- `rateByClass.set`: a key that is there keeps its place.
abbrev set_rate : ℕ → ℕ → List (ℕ × ℕ) → List (ℕ × ℕ)
set_rate k rate [] = (k, rate) ∷ []
set_rate k rate (entry ∷ rates) =
    if has_key k entry then (k, rate) ∷ rates else entry ∷ set_rate k rate rates

-- The loop over the classes: the rates, and the classes that have none.
unfoldable pub collect_rates :
    List (ℕ × Option ℕ) → List ℕ → List (ℕ × ℕ) → List ℕ → List (ℕ × ℕ) × List ℕ
collect_rates settings [] rates skipped = (rates, skipped)
collect_rates settings (k ∷ ks) rates skipped = elim (rate_of k settings) [
  | none ↦ collect_rates settings ks rates (skipped ++ k ∷ [])
  | some rate ↦ collect_rates settings ks (set_rate k rate rates) skipped
]

abbrev rate_or_zero : ℕ → List (ℕ × ℕ) → ℕ
rate_or_zero k [] = 0
rate_or_zero k (entry ∷ rates) = if has_key k entry then entry.1 else rate_or_zero k rates

abbrev has_rate : ℕ → List (ℕ × ℕ) → Bool
has_rate k [] = false
has_rate k (entry ∷ rates) = has_key k entry || has_rate k rates

abbrev is_active : StudentStatus → Bool
is_active StudentStatus.active = true
is_active _ = false

-- The relation filter `student: { deletedAt: null, status: 'ACTIVE' }`
abbrev has_active_student : List StudentProfile → Enrollment → Bool
has_active_student profiles e =
    elim (find_unique (λ (p : StudentProfile). p.id) e.student_id profiles) [
      | none ↦ false
      | some p ↦ is_live p && is_active p.status
    ]

unfoldable pub is_billed_enrollment : List (ℕ × ℕ) → ℕ → List StudentProfile → Enrollment → Bool
is_billed_enrollment rates month_end profiles e =
    has_rate e.class_id rates
    && (is_none e.left_at && (ltb e.enrolled_at month_end && has_active_student profiles e))

-- `byStudent`: the classes of each student, in the order in which they come.
abbrev push_class : ℕ → ℕ → List (ℕ × List ℕ) → List (ℕ × List ℕ)
push_class student class_id [] = (student, class_id ∷ []) ∷ []
push_class student class_id ((s, classes) ∷ rest) =
    if s == student
    then (s, classes ++ class_id ∷ []) ∷ rest
    else (s, classes) ∷ push_class student class_id rest

unfoldable pub group_by_student : List Enrollment → List (ℕ × List ℕ) → List (ℕ × List ℕ)
group_by_student [] groups = groups
group_by_student (e ∷ es) groups = group_by_student es (push_class e.student_id e.class_id groups)

abbrev class_name : ℕ → List Class → Text
class_name k classes = elim (find_unique (λ (c : Class). c.id) k classes) [
  | none ↦ []
  | some c ↦ c.name
]

abbrev period_text : GenerateMonthlyDto → Text
period_text dto = codes "Tuition " ++ (decimal dto.month ++ (codes "/" ++ decimal dto.year))

abbrev pub tuition_item : ℕ → GenerateMonthlyDto → List (ℕ × ℕ) → List Class → ℕ → InvoiceItem
tuition_item inv dto rates classes k = record {
  invoice_id = inv;
  description = period_text dto ++ (codes " — " ++ class_name k classes);
  quantity = 1;
  unit_amount = rate_or_zero k rates;
  amount = rate_or_zero k rates;
}

abbrev pub tuition_total : List (ℕ × ℕ) → List ℕ → ℕ
tuition_total rates ks = sum_of (λ k. rate_or_zero k rates) ks

abbrev pub tuition_invoice : ℕ → Text → ℕ → GenerateMonthlyDto → ℕ → ℕ → ℕ → Invoice
tuition_invoice new_id number student dto total due creator = record {
  id = new_id;
  invoice_no = number;
  student_id = student;
  kind = InvoiceType.tuition;
  ref_exam_registration_id = none;
  period_month = some dto.month;
  period_year = some dto.year;
  subtotal = total;
  discount = 0;
  total = total;
  status = InvoiceStatus.unpaid;
  due_date = due;
  note = some (period_text dto);
  created_by = creator;
}

unfoldable pub bill_body :
    Caller → GenerateMonthlyDto → ℕ → List (ℕ × ℕ) → ℕ → ℕ → List ℕ → Action (Unit {0})
bill_body caller dto due rates new_id student ks = do
  number ← gets (next_invoice_no dto.year)
  invoice ←
      insert_invoice
        (tuition_invoice new_id number student dto (tuition_total rates ks) due caller.id)
  classes ← gets (λ db. db.classes)
  insert_items (map (tuition_item invoice.id dto rates classes) ks)

-- How many invoices were created, and how many were there before.
abbrev pub Tally : Type 0
Tally = ℕ × ℕ

-- The `try` of the loop: a violated unique constraint counts as one that was there.
abbrev pub count_outcome : Tally → Result (Unit {0}) × World → Result Tally × World
count_outcome (created, skipped) (ok u, w) = (ok (created + 1, skipped), w)
count_outcome (created, skipped) (err e, w) =
    if is_unique_violation e then (ok (created, skipped + 1), w) else (err e, w)

-- The loop over the students.
unfoldable pub bill_students :
    Caller
    → GenerateMonthlyDto
    → ℕ
    → List (ℕ × ℕ)
    → (ℕ → ℕ)
    → List (ℕ × List ℕ)
    → Tally
    → Action Tally
bill_students caller dto due rates new_id [] tally = pure tally
bill_students caller dto due rates new_id ((student, ks) ∷ rest) tally =
    (λ w.
      count_outcome tally
        (transaction (bill_body caller dto due rates (new_id student) student ks) w))
    >>= bill_students caller dto due rates new_id rest

-- `generateMonthly`: the tally and the classes that were skipped.
unfoldable pub generate_monthly :
    Caller → GenerateMonthlyDto → ℕ → ℕ → (ℕ → ℕ) → Action (Tally × List ℕ)
generate_monthly caller dto month_end due new_id = do
  settings ← gets (λ db. db.tuition_rates)
  let rates : List (ℕ × ℕ) = (collect_rates settings dto.class_ids [] []).0
  enrollments ←
      gets (λ db. find_many (is_billed_enrollment rates month_end db.profiles) db.enrollments)
  tally ← bill_students caller dto due rates new_id (group_by_student enrollments []) (0, 0)
  record_entry none (tuition_generated dto.month dto.year tally.0 tally.1) true
  pure (tally, (collect_rates settings dto.class_ids [] []).1)
