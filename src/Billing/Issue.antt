-- ===== src/Billing/Issue.antt =====
-- src/billing/billing.service.ts: issuing an invoice. A clock reading, the year of it and the id of
-- a new row are arguments.
use vovinam_api_node.Base.{
  ℕ, zero, suc, ◌+◌, ◌-◌, ◌*◌, Bool, true, false, ◌&&◌, ◌||◌, Option, none, some, List, [], ◌∷◌,
  ◌++◌, Text, codes, decimal, map, ltb, ◌==◌, text_eq, is_some, is_none, if◌then◌else◌, find_first,
  find_many,
}
use vovinam_api_node.Schema.{
  Caller, Invoice, InvoiceItem, InvoiceType, InvoiceStatus, StudentProfile, Notification,
  NotificationChannel, NotificationStatus, Database,
}
use vovinam_api_node.Service.{
  Error, Result, ok, err, World, Action, ◌>>=◌, ◌>>◌, pure, throw, throw_if, or_throw, gets, modify,
  transaction, record_entry, not_found, bad_request, unique_violation, invoice_issued,
  invoice_created,
}
use vovinam_api_node.Billing.Codes.{starts_with, next_sequential_code}
use vovinam_api_node.Billing.Money.{ItemDto, subtotal_from, total_discount, to_upper_case}

abbrev pub type_code : InvoiceType → ℕ
type_code InvoiceType.tuition = 0
type_code InvoiceType.exam_fee = 1
type_code InvoiceType.uniform = 2
type_code InvoiceType.other = 3

abbrev pub is_tuition : InvoiceType → Bool
is_tuition InvoiceType.tuition = true
is_tuition _ = false

-- Two values of a nullable column clash only when neither is null.
abbrev pub both_equal : Option ℕ → Option ℕ → Bool
both_equal (some a) (some b) = a == b
both_equal (some a) none = false
both_equal none b = false

-- `@@unique([studentId, type, periodMonth, periodYear])`
abbrev pub same_period : Invoice → Invoice → Bool
same_period i j =
    i.student_id == j.student_id
    && (type_code i.kind == type_code j.kind
        && (both_equal i.period_month j.period_month && both_equal i.period_year j.period_year))

abbrev pub clashes : Invoice → Invoice → Bool
clashes i j = i.id == j.id || (text_eq j.invoice_no i.invoice_no || same_period i j)

-- `tx.invoice.create`: the database refuses a row that clashes with one that is there.
unfoldable pub insert_invoice : Invoice → Action Invoice
insert_invoice i = do
  rows ← gets (λ db. db.invoices)
  throw_if (is_some (find_first (clashes i) rows)) unique_violation
  modify (λ db. record db { invoices = db.invoices ++ i ∷ [] })
  pure i

abbrev pub insert_items : List InvoiceItem → Action (Unit {0})
insert_items items = modify (λ db. record db { invoice_items = db.invoice_items ++ items })

abbrev pub invoice_prefix : ℕ → Text
invoice_prefix year = codes "INV-" ++ (decimal year ++ codes "-")

unfoldable pub next_invoice_no : ℕ → Database → Text
next_invoice_no year db =
    let prefix = invoice_prefix year in
    next_sequential_code prefix
      (map (λ (i : Invoice). i.invoice_no)
        (find_many (λ (i : Invoice). starts_with i.invoice_no prefix) db.invoices))
      4

abbrev pub is_unique_violation : Error → Bool
is_unique_violation unique_violation = true
is_unique_violation _ = false

abbrev pub retry_after {ℓ} :
    {A : Type ℓ} → Result A × World → (World → Result A × World) → Result A × World
retry_after (ok a, w) next = (ok a, w)
retry_after (err e, w) next = if is_unique_violation e then next w else (err e, w)

-- The loop over the attempts: a violated unique constraint is tried again, as often as the number says.
unfoldable pub retry {ℓ} : {A : Type ℓ} → ℕ → Action A → Action A
retry zero m w = m w
retry (suc more) m w = retry_after (m w) (retry more m)

-- The exam as `createExamFeeInvoice` takes it.
pub record ExamFee : Type 0 where
  pub code : Text
  pub title : Text
  pub fee_amount : ℕ
  pub exam_date : ℕ

abbrev pub exam_fee_invoice : ℕ → Text → ℕ → ExamFee → ℕ → ℕ → Invoice
exam_fee_invoice new_id number student exam registration creator = record {
  id = new_id;
  invoice_no = number;
  student_id = student;
  kind = InvoiceType.exam_fee;
  ref_exam_registration_id = some registration;
  period_month = none;
  period_year = none;
  subtotal = exam.fee_amount;
  discount = 0;
  total = exam.fee_amount;
  status = InvoiceStatus.unpaid;
  due_date = exam.exam_date;
  note = some (codes "Belt exam " ++ exam.code ++ codes " (" ++ exam.title ++ codes ")");
  created_by = creator;
}

abbrev pub exam_fee_item : ℕ → ExamFee → InvoiceItem
exam_fee_item inv exam = record {
  invoice_id = inv;
  description = codes "Belt exam fee " ++ exam.code ++ codes " — " ++ exam.title;
  quantity = 1;
  unit_amount = exam.fee_amount;
  amount = exam.fee_amount;
}

unfoldable pub exam_fee_attempt : ℕ → ℕ → ExamFee → ℕ → ℕ → ℕ → Action Invoice
exam_fee_attempt new_id student exam registration creator year = do
  number ← gets (next_invoice_no year)
  invoice ← insert_invoice (exam_fee_invoice new_id number student exam registration creator)
  insert_items (exam_fee_item invoice.id exam ∷ [])
  record_entry none (invoice_issued invoice.id registration) true
  pure invoice

-- It runs in the transaction of its caller.
unfoldable pub create_exam_fee_invoice : ℕ → ℕ → ExamFee → ℕ → ℕ → ℕ → Action Invoice
create_exam_fee_invoice new_id student exam registration creator year =
    retry 4 (exam_fee_attempt new_id student exam registration creator year)

pub record CreateInvoiceDto : Type 0 where
  pub student_id : ℕ
  pub kind : InvoiceType
  pub items : List ItemDto
  pub discount : Option ℕ
  pub discount_code : Option Text
  pub due_date : Option ℕ
  pub note : Option Text
  pub period_month : Option ℕ
  pub period_year : Option ℕ

-- Whether the billing period is there exactly for tuition.
unfoldable pub check_period : CreateInvoiceDto → Action (Unit {0})
check_period dto =
    if is_tuition dto.kind
    then throw_if (is_none dto.period_month || is_none dto.period_year)
        (bad_request "Tuition invoices need a billing period")
    else throw_if (is_some dto.period_month || is_some dto.period_year)
        (bad_request "Only tuition invoices carry a billing period")

abbrev pub or_fail {ℓ} : {A : Type ℓ} → Result A → Action A
or_fail (ok a) = pure a
or_fail (err e) = throw e

-- 14 days from now
abbrev pub default_due_date : ℕ → ℕ
default_due_date now = now + 1209600000

abbrev pub due_date_of : Option ℕ → ℕ → ℕ
due_date_of none now = default_due_date now
due_date_of (some due) now = due

abbrev pub manual_invoice : ℕ → Text → ℕ → ℕ → CreateInvoiceDto → ℕ → ℕ → Invoice
manual_invoice new_id number subtotal discount dto creator now = record {
  id = new_id;
  invoice_no = number;
  student_id = dto.student_id;
  kind = dto.kind;
  ref_exam_registration_id = none;
  period_month = dto.period_month;
  period_year = dto.period_year;
  subtotal = subtotal;
  discount = discount;
  total = subtotal - discount;
  status = InvoiceStatus.unpaid;
  due_date = due_date_of dto.due_date now;
  note = dto.note;
  created_by = creator;
}

abbrev pub item_row : ℕ → ItemDto → InvoiceItem
item_row inv item = record {
  invoice_id = inv;
  description = item.description;
  quantity = item.quantity;
  unit_amount = item.unit_amount;
  amount = item.quantity * item.unit_amount;
}

-- The rows of `enqueueInApp` and of `enqueue` for the channel EMAIL, for a profile with a user.
abbrev pub issue_notices : ℕ → Option ℕ → ℕ → List Notification
issue_notices inv none now = []
issue_notices inv (some user) now =
    record {
      user_id = some user;
      channel = NotificationChannel.inapp;
      template_code = codes "invoice_issued";
      about = inv;
      status = NotificationStatus.sent;
      sent_at = some now;
    }
    ∷ record {
      user_id = some user;
      channel = NotificationChannel.email;
      template_code = codes "invoice_issued";
      about = inv;
      status = NotificationStatus.queued;
      sent_at = none;
    }
    ∷ []

abbrev pub insert_notices : List Notification → Action (Unit {0})
insert_notices rows = modify (λ db. record db { notifications = db.notifications ++ rows })

unfoldable pub create_body :
    ℕ → StudentProfile → ℕ → ℕ → CreateInvoiceDto → ℕ → ℕ → ℕ → Action Invoice
create_body new_id profile subtotal discount dto creator now year = do
  number ← gets (next_invoice_no year)
  invoice ← insert_invoice (manual_invoice new_id number subtotal discount dto creator now)
  insert_items (map (item_row invoice.id) dto.items)
  insert_notices (issue_notices invoice.id profile.user_id now)
  pure invoice

unfoldable pub issue_invoice :
    ℕ → StudentProfile → ℕ → ℕ → CreateInvoiceDto → ℕ → ℕ → ℕ → Action Invoice
issue_invoice new_id profile subtotal discount dto creator now year =
    retry 4 (transaction (create_body new_id profile subtotal discount dto creator now year))

-- The code as it goes to the audit log.
abbrev pub applied_code : Option Text → Option Text
applied_code none = none
applied_code (some []) = none
applied_code (some (c ∷ code)) = some (to_upper_case (c ∷ code))

-- What `create` computes before it writes: the profile, the subtotal and the discount.
unfoldable pub prepare_invoice : CreateInvoiceDto → ℕ → Action (StudentProfile × (ℕ × ℕ))
prepare_invoice dto now = do
  profile ←
      or_throw
        (← gets (λ db.
          find_first (λ (p : StudentProfile). p.id == dto.student_id && is_none p.deleted_at)
            db.profiles))
        not_found
  check_period dto
  subtotal ← or_fail (subtotal_from 0 dto.items)
  discount ← or_fail (← gets (total_discount dto.discount dto.discount_code subtotal now))
  throw_if (ltb subtotal discount) (bad_request "Discount cannot exceed the subtotal")
  pure (profile, (subtotal, discount))

-- `create`
unfoldable pub create_invoice : Caller → CreateInvoiceDto → ℕ → ℕ → ℕ → Action Invoice
create_invoice caller dto new_id now year = do
  (profile, (subtotal, discount)) ← prepare_invoice dto now
  created ← issue_invoice new_id profile subtotal discount dto caller.id now year
  record_entry none (invoice_created created.id dto.student_id (applied_code dto.discount_code))
      true
  pure created
