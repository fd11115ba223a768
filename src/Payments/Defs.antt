-- ===== src/Payments/Defs.antt =====
-- src/billing/payments.service.ts: the tests on rows, the writes that its operations share, cash
-- confirmation, refunds and disputes, and the creation of a QR payment. The bytes of an order
-- reference, the id of a new row and the provider's answer are arguments.
use vovinam_api_node.Base.{
  ℕ, ◌-◌, ◌%◌, Bool, true, false, not, ◌&&◌, ◌||◌, Option, none, some, List, [], ◌∷◌, ◌++◌, Text,
  codes, text_eq, ◌==◌, leb, is_some, if◌then◌else◌, find_unique, find_first, update_many,
  count_where, sum_of,
}
use vovinam_api_node.Schema.{
  Caller, Invoice, InvoiceStatus, PaymentTxn, PaymentGateway, TxnStatus, Database,
}
use vovinam_api_node.Service.{
  Action, ◌>>=◌, ◌>>◌, pure, throw_if, or_throw, gets, modify, transaction, record_entry, not_found,
  conflict, unique_violation, payment_confirmed_cash, payment_refunded, payment_disputed,
}

abbrev pub invoice_id : Invoice → ℕ
invoice_id i = i.id

abbrev pub payment_id : PaymentTxn → ℕ
payment_id p = p.id

abbrev pub is_success : TxnStatus → Bool
is_success TxnStatus.success = true
is_success _ = false

abbrev pub is_pending : TxnStatus → Bool
is_pending TxnStatus.pending = true
is_pending _ = false

-- `status: { in: ['PENDING', 'FAILED'] }`
abbrev pub is_open : TxnStatus → Bool
is_open TxnStatus.pending = true
is_open TxnStatus.failed = true
is_open _ = false

abbrev pub is_disputed : TxnStatus → Bool
is_disputed TxnStatus.disputed = true
is_disputed _ = false

-- `status: { in: ['UNPAID', 'OVERDUE'] }`
abbrev pub is_payable : InvoiceStatus → Bool
is_payable InvoiceStatus.unpaid = true
is_payable InvoiceStatus.overdue = true
is_payable _ = false

abbrev pub is_paid : InvoiceStatus → Bool
is_paid InvoiceStatus.paid = true
is_paid _ = false

-- What a row adds to `aggregate({ where: { invoiceId, status: 'SUCCESS' }, _sum })`.
unfoldable pub settled_amount : ℕ → PaymentTxn → ℕ
settled_amount inv p = if p.invoice_id == inv && is_success p.status then p.amount else 0

unfoldable pub total_settled : ℕ → Database → ℕ
total_settled inv db = sum_of (settled_amount inv) db.payments

unfoldable pub update_payments :
    (PaymentTxn → Bool) → (PaymentTxn → PaymentTxn) → Database → Database
update_payments p f db = record db { payments = update_many p f db.payments }

unfoldable pub update_invoices : (Invoice → Bool) → (Invoice → Invoice) → Database → Database
update_invoices p f db = record db { invoices = update_many p f db.invoices }

abbrev pub has_id : ℕ → PaymentTxn → Bool
has_id k p = p.id == k

abbrev pub is_invoice : ℕ → Invoice → Bool
is_invoice k i = i.id == k

abbrev pub status_row : InvoiceStatus → Invoice → Invoice
status_row s i = record i { status = s }

-- `tx.invoice.update({ where: { id }, data: { status } })`
abbrev pub set_invoice_status : ℕ → InvoiceStatus → Database → Database
set_invoice_status k s db = update_invoices (is_invoice k) (status_row s) db

-- `create`: the unique columns id and order_ref are checked by the database.
unfoldable pub create_payment : PaymentTxn → Action PaymentTxn
create_payment p = do
  rows ← gets (λ db. db.payments)
  throw_if (is_some (find_unique payment_id p.id rows)) unique_violation
  throw_if (is_some (find_first (λ (q : PaymentTxn). text_eq q.order_ref p.order_ref) rows))
      unique_violation
  modify (λ db. record db { payments = db.payments ++ p ∷ [] })
  pure p

-- `ORDER_ALPHABET`
abbrev pub order_alphabet : Text
order_alphabet = codes "ABCDEFGHJKLMNPQRSTUVWXYZ23456789"

pub char_at_or : ℕ → Text → ℕ → ℕ
char_at_or d [] i = d
char_at_or d (c ∷ cs) i = if i == 0 then c else char_at_or d cs (i - 1)

order_chars : List ℕ → Text
order_chars [] = []
order_chars (b ∷ bytes) = char_at_or 0 order_alphabet (b % 32) ∷ order_chars bytes

-- `generateOrderRef` on the eight random bytes
unfoldable pub generate_order_ref : List ℕ → Text
unfolding order_chars char_at_or
generate_order_ref bytes = codes "VV" ++ order_chars bytes

abbrev pub can_pay : ℕ → Invoice → Bool
can_pay k i = i.id == k && is_payable i.status

-- `tx.invoice.updateMany` of `confirmCash`: only an unpaid or overdue invoice is marked paid.
abbrev pub mark_paid : ℕ → Database → Database
mark_paid k db = update_invoices (can_pay k) (status_row InvoiceStatus.paid) db

-- The row that `confirmCash` creates.
abbrev pub cash_payment : ℕ → ℕ → Caller → Option Text → ℕ → List ℕ → ℕ → PaymentTxn
cash_payment inv total caller note new_id bytes now = record {
  id = new_id;
  invoice_id = inv;
  order_ref = generate_order_ref bytes;
  gateway = PaymentGateway.cash;
  gateway_txn_id = none;
  amount = total;
  status = TxnStatus.success;
  paid_at = some now;
  expires_at = none;
  recorded_by = some caller.id;
  note = note;
}

-- The transaction of `confirmCash`; `total` is the total of the invoice that was read.
unfoldable pub cash_body : ℕ → ℕ → Caller → Option Text → ℕ → List ℕ → ℕ → Action PaymentTxn
cash_body inv total caller note new_id bytes now = do
  or_throw (← gets (λ db. find_unique invoice_id inv db.invoices)) not_found
  claimed ← gets (λ db. count_where (can_pay inv) db.invoices)
  modify (mark_paid inv)
  throw_if (claimed == 0) (conflict "Invoice is already paid or not payable")
  create_payment (cash_payment inv total caller note new_id bytes now)

unfoldable pub claim_cash : ℕ → ℕ → Caller → Option Text → ℕ → List ℕ → ℕ → Action PaymentTxn
claim_cash inv total caller note new_id bytes now =
    transaction (cash_body inv total caller note new_id bytes now)

unfoldable pub confirm_cash : Caller → ℕ → Option Text → ℕ → List ℕ → ℕ → Action PaymentTxn
confirm_cash caller inv note new_id bytes now = do
  invoice ← or_throw (← gets (λ db. find_unique invoice_id inv db.invoices)) not_found
  txn ← claim_cash inv invoice.total caller note new_id bytes now
  record_entry (some caller.id) (payment_confirmed_cash txn.id inv txn.amount caller.id) true
  pure txn

-- The end of `recomputeInvoiceStatus`, on the invoice that it reads.
unfoldable pub rederive_status : ℕ → Invoice → Database → Database
rederive_status inv i db =
    let covered = leb i.total (total_settled inv db) in
    if not (is_payable i.status || is_paid i.status)
    then db
    else if covered && not (is_paid i.status)
    then set_invoice_status inv InvoiceStatus.paid db
    else if not covered && is_paid i.status
    then set_invoice_status inv InvoiceStatus.unpaid db
    else db

-- `recomputeInvoiceStatus`
unfoldable pub recompute_invoice_status : ℕ → Database → Database
recompute_invoice_status inv db = elim (find_unique invoice_id inv db.invoices) [
  | none ↦ db
  | some i ↦ rederive_status inv i db
]

-- The two outcomes that an administrator may set.
pub data Outcome : Type 0 where
  refunded disputed : Outcome

abbrev pub outcome_status : Outcome → TxnStatus
outcome_status Outcome.refunded = TxnStatus.refunded
outcome_status Outcome.disputed = TxnStatus.disputed

abbrev pub is_refund : Outcome → Bool
is_refund Outcome.refunded = true
is_refund Outcome.disputed = false

-- `note ?? txn.note`
abbrev pub or_else : Option Text → Option Text → Option Text
or_else (some t) old = some t
or_else none old = old

-- `tx.paymentTransaction.update({ where: { id }, data: { status, note } })`
abbrev pub outcome_row : TxnStatus → Option Text → PaymentTxn → PaymentTxn
outcome_row s note p = record p { status = s; note = note }

abbrev pub set_payment_outcome : ℕ → TxnStatus → Option Text → Database → Database
set_payment_outcome k s note db = update_payments (has_id k) (outcome_row s note) db

-- The transaction of `setOutcome`.
unfoldable pub outcome_body : ℕ → Outcome → Option Text → Action PaymentTxn
outcome_body k outcome note = do
  txn ← or_throw (← gets (λ db. find_unique payment_id k db.payments)) not_found
  throw_if (not (is_success txn.status || (is_disputed txn.status && is_refund outcome))) (
      conflict
        "Only successful payments can be disputed; successful or disputed receipts can be refunded")
  modify (set_payment_outcome k (outcome_status outcome) (or_else note txn.note))
  modify (recompute_invoice_status txn.invoice_id)
  pure (record txn { status = outcome_status outcome; note = or_else note txn.note })

unfoldable pub apply_outcome : ℕ → Outcome → Option Text → Action PaymentTxn
apply_outcome k outcome note = transaction (outcome_body k outcome note)

unfoldable pub set_outcome : Caller → ℕ → Outcome → Option Text → Action PaymentTxn
set_outcome caller k outcome note = do
  updated ← apply_outcome k outcome note
  record_entry (some caller.id)
      (elim outcome [
        | Outcome.refunded ↦ payment_refunded k caller.id note
        | Outcome.disputed ↦ payment_disputed k caller.id note
      ])
      true
  pure updated
