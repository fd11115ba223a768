-- ===== src/Payments/History.antt =====
-- The writes of src/billing/payments.service.ts never lose a payment or an invoice, and never change
-- the invoice or the amount of a payment, or the total of an invoice. So what a handler has read of
-- them stays true while other handlers run.
use mathlib.Core.Option
use vovinam_api_node.Base.{
  ℕ, ◌≡◌, refl, Bool, Option, none, some, List, [], ◌∷◌, ◌++◌, Text, Option-cases, inl, inr, arith,
  if◌then◌else◌, find_unique, find_unique-update, find_unique-append_some,
}
use vovinam_api_node.Schema.{Invoice, InvoiceStatus, PaymentTxn, Database}
use vovinam_api_node.Payments.Defs.{
  invoice_id, payment_id, update_payments, update_invoices, status_row,
}
use vovinam_api_node.Payments.Settle.{note_row}
use vovinam_api_node.Payments.Invariant.{HasTotal}
use vovinam_api_node.Payments.Operations.{add_payment}
use vovinam_api_node.Payments.Claims.{Agrees, agrees}

-- A write to payments that keeps what identifies them.
pub record Keeps (f : PaymentTxn → PaymentTxn) : Type 0 where
  pub same_id : (r : PaymentTxn) → payment_id (f r) ≡ payment_id r
  pub same_invoice : (r : PaymentTxn) → (f r).invoice_id ≡ r.invoice_id
  pub same_amount : (r : PaymentTxn) → (f r).amount ≡ r.amount

-- The databases that the service's writes lead to.
pub data Writes (db : Database) : Database → Type 0 where
  stay : Writes db db
  payments :
      {mid : Database} (p : PaymentTxn → Bool) (f : PaymentTxn → PaymentTxn)
      → Keeps f
      → Writes db mid
      → Writes db (update_payments p f mid)
  invoice_status :
      {mid : Database} (p : Invoice → Bool) (s : InvoiceStatus)
      → Writes db mid
      → Writes db (update_invoices p (status_row s) mid)
  invoice_note :
      {mid : Database} (p : Invoice → Bool) (note : Text)
      → Writes db mid
      → Writes db (update_invoices p (note_row note) mid)
  added : {mid : Database} (r : PaymentTxn) → Writes db mid → Writes db (add_payment r mid)

-- One row after another: the same payment.
abbrev SamePayment : PaymentTxn → Option PaymentTxn → Type 0
SamePayment x none = ⊥
SamePayment x (some y) = (x.invoice_id ≡ y.invoice_id) × (x.amount ≡ y.amount)

SamePayment-update :
    (x : PaymentTxn) (p : PaymentTxn → Bool) (f : PaymentTxn → PaymentTxn) (o : Option PaymentTxn)
    → Keeps f
    → SamePayment x o
    → SamePayment x (Option.map (λ r. if p r then f r else r) o)
SamePayment-update x p f none keep h = h
SamePayment-update x p f (some y) keep h = ground (arith, keep.same_invoice y, keep.same_amount y)

SamePayment-add :
    (x : PaymentTxn) (k : ℕ) (rows : List PaymentTxn) (r : PaymentTxn)
    → SamePayment x (find_unique payment_id k rows)
    → SamePayment x (find_unique payment_id k (rows ++ r ∷ []))
SamePayment-add x k rows r h = elim (Option-cases (find_unique payment_id k rows)) [
  | inl e ↦ absurd (rw e at h)
  | inr (y, e) ↦ rw (find_unique-append_some payment_id k rows r y e) (rw e at h)
]

HasTotal-update :
    (a : ℕ) (p : Invoice → Bool) (f : Invoice → Invoice) (o : Option Invoice)
    → ((r : Invoice) → (f r).total ≡ r.total)
    → HasTotal o a
    → HasTotal (Option.map (λ r. if p r then f r else r) o) a
HasTotal-update a p f none same h = h
HasTotal-update a p f (some i) same h = ground (arith, same i)

-- What was read of a payment stays true under the service's writes.
Writes-SamePayment :
    {db : Database} {db' : Database} (x : PaymentTxn) (k : ℕ)
    → Writes db db'
    → SamePayment x (find_unique payment_id k db.payments)
    → SamePayment x (find_unique payment_id k db'.payments)
unfolding update_payments update_invoices
Writes-SamePayment x k stay h = h
Writes-SamePayment x k (payments {mid} p f keep before) h =
    rw (find_unique-update payment_id p f keep.same_id k mid.payments) (
      SamePayment-update x p f (find_unique payment_id k mid.payments) keep
        (Writes-SamePayment x k before h))
Writes-SamePayment x k (invoice_status p s before) h = Writes-SamePayment x k before h
Writes-SamePayment x k (invoice_note p note before) h = Writes-SamePayment x k before h
Writes-SamePayment x k (added {mid} r before) h =
    SamePayment-add x k mid.payments r (Writes-SamePayment x k before h)

-- An invoice that was read keeps its total under the service's writes.
pub Writes-HasTotal :
    {db : Database} {db' : Database} (k a : ℕ)
    → Writes db db'
    → HasTotal (find_unique invoice_id k db.invoices) a
    → HasTotal (find_unique invoice_id k db'.invoices) a
unfolding update_payments update_invoices
Writes-HasTotal k a stay h = h
Writes-HasTotal k a (payments p f keep before) h = Writes-HasTotal k a before h
Writes-HasTotal k a (invoice_status {mid} p s before) h =
    rw (find_unique-update invoice_id p (status_row s) (λ r. refl) k mid.invoices) (
      HasTotal-update a p (status_row s) (find_unique invoice_id k mid.invoices) (λ r. refl)
        (Writes-HasTotal k a before h))
Writes-HasTotal k a (invoice_note {mid} p note before) h =
    rw (find_unique-update invoice_id p (note_row note) (λ r. refl) k mid.invoices) (
      HasTotal-update a p (note_row note) (find_unique invoice_id k mid.invoices) (λ r. refl)
        (Writes-HasTotal k a before h))
Writes-HasTotal k a (added r before) h = Writes-HasTotal k a before h

same_of_agrees :
    (x : PaymentTxn) (o : Option PaymentTxn)
    → SamePayment x o
    → (y : PaymentTxn) × (o ≡ some y) × (x.invoice_id ≡ y.invoice_id) × (x.amount ≡ y.amount)
same_of_agrees x none h = absurd h
same_of_agrees x (some y) h = (y, refl, h.0, h.1)

-- A payment row that a handler has read still names its payment after the service's writes.
pub Writes-Agrees :
    {db : Database} {db' : Database} (txn : PaymentTxn)
    → Writes db db'
    → Agrees txn db
    → Agrees txn db'
Writes-Agrees {db} {db'} txn ws (agrees x found same_invoice same_amount) =
    let start : SamePayment txn (find_unique payment_id txn.id db.payments) =
      rw found (same_invoice, same_amount) in
    let (y, e, i, a) =
      same_of_agrees txn (find_unique payment_id txn.id db'.payments)
        (Writes-SamePayment txn txn.id ws start) in
    agrees y e i a
