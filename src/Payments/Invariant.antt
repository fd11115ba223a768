-- ===== src/Payments/Invariant.antt =====
-- What holds of invoices and payments between two transactions, and how the writes of
-- src/billing/payments.service.ts move the settled total of an invoice.
use mathlib.Core.Option
use vovinam_api_node.Base.{
  ℕ, ◌+◌, ◌≤◌, ◌<◌, ◌≡◌, Bool, true, Option, none, some, List, arith, if◌then◌else◌, find_unique,
  update_many, IsKeyed, find_unique-update, update-IsKeyed, sum_of-update,
}
use vovinam_api_node.Schema.{Invoice, PaymentTxn, Database}
use vovinam_api_node.Payments.Defs.{
  invoice_id, payment_id, is_paid, is_payable, settled_amount, total_settled, update_payments,
  update_invoices,
}

-- An invoice with the sum of its successful payments: it is never over-settled, it is paid only
-- when the sum is its total, and while it waits for payment nothing of it is settled.
abbrev pub Balance : Option Invoice → ℕ → Type 0
Balance none s = Unit
Balance (some i) s =
    (s ≤ i.total)
    × (is_paid i.status ≡ true → s ≡ i.total)
    × (is_payable i.status ≡ true → 0 < i.total → s ≡ 0)

abbrev pub HasTotal : Option Invoice → ℕ → Type 0
HasTotal none a = ⊥
HasTotal (some i) a = a ≡ i.total

-- A payment belongs to an invoice that is there, and is over its whole total.
abbrev pub Priced : Option PaymentTxn → List Invoice → Type 0
Priced none rows = Unit
Priced (some p) rows = HasTotal (find_unique invoice_id p.invoice_id rows) p.amount

-- What every single write keeps.
pub record IsWellFormed (db : Database) : Type 0 where
  pub payments_keyed : IsKeyed payment_id db.payments
  pub invoices_keyed : IsKeyed invoice_id db.invoices
  pub priced : (k : ℕ) → Priced (find_unique payment_id k db.payments) db.invoices

abbrev pub IsBalanced : Database → Type 0
IsBalanced db = (k : ℕ) → Balance (find_unique invoice_id k db.invoices) (total_settled k db)

pub record IsConsistent (db : Database) : Type 0 where
  pub formed : IsWellFormed db
  pub balanced : IsBalanced db

-- A write to payments that keeps id, invoice and amount keeps them priced.
module _ (p : PaymentTxn → Bool) (f : PaymentTxn → PaymentTxn)
    (same_id : (r : PaymentTxn) → payment_id (f r) ≡ payment_id r)
    (same_invoice : (r : PaymentTxn) → (f r).invoice_id ≡ r.invoice_id)
    (same_amount : (r : PaymentTxn) → (f r).amount ≡ r.amount) where
  Priced-update_cases :
      (o : Option PaymentTxn) (rows : List Invoice)
      → Priced o rows
      → Priced (Option.map (λ r. if p r then f r else r) o) rows
  Priced-update_cases none rows h = tt
  Priced-update_cases (some r) rows h = ground (arith, same_invoice r, same_amount r)

  pub Priced-update :
      (k : ℕ) (payments : List PaymentTxn) (rows : List Invoice)
      → Priced (find_unique payment_id k payments) rows
      → Priced (find_unique payment_id k (update_many p f payments)) rows
  Priced-update k payments rows h =
      rw (find_unique-update payment_id p f same_id k payments)
        (Priced-update_cases (find_unique payment_id k payments) rows h)

  pub update_payments-IsWellFormed :
      (db : Database) → IsWellFormed db → IsWellFormed (update_payments p f db)
  unfolding update_payments
  update_payments-IsWellFormed db h = record {
    payments_keyed = update-IsKeyed payment_id p f same_id db.payments h.payments_keyed;
    invoices_keyed = h.invoices_keyed;
    priced = λ k. Priced-update k db.payments db.invoices (h.priced k);
  }

-- A write to invoices that keeps id and total keeps payments priced.
module _ (p : Invoice → Bool) (f : Invoice → Invoice)
    (same_id : (r : Invoice) → invoice_id (f r) ≡ invoice_id r)
    (same_total : (r : Invoice) → (f r).total ≡ r.total) where
  HasTotal-update_cases :
      (o : Option Invoice) (a : ℕ)
      → HasTotal o a
      → HasTotal (Option.map (λ r. if p r then f r else r) o) a
  HasTotal-update_cases none a h = h
  HasTotal-update_cases (some i) a h = ground (arith, same_total i)

  pub Priced-update_invoices :
      (o : Option PaymentTxn) (rows : List Invoice)
      → Priced o rows
      → Priced o (update_many p f rows)
  Priced-update_invoices none rows h = tt
  Priced-update_invoices (some r) rows h =
      rw (find_unique-update invoice_id p f same_id r.invoice_id rows)
        (HasTotal-update_cases (find_unique invoice_id r.invoice_id rows) r.amount h)

  pub update_invoices-IsWellFormed :
      (db : Database) → IsWellFormed db → IsWellFormed (update_invoices p f db)
  unfolding update_invoices
  update_invoices-IsWellFormed db h = record {
    payments_keyed = h.payments_keyed;
    invoices_keyed = update-IsKeyed invoice_id p f same_id db.invoices h.invoices_keyed;
    priced =
        λ k. Priced-update_invoices (find_unique payment_id k db.payments) db.invoices (h.priced k);
  }

  pub find_invoice-update :
      (k : ℕ) (db : Database)
      → find_unique invoice_id k (update_invoices p f db).invoices
        ≡ Option.map (λ r. if p r then f r else r) (find_unique invoice_id k db.invoices)
  unfolding update_invoices
  find_invoice-update k db = find_unique-update invoice_id p f same_id k db.invoices

-- One payment row, found by its id in a table with unique ids.
module _ (db : Database) (keyed : IsKeyed payment_id db.payments) (id : ℕ) (x : PaymentTxn)
    (found : find_unique payment_id id db.payments ≡ some x) where
  -- Any write pinned to the row moves the settled total by what the row's share moves by.
  pub total_settled-update :
      (k : ℕ) (p : PaymentTxn → Bool) (f : PaymentTxn → PaymentTxn)
      → ((r : PaymentTxn) → p r ≡ true → payment_id r ≡ id)
      → total_settled k (update_payments p f db) + settled_amount k x
        ≡ total_settled k db + settled_amount k (if p x then f x else x)
  unfolding total_settled update_payments
  total_settled-update k p f only =
      sum_of-update payment_id p id only (settled_amount k) f db.payments x keyed found
