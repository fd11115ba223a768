-- ===== src/Billing/Overdue.antt =====
-- src/billing/overdue-invoice.job.ts: the daily pass over the unpaid invoices.
use mathlib.Core.Option
use vovinam_api_node.Base.{
  ℕ, ◌≤◌, ◌<◌, ◌≡◌, ◌≢◌, ◌⊎◌, refl, Bool, true, false, ◌&&◌, Option, none, some, arith, ltb,
  if◌then◌else◌, find_unique, Bool-cases, inl, inr,
}
use vovinam_api_node.Schema.{Invoice, InvoiceStatus, Database}
use vovinam_api_node.Payments.Defs.{invoice_id, total_settled, update_invoices, status_row}
use vovinam_api_node.Payments.Invariant.{
  Balance, IsConsistent, update_invoices-IsWellFormed, find_invoice-update,
}
use vovinam_api_node.Payments.Settlement.{total_settled-update_invoices}

abbrev pub is_unpaid : InvoiceStatus → Bool
is_unpaid InvoiceStatus.unpaid = true
is_unpaid _ = false

abbrev pub is_past_due : ℕ → Invoice → Bool
is_past_due now i = is_unpaid i.status && ltb i.due_date now

-- `markOverdue`
unfoldable pub mark_overdue : ℕ → Database → Database
mark_overdue now db = update_invoices (is_past_due now) (status_row InvoiceStatus.overdue) db

-- The row that a pass leaves of an invoice: it is kept, or the invoice is unpaid and late and ages.
abbrev pub IsAged : ℕ → ℕ → Invoice → Database → Type 0
IsAged now k i after =
    (((i.status ≢ InvoiceStatus.unpaid) ⊎ (now ≤ i.due_date))
      × (find_unique invoice_id k after.invoices ≡ some i))
    ⊎ ((i.status ≡ InvoiceStatus.unpaid)
        × (i.due_date < now)
        × (find_unique invoice_id k after.invoices
            ≡ some (record i { status = InvoiceStatus.overdue })))

Balance-overdue :
    (now s : ℕ) (o : Option Invoice)
    → Balance o s
    → Balance
        (Option.map (λ i. if is_past_due now i then status_row InvoiceStatus.overdue i else i) o)
        s
Balance-overdue now s none h = tt
Balance-overdue now s (some i) h = elim (Bool-cases (is_past_due now i)) [
  | inr n ↦ rw n h
  | inl y ↦ rw y (h.0, (λ p. ground arith), λ q. h.2 (ground arith))
]

-- A pass keeps invoices and payments consistent.
pub mark_overdue-IsConsistent :
    (now : ℕ) (db : Database) → IsConsistent db → IsConsistent (mark_overdue now db)
unfolding mark_overdue
mark_overdue-IsConsistent now db h = record {
  formed =
      update_invoices-IsWellFormed (is_past_due now) (status_row InvoiceStatus.overdue) (λ r. refl)
        (λ r. refl) db h.formed;
  balanced = λ k.
      rw
        (
          find_invoice-update (is_past_due now) (status_row InvoiceStatus.overdue) (λ r. refl)
              (λ r. refl) k db,
          total_settled-update_invoices k (is_past_due now) (status_row InvoiceStatus.overdue) db,
        )
        (Balance-overdue now (total_settled k db) (find_unique invoice_id k db.invoices)
          (h.balanced k));
}
