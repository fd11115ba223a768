-- ===== src/Payments/Outcomes.antt =====
-- The transaction of `setOutcome` in src/billing/payments.service.ts, with `recomputeInvoiceStatus`,
-- keeps invoices and payments consistent.
use mathlib.Core.Option
use vovinam_api_node.Base.{
  ℕ, ◌+◌, ◌≤◌, ◌≡◌, refl, subst, true, false, Option, none, some, Text, arith, ◌==◌, Option-cases,
  Bool-cases, ◌⊎◌, inl, inr, if◌then◌else◌, find_unique, ◌&&◌, ◌||◌, leb, find_unique-key,
}
use vovinam_api_node.Schema.{Invoice, InvoiceStatus, PaymentTxn, Database}
use vovinam_api_node.Service.{World, Ensures, commit-Ensures}
use vovinam_api_node.Payments.Defs.{
  invoice_id, payment_id, is_success, is_paid, is_payable, settled_amount, total_settled,
  update_payments, update_invoices, has_id, is_invoice, status_row, outcome_body,
  recompute_invoice_status, apply_outcome, outcome_row, outcome_status, rederive_status, Outcome,
  is_disputed, is_refund, or_else,
}
use vovinam_api_node.Payments.Invariant.{
  Balance, IsWellFormed, IsConsistent, update_payments-IsWellFormed, update_invoices-IsWellFormed,
  find_invoice-update, total_settled-update,
}
use vovinam_api_node.Payments.Settlement.{total_settled-update_invoices, update_payments-invoices}
use vovinam_api_node.Payments.Claims.{priced_invoice}

-- Only the balance of one invoice is open.
record IsConsistentBut (inv : ℕ) (db : Database) : Type 0 where
  formed : IsWellFormed db
  elsewhere :
      (k : ℕ)
      → (k == inv) ≡ false
      → Balance (find_unique invoice_id k db.invoices) (total_settled k db)

module _ (inv : ℕ) (db : Database) (h : IsConsistentBut inv db) (i : Invoice)
    (found : find_unique invoice_id inv db.invoices ≡ some i) where
  stays-Balance :
      (k : ℕ) (o : Option Invoice)
      → find_unique invoice_id k db.invoices ≡ o
      → Balance (some i) (total_settled inv db)
      → ((k == inv) ≡ false → Balance o (total_settled k db))
      → Balance o (total_settled k db)
  stays-Balance k none e b other = tt
  stays-Balance k (some j) e b other = elim (Bool-cases (k == inv)) [
    | inl same ↦ ground (arith, found)
    | inr away ↦ other away
  ]

  stays-IsConsistent : Balance (some i) (total_settled inv db) → IsConsistent db
  stays-IsConsistent b = record {
    formed = h.formed;
    balanced = λ k. stays-Balance k (find_unique invoice_id k db.invoices) refl b (h.elsewhere k);
  }

  status-Balance :
      (s : InvoiceStatus) (k : ℕ) (o : Option Invoice)
      → find_unique invoice_id k db.invoices ≡ o
      → Balance (some (status_row s i)) (total_settled inv db)
      → ((k == inv) ≡ false → Balance o (total_settled k db))
      → Balance
          (Option.map (λ r. if is_invoice inv r then status_row s r else r) o)
          (total_settled k db)
  status-Balance s k none e b other = tt
  status-Balance s k (some j) e b other = elim (Bool-cases (k == inv)) [
    | inl same ↦ ground (arith, find_unique-key invoice_id k db.invoices j e, found)
    | inr away ↦ ground (arith, find_unique-key invoice_id k db.invoices j e, other away)
  ]

  status-IsConsistent :
      (s : InvoiceStatus)
      → Balance (some (status_row s i)) (total_settled inv db)
      → IsConsistent (update_invoices (is_invoice inv) (status_row s) db)
  status-IsConsistent s b = record {
    formed =
        update_invoices-IsWellFormed (is_invoice inv) (status_row s) (λ r. refl) (λ r. refl) db
          h.formed;
    balanced = λ k.
        rw
          (
            find_invoice-update (is_invoice inv) (status_row s) (λ r. refl) (λ r. refl) k db,
            total_settled-update_invoices k (is_invoice inv) (status_row s) db,
          )
          (status-Balance s k (find_unique invoice_id k db.invoices) refl b (h.elsewhere k));
  }

  -- Where all or nothing of the total is settled, the derived status is in balance.
  rederive-IsConsistent :
      total_settled inv db ≤ i.total
      → ((is_payable i.status || is_paid i.status) ≡ true
          → (total_settled inv db ≡ 0) ⊎ (total_settled inv db ≡ i.total))
      → IsConsistent (rederive_status inv i db)
  unfolding rederive_status
  rederive-IsConsistent fits whole = elim (Bool-cases (is_payable i.status || is_paid i.status)) [
    | inr void ↦ rw void (stays-IsConsistent (ground arith))
    | inl counts ↦ elim (Bool-cases (leb i.total (total_settled inv db))) [
      | inl covered ↦ elim (Bool-cases (is_paid i.status)) [
        | inl paid ↦ rw (counts, covered, paid) (stays-IsConsistent (ground arith))
        | inr unpaid ↦
            rw (counts, covered, unpaid) (status-IsConsistent InvoiceStatus.paid (ground arith))
      ]
      | inr short ↦ elim (Bool-cases (is_paid i.status)) [
        | inl paid ↦
            rw (counts, short, paid) (status-IsConsistent InvoiceStatus.unpaid (ground arith))
        | inr unpaid ↦ rw (counts, short, unpaid) (stays-IsConsistent (ground arith))
      ]
    ]
  ]

module _ (k : ℕ) (w : World) (h : IsConsistent w.db) (x : PaymentTxn)
    (found : find_unique payment_id k w.db.payments ≡ some x) (outcome : Outcome)
    (note : Option Text)
    (allowed : (is_success x.status || (is_disputed x.status && is_refund outcome)) ≡ true) where
  abbrev taken_back : Database
  taken_back =
      update_payments (has_id k) (outcome_row (outcome_status outcome) (or_else note x.note)) w.db

  taken_back-total :
      (j : ℕ) → total_settled j taken_back + settled_amount j x ≡ total_settled j w.db
  unfolding settled_amount
  taken_back-total j = ground (
    arith,
    total_settled-update w.db h.formed.payments_keyed k x found j (has_id k)
        (outcome_row (outcome_status outcome) (or_else note x.note)) (λ r e. ground arith),
    find_unique-key payment_id k w.db.payments x found,
  )

  taken_back-IsConsistentBut : IsConsistentBut x.invoice_id taken_back
  unfolding settled_amount
  taken_back-IsConsistentBut = record {
    formed =
        update_payments-IsWellFormed (has_id k)
          (outcome_row (outcome_status outcome) (or_else note x.note)) (λ r. refl) (λ r. refl)
          (λ r. refl) w.db h.formed;
    elsewhere = λ j away.
        let same : total_settled j taken_back ≡ total_settled j w.db =
          ground (arith, taken_back-total j) in
        rw
          (
            same,
            update_payments-invoices (has_id k)
                (outcome_row (outcome_status outcome) (or_else note x.note)) w.db,
          )
          (h.balanced j);
  }

  module _ (i : Invoice) (at_invoice : find_unique invoice_id x.invoice_id w.db.invoices ≡ some i)
      (full : x.amount ≡ i.total) where
    invoice-Balance : Balance (some i) (total_settled x.invoice_id w.db)
    invoice-Balance =
        subst (λ o. Balance o (total_settled x.invoice_id w.db)) at_invoice
          (h.balanced x.invoice_id)

    taken_back-whole :
        (total_settled x.invoice_id taken_back ≤ i.total)
        × ((is_payable i.status || is_paid i.status) ≡ true
            → (total_settled x.invoice_id taken_back ≡ 0)
              ⊎ (total_settled x.invoice_id taken_back ≡ i.total))
    unfolding settled_amount
    taken_back-whole = (
      ground (arith, invoice-Balance, taken_back-total x.invoice_id),
      λ counts. ground (arith, invoice-Balance, taken_back-total x.invoice_id),
    )

    recomputed-IsConsistent : IsConsistent (recompute_invoice_status x.invoice_id taken_back)
    unfolding recompute_invoice_status update_payments
    recomputed-IsConsistent =
        rw (at_invoice, recompute_invoice_status)
          (rederive-IsConsistent x.invoice_id taken_back taken_back-IsConsistentBut i at_invoice
            taken_back-whole.0 taken_back-whole.1)

outcome_body-Ensures :
    (k : ℕ) (outcome : Outcome) (note : Option Text) (w : World)
    → IsConsistent w.db
    → Ensures IsConsistent (outcome_body k outcome note w)
unfolding outcome_body
outcome_body-Ensures k outcome note w h =
    elim (Option-cases (find_unique payment_id k w.db.payments)) [
      | inl e ↦ rw e tt
      | inr (x, e) ↦
          elim (Bool-cases (is_success x.status || (is_disputed x.status && is_refund outcome))) [
            | inr refused ↦ rw (e, refused) tt
            | inl allowed ↦
                let (i, at_invoice, full) = priced_invoice w.db h k x e in
                rw (e, allowed)
                  (recomputed-IsConsistent k w h x e outcome note allowed i at_invoice full)
          ]
    ]

-- Marking a payment refunded or disputed, with the invoice's status derived again, keeps the state
-- consistent.
pub apply_outcome-IsConsistent :
    (k : ℕ) (outcome : Outcome) (note : Option Text) (w : World)
    → IsConsistent w.db
    → IsConsistent (apply_outcome k outcome note w).1.db
unfolding apply_outcome
apply_outcome-IsConsistent k outcome note w h =
    commit-Ensures IsConsistent w.db (outcome_body k outcome note w) h
      (outcome_body-Ensures k outcome note w h)
