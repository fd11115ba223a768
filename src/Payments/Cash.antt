-- ===== src/Payments/Cash.antt =====
-- The transaction of `confirmCash` in src/billing/payments.service.ts keeps invoices and payments
-- consistent.
use mathlib.Core.Option
use vovinam_api_node.Base.{
  ℕ, ◌+◌, ◌≡◌, refl, true, Option, none, some, List, Text, arith, ◌==◌, Option-cases, Bool-cases,
  inl, inr, if◌then◌else◌, find_unique, count_where, count-found, find_unique-key,
}
use vovinam_api_node.Schema.{Caller, Invoice, InvoiceStatus, PaymentTxn, Database}
use vovinam_api_node.Service.{World, Ensures, commit-Ensures}
use vovinam_api_node.Payments.Defs.{
  invoice_id, payment_id, is_success, is_payable, settled_amount, total_settled, status_row,
  can_pay, mark_paid, claim_cash, cash_body, cash_payment,
}
use vovinam_api_node.Payments.Invariant.{
  Balance, HasTotal, IsWellFormed, IsConsistent, update_invoices-IsWellFormed, find_invoice-update,
}
use vovinam_api_node.Payments.Settlement.{total_settled-update_invoices}
use vovinam_api_node.Payments.Operations.{
  add_payment, total_settled-add, add_payment-IsWellFormed, create_payment-cases,
}

module _ (inv total : ℕ) (w : World) (h : IsConsistent w.db) where
  abbrev marked : Database
  marked = mark_paid inv w.db

  marked-IsWellFormed : IsWellFormed marked
  marked-IsWellFormed =
      update_invoices-IsWellFormed (can_pay inv) (status_row InvoiceStatus.paid) (λ r. refl)
        (λ r. refl) w.db h.formed

  find-marked :
      (k : ℕ)
      → find_unique invoice_id k marked.invoices
        ≡ Option.map
            (λ r. if can_pay inv r then status_row InvoiceStatus.paid r else r)
            (find_unique invoice_id k w.db.invoices)
  find-marked k =
      find_invoice-update (can_pay inv) (status_row InvoiceStatus.paid) (λ r. refl) (λ r. refl) k
        w.db

  module _ (i : Invoice) (found : find_unique invoice_id inv w.db.invoices ≡ some i)
      (full : total ≡ i.total) (payable : is_payable i.status ≡ true) where
    cash-Balance :
        (k : ℕ) (o : Option Invoice)
        → find_unique invoice_id k w.db.invoices ≡ o
        → Balance o (total_settled k w.db)
        → Balance
            (Option.map (λ r. if can_pay inv r then status_row InvoiceStatus.paid r else r) o)
            (total_settled k w.db + (if inv == k then total else 0))
    cash-Balance k none e b = tt
    cash-Balance k (some j) e b =
        ground (arith, find_unique-key invoice_id k w.db.invoices j e, found)

    -- Whatever the marking does, the invoice keeps its total.
    marked-HasTotal :
        (o : Option Invoice)
        → o ≡ some i
        → HasTotal
            (Option.map (λ r. if can_pay inv r then status_row InvoiceStatus.paid r else r) o)
            total
    marked-HasTotal none e = cc
    marked-HasTotal (some j) e = ground arith

    total_settled-cash :
        (k : ℕ) (p : PaymentTxn)
        → p.invoice_id ≡ inv
        → p.amount ≡ total
        → is_success p.status ≡ true
        → total_settled k (add_payment p marked)
          ≡ total_settled k w.db + (if inv == k then total else 0)
    unfolding settled_amount
    total_settled-cash k p at price won = ground (
      arith,
      total_settled-add k p marked,
      total_settled-update_invoices k (can_pay inv) (status_row InvoiceStatus.paid) w.db,
    )

    -- The invoice is marked paid by a payment of its whole total.
    paid_by_cash-IsConsistent :
        (p : PaymentTxn)
        → find_unique payment_id p.id marked.payments ≡ none
        → p.invoice_id ≡ inv
        → p.amount ≡ total
        → is_success p.status ≡ true
        → IsConsistent (add_payment p marked)
    paid_by_cash-IsConsistent p fresh at price won = record {
      formed = add_payment-IsWellFormed p marked marked-IsWellFormed fresh (
          rw (at, price, find-marked inv)
            (marked-HasTotal (find_unique invoice_id inv w.db.invoices) found));
      balanced = λ k.
          rw (total_settled-cash k p at price won, find-marked k)
            (cash-Balance k (find_unique invoice_id k w.db.invoices) refl (h.balanced k));
    }

  claimed_count :
      (i : Invoice)
      → find_unique invoice_id inv w.db.invoices ≡ some i
      → count_where (can_pay inv) w.db.invoices ≡ (if can_pay inv i then 1 else 0)
  claimed_count i found =
      count-found invoice_id (can_pay inv) inv (λ r e. ground arith) w.db.invoices i
        h.formed.invoices_keyed found

  cash_body-Ensures :
      (i : Invoice) (caller : Caller) (note : Option Text) (new_id : ℕ) (bytes : List ℕ) (now : ℕ)
      → find_unique invoice_id inv w.db.invoices ≡ some i
      → total ≡ i.total
      → Ensures IsConsistent (cash_body inv total caller note new_id bytes now w)
  unfolding cash_body
  cash_body-Ensures i caller note new_id bytes now found full = elim (Bool-cases (can_pay inv i)) [
    | inr blocked ↦ rw (found, claimed_count i found, blocked) tt
    | inl free ↦
        elim (create_payment-cases (cash_payment inv total caller note new_id bytes now)
          (record w { db = marked })) [
            | inl clash ↦ rw (found, claimed_count i found, free, clash) tt
            | inr (added, fresh) ↦
                rw (found, claimed_count i found, free, added)
                  (paid_by_cash-IsConsistent i found full (ground arith)
                    (cash_payment inv total caller note new_id bytes now) fresh refl refl refl)
          ]
  ]

-- Cash confirmation, with the total of an invoice that was read before, keeps the state consistent.
pub claim_cash-IsConsistent :
    (inv total : ℕ) (caller : Caller) (note : Option Text) (new_id : ℕ) (bytes : List ℕ) (now : ℕ)
    (w : World)
    → IsConsistent w.db
    → HasTotal (find_unique invoice_id inv w.db.invoices) total
    → IsConsistent (claim_cash inv total caller note new_id bytes now w).1.db
unfolding claim_cash
claim_cash-IsConsistent inv total caller note new_id bytes now w h t =
    elim (Option-cases (find_unique invoice_id inv w.db.invoices)) [
      | inl e ↦ absurd (rw e at t)
      | inr (i, e) ↦
          commit-Ensures IsConsistent w.db (cash_body inv total caller note new_id bytes now w) h
            (cash_body-Ensures inv total w h i caller note new_id bytes now e (rw e at t))
    ]
