-- ===== src/Payments/Operations.antt =====
-- The transactions of `confirmCash`, `setOutcome` and `createQrPayment` in
-- src/billing/payments.service.ts keep invoices and payments consistent.

use vovinam_api_node.Base.{
  ℕ, ◌+◌, ◌≡◌, refl, false, none, some, List, [], ◌∷◌, ◌++◌, Text, arith, ◌==◌, Option-cases,
  Bool-cases, ◌⊎◌, inl, inr, find_unique, find_first, is_some, text_eq, find_unique-append,
  find_unique-append_some, append-IsKeyed, sum_of-append, sum_of-update_same, sum_of,
}
use vovinam_api_node.Schema.{Invoice, PaymentTxn, PaymentGateway, Database}
use vovinam_api_node.Service.{ok, err, World, unique_violation, Ensures, commit-Ensures}
use vovinam_api_node.Payments.Defs.{
  invoice_id, payment_id, is_success, is_payable, settled_amount, total_settled, update_payments,
  create_payment,
}
use vovinam_api_node.Payments.Qr.{
  is_pending_for, supersede, supersede_row, commit_qr, qr_body, qr_payment,
}
use vovinam_api_node.Payments.Invariant.{
  HasTotal, Priced, IsWellFormed, IsConsistent, update_payments-IsWellFormed,
}
use vovinam_api_node.Payments.Settlement.{update_payments-IsBalanced, update_payments-invoices}

-- A new payment row, with a fresh id and for an invoice of its amount.
abbrev pub add_payment : PaymentTxn → Database → Database
add_payment p db = record db { payments = db.payments ++ p ∷ [] }

pub total_settled-add :
    (k : ℕ) (p : PaymentTxn) (db : Database)
    → total_settled k (add_payment p db) ≡ total_settled k db + settled_amount k p
unfolding total_settled sum_of
total_settled-add k p db = ground (arith, sum_of-append (settled_amount k) db.payments (p ∷ []))

Priced-add :
    (k : ℕ) (p : PaymentTxn) (rows : List PaymentTxn) (invoices : List Invoice)
    → Priced (find_unique payment_id k rows) invoices
    → HasTotal (find_unique invoice_id p.invoice_id invoices) p.amount
    → Priced (find_unique payment_id k (rows ++ p ∷ [])) invoices
Priced-add k p rows invoices h total = elim (Option-cases (find_unique payment_id k rows)) [
  | inr (x, e) ↦ rw (find_unique-append_some payment_id k rows p x e) (rw e at h)
  | inl e ↦ elim (Bool-cases (payment_id p == k)) [
    | inl same ↦ rw (find_unique-append payment_id k rows p e, same) total
    | inr other ↦ rw (find_unique-append payment_id k rows p e, other) tt
  ]
]

pub add_payment-IsWellFormed :
    (p : PaymentTxn) (db : Database)
    → IsWellFormed db
    → find_unique payment_id p.id db.payments ≡ none
    → HasTotal (find_unique invoice_id p.invoice_id db.invoices) p.amount
    → IsWellFormed (add_payment p db)
add_payment-IsWellFormed p db h fresh total = record {
  payments_keyed = append-IsKeyed payment_id db.payments p h.payments_keyed fresh;
  invoices_keyed = h.invoices_keyed;
  priced = λ k. Priced-add k p db.payments db.invoices (h.priced k) total;
}

-- `create` of a payment runs into a unique column and changes nothing, or appends the row.
pub create_payment-cases :
    (p : PaymentTxn) (w : World)
    → (create_payment p w ≡ (err unique_violation, w))
      ⊎ ((create_payment p w ≡ (ok p, record w { db = add_payment p w.db }))
          × (find_unique payment_id p.id w.db.payments ≡ none))
unfolding create_payment
create_payment-cases p w = elim (Option-cases (find_unique payment_id p.id w.db.payments)) [
  | inr (x, e) ↦ inl (rw e)
  | inl e ↦
      elim (Bool-cases (
        is_some (find_first (λ (q : PaymentTxn). text_eq q.order_ref p.order_ref) w.db.payments))) [
          | inl clash ↦ inl (rw (e, clash))
          | inr free ↦ inr (rw (e, free), e)
        ]
]

-- Superseding the pending payments of an invoice settles nothing and unsettles nothing.
pub supersede-IsConsistent :
    (inv now : ℕ) (db : Database) → IsConsistent db → IsConsistent (supersede inv now db)
unfolding settled_amount total_settled update_payments
supersede-IsConsistent inv now db h = record {
  formed =
      update_payments-IsWellFormed (is_pending_for inv) (supersede_row now) (λ r. refl) (λ r. refl)
        (λ r. refl) db h.formed;
  balanced =
      update_payments-IsBalanced (is_pending_for inv) (supersede_row now) db
        (λ k.
          sum_of-update_same (settled_amount k) (is_pending_for inv) (supersede_row now) db.payments
            (λ r e. ground arith))
        h.balanced;
}

-- Adding a payment that is not yet successful keeps the balances.
quiet_add-IsConsistent :
    (p : PaymentTxn) (db : Database)
    → IsConsistent db
    → find_unique payment_id p.id db.payments ≡ none
    → HasTotal (find_unique invoice_id p.invoice_id db.invoices) p.amount
    → is_success p.status ≡ false
    → IsConsistent (add_payment p db)
unfolding settled_amount
quiet_add-IsConsistent p db h fresh total quiet = record {
  formed = add_payment-IsWellFormed p db h.formed fresh total;
  balanced = λ k.
      let same : total_settled k (add_payment p db) ≡ total_settled k db =
        ground (arith, total_settled-add k p db) in
      rw same (h.balanced k);
}

module _ (inv total : ℕ) (w : World) (h : IsConsistent w.db) where
  module _ (i : Invoice) (found : find_unique invoice_id inv w.db.invoices ≡ some i)
      (full : total ≡ i.total) where
    qr_body-Ensures :
        (order_ref : Text) (gateway : PaymentGateway) (expires_at new_id now : ℕ)
        → Ensures IsConsistent (qr_body inv total order_ref gateway expires_at new_id now w)
    unfolding qr_body
    qr_body-Ensures order_ref gateway expires_at new_id now =
        elim (Bool-cases (is_payable i.status)) [
          | inr not_payable ↦ rw (found, not_payable) tt
          | inl payable ↦
              elim (create_payment-cases (qr_payment inv total order_ref gateway expires_at new_id)
                (record w { db = supersede inv now w.db })) [
                  | inl clash ↦ rw (found, payable, clash) tt
                  | inr (added, fresh) ↦
                      rw (found, payable, added)
                        (quiet_add-IsConsistent _ (supersede inv now w.db)
                          (supersede-IsConsistent inv now w.db h) fresh
                          (rw
                            (
                              update_payments-invoices (is_pending_for inv) (supersede_row now)
                                  w.db,
                              found,
                            )
                            full)
                          refl)
                ]
        ]

-- Creating a QR payment, with the total of an invoice that was read before, keeps the state
-- consistent.
pub commit_qr-IsConsistent :
    (inv total : ℕ) (order_ref : Text) (gateway : PaymentGateway) (expires_at new_id now : ℕ)
    (w : World)
    → IsConsistent w.db
    → HasTotal (find_unique invoice_id inv w.db.invoices) total
    → IsConsistent (commit_qr inv total order_ref gateway expires_at new_id now w).1.db
unfolding commit_qr
commit_qr-IsConsistent inv total order_ref gateway expires_at new_id now w h t =
    elim (Option-cases (find_unique invoice_id inv w.db.invoices)) [
      | inl e ↦ absurd (rw e at t)
      | inr (i, e) ↦
          commit-Ensures IsConsistent w.db
            (qr_body inv total order_ref gateway expires_at new_id now w) h
            (qr_body-Ensures inv total w h i e (rw e at t) order_ref gateway expires_at new_id now)
    ]
