-- ===== src/Payments/Receipts.antt =====
-- The transaction of `transitionReceipt` in src/billing/payments.service.ts, whatever payment row the
-- handler has read before it.
use vovinam_api_node.Base.{
  ℕ, ◌≡◌, refl, true, false, some, Text, arith, Bool-cases, inl, inr, find_unique, count_where,
  count-found, find_unique-update,
}
use vovinam_api_node.Schema.{PaymentTxn, TxnStatus}
use vovinam_api_node.Service.{Result, ok, err, World, unique_violation, transaction, commit-keeps}
use vovinam_api_node.Payments.Defs.{payment_id, is_success, settled_amount, update_payments, has_id}
use vovinam_api_node.Payments.Settle.{
  is_claimable, receipt_row, transition_receipt, gateway_row, after_receipt_claim, transition_body,
  caught,
}
use vovinam_api_node.Payments.Invariant.{IsConsistent}
use vovinam_api_node.Payments.Claims.{
  Agrees, agrees, quiet-IsConsistent, claim_only, claim_payment-cases,
}

-- A row's identity after a write that keeps ids.
module _ (id : ℕ) (g : Text) (w : World) (h : IsConsistent w.db) where
  module _ (x : PaymentTxn) (found : find_unique payment_id id w.db.payments ≡ some x) where
    receipt_claimed-IsConsistent :
        IsConsistent (update_payments (is_claimable id g) (gateway_row g) w.db)
    unfolding settled_amount
    receipt_claimed-IsConsistent =
        quiet-IsConsistent w.db h id x found (is_claimable id g) (gateway_row g) (λ r. refl)
          (λ r. refl) (λ r. refl) (claim_only id g) (λ k. ground arith)

    find-receipt_claimed :
        is_claimable id g x ≡ true
        → find_unique payment_id id
            (update_payments (is_claimable id g) (gateway_row g) w.db).payments
          ≡ some (gateway_row g x)
    unfolding update_payments
    find-receipt_claimed hit = rw (
      find_unique-update payment_id (is_claimable id g) (gateway_row g) (λ r. refl) id
          w.db.payments,
      found,
      hit,
    )

    -- The row of an open payment may take any note and any status but success.
    receipt_written-IsConsistent :
        (s : TxnStatus) (note : Text)
        → is_success s ≡ false
        → is_claimable id g x ≡ true
        → IsConsistent (
            update_payments
              (has_id id)
              (receipt_row g s note)
              (update_payments (is_claimable id g) (gateway_row g) w.db))
    unfolding settled_amount
    receipt_written-IsConsistent s note quiet hit =
        quiet-IsConsistent (update_payments (is_claimable id g) (gateway_row g) w.db)
          receipt_claimed-IsConsistent id (gateway_row g x) (find-receipt_claimed hit) (has_id id)
          (receipt_row g s note) (λ r. refl) (λ r. refl) (λ r. refl) (λ r e. ground arith)
          (λ k. ground arith)

    after_receipt_claim-IsConsistent :
        (s : TxnStatus) (note : Text)
        → is_success s ≡ false
        → IsConsistent
            (after_receipt_claim id g s note
              (count_where (is_claimable id g) w.db.payments)
              (record w { db = update_payments (is_claimable id g) (gateway_row g) w.db })).1.db
    unfolding after_receipt_claim
    after_receipt_claim-IsConsistent s note quiet = elim (Bool-cases (is_claimable id g x)) [
      | inl hit ↦
          rw
            (
              count-found payment_id (is_claimable id g) id (claim_only id g) w.db.payments x
                  h.formed.payments_keyed found,
              hit,
            )
            (receipt_written-IsConsistent s note quiet hit)
      | inr miss ↦
          rw
            (
              count-found payment_id (is_claimable id g) id (claim_only id g) w.db.payments x
                  h.formed.payments_keyed found,
              miss,
            )
            receipt_claimed-IsConsistent
    ]

    transition_body-IsConsistent :
        (s : TxnStatus) (note : Text)
        → is_success s ≡ false
        → IsConsistent (transition_body id g s note w).1.db
    unfolding transition_body
    transition_body-IsConsistent s note quiet = elim (claim_payment-cases id g (gateway_row g) w) [
      | inl held ↦ rw held h
      | inr done ↦ rw done (after_receipt_claim-IsConsistent s note quiet)
    ]

-- The catch of P2002 changes the answer and not the database.
pub caught-db {ℓ} : {A : Type ℓ} (a : A) (out : Result A × World) → (caught a out).1 ≡ out.1
caught-db a (ok x, w) = refl
caught-db a (err unique_violation, w) = refl
caught-db a (err e, w) = refl

-- Recording a failed or a mismatched transfer keeps the state consistent.
pub transition_receipt-IsConsistent :
    (txn : PaymentTxn) (g : Text) (s : TxnStatus) (note : Text) (w : World)
    → IsConsistent w.db
    → Agrees txn w.db
    → is_success s ≡ false
    → IsConsistent (transition_receipt txn.id g s note w).1.db
unfolding transition_receipt
transition_receipt-IsConsistent txn g s note w h (agrees x found same_invoice same_amount) quiet =
    rw (caught-db false (transaction (transition_body txn.id g s note) w)) (
      commit-keeps IsConsistent w.db (transition_body txn.id g s note w) h
        (transition_body-IsConsistent txn.id g w h x found s note quiet))
