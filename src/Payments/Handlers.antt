-- ===== src/Payments/Handlers.antt =====
-- The whole handlers of src/billing/payments.service.ts, from a consistent state.
use vovinam_api_node.Base.{
  ℕ, ◌≡◌, refl, Bool, true, false, Option, none, some, List, Text, Option-cases, Bool-cases, inl,
  inr, ◌==◌, ◌&&◌, text_eq, find_first, find_unique, find_unique_of_find_first,
}
use vovinam_api_node.Schema.{Caller, PaymentTxn, TxnStatus}
use vovinam_api_node.Service.{resume-db, World}
use vovinam_api_node.Payments.Defs.{payment_id, confirm_cash, invoice_id, claim_cash}
use vovinam_api_node.Payments.Qr.{GatewayWebhookEvent, PaymentGatewayPort, Provider}
use vovinam_api_node.Payments.Settle.{
  WebhookReply, not_processed, flagged, overpaid, processed_failed, processed_success,
  is_gateway_id, settle, caught,
}
use vovinam_api_node.Payments.Webhook.{
  is_final, is_failed, audit_settlement, after_settlement, after_failure, after_mismatch,
  process_event, receive_event, handle_webhook, same_provider, failed_note, mismatch_note,
}
use vovinam_api_node.Payments.Invariant.{IsConsistent}
use vovinam_api_node.Payments.Claims.{Agrees, agrees, settle-IsConsistent}
use vovinam_api_node.Payments.Receipts.{transition_receipt-IsConsistent, caught-db}
use vovinam_api_node.Payments.Cash.{claim_cash-IsConsistent}

after_settlement-db :
    (txn : PaymentTxn) (r : WebhookReply) (w : World) → (after_settlement txn r w).1.db ≡ w.db
unfolding after_settlement audit_settlement
after_settlement-db txn not_processed w = refl
after_settlement-db txn flagged w = refl
after_settlement-db txn (overpaid n) w = refl
after_settlement-db txn processed_failed w = refl
after_settlement-db txn processed_success w = refl

after_failure-db : (txn : PaymentTxn) (b : Bool) (w : World) → (after_failure txn b w).1.db ≡ w.db
unfolding after_failure
after_failure-db txn true w = refl
after_failure-db txn false w = refl

after_mismatch-db :
    (txn : PaymentTxn) (n : ℕ) (b : Bool) (w : World) → (after_mismatch txn n b w).1.db ≡ w.db
unfolding after_mismatch
after_mismatch-db txn n true w = refl
after_mismatch-db txn n false w = refl

process_event-IsConsistent :
    (txn : PaymentTxn) (event : GatewayWebhookEvent) (now : ℕ) (w : World)
    → IsConsistent w.db
    → Agrees txn w.db
    → IsConsistent (process_event txn event now w).1.db
unfolding process_event
process_event-IsConsistent txn event now w h same =
    let g = event.gateway_txn_id in
    elim (Bool-cases (is_final txn.status)) [
      | inl final ↦ rw final h
      | inr live ↦ elim (Bool-cases (is_failed txn.status && is_gateway_id txn.gateway_txn_id g)) [
        | inl again ↦ rw (live, again) h
        | inr new ↦ elim (Bool-cases event.success) [
          | inr failure ↦
              rw (live, new, failure)
                (resume-db IsConsistent (after_failure txn) _ (after_failure-db txn) (
                  transition_receipt-IsConsistent txn g TxnStatus.failed failed_note w h same refl))
          | inl reported ↦ elim (Bool-cases (event.amount == txn.amount)) [
            | inr differs ↦
                rw (live, new, reported, differs)
                  (resume-db IsConsistent (after_mismatch txn event.amount) _
                    (after_mismatch-db txn event.amount)
                    (transition_receipt-IsConsistent txn g TxnStatus.disputed
                      (mismatch_note txn.amount event.amount) w h same refl))
            | inl exact ↦
                rw (live, new, reported, exact)
                  (resume-db IsConsistent (after_settlement txn)
                    (caught not_processed (settle txn g now w)) (after_settlement-db txn)
                    (rw (caught-db not_processed (settle txn g now w))
                      (settle-IsConsistent txn g now w h same)))
          ]
        ]
      ]
    ]

receive_event-IsConsistent :
    (event : Option GatewayWebhookEvent) (now : ℕ) (w : World)
    → IsConsistent w.db
    → IsConsistent (receive_event event now w).1.db
unfolding receive_event
receive_event-IsConsistent none now w h = h
receive_event-IsConsistent (some event) now w h =
    let named : PaymentTxn → Bool = λ p. text_eq p.order_ref event.order_ref in
    elim (Option-cases (find_first named w.db.payments)) [
      | inl e ↦ rw (e, receive_event) h
      | inr (txn, e) ↦
          rw (e, receive_event)
            (process_event-IsConsistent txn event now w h (
              agrees txn
                (find_unique_of_find_first payment_id named w.db.payments txn
                  h.formed.payments_keyed e)
                refl refl))
    ]

-- Any delivery to the webhook, whatever its provider, signature and body, keeps invoices and payments
-- consistent.
pub handle_webhook-IsConsistent :
    (port : PaymentGatewayPort) (provider : Provider) (headers : List (Text × Text)) (body : Text)
    (now : ℕ) (w : World)
    → IsConsistent w.db
    → IsConsistent (handle_webhook port provider headers body now w).1.db
unfolding handle_webhook
handle_webhook-IsConsistent port provider headers body now w h =
    elim (Bool-cases (same_provider provider port.provider)) [
      | inr other ↦ rw other h
      | inl same ↦ elim (Bool-cases (port.verify_signature headers body)) [
        | inr forged ↦ rw (same, forged) h
        | inl signed ↦
            rw (same, signed) (receive_event-IsConsistent (port.parse_event body) now w h)
      ]
    ]

-- Confirming cash keeps invoices and payments consistent, on every branch.
pub confirm_cash-IsConsistent :
    (caller : Caller) (inv : ℕ) (note : Option Text) (id : ℕ) (bytes : List ℕ) (now : ℕ) (w : World)
    → IsConsistent w.db
    → IsConsistent (confirm_cash caller inv note id bytes now w).1.db
unfolding confirm_cash
confirm_cash-IsConsistent caller inv note id bytes now w h =
    elim (Option-cases (find_unique invoice_id inv w.db.invoices)) [
      | inl e ↦ rw e h
      | inr (i, e) ↦ rw e (
          resume-db IsConsistent _ (claim_cash inv i.total caller note id bytes now w)
            (λ txn u. refl)
            (claim_cash-IsConsistent inv i.total caller note id bytes now w h (rw e refl)))
    ]
