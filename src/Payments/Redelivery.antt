-- ===== src/Payments/Redelivery.antt =====
-- Repeated deliveries to `handleWebhook` of src/billing/payments.service.ts, end to end.
use vovinam_api_node.Base.{
  ℕ, ◌≡◌, refl, subst, Bool, true, false, Option, none, some, List, Text, arith, ◌==◌, ==_refl,
  Option-cases, Bool-cases, inl, inr, find_first, ◌&&◌, ◌||◌, text_eq, text_eq_iff, IsKeyed,
}
use vovinam_api_node.Schema.{PaymentTxn, TxnStatus, Database}
use vovinam_api_node.Service.{Result, ok, err, World, resume, commit, unique_violation}
use vovinam_api_node.Payments.Defs.{payment_id}
use vovinam_api_node.Payments.Qr.{GatewayWebhookEvent, PaymentGatewayPort, Provider}
use vovinam_api_node.Payments.Settle.{
  WebhookReply, not_processed, flagged, overpaid, processed_failed, processed_success, is_claimable,
  is_gateway_id, settle, receipt_row, gateway_row, after_receipt_claim, transition_body,
  transition_receipt, caught,
}
use vovinam_api_node.Payments.Webhook.{
  is_final, is_failed, audit_settlement, process_event, receive_event, after_failure,
  after_mismatch, after_settlement, handle_webhook, same_provider, failed_note, mismatch_note,
}
use vovinam_api_node.Payments.Claims.{claim_payment-cases}
use vovinam_api_node.Payments.Replay.{
  is_done, IsDone, Closes, claimed_count, rewritten-IsDone, settle-Closes,
}

-- `transitionReceipt` answers true only when it has written the row.
abbrev ClosesIf : Text → Text → Result Bool × World → Type 0
ClosesIf o g (ok true, w) = IsDone o g w.db
ClosesIf o g (ok false, w) = Unit
ClosesIf o g (err e, w) = Unit

caught-ClosesIf :
    (o g : Text) (before : Database) (out : Result Bool × World)
    → ClosesIf o g out
    → ClosesIf o g (caught false (commit before out))
caught-ClosesIf o g before (ok true, w) h = h
caught-ClosesIf o g before (ok false, w) h = tt
caught-ClosesIf o g before (err unique_violation, w) h = tt
caught-ClosesIf o g before (err e, w) h = tt

abbrev is_closing : TxnStatus → Bool
is_closing s = is_final s || is_failed s

module _ (o g : Text) (txn : PaymentTxn) (w : World) (keyed : IsKeyed payment_id w.db.payments)
    (found : find_first (λ (p : PaymentTxn). text_eq p.order_ref o) w.db.payments ≡ some txn) where
  closing_done :
      (s : TxnStatus) (note : Text)
      → is_closing s ≡ true
      → is_done g (receipt_row g s note (gateway_row g txn)) ≡ true
  closing_done s note h = ground (arith, text_eq_iff g g)

  transition_body-ClosesIf :
      (s : TxnStatus) (note : Text)
      → is_closing s ≡ true
      → ClosesIf o g (transition_body txn.id g s note w)
  unfolding transition_body after_receipt_claim
  transition_body-ClosesIf s note h = elim (claim_payment-cases txn.id g (gateway_row g) w) [
    | inl held ↦ rw held tt
    | inr done ↦ elim (Bool-cases (is_claimable txn.id g txn)) [
      | inr miss ↦ rw (done, claimed_count o g txn w keyed found, miss) tt
      | inl hit ↦
          rw (done, claimed_count o g txn w keyed found, hit)
            (rewritten-IsDone o g txn w keyed found (gateway_row g) (receipt_row g s note)
              (λ r. refl) (λ r. refl) hit (==_refl txn.id) (closing_done s note h))
    ]
  ]

  transition_receipt-ClosesIf :
      (s : TxnStatus) (note : Text)
      → is_closing s ≡ true
      → ClosesIf o g (transition_receipt txn.id g s note w)
  unfolding transition_receipt
  transition_receipt-ClosesIf s note h =
      caught-ClosesIf o g w.db (transition_body txn.id g s note w)
        (transition_body-ClosesIf s note h)

-- What is audited after a transaction changes no payment.
after_settlement-Closes :
    (o g : Text) (txn : PaymentTxn) (out : Result WebhookReply × World)
    → Closes o g out
    → Closes o g (resume (caught not_processed out) (after_settlement txn))
unfolding after_settlement audit_settlement
after_settlement-Closes o g txn (ok not_processed, w) h = tt
after_settlement-Closes o g txn (ok flagged, w) h = h
after_settlement-Closes o g txn (ok (overpaid n), w) h = h
after_settlement-Closes o g txn (ok processed_failed, w) h = h
after_settlement-Closes o g txn (ok processed_success, w) h = h
after_settlement-Closes o g txn (err unique_violation, w) h = tt
after_settlement-Closes o g txn (err e, w) h = tt

after_failure-Closes :
    (o g : Text) (txn : PaymentTxn) (out : Result Bool × World)
    → ClosesIf o g out
    → Closes o g (resume out (after_failure txn))
unfolding after_failure
after_failure-Closes o g txn (ok true, w) h = h
after_failure-Closes o g txn (ok false, w) h = tt
after_failure-Closes o g txn (err e, w) h = tt

after_mismatch-Closes :
    (o g : Text) (txn : PaymentTxn) (n : ℕ) (out : Result Bool × World)
    → ClosesIf o g out
    → Closes o g (resume out (after_mismatch txn n))
unfolding after_mismatch
after_mismatch-Closes o g txn n (ok true, w) h = h
after_mismatch-Closes o g txn n (ok false, w) h = tt
after_mismatch-Closes o g txn n (err e, w) h = tt

process_event-Closes :
    (o : Text) (txn : PaymentTxn) (event : GatewayWebhookEvent) (now : ℕ) (w : World)
    → IsKeyed payment_id w.db.payments
    → find_first (λ (p : PaymentTxn). text_eq p.order_ref o) w.db.payments ≡ some txn
    → Closes o event.gateway_txn_id (process_event txn event now w)
unfolding process_event
process_event-Closes o txn event now w keyed found =
    let g = event.gateway_txn_id in
    elim (Bool-cases (is_final txn.status)) [
      | inl final ↦ rw final tt
      | inr live ↦ elim (Bool-cases (is_failed txn.status && is_gateway_id txn.gateway_txn_id g)) [
        | inl again ↦ rw (live, again) tt
        | inr new ↦ elim (Bool-cases event.success) [
          | inr failure ↦
              rw (live, new, failure)
                (after_failure-Closes o g txn _ (
                  transition_receipt-ClosesIf o g txn w keyed found TxnStatus.failed failed_note
                    refl))
          | inl reported ↦ elim (Bool-cases (event.amount == txn.amount)) [
            | inr differs ↦
                rw (live, new, reported, differs)
                  (after_mismatch-Closes o g txn event.amount _ (
                    transition_receipt-ClosesIf o g txn w keyed found TxnStatus.disputed
                      (mismatch_note txn.amount event.amount) refl))
            | inl exact ↦
                rw (live, new, reported, exact)
                  (after_settlement-Closes o g txn (settle txn g now w)
                    (settle-Closes o g txn w keyed found now))
          ]
        ]
      ]
    ]

-- On a row that is done with, an event changes nothing and is answered `not_processed`.
done-no_op :
    (event : GatewayWebhookEvent) (now : ℕ) (w : World)
    → IsDone event.order_ref event.gateway_txn_id w.db
    → receive_event (some event) now w ≡ (ok not_processed, w)
unfolding receive_event process_event
done-no_op event now w h =
    elim (Option-cases
      (find_first (λ (p : PaymentTxn). text_eq p.order_ref event.order_ref) w.db.payments)) [
        | inl e ↦ absurd (rw e at h)
        | inr (txn, e) ↦ let d : is_done event.gateway_txn_id txn ≡ true = rw e at h in ground arith
      ]

unfoldable pub is_processed : WebhookReply → Bool
is_processed not_processed = false
is_processed _ = true

IsDone-of_Closes :
    (o g : Text) (r : WebhookReply) (w : World)
    → is_processed r ≡ true
    → Closes o g (ok r, w)
    → IsDone o g w.db
unfolding is_processed
IsDone-of_Closes o g not_processed w p h = cc
IsDone-of_Closes o g flagged w p h = h
IsDone-of_Closes o g (overpaid n) w p h = h
IsDone-of_Closes o g processed_failed w p h = h
IsDone-of_Closes o g processed_success w p h = h

receive_event-Closes :
    (event : GatewayWebhookEvent) (now : ℕ) (w : World)
    → IsKeyed payment_id w.db.payments
    → Closes event.order_ref event.gateway_txn_id (receive_event (some event) now w)
unfolding receive_event
receive_event-Closes event now w keyed =
    elim (Option-cases
      (find_first (λ (p : PaymentTxn). text_eq p.order_ref event.order_ref) w.db.payments)) [
        | inl e ↦ rw (e, receive_event) tt
        | inr (txn, e) ↦
            rw (e, receive_event) (process_event-Closes event.order_ref txn event now w keyed e)
      ]

receive_event-replay :
    (event : Option GatewayWebhookEvent) (now now' : ℕ) (r : WebhookReply) (w w' : World)
    → IsKeyed payment_id w.db.payments
    → receive_event event now w ≡ (ok r, w')
    → is_processed r ≡ true
    → receive_event event now' w' ≡ (ok not_processed, w')
unfolding receive_event is_processed
receive_event-replay none now now' r w w' keyed h p = ground arith
receive_event-replay (some event) now now' r w w' keyed h p = done-no_op event now' w' (
    IsDone-of_Closes event.order_ref event.gateway_txn_id r w' p (
      subst (Closes event.order_ref event.gateway_txn_id) h
        (receive_event-Closes event now w keyed)))

-- A delivery that was processed or flagged, and is delivered again at any later time, is answered
-- `not_processed` and changes nothing: no second settlement, no second flag, no audit entry.
pub handle_webhook-replay :
    (port : PaymentGatewayPort) (provider : Provider) (headers : List (Text × Text)) (body : Text)
    (now now' : ℕ) (r : WebhookReply) (w w' : World)
    → IsKeyed payment_id w.db.payments
    → handle_webhook port provider headers body now w ≡ (ok r, w')
    → is_processed r ≡ true
    → handle_webhook port provider headers body now' w' ≡ (ok not_processed, w')
unfolding handle_webhook
handle_webhook-replay port provider headers body now now' r w w' keyed h p =
    elim (Bool-cases (same_provider provider port.provider)) [
      | inr other ↦ ground arith
      | inl same ↦ elim (Bool-cases (port.verify_signature headers body)) [
        | inr forged ↦ ground arith
        | inl signed ↦
            rw (same, signed)
              (receive_event-replay (port.parse_event body) now now' r w w' keyed
                (rw (same, signed) at h) p)
      ]
    ]
