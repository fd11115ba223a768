-- ===== src/Payments/Webhook.antt =====
-- src/billing/payments.service.ts: `handleWebhook`.
use vovinam_api_node.Base.{
  ℕ, Bool, true, false, not, ◌&&◌, Option, none, some, List, ◌++◌, Text, codes, text_eq, decimal,
  ◌==◌, if◌then◌else◌, find_first,
}
use vovinam_api_node.Schema.{PaymentTxn, TxnStatus}
use vovinam_api_node.Service.{
  ok, Action, ◌>>=◌, ◌>>◌, pure, throw_if, record_entry, not_found, unauthorized, payment_failed,
  payment_mismatched, payment_flagged, payment_succeeded,
}
use vovinam_api_node.Payments.Qr.{
  GatewayWebhookEvent, PaymentGatewayPort, Provider, payos, sepay, simulated,
}
use vovinam_api_node.Payments.Settle.{
  WebhookReply, not_processed, flagged, overpaid, processed_failed, processed_success,
  is_gateway_id, settle, catch_unique, transition_receipt,
}

-- A payment that has left the states from which the webhook moves it.
abbrev pub is_final : TxnStatus → Bool
is_final TxnStatus.success = true
is_final TxnStatus.disputed = true
is_final TxnStatus.refunded = true
is_final _ = false

abbrev pub is_failed : TxnStatus → Bool
is_failed TxnStatus.failed = true
is_failed _ = false

pub failed_note : Text
failed_note = codes "Gateway reported a failed transfer"

pub mismatch_note : ℕ → ℕ → Text
mismatch_note expected received =
    codes "Amount mismatch: expected "
    ++ (decimal expected ++ (codes ", received " ++ decimal received))

-- The audit entries that follow the settlement.
unfoldable pub audit_settlement : PaymentTxn → WebhookReply → Action (Unit {0})
audit_settlement txn not_processed = pure tt
audit_settlement txn flagged = record_entry none (payment_flagged txn.id txn.invoice_id 0) false
audit_settlement txn (overpaid total) =
    record_entry none (payment_flagged txn.id txn.invoice_id total) false
audit_settlement txn processed_failed = pure tt
audit_settlement txn processed_success =
    record_entry none (payment_succeeded txn.id txn.invoice_id txn.amount) true

-- What follows `transitionReceipt`, when the gateway reports a failure.
unfoldable pub after_failure : PaymentTxn → Bool → Action WebhookReply
after_failure txn false = pure not_processed
after_failure txn true =
    record_entry none (payment_failed txn.id txn.order_ref) true >> pure processed_failed

-- The same when the amounts differ.
unfoldable pub after_mismatch : PaymentTxn → ℕ → Bool → Action WebhookReply
after_mismatch txn received false = pure not_processed
after_mismatch txn received true =
    record_entry none (payment_mismatched txn.id txn.order_ref txn.amount received) false
    >> pure flagged

unfoldable pub after_settlement : PaymentTxn → WebhookReply → Action WebhookReply
after_settlement txn reply = audit_settlement txn reply >> pure reply

-- The rest of the handler, once the event's payment was read.
unfoldable pub process_event : PaymentTxn → GatewayWebhookEvent → ℕ → Action WebhookReply
process_event txn event now w =
    if is_final txn.status
    then (ok not_processed, w)
    else if is_failed txn.status && is_gateway_id txn.gateway_txn_id event.gateway_txn_id
    then (ok not_processed, w)
    else if not event.success
    then (transition_receipt txn.id event.gateway_txn_id TxnStatus.failed failed_note
          >>= after_failure txn)
        w
    else if not (event.amount == txn.amount)
    then (transition_receipt txn.id event.gateway_txn_id TxnStatus.disputed
            (mismatch_note txn.amount event.amount)
          >>= after_mismatch txn event.amount)
        w
    else (catch_unique not_processed (settle txn event.gateway_txn_id now) >>= after_settlement txn)
        w

abbrev pub same_provider : Provider → Provider → Bool
same_provider payos payos = true
same_provider sepay sepay = true
same_provider simulated simulated = true
same_provider _ _ = false

-- The handler on a signed body that was parsed.
unfoldable pub receive_event : Option GatewayWebhookEvent → ℕ → Action WebhookReply
receive_event none now w = (ok not_processed, w)
receive_event (some event) now w =
    elim (find_first (λ (p : PaymentTxn). text_eq p.order_ref event.order_ref) w.db.payments) [
      | none ↦ (ok not_processed, w)
      | some txn ↦ process_event txn event now w
    ]

unfoldable pub handle_webhook :
    PaymentGatewayPort → Provider → List (Text × Text) → Text → ℕ → Action WebhookReply
handle_webhook port provider headers raw_body now = do
  throw_if (not (same_provider provider port.provider)) not_found
  throw_if (not (port.verify_signature headers raw_body)) (unauthorized "Invalid signature")
  receive_event (port.parse_event raw_body) now
