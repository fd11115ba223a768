-- ===== src/Payments/Qr.antt =====
-- src/billing/payments.service.ts: `createQrPayment`, over the port of
-- src/billing/payment-gateway.port.ts. What is behind the port (payOS, SePay, or the simulated
-- adapter) is a parameter.
use vovinam_api_node.Base.{
  ℕ, ◌+◌, ◌*◌, Bool, true, false, not, ◌&&◌, ◌||◌, Option, none, some, List, [], ◌∷◌, ◌++◌, Text,
  codes, text_eq, ◌==◌, find_unique,
}
use vovinam_api_node.Schema.{
  Caller, Invoice, PaymentTxn, PaymentGateway, TxnStatus, BankAccount, Database,
}
use vovinam_api_node.Service.{
  Result, Action, ◌>>=◌, ◌>>◌, pure, throw_if, or_throw, gets, modify, transaction, record_entry,
  not_found, conflict, payment_created,
}
use vovinam_api_node.Ownership.{assert_can_access}
use vovinam_api_node.Payments.Defs.{
  invoice_id, is_payable, is_pending, update_payments, create_payment, generate_order_ref,
}

pub data Provider : Type 0 where
  payos sepay simulated : Provider

pub record GatewayPaymentRequest : Type 0 where
  pub order_ref : Text
  pub amount : ℕ
  pub description : Text
  pub expires_at : ℕ

pub record GatewayPaymentResult : Type 0 where
  pub checkout_url : Text
  pub qr_code_data_url : Option Text

pub record GatewayWebhookEvent : Type 0 where
  pub order_ref : Text
  pub gateway_txn_id : Text
  pub amount : ℕ
  pub success : Bool

-- `createPayment` throws when the provider is unreachable.
pub record PaymentGatewayPort : Type 0 where
  pub provider : Provider
  pub create_request : GatewayPaymentRequest → Result GatewayPaymentResult
  pub verify_signature : List (Text × Text) → Text → Bool
  pub parse_event : Text → Option GatewayWebhookEvent

-- `gatewayForProvider`
abbrev pub gateway_for_provider : Provider → PaymentGateway
gateway_for_provider Provider.payos = PaymentGateway.payos
gateway_for_provider Provider.sepay = PaymentGateway.sepay
gateway_for_provider Provider.simulated = PaymentGateway.bank_transfer

-- `!value` of an optional text
abbrev pub is_blank : Option Text → Bool
is_blank none = true
is_blank (some []) = true
is_blank (some (c ∷ t)) = false

abbrev is_text : Option Text → Text → Bool
is_text none t = false
is_text (some s) t = text_eq s t

unfoldable pub is_configured : Option BankAccount → Bool
unfolding text_eq
is_configured none = false
is_configured (some a) =
    is_text a.owner_type (codes "BUSINESS")
    && not (is_blank a.bin || is_blank a.number || is_blank a.name)

-- What `createQrPayment` reads and checks before it calls the provider.
unfoldable pub begin_qr : Caller → ℕ → Action Invoice
begin_qr caller inv = do
  invoice ← or_throw (← gets (λ db. find_unique invoice_id inv db.invoices)) not_found
  assert_can_access caller invoice.student_id
  throw_if (not (is_payable invoice.status)) (conflict "Invoice is not payable")
  account ← gets (λ db. db.bank_account)
  throw_if (not (is_configured account)) (conflict "Receiving bank account is not configured")
  pure invoice

abbrev pub is_pending_for : ℕ → PaymentTxn → Bool
is_pending_for inv p = p.invoice_id == inv && is_pending p.status

pub superseded_note : Text
superseded_note = codes "Superseded by newer payment request"

abbrev pub supersede_row : ℕ → PaymentTxn → PaymentTxn
supersede_row now p = record p {
  status = TxnStatus.failed;
  note = some superseded_note;
  expires_at = some now;
}

abbrev pub supersede : ℕ → ℕ → Database → Database
supersede inv now db = update_payments (is_pending_for inv) (supersede_row now) db

-- The row that `createQrPayment` creates.
abbrev pub qr_payment : ℕ → ℕ → Text → PaymentGateway → ℕ → ℕ → PaymentTxn
qr_payment inv total order_ref gateway expires_at new_id = record {
  id = new_id;
  invoice_id = inv;
  order_ref = order_ref;
  gateway = gateway;
  gateway_txn_id = none;
  amount = total;
  status = TxnStatus.pending;
  paid_at = none;
  expires_at = some expires_at;
  recorded_by = none;
  note = none;
}

-- The transaction of `createQrPayment`; `total` is the total of the invoice that was read.
unfoldable pub qr_body : ℕ → ℕ → Text → PaymentGateway → ℕ → ℕ → ℕ → Action PaymentTxn
qr_body inv total order_ref gateway expires_at new_id now = do
  current ← or_throw (← gets (λ db. find_unique invoice_id inv db.invoices)) not_found
  throw_if (not (is_payable current.status)) (conflict "Invoice is not payable")
  modify (supersede inv now)
  create_payment (qr_payment inv total order_ref gateway expires_at new_id)

unfoldable pub commit_qr : ℕ → ℕ → Text → PaymentGateway → ℕ → ℕ → ℕ → Action PaymentTxn
commit_qr inv total order_ref gateway expires_at new_id now =
    transaction (qr_body inv total order_ref gateway expires_at new_id now)

-- `QR_TTL_MINUTES`
abbrev pub qr_ttl_minutes : ℕ
qr_ttl_minutes = 30

abbrev pub lift_result {ℓ} : {A : Type ℓ} → Result A → Action A
lift_result r w = (r, w)

unfoldable pub create_qr_payment :
    PaymentGatewayPort → Caller → ℕ → List ℕ → ℕ → ℕ → Action (PaymentTxn × GatewayPaymentResult)
create_qr_payment port caller inv bytes new_id now = do
  invoice ← begin_qr caller inv
  let order_ref = generate_order_ref bytes
  let expires_at = now + qr_ttl_minutes * 60000
  let request : GatewayPaymentRequest = record {
    order_ref = order_ref;
    amount = invoice.total;
    description = codes "Vovinam fee " ++ order_ref;
    expires_at = expires_at;
  }
  checkout ← lift_result (port.create_request request)
  txn ←
      commit_qr inv invoice.total order_ref (gateway_for_provider port.provider) expires_at new_id
        now
  record_entry (some caller.id) (payment_created txn.id inv order_ref) true
  pure (txn, checkout)
