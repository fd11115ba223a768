-- ===== src/Payments/Settle.antt =====
-- src/billing/payments.service.ts: the transactions of `handleWebhook`, which are the settlement of a
-- matching transfer and `transitionReceipt`, on a payment row that was read before them.
use vovinam_api_node.Base.{
  ℕ, Bool, true, false, not, ◌&&◌, ◌||◌, Option, none, some, [], ◌∷◌, ◌++◌, Text, codes, text_eq,
  decimal, ◌==◌, leb, ltb, is_none, is_some, take, if◌then◌else◌, find_unique, find_first,
  count_where,
}
use vovinam_api_node.Schema.{Invoice, InvoiceStatus, PaymentTxn, TxnStatus, Database}
use vovinam_api_node.Service.{
  Result, ok, err, World, Action, ◌>>=◌, ◌>>◌, pure, throw_if, gets, modify, transaction, not_found,
  unique_violation,
}
use vovinam_api_node.Payments.Defs.{
  invoice_id, is_open, is_payable, total_settled, set_invoice_status, update_payments,
  update_invoices, has_id, is_invoice,
}

-- The bodies of the 200 answers.
pub data WebhookReply : Type 0 where
  not_processed : WebhookReply
  flagged : WebhookReply
  overpaid : (total : ℕ) → WebhookReply
  processed_failed : WebhookReply
  processed_success : WebhookReply

-- Two nullable gateway ids, the second given.
abbrev pub is_gateway_id : Option Text → Text → Bool
is_gateway_id none g = false
is_gateway_id (some s) g = text_eq s g

-- `{ id, status: { in: ['PENDING', 'FAILED'] }, OR: [{ gatewayTxnId: null }, { gatewayTxnId }] }`
abbrev pub is_claimable : ℕ → Text → PaymentTxn → Bool
is_claimable k g p =
    p.id == k
    && (is_open p.status && (is_none p.gateway_txn_id || is_gateway_id p.gateway_txn_id g))

-- The unique column `gateway_txn_id`: another row holds the id.
abbrev pub is_held_elsewhere : ℕ → Text → PaymentTxn → Bool
is_held_elsewhere k g p = not (p.id == k) && is_gateway_id p.gateway_txn_id g

-- `updateMany` with the claim's `where`, by a write that sets the gateway id; answers the count.
unfoldable pub claim_payment : ℕ → Text → (PaymentTxn → PaymentTxn) → Action ℕ
claim_payment k g f = do
  rows ← gets (λ db. db.payments)
  let claimed = count_where (is_claimable k g) rows
  throw_if (not (claimed == 0) && is_some (find_first (is_held_elsewhere k g) rows))
      unique_violation
  modify (update_payments (is_claimable k g) f)
  pure claimed

pub late_note : Text
late_note = codes "Transfer received after QR expiration; requires manual reconciliation"

pub non_payable_note : Text
non_payable_note =
    codes "Transfer received for a non-payable invoice; requires manual reconciliation"

pub overpaid_note : ℕ → ℕ → Text
overpaid_note settled total =
    codes "Overpayment detected: total settled "
    ++ (decimal settled
        ++ (codes " exceeds invoice total "
            ++ (decimal total ++ codes "; requires manual resolution")))

pub overpaid_text : ℕ → ℕ → Text
overpaid_text settled total =
    codes "Overpayment detected: total received "
    ++ (decimal settled ++ (codes " exceeds invoice total " ++ decimal total))

-- `invoice.note ? … : …`, cut to 500 code units
pub overpaid_invoice_note : Option Text → ℕ → ℕ → Text
overpaid_invoice_note none settled total = take 500 (overpaid_text settled total)
overpaid_invoice_note (some []) settled total = take 500 (overpaid_text settled total)
overpaid_invoice_note (some (c ∷ t)) settled total =
    take 500 ((c ∷ t) ++ (codes "; " ++ overpaid_text settled total))

-- `expiresAt: { lte: new Date() }`
abbrev pub is_expired_at : ℕ → Option ℕ → Bool
is_expired_at now none = false
is_expired_at now (some t) = leb t now

abbrev pub is_expired : ℕ → ℕ → PaymentTxn → Bool
is_expired k now p = p.id == k && (is_open p.status && is_expired_at now p.expires_at)

abbrev pub late_row : Text → ℕ → PaymentTxn → PaymentTxn
late_row g now p = record p {
  gateway_txn_id = some g;
  status = TxnStatus.disputed;
  paid_at = some now;
  note = some late_note;
}

abbrev pub success_row : Text → ℕ → PaymentTxn → PaymentTxn
success_row g now p = record p {
  gateway_txn_id = some g;
  status = TxnStatus.success;
  paid_at = some now;
}

abbrev pub dispute_row : Text → PaymentTxn → PaymentTxn
dispute_row note p = record p { status = TxnStatus.disputed; note = some note }

abbrev pub is_void : InvoiceStatus → Bool
is_void InvoiceStatus.cancelled = true
is_void InvoiceStatus.refunded = true
is_void _ = false

abbrev pub note_row : Text → Invoice → Invoice
note_row note i = record i { note = some note }

abbrev pub set_invoice_note : ℕ → Text → Database → Database
set_invoice_note k note db = update_invoices (is_invoice k) (note_row note) db

-- What follows the claim in the settlement transaction, on the invoice that it reads.
unfoldable pub settle_claimed : PaymentTxn → Invoice → Action WebhookReply
settle_claimed txn invoice w =
    let settled = total_settled txn.invoice_id w.db in
    if is_void invoice.status
    then (modify (update_payments (has_id txn.id) (dispute_row non_payable_note)) >> pure flagged) w
    else if ltb invoice.total settled
    then (modify
            (update_payments (has_id txn.id) (dispute_row (overpaid_note settled invoice.total)))
          >> modify (
              set_invoice_note txn.invoice_id
                (overpaid_invoice_note invoice.note settled invoice.total))
          >> pure (overpaid settled))
        w
    else if leb invoice.total settled && is_payable invoice.status
    then (modify (set_invoice_status txn.invoice_id InvoiceStatus.paid) >> pure processed_success) w
    else (ok processed_success, w)

-- The branch for a transfer that comes after the payment's expiry.
unfoldable pub settle_late : PaymentTxn → Text → ℕ → Action WebhookReply
settle_late txn g now = do
  late ← claim_payment txn.id g (late_row g now)
  pure (if ltb 0 late then flagged else not_processed)

unfoldable pub after_claim : PaymentTxn → ℕ → Action WebhookReply
after_claim txn claimed w =
    if claimed == 0
    then (ok not_processed, w)
    else elim (find_unique invoice_id txn.invoice_id w.db.invoices) [
      | none ↦ (err not_found, w)
      | some invoice ↦ settle_claimed txn invoice w
    ]

unfoldable pub settle_claim : PaymentTxn → Text → ℕ → Action WebhookReply
settle_claim txn g now = do
  claimed ← claim_payment txn.id g (success_row g now)
  after_claim txn claimed

-- The settlement transaction, on the payment row that was read before it.
unfoldable pub settle_body : PaymentTxn → Text → ℕ → Action WebhookReply
settle_body txn g now w =
    if is_some (find_first (is_expired txn.id now) w.db.payments)
    then settle_late txn g now w
    else settle_claim txn g now w

unfoldable pub settle : PaymentTxn → Text → ℕ → Action WebhookReply
settle txn g now = transaction (settle_body txn g now)

-- `catch (error)` for P2002, with the value answered in its place
abbrev pub caught {ℓ} : {A : Type ℓ} → A → Result A × World → Result A × World
caught a (ok x, w) = (ok x, w)
caught a (err unique_violation, w) = (ok a, w)
caught a (err e, w) = (err e, w)

abbrev pub catch_unique {ℓ} : {A : Type ℓ} → A → Action A → Action A
catch_unique a m w = caught a (m w)

abbrev pub receipt_row : Text → TxnStatus → Text → PaymentTxn → PaymentTxn
receipt_row g s note p = record p { gateway_txn_id = some g; status = s; note = some note }

unfoldable pub after_receipt_claim : ℕ → Text → TxnStatus → Text → ℕ → Action Bool
after_receipt_claim k g s note claimed w =
    if claimed == 0
    then (ok false, w)
    else (modify (update_payments (has_id k) (receipt_row g s note)) >> pure true) w

abbrev pub gateway_row : Text → PaymentTxn → PaymentTxn
gateway_row g p = record p { gateway_txn_id = some g }

-- `transitionReceipt`: the claim writes the gateway id, the update after it the rest.
unfoldable pub transition_body : ℕ → Text → TxnStatus → Text → Action Bool
transition_body k g s note = do
  claimed ← claim_payment k g (gateway_row g)
  after_receipt_claim k g s note claimed

unfoldable pub transition_receipt : ℕ → Text → TxnStatus → Text → Action Bool
transition_receipt k g s note = catch_unique false (transaction (transition_body k g s note))
