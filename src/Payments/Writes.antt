-- ===== src/Payments/Writes.antt =====
-- Every transaction of src/billing/payments.service.ts is made of the writes that keep history.

use vovinam_api_node.Base.{
  ℕ, refl, false, Option, List, Text, Option-cases, Bool-cases, inl, inr, find_unique, find_first,
  is_some, count_where, ◌==◌, leb, ltb, ◌&&◌,
}
use vovinam_api_node.Schema.{Caller, Invoice, InvoiceStatus, PaymentTxn, TxnStatus, Database}
use vovinam_api_node.Service.{World, transaction, commit-keeps}
use vovinam_api_node.Payments.Defs.{
  invoice_id, is_payable, can_pay, mark_paid, cash_payment, cash_body, claim_cash, total_settled,
}
use vovinam_api_node.Payments.Settle.{
  is_claimable, is_expired, late_row, success_row, dispute_row, is_void, settle_claimed,
  settle_late, after_claim, settle_claim, settle_body, settle, gateway_row, receipt_row,
  after_receipt_claim, transition_body, transition_receipt,
}
use vovinam_api_node.Payments.Operations.{create_payment-cases}
use vovinam_api_node.Payments.Claims.{claim_payment-cases}
use vovinam_api_node.Payments.Receipts.{caught-db}
use vovinam_api_node.Payments.History.{
  Keeps, Writes, stay, payments, invoice_status, invoice_note, added,
}

abbrev keeps_late : (g : Text) (now : ℕ) → Keeps (late_row g now)
keeps_late g now = record { same_id = λ r. refl; same_invoice = λ r. refl; same_amount = λ r. refl }

abbrev keeps_success : (g : Text) (now : ℕ) → Keeps (success_row g now)
keeps_success g now = record {
  same_id = λ r. refl;
  same_invoice = λ r. refl;
  same_amount = λ r. refl;
}

abbrev keeps_dispute : (note : Text) → Keeps (dispute_row note)
keeps_dispute note = record {
  same_id = λ r. refl;
  same_invoice = λ r. refl;
  same_amount = λ r. refl;
}

abbrev keeps_gateway : (g : Text) → Keeps (gateway_row g)
keeps_gateway g = record { same_id = λ r. refl; same_invoice = λ r. refl; same_amount = λ r. refl }

abbrev keeps_receipt : (g : Text) (s : TxnStatus) (note : Text) → Keeps (receipt_row g s note)
keeps_receipt g s note = record {
  same_id = λ r. refl;
  same_invoice = λ r. refl;
  same_amount = λ r. refl;
}

settle_claimed-Writes :
    (db : Database) (txn : PaymentTxn) (i : Invoice) (w : World)
    → Writes db w.db
    → Writes db (settle_claimed txn i w).1.db
unfolding settle_claimed
settle_claimed-Writes db txn i w h = elim (Bool-cases (is_void i.status)) [
  | inl void ↦ rw void (payments _ _ (keeps_dispute _) h)
  | inr valid ↦ elim (Bool-cases (ltb i.total (total_settled txn.invoice_id w.db))) [
    | inl over ↦ rw (valid, over) (invoice_note _ _ (payments _ _ (keeps_dispute _) h))
    | inr fits ↦
        elim (Bool-cases (leb i.total (total_settled txn.invoice_id w.db) && is_payable i.status)) [
          | inl pay ↦ rw (valid, fits, pay) (invoice_status _ InvoiceStatus.paid h)
          | inr skip ↦ rw (valid, fits, skip) h
        ]
  ]
]

after_claim-Writes :
    (db : Database) (txn : PaymentTxn) (n : ℕ) (w : World)
    → Writes db w.db
    → Writes db (after_claim txn n w).1.db
unfolding after_claim
after_claim-Writes db txn n w h = elim (Bool-cases (n == 0)) [
  | inl nothing ↦ rw nothing h
  | inr some_row ↦ elim (Option-cases (find_unique invoice_id txn.invoice_id w.db.invoices)) [
    | inl e ↦ rw (some_row, e) h
    | inr (i, e) ↦ rw (some_row, e) (settle_claimed-Writes db txn i w h)
  ]
]

settle_body-Writes :
    (txn : PaymentTxn) (g : Text) (now : ℕ) (w : World) → Writes w.db (settle_body txn g now w).1.db
unfolding settle_body settle_late settle_claim
settle_body-Writes txn g now w =
    elim (Bool-cases (is_some (find_first (is_expired txn.id now) w.db.payments))) [
      | inl late ↦ elim (claim_payment-cases txn.id g (late_row g now) w) [
        | inl held ↦ rw (late, held) stay
        | inr done ↦ rw (late, done) (payments _ _ (keeps_late g now) stay)
      ]
      | inr fresh ↦ elim (claim_payment-cases txn.id g (success_row g now) w) [
        | inl held ↦ rw (fresh, held) stay
        | inr done ↦
            rw (fresh, done)
              (after_claim-Writes w.db txn _ _ (payments _ _ (keeps_success g now) stay))
      ]
    ]

-- Settlement makes only writes that keep history.
pub settle-Writes :
    (txn : PaymentTxn) (g : Text) (now : ℕ) (w : World) → Writes w.db (settle txn g now w).1.db
unfolding settle
settle-Writes txn g now w =
    commit-keeps (Writes w.db) w.db (settle_body txn g now w) stay (settle_body-Writes txn g now w)

transition_body-Writes :
    (k : ℕ) (g : Text) (s : TxnStatus) (note : Text) (w : World)
    → Writes w.db (transition_body k g s note w).1.db
unfolding transition_body after_receipt_claim
transition_body-Writes k g s note w = elim (claim_payment-cases k g (gateway_row g) w) [
  | inl held ↦ rw held stay
  | inr done ↦ elim (Bool-cases (count_where (is_claimable k g) w.db.payments == 0)) [
    | inl nothing ↦ rw (done, nothing) (payments _ _ (keeps_gateway g) stay)
    | inr some_row ↦
        rw (done, some_row)
          (payments _ _ (keeps_receipt g s note) (payments _ _ (keeps_gateway g) stay))
  ]
]

-- Recording a failed or mismatched transfer makes only writes that keep history.
pub transition_receipt-Writes :
    (k : ℕ) (g : Text) (s : TxnStatus) (note : Text) (w : World)
    → Writes w.db (transition_receipt k g s note w).1.db
unfolding transition_receipt
transition_receipt-Writes k g s note w =
    rw (caught-db false (transaction (transition_body k g s note) w)) (
      commit-keeps (Writes w.db) w.db (transition_body k g s note w) stay
        (transition_body-Writes k g s note w))

cash_body-Writes :
    (inv total : ℕ) (caller : Caller) (note : Option Text) (id : ℕ) (bytes : List ℕ) (now : ℕ)
    (w : World)
    → Writes w.db (cash_body inv total caller note id bytes now w).1.db
unfolding cash_body
cash_body-Writes inv total caller note id bytes now w =
    elim (Option-cases (find_unique invoice_id inv w.db.invoices)) [
      | inl e ↦ rw e stay
      | inr (i, e) ↦ elim (Bool-cases (count_where (can_pay inv) w.db.invoices == 0)) [
        | inl nothing ↦ rw (e, nothing) (invoice_status _ InvoiceStatus.paid stay)
        | inr some_row ↦
            elim (create_payment-cases (cash_payment inv total caller note id bytes now)
              (record w { db = mark_paid inv w.db })) [
                | inl clash ↦ rw (e, some_row, clash) (invoice_status _ InvoiceStatus.paid stay)
                | inr (done, fresh) ↦
                    rw (e, some_row, done) (added _ (invoice_status _ InvoiceStatus.paid stay))
              ]
      ]
    ]

-- Cash confirmation makes only writes that keep history.
pub claim_cash-Writes :
    (inv total : ℕ) (caller : Caller) (note : Option Text) (id : ℕ) (bytes : List ℕ) (now : ℕ)
    (w : World)
    → Writes w.db (claim_cash inv total caller note id bytes now w).1.db
unfolding claim_cash
claim_cash-Writes inv total caller note id bytes now w =
    commit-keeps (Writes w.db) w.db (cash_body inv total caller note id bytes now w) stay
      (cash_body-Writes inv total caller note id bytes now w)
