-- ===== src/Payments/Revisions.antt =====
-- The transactions of `createQrPayment` and `setOutcome` in src/billing/payments.service.ts are made of
-- the writes that keep history.
use vovinam_api_node.Base.{
  ℕ, refl, Option, Text, Option-cases, Bool-cases, inl, inr, find_unique, leb, ◌&&◌, ◌||◌,
}
use vovinam_api_node.Schema.{Invoice, InvoiceStatus, PaymentGateway, TxnStatus, Database}
use vovinam_api_node.Service.{World, commit-keeps}
use vovinam_api_node.Payments.Defs.{
  invoice_id, payment_id, is_payable, is_paid, is_success, is_disputed, is_refund, outcome_row,
  Outcome, total_settled, rederive_status, recompute_invoice_status, outcome_body, apply_outcome,
}
use vovinam_api_node.Payments.Qr.{supersede, supersede_row, qr_payment, qr_body, commit_qr}
use vovinam_api_node.Payments.Operations.{create_payment-cases}
use vovinam_api_node.Payments.History.{Keeps, Writes, stay, payments, invoice_status, added}

abbrev keeps_superseded : (now : ℕ) → Keeps (supersede_row now)
keeps_superseded now = record {
  same_id = λ r. refl;
  same_invoice = λ r. refl;
  same_amount = λ r. refl;
}

abbrev keeps_outcome : (s : TxnStatus) (text : Option Text) → Keeps (outcome_row s text)
keeps_outcome s text = record {
  same_id = λ r. refl;
  same_invoice = λ r. refl;
  same_amount = λ r. refl;
}

qr_body-Writes :
    (inv total : ℕ) (order_ref : Text) (gateway : PaymentGateway) (expires_at id now : ℕ)
    (w : World)
    → Writes w.db (qr_body inv total order_ref gateway expires_at id now w).1.db
unfolding qr_body
qr_body-Writes inv total order_ref gateway expires_at id now w =
    elim (Option-cases (find_unique invoice_id inv w.db.invoices)) [
      | inl e ↦ rw e stay
      | inr (i, e) ↦ elim (Bool-cases (is_payable i.status)) [
        | inr blocked ↦ rw (e, blocked) stay
        | inl payable ↦
            elim (create_payment-cases (qr_payment inv total order_ref gateway expires_at id)
              (record w { db = supersede inv now w.db })) [
                | inl clash ↦ rw (e, payable, clash) (payments _ _ (keeps_superseded now) stay)
                | inr (done, fresh) ↦
                    rw (e, payable, done) (added _ (payments _ _ (keeps_superseded now) stay))
              ]
      ]
    ]

pub commit_qr-Writes :
    (inv total : ℕ) (order_ref : Text) (gateway : PaymentGateway) (expires_at id now : ℕ)
    (w : World)
    → Writes w.db (commit_qr inv total order_ref gateway expires_at id now w).1.db
unfolding commit_qr
commit_qr-Writes inv total order_ref gateway expires_at id now w =
    commit-keeps (Writes w.db) w.db (qr_body inv total order_ref gateway expires_at id now w) stay
      (qr_body-Writes inv total order_ref gateway expires_at id now w)

rederive-Writes :
    (db mid : Database) (inv : ℕ) (i : Invoice)
    → Writes db mid
    → Writes db (rederive_status inv i mid)
unfolding rederive_status
rederive-Writes db mid inv i h = elim (Bool-cases (is_payable i.status || is_paid i.status)) [
  | inr void ↦ rw void h
  | inl counts ↦ elim (Bool-cases (leb i.total (total_settled inv mid))) [
    | inl covered ↦ elim (Bool-cases (is_paid i.status)) [
      | inl paid ↦ rw (counts, covered, paid) h
      | inr unpaid ↦ rw (counts, covered, unpaid) (invoice_status _ InvoiceStatus.paid h)
    ]
    | inr short ↦ elim (Bool-cases (is_paid i.status)) [
      | inl paid ↦ rw (counts, short, paid) (invoice_status _ InvoiceStatus.unpaid h)
      | inr unpaid ↦ rw (counts, short, unpaid) h
    ]
  ]
]

recompute-Writes :
    (db mid : Database) (inv : ℕ) → Writes db mid → Writes db (recompute_invoice_status inv mid)
unfolding recompute_invoice_status
recompute-Writes db mid inv h = elim (Option-cases (find_unique invoice_id inv mid.invoices)) [
  | inl e ↦ rw (e, recompute_invoice_status) h
  | inr (i, e) ↦ rw (e, recompute_invoice_status) (rederive-Writes db mid inv i h)
]

pub apply_outcome-Writes :
    (k : ℕ) (outcome : Outcome) (note : Option Text) (w : World)
    → Writes w.db (apply_outcome k outcome note w).1.db
unfolding apply_outcome outcome_body
apply_outcome-Writes k outcome note w =
    commit-keeps (Writes w.db) w.db (outcome_body k outcome note w) stay
      (elim (Option-cases (find_unique payment_id k w.db.payments)) [
        | inl e ↦ rw e stay
        | inr (x, e) ↦
            elim (Bool-cases (is_success x.status || (is_disputed x.status && is_refund outcome))) [
              | inr refused ↦ rw (e, refused) stay
              | inl allowed ↦
                  rw (e, allowed)
                    (recompute-Writes w.db _ x.invoice_id (payments _ _ (keeps_outcome _ _) stay))
            ]
      ])
