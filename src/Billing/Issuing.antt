-- ===== src/Billing/Issuing.antt =====
-- What the three ways to issue an invoice in src/billing/billing.service.ts write.
use vovinam_api_node.Base.{
  ℕ, ◌≡◌, refl, true, none, [], ◌∷◌, ◌++◌, map, if◌then◌else◌, Bool-cases, inl, inr,
}
use vovinam_api_node.Schema.{Invoice, StudentProfile, Database}
use vovinam_api_node.Service.{World, ok, err, push_entry, unique_violation, invoice_issued}
use vovinam_api_node.Billing.Issue.{
  next_invoice_no, ExamFee, exam_fee_invoice, exam_fee_item, exam_fee_attempt,
  create_exam_fee_invoice, CreateInvoiceDto, manual_invoice, item_row, issue_notices, create_body,
  issue_invoice,
}
use vovinam_api_node.Billing.Sequence.{is_taken, insert_invoice-next, retry-ok, retry-violation}

-- The invoice of `create` under the next number.
abbrev pub next_manual : ℕ → ℕ → ℕ → CreateInvoiceDto → ℕ → ℕ → ℕ → Database → Invoice
next_manual new_id subtotal discount dto creator now year db =
    manual_invoice new_id (next_invoice_no year db) subtotal discount dto creator now

-- The database after `create`: the invoice, its lines and its notices.
abbrev pub issued_db : Invoice → StudentProfile → CreateInvoiceDto → ℕ → Database → Database
issued_db i profile dto now db = record db {
  invoices = db.invoices ++ i ∷ [];
  invoice_items = db.invoice_items ++ map (item_row i.id) dto.items;
  notifications = db.notifications ++ issue_notices i.id profile.user_id now;
}

module _ (new_id : ℕ) (profile : StudentProfile) (subtotal discount : ℕ) (dto : CreateInvoiceDto)
    (creator now year : ℕ) (w : World) where
  -- Issuing an invoice writes the row under the next number with all that goes with it, or, when the id
  -- or the billing period is taken, throws the unique violation after its last attempt and writes
  -- nothing.
  pub issue_invoice-eq :
      let i = next_manual new_id subtotal discount dto creator now year w.db in
      issue_invoice new_id profile subtotal discount dto creator now year w ≡ (
        if is_taken i w.db
        then (err unique_violation, w)
        else (ok i, record w { db = issued_db i profile dto now w.db }))
  unfolding issue_invoice create_body
  issue_invoice-eq =
      let i = next_manual new_id subtotal discount dto creator now year w.db in
      let inserted = insert_invoice-next i year w refl in
      elim (Bool-cases (is_taken i w.db)) [
        | inl y ↦ rw y (retry-violation 4 _ w (rw (inserted, y) refl))
        | inr n ↦ rw n (retry-ok 4 _ w _ i (rw (inserted, n) refl))
      ]

module _ (new_id student : ℕ) (exam : ExamFee) (registration creator year : ℕ) (w : World) where
  abbrev pub next_exam_fee : Invoice
  next_exam_fee =
      exam_fee_invoice new_id (next_invoice_no year w.db) student exam registration creator

  -- The exam fee likewise, with its audit entry.
  pub create_exam_fee_invoice-eq :
      create_exam_fee_invoice new_id student exam registration creator year w ≡ (
        if is_taken next_exam_fee w.db then (err unique_violation, w) else (
          ok next_exam_fee,
          record w {
            db = record w.db {
              invoices = w.db.invoices ++ next_exam_fee ∷ [];
              invoice_items = w.db.invoice_items ++ exam_fee_item new_id exam ∷ [];
            };
            audit_queue =
                push_entry
                  (record {
                    user_id = none;
                    event = invoice_issued new_id registration;
                    success = true;
                  })
                  w.audit_queue;
          },
        ))
  unfolding create_exam_fee_invoice exam_fee_attempt
  create_exam_fee_invoice-eq =
      let inserted = insert_invoice-next next_exam_fee year w refl in
      elim (Bool-cases (is_taken next_exam_fee w.db)) [
        | inl y ↦ rw y (retry-violation 4 _ w (rw (inserted, y) refl))
        | inr n ↦ rw n (retry-ok 4 _ w _ next_exam_fee (rw (inserted, n) refl))
      ]
