-- ===== src/Payments/Settlement.antt =====
-- The settlement transaction of `handleWebhook` keeps invoices and payments consistent.
use mathlib.Core.Option
use vovinam_api_node.Base.{
  ℕ, ◌+◌, ◌≤◌, ◌≡◌, refl, Bool, true, false, Option, none, some, Text, arith, ◌==◌, Bool-cases, inl,
  inr, if◌then◌else◌, find_unique, ltb, leb, ◌&&◌, IsKeyed, find_unique-key, find_unique-update,
}
use vovinam_api_node.Schema.{Invoice, InvoiceStatus, PaymentTxn, Database}
use vovinam_api_node.Service.{World}
use vovinam_api_node.Payments.Defs.{
  invoice_id, payment_id, is_payable, settled_amount, total_settled, update_payments,
  update_invoices, has_id, is_invoice, status_row,
}
use vovinam_api_node.Payments.Settle.{
  is_claimable, success_row, late_row, dispute_row, note_row, is_void, settle_claimed,
  non_payable_note,
}
use vovinam_api_node.Payments.Invariant.{
  Balance, IsWellFormed, IsBalanced, IsConsistent, update_payments-IsWellFormed,
  update_invoices-IsWellFormed, find_invoice-update, total_settled-update,
}

-- Writing to payments leaves the invoices, and writing to invoices leaves the sums.
pub total_settled-update_invoices :
    (k : ℕ) (p : Invoice → Bool) (f : Invoice → Invoice) (db : Database)
    → total_settled k (update_invoices p f db) ≡ total_settled k db
unfolding total_settled update_invoices
total_settled-update_invoices k p f db = refl

pub update_payments-invoices :
    (p : PaymentTxn → Bool) (f : PaymentTxn → PaymentTxn) (db : Database)
    → (update_payments p f db).invoices ≡ db.invoices
unfolding update_payments
update_payments-invoices p f db = refl

-- A write to the payments that leaves every sum keeps the balances.
pub update_payments-IsBalanced :
    (p : PaymentTxn → Bool) (f : PaymentTxn → PaymentTxn) (db : Database)
    → ((k : ℕ) → total_settled k (update_payments p f db) ≡ total_settled k db)
    → IsBalanced db
    → IsBalanced (update_payments p f db)
update_payments-IsBalanced p f db same h k = rw (same k, update_payments-invoices p f db) (h k)

noted-Balance :
    (o : Option Invoice) (p : Invoice → Bool) (note : Text) (s : ℕ)
    → Balance o s
    → Balance (Option.map (λ r. if p r then note_row note r else r) o) s
noted-Balance none p note s h = tt
noted-Balance (some i) p note s h = ground arith

-- A note on an invoice changes no balance.
pub noted-IsConsistent :
    (inv : ℕ) (note : Text) (db : Database)
    → IsConsistent db
    → IsConsistent (update_invoices (is_invoice inv) (note_row note) db)
noted-IsConsistent inv note db h = record {
  formed =
      update_invoices-IsWellFormed (is_invoice inv) (note_row note) (λ r. refl) (λ r. refl) db
        h.formed;
  balanced = λ k.
      rw
        (
          find_invoice-update (is_invoice inv) (note_row note) (λ r. refl) (λ r. refl) k db,
          total_settled-update_invoices k (is_invoice inv) (note_row note) db,
        )
        (noted-Balance (find_unique invoice_id k db.invoices) (is_invoice inv) note
          (total_settled k db) (h.balanced k));
}

-- The row that a claim takes, and the sums after it.
module _ (db : Database) (keyed : IsKeyed payment_id db.payments) (id : ℕ) (g : Text) (now : ℕ)
    (x : PaymentTxn) (found : find_unique payment_id id db.payments ≡ some x)
    (open_row : is_claimable id g x ≡ true) where
  claim_only : (r : PaymentTxn) → is_claimable id g r ≡ true → payment_id r ≡ id
  claim_only r h = ground arith

  has_only : (r : PaymentTxn) → has_id id r ≡ true → payment_id r ≡ id
  has_only r h = ground arith

  pub total_settled-claim :
      (k : ℕ)
      → total_settled k (update_payments (is_claimable id g) (success_row g now) db)
        ≡ total_settled k db + (if x.invoice_id == k then x.amount else 0)
  unfolding settled_amount
  total_settled-claim k = ground (
    arith,
    total_settled-update db keyed id x found k (is_claimable id g) (success_row g now) claim_only,
  )

  pub total_settled-late :
      (k : ℕ)
      → total_settled k (update_payments (is_claimable id g) (late_row g now) db)
        ≡ total_settled k db
  unfolding settled_amount
  total_settled-late k = ground (
    arith,
    total_settled-update db keyed id x found k (is_claimable id g) (late_row g now) claim_only,
  )

  pub find-claim :
      find_unique payment_id id
        (update_payments (is_claimable id g) (success_row g now) db).payments
      ≡ some (success_row g now x)
  unfolding update_payments
  find-claim = rw (
    find_unique-update payment_id (is_claimable id g) (success_row g now) (λ r. refl) id
        db.payments,
    found,
    open_row,
  )

  abbrev claimed : Database
  claimed = update_payments (is_claimable id g) (success_row g now) db

  pub claimed-IsWellFormed : IsWellFormed db → IsWellFormed claimed
  claimed-IsWellFormed h =
      update_payments-IsWellFormed (is_claimable id g) (success_row g now) (λ r. refl) (λ r. refl)
        (λ r. refl) db h

  abbrev disputed_again : Text → Database
  disputed_again note = update_payments (has_id id) (dispute_row note) claimed

  pub total_settled-dispute :
      (note : Text) (k : ℕ)
      → IsWellFormed db
      → total_settled k (disputed_again note) ≡ total_settled k db
  unfolding settled_amount
  total_settled-dispute note k h = ground (
    arith,
    total_settled-update claimed (claimed-IsWellFormed h).payments_keyed id (success_row g now x)
        find-claim k (has_id id) (dispute_row note) has_only,
    total_settled-claim k,
  )

  -- A claim that is taken back, with a note on the payment, leaves the balances.
  pub dispute-IsConsistent : (note : Text) → IsConsistent db → IsConsistent (disputed_again note)
  dispute-IsConsistent note h = record {
    formed =
        update_payments-IsWellFormed (has_id id) (dispute_row note) (λ r. refl) (λ r. refl)
          (λ r. refl) claimed (claimed-IsWellFormed h.formed);
    balanced = λ k.
        rw
          (
            total_settled-dispute note k h.formed,
            update_payments-invoices (has_id id) (dispute_row note) claimed,
            update_payments-invoices (is_claimable id g) (success_row g now) db,
          )
          (h.balanced k);
  }

  module _ (i : Invoice) (at_invoice : find_unique invoice_id x.invoice_id db.invoices ≡ some i)
      (full : x.amount ≡ i.total) where
    -- The claim settles an unpaid invoice in full, so it may be marked paid.
    paid-Balance :
        (k : ℕ) (o : Option Invoice)
        → find_unique invoice_id k db.invoices ≡ o
        → Balance o (total_settled k db)
        → total_settled x.invoice_id claimed ≤ i.total
        → Balance
            (Option.map
              (λ r. if is_invoice x.invoice_id r then status_row InvoiceStatus.paid r else r)
              o)
            (total_settled k claimed)
    paid-Balance k none e b fits = tt
    paid-Balance k (some j) e b fits = ground (
      arith,
      total_settled-claim k,
      total_settled-claim x.invoice_id,
      find_unique-key invoice_id k db.invoices j e,
      at_invoice,
    )

    paid-IsConsistent :
        IsConsistent db
        → total_settled x.invoice_id claimed ≤ i.total
        → IsConsistent
            (update_invoices (is_invoice x.invoice_id) (status_row InvoiceStatus.paid) claimed)
    unfolding update_payments
    paid-IsConsistent h fits = record {
      formed =
          update_invoices-IsWellFormed (is_invoice x.invoice_id) (status_row InvoiceStatus.paid)
            (λ r. refl) (λ r. refl) claimed (claimed-IsWellFormed h.formed);
      balanced = λ k.
          rw
            (
              find_invoice-update (is_invoice x.invoice_id) (status_row InvoiceStatus.paid)
                  (λ r. refl) (λ r. refl) k claimed,
              total_settled-update_invoices k (is_invoice x.invoice_id)
                  (status_row InvoiceStatus.paid) claimed,
            )
            (paid-Balance k (find_unique invoice_id k db.invoices) refl (h.balanced k) fits);
    }

    -- Where the invoice is already paid, the claim can only be one of nothing.
    kept-Balance :
        (k : ℕ) (o : Option Invoice)
        → find_unique invoice_id k db.invoices ≡ o
        → Balance o (total_settled k db)
        → total_settled x.invoice_id claimed ≤ i.total
        → (leb i.total (total_settled x.invoice_id claimed) && is_payable i.status) ≡ false
        → Balance o (total_settled k claimed)
    kept-Balance k none e b fits skip = tt
    kept-Balance k (some j) e b fits skip = ground (
      arith,
      total_settled-claim k,
      total_settled-claim x.invoice_id,
      find_unique-key invoice_id k db.invoices j e,
      at_invoice,
    )

    kept-IsConsistent :
        IsConsistent db
        → total_settled x.invoice_id claimed ≤ i.total
        → (leb i.total (total_settled x.invoice_id claimed) && is_payable i.status) ≡ false
        → IsConsistent claimed
    unfolding update_payments
    kept-IsConsistent h fits skip = record {
      formed = claimed-IsWellFormed h.formed;
      balanced =
          λ k. kept-Balance k (find_unique invoice_id k db.invoices) refl (h.balanced k) fits skip;
    }

    -- Whatever follows the claim, the transaction ends in a consistent state.
    pub settle_claimed-IsConsistent :
        (txn : PaymentTxn) (v : World)
        → IsConsistent db
        → txn.id ≡ id
        → txn.invoice_id ≡ x.invoice_id
        → IsConsistent (settle_claimed txn i (record v { db = claimed })).1.db
    unfolding settle_claimed
    settle_claimed-IsConsistent txn v h same_id same_invoice =
        elim (Bool-cases (is_void i.status)) [
          | inl void ↦ rw (void, same_id) (dispute-IsConsistent non_payable_note h)
          | inr valid ↦ elim (Bool-cases (ltb i.total (total_settled x.invoice_id claimed))) [
            | inl over ↦
                rw (valid, same_invoice, over, same_id)
                  (noted-IsConsistent x.invoice_id _ _ (dispute-IsConsistent _ h))
            | inr fits ↦
                elim (Bool-cases
                  (leb i.total (total_settled x.invoice_id claimed) && is_payable i.status)) [
                    | inl pay ↦
                        rw (valid, same_invoice, fits, pay) (paid-IsConsistent h (ground arith))
                    | inr skip ↦
                        rw (valid, same_invoice, fits, skip)
                          (kept-IsConsistent h (ground arith) skip)
                  ]
          ]
        ]
