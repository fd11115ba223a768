-- ===== src/Payments/Claims.antt =====
-- The settlement transaction of `handleWebhook` in src/billing/payments.service.ts, whatever payment
-- row the handler has read before it.
use vovinam_api_node.Base.{
  ℕ, ◌≡◌, refl, Bool, true, false, Option, none, some, Text, arith, ◌==◌, Bool-cases, ◌⊎◌, inl, inr,
  if◌then◌else◌, find_unique, find_first, count_where, is_some, not, ◌&&◌, count-found,
}
use vovinam_api_node.Schema.{Invoice, PaymentTxn, Database}
use vovinam_api_node.Service.{ok, err, World, unique_violation, commit-keeps}
use vovinam_api_node.Payments.Defs.{invoice_id, payment_id, settled_amount, update_payments}
use vovinam_api_node.Payments.Settle.{
  is_claimable, is_held_elsewhere, success_row, late_row, claim_payment, settle, is_expired,
  settle_late, after_claim, settle_claim, settle_body,
}
use vovinam_api_node.Payments.Invariant.{
  HasTotal, Priced, IsConsistent, update_payments-IsWellFormed, total_settled-update,
}
use vovinam_api_node.Payments.Settlement.{
  update_payments-IsBalanced, update_payments-invoices, settle_claimed-IsConsistent,
}

-- A row that was read earlier names the row that is there now: its id, invoice and amount.
pub data Agrees (txn : PaymentTxn) (db : Database) : Type 0 where
  agrees :
      (x : PaymentTxn)
      → find_unique payment_id txn.id db.payments ≡ some x
      → txn.invoice_id ≡ x.invoice_id
      → txn.amount ≡ x.amount
      → Agrees txn db

module _ (db : Database) (h : IsConsistent db) (id : ℕ) (x : PaymentTxn)
    (found : find_unique payment_id id db.payments ≡ some x) where
  -- A write to one row that adds nothing to a sum and takes nothing from it.
  pub quiet-IsConsistent :
      (p : PaymentTxn → Bool) (f : PaymentTxn → PaymentTxn)
      → ((r : PaymentTxn) → payment_id (f r) ≡ payment_id r)
      → ((r : PaymentTxn) → (f r).invoice_id ≡ r.invoice_id)
      → ((r : PaymentTxn) → (f r).amount ≡ r.amount)
      → ((r : PaymentTxn) → p r ≡ true → payment_id r ≡ id)
      → ((k : ℕ) → settled_amount k (if p x then f x else x) ≡ settled_amount k x)
      → IsConsistent (update_payments p f db)
  quiet-IsConsistent p f same_id same_invoice same_amount only quiet = record {
    formed = update_payments-IsWellFormed p f same_id same_invoice same_amount db h.formed;
    balanced =
        update_payments-IsBalanced p f db
          (λ k.
            ground (
              arith,
              quiet k,
              total_settled-update db h.formed.payments_keyed id x found k p f only,
            ))
          h.balanced;
  }

  -- The invoice of a payment is there, and has the payment's amount for its total.
  pub priced_invoice :
      (i : Invoice) × (find_unique invoice_id x.invoice_id db.invoices ≡ some i)
      × (x.amount ≡ i.total)
  priced_invoice =
      go (find_unique invoice_id x.invoice_id db.invoices) refl
        (subst_priced (find_unique payment_id id db.payments) found (h.formed.priced id))
    where
      subst_priced :
          (o : Option PaymentTxn)
          → o ≡ some x
          → Priced o db.invoices
          → HasTotal (find_unique invoice_id x.invoice_id db.invoices) x.amount
      subst_priced o e q = rw e at q

      go :
          (o : Option Invoice)
          → find_unique invoice_id x.invoice_id db.invoices ≡ o
          → HasTotal o x.amount
          → (i : Invoice) × (find_unique invoice_id x.invoice_id db.invoices ≡ some i)
            × (x.amount ≡ i.total)
      go none e q = absurd q
      go (some i) e q = (i, e, q)

pub claim_only :
    (id : ℕ) (g : Text) (r : PaymentTxn) → is_claimable id g r ≡ true → payment_id r ≡ id
claim_only id g r h = ground arith

-- A claim that fails its test touches nothing that counts.
module _ (id : ℕ) (g : Text) (now : ℕ) (w : World) (h : IsConsistent w.db) where
  module _ (x : PaymentTxn) (found : find_unique payment_id id w.db.payments ≡ some x) where
    missed-IsConsistent :
        is_claimable id g x ≡ false
        → IsConsistent (update_payments (is_claimable id g) (success_row g now) w.db)
    missed-IsConsistent miss =
        quiet-IsConsistent w.db h id x found (is_claimable id g) (success_row g now) (λ r. refl)
          (λ r. refl) (λ r. refl) (claim_only id g) (λ k. rw miss)

    pub late-IsConsistent : IsConsistent (update_payments (is_claimable id g) (late_row g now) w.db)
    unfolding settled_amount
    late-IsConsistent =
        quiet-IsConsistent w.db h id x found (is_claimable id g) (late_row g now) (λ r. refl)
          (λ r. refl) (λ r. refl) (claim_only id g) (λ k. ground arith)

-- A claim runs into the unique column and changes nothing, or writes the rows that it counts.
pub claim_payment-cases :
    (k : ℕ) (g : Text) (f : PaymentTxn → PaymentTxn) (w : World)
    → (claim_payment k g f w ≡ (err unique_violation, w))
      ⊎ (claim_payment k g f w ≡ (
        ok (count_where (is_claimable k g) w.db.payments),
        record w { db = update_payments (is_claimable k g) f w.db },
      ))
unfolding claim_payment
claim_payment-cases k g f w =
    elim (Bool-cases (
      not (count_where (is_claimable k g) w.db.payments == 0)
      && is_some (find_first (is_held_elsewhere k g) w.db.payments))) [
        | inl held ↦ inl (rw held)
        | inr free ↦ inr (rw free)
      ]

module _ (g : Text) (now : ℕ) (w : World) (h : IsConsistent w.db) where
  settle_late-IsConsistent :
      (txn : PaymentTxn) → Agrees txn w.db → IsConsistent (settle_late txn g now w).1.db
  unfolding settle_late
  settle_late-IsConsistent txn (agrees x found same_invoice same_amount) =
      elim (claim_payment-cases txn.id g (late_row g now) w) [
        | inl held ↦ rw held h
        | inr done ↦ rw done (late-IsConsistent txn.id g now w h x found)
      ]

  after_claim-IsConsistent :
      (txn : PaymentTxn)
      → Agrees txn w.db
      → IsConsistent
          (after_claim txn (count_where (is_claimable txn.id g) w.db.payments) (record w {
            db = update_payments (is_claimable txn.id g) (success_row g now) w.db;
          })).1.db
  unfolding after_claim
  after_claim-IsConsistent txn (agrees x found same_invoice same_amount) =
      elim (Bool-cases (is_claimable txn.id g x)) [
        | inl hit ↦
            let (i, at_invoice, full) = priced_invoice w.db h txn.id x found in
            rw
              (
                count-found payment_id (is_claimable txn.id g) txn.id (claim_only txn.id g)
                    w.db.payments x h.formed.payments_keyed found,
                hit,
                update_payments-invoices (is_claimable txn.id g) (success_row g now) w.db,
                same_invoice,
                at_invoice,
                after_claim,
              )
              (settle_claimed-IsConsistent w.db h.formed.payments_keyed txn.id g now x found hit i
                at_invoice full txn w h refl same_invoice)
        | inr miss ↦
            rw
              (
                count-found payment_id (is_claimable txn.id g) txn.id (claim_only txn.id g)
                    w.db.payments x h.formed.payments_keyed found,
                miss,
                after_claim,
              )
              (missed-IsConsistent txn.id g now w h x found miss)
      ]

  settle_claim-IsConsistent :
      (txn : PaymentTxn) → Agrees txn w.db → IsConsistent (settle_claim txn g now w).1.db
  unfolding settle_claim
  settle_claim-IsConsistent txn same = elim (claim_payment-cases txn.id g (success_row g now) w) [
    | inl held ↦ rw held h
    | inr done ↦ rw done (after_claim-IsConsistent txn same)
  ]

  settle_body-IsConsistent :
      (txn : PaymentTxn) → Agrees txn w.db → IsConsistent (settle_body txn g now w).1.db
  unfolding settle_body
  settle_body-IsConsistent txn same =
      elim (Bool-cases (is_some (find_first (is_expired txn.id now) w.db.payments))) [
        | inl late ↦ rw late (settle_late-IsConsistent txn same)
        | inr fresh ↦ rw fresh (settle_claim-IsConsistent txn same)
      ]

-- Settling a matching transfer, at any time and with any row read before, keeps the state consistent.
pub settle-IsConsistent :
    (txn : PaymentTxn) (g : Text) (now : ℕ) (w : World)
    → IsConsistent w.db
    → Agrees txn w.db
    → IsConsistent (settle txn g now w).1.db
unfolding settle
settle-IsConsistent txn g now w h same =
    commit-keeps IsConsistent w.db (settle_body txn g now w) h
      (settle_body-IsConsistent g now w h txn same)
