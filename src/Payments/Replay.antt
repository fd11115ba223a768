-- ===== src/Payments/Replay.antt =====
-- Repeated deliveries to `handleWebhook` of src/billing/payments.service.ts.
use mathlib.Core.Option
use vovinam_api_node.Base.{
  ℕ, ◌≡◌, refl, ap, Bool, true, Option, none, some, Text, ==_refl, Option-cases, Bool-cases, inl,
  inr, if◌then◌else◌, find_unique, find_first, count_where, is_some, ◌&&◌, ◌||◌, leb, ltb, text_eq,
  count-found, find_first-update, find_unique_of_find_first, IsKeyed,
}
use vovinam_api_node.Schema.{Invoice, PaymentTxn, Database}
use vovinam_api_node.Service.{Result, ok, err, World, commit}
use vovinam_api_node.Payments.Defs.{
  invoice_id, payment_id, is_payable, total_settled, update_payments, update_invoices, has_id,
}
use vovinam_api_node.Payments.Settle.{
  WebhookReply, not_processed, flagged, overpaid, processed_failed, processed_success, is_claimable,
  is_gateway_id, is_expired, late_row, success_row, dispute_row, is_void, settle_claimed,
  settle_late, after_claim, settle_claim, settle_body, settle,
}
use vovinam_api_node.Payments.Webhook.{is_final, is_failed}
use vovinam_api_node.Payments.Claims.{claim_payment-cases, claim_only}

-- The rows on which `handleWebhook` does nothing more for the gateway id `g`.
abbrev pub is_done : Text → PaymentTxn → Bool
is_done g p = is_final p.status || (is_failed p.status && is_gateway_id p.gateway_txn_id g)

abbrev DoneRow : Text → Option PaymentTxn → Type 0
DoneRow g none = ⊥
DoneRow g (some y) = is_done g y ≡ true

-- The row with the order reference is done with.
abbrev pub IsDone : Text → Text → Database → Type 0
IsDone order_ref g db =
    DoneRow g (find_first (λ (p : PaymentTxn). text_eq p.order_ref order_ref) db.payments)

-- Every answer but `not_processed` leaves the row done with.
abbrev pub Closes : Text → Text → Result WebhookReply × World → Type 0
Closes o g (ok not_processed, w) = Unit
Closes o g (ok _, w) = IsDone o g w.db
Closes o g (err e, w) = Unit

commit-Closes :
    (o g : Text) (before : Database) (out : Result WebhookReply × World)
    → Closes o g out
    → Closes o g (commit before out)
commit-Closes o g before (ok not_processed, w) h = tt
commit-Closes o g before (ok flagged, w) h = h
commit-Closes o g before (ok (overpaid n), w) h = h
commit-Closes o g before (ok processed_failed, w) h = h
commit-Closes o g before (ok processed_success, w) h = h
commit-Closes o g before (err e, w) h = tt

module _ (o g : Text) where
  abbrev named : PaymentTxn → Bool
  named p = text_eq p.order_ref o

  find-update :
      (p : PaymentTxn → Bool) (f : PaymentTxn → PaymentTxn) (db : Database)
      → ((r : PaymentTxn) → (f r).order_ref ≡ r.order_ref)
      → find_first named (update_payments p f db).payments
        ≡ Option.map (λ r. if p r then f r else r) (find_first named db.payments)
  unfolding update_payments
  find-update p f db same =
      find_first-update named p f db.payments (λ r. ap (λ t. text_eq t o) (same r))

  module _ (txn : PaymentTxn) (w : World) (keyed : IsKeyed payment_id w.db.payments)
      (found : find_first named w.db.payments ≡ some txn) where
    pub claimed_count :
        count_where (is_claimable txn.id g) w.db.payments
        ≡ (if is_claimable txn.id g txn then 1 else 0)
    claimed_count =
        count-found payment_id (is_claimable txn.id g) txn.id (claim_only txn.id g) w.db.payments
          txn keyed (find_unique_of_find_first payment_id named w.db.payments txn keyed found)

    -- After a claim that took the row, the row is what the claim wrote.
    find-claimed :
        (f : PaymentTxn → PaymentTxn)
        → ((r : PaymentTxn) → (f r).order_ref ≡ r.order_ref)
        → is_claimable txn.id g txn ≡ true
        → find_first named (update_payments (is_claimable txn.id g) f w.db).payments ≡ some (f txn)
    find-claimed f same hit = rw (find-update (is_claimable txn.id g) f w.db same, found, hit)

    claimed-IsDone :
        (f : PaymentTxn → PaymentTxn)
        → ((r : PaymentTxn) → (f r).order_ref ≡ r.order_ref)
        → is_claimable txn.id g txn ≡ true
        → is_done g (f txn) ≡ true
        → IsDone o g (update_payments (is_claimable txn.id g) f w.db)
    claimed-IsDone f same hit d = rw (find-claimed f same hit) d

    -- A second write to the claimed row.
    pub rewritten-IsDone :
        (f h : PaymentTxn → PaymentTxn)
        → ((r : PaymentTxn) → (f r).order_ref ≡ r.order_ref)
        → ((r : PaymentTxn) → (h r).order_ref ≡ r.order_ref)
        → is_claimable txn.id g txn ≡ true
        → has_id txn.id (f txn) ≡ true
        → is_done g (h (f txn)) ≡ true
        → IsDone o g
            (update_payments (has_id txn.id) h (update_payments (is_claimable txn.id g) f w.db))
    rewritten-IsDone f h same_f same_h hit here d =
        rw
          (
            find-update (has_id txn.id) h (update_payments (is_claimable txn.id g) f w.db) same_h,
            find-claimed f same_f hit,
            here,
          )
          d

    module _ (now : ℕ) (hit : is_claimable txn.id g txn ≡ true) where
      abbrev after : World
      after = record w { db = update_payments (is_claimable txn.id g) (success_row g now) w.db }

      settle_claimed-Closes : (i : Invoice) → Closes o g (settle_claimed txn i after)
      unfolding settle_claimed update_invoices
      settle_claimed-Closes i = elim (Bool-cases (is_void i.status)) [
        | inl void ↦ rw void (
            rewritten-IsDone (success_row g now) (dispute_row _) (λ r. refl) (λ r. refl) hit
              (==_refl txn.id) refl)
        | inr valid ↦ elim (Bool-cases (ltb i.total (total_settled txn.invoice_id after.db))) [
          | inl over ↦
              rw (valid, over)
                (rewritten-IsDone (success_row g now) (dispute_row _) (λ r. refl) (λ r. refl) hit
                  (==_refl txn.id) refl)
          | inr fits ↦
              elim (Bool-cases
                (leb i.total (total_settled txn.invoice_id after.db) && is_payable i.status)) [
                  | inl pay ↦
                      rw (valid, fits, pay)
                        (claimed-IsDone (success_row g now) (λ r. refl) hit refl)
                  | inr skip ↦
                      rw (valid, fits, skip)
                        (claimed-IsDone (success_row g now) (λ r. refl) hit refl)
                ]
        ]
      ]

    after_claim-Closes :
        (now : ℕ)
        → Closes o g (
            after_claim txn
              (count_where (is_claimable txn.id g) w.db.payments)
              (record w { db = update_payments (is_claimable txn.id g) (success_row g now) w.db }))
    unfolding after_claim update_payments
    after_claim-Closes now = elim (Bool-cases (is_claimable txn.id g txn)) [
      | inr miss ↦ rw (claimed_count, miss) tt
      | inl hit ↦ elim (Option-cases (find_unique invoice_id txn.invoice_id w.db.invoices)) [
        | inl e ↦ rw (claimed_count, hit, e) tt
        | inr (i, e) ↦ rw (claimed_count, hit, e) (settle_claimed-Closes now hit i)
      ]
    ]

    settle_body-Closes : (now : ℕ) → Closes o g (settle_body txn g now w)
    unfolding settle_body settle_late settle_claim
    settle_body-Closes now =
        elim (Bool-cases (is_some (find_first (is_expired txn.id now) w.db.payments))) [
          | inr fresh ↦ elim (claim_payment-cases txn.id g (success_row g now) w) [
            | inl held ↦ rw (fresh, held) tt
            | inr done ↦ rw (fresh, done) (after_claim-Closes now)
          ]
          | inl late ↦ elim (claim_payment-cases txn.id g (late_row g now) w) [
            | inl held ↦ rw (late, held) tt
            | inr done ↦ elim (Bool-cases (is_claimable txn.id g txn)) [
              | inr miss ↦ rw (late, done, claimed_count, miss) tt
              | inl hit ↦
                  rw (late, done, claimed_count, hit)
                    (claimed-IsDone (late_row g now) (λ r. refl) hit refl)
            ]
          ]
        ]

    pub settle-Closes : (now : ℕ) → Closes o g (settle txn g now w)
    unfolding settle
    settle-Closes now = commit-Closes o g w.db (settle_body txn g now w) (settle_body-Closes now)
