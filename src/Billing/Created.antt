-- ===== src/Billing/Created.antt =====
-- `create` of src/billing/billing.service.ts as a whole: what it answers, what it leaves when it
-- refuses, and that the payments stay consistent with the invoices.
use vovinam_api_node.Base.{
  ℕ, ◌+◌, ◌≤◌, ◌≡◌, refl, ◌∙◌, true, false, ◌&&◌, Option, none, some, arith, ltb, ◌==◌, is_none,
  find_first,
}
use vovinam_api_node.Schema.{Caller, StudentProfile, Database}
use vovinam_api_node.Service.{
  World, Result, ok, err, push_entry, not_found, invoice_created, or_throw, resume-state,
  or_throw-state, IsAtomic, resume-IsAtomic, then-IsAtomic,
}
use vovinam_api_node.Billing.Money.{max_money_amount, total_discount, subtotal_from}
use vovinam_api_node.Billing.Amounts.{items_total, subtotal_from-eq}
use vovinam_api_node.Billing.Issue.{
  CreateInvoiceDto, check_period, issue_invoice, applied_code, prepare_invoice, create_invoice,
  or_fail,
}
use vovinam_api_node.Billing.Sequence.{is_taken}
use vovinam_api_node.Billing.Issuing.{next_manual, issued_db, issue_invoice-eq}

abbrev pub live_profile : ℕ → Database → Option StudentProfile
live_profile student db =
    find_first (λ (p : StudentProfile). p.id == student && is_none p.deleted_at) db.profiles

or_fail-state {ℓ} : {A : Type ℓ} (r : Result A) (w : World) → (or_fail r w).1 ≡ w
or_fail-state (ok a) w = refl
or_fail-state (err e) w = refl

-- What an accepted request satisfies.
pub record IsAccepted (dto : CreateInvoiceDto) (profile : StudentProfile) (discount now : ℕ)
    (w : World) : Type 0 where
  pub found : live_profile dto.student_id w.db ≡ some profile
  pub period : check_period dto w ≡ (ok tt, w)
  pub bounded : items_total dto.items ≤ max_money_amount
  pub discounted :
      total_discount dto.discount dto.discount_code (items_total dto.items) now w.db ≡ ok discount
  pub covered : discount ≤ items_total dto.items

prepare_invoice-accepts :
    (dto : CreateInvoiceDto) (profile : StudentProfile) (discount now : ℕ) (w : World)
    → IsAccepted dto profile discount now w
    → prepare_invoice dto now w ≡ (ok (profile, (items_total dto.items, discount)), w)
unfolding prepare_invoice
prepare_invoice-accepts dto profile discount now w h =
    let sum : subtotal_from 0 dto.items ≡ ok (items_total dto.items) =
      subtotal_from-eq 0 dto.items (omega arith) ∙ ground (arith, h.bounded) in
    let below : ltb (items_total dto.items) discount ≡ false = ground (arith, h.covered) in
    rw (h.found, h.period, sum, h.discounted, below) refl

-- An accepted request whose id and billing period are free is answered with an invoice under the
-- next number whose total and discount add up to the sum of the lines, and the invoice, its lines, its
-- notices and one audit entry are written.
pub create_invoice-issues :
    (caller : Caller) (dto : CreateInvoiceDto) (new_id now year : ℕ) (profile : StudentProfile)
    (discount : ℕ) (w : World)
    → IsAccepted dto profile discount now w
    → is_taken
        (next_manual new_id (items_total dto.items) discount dto caller.id now year w.db)
        w.db
      ≡ false
    → let i = next_manual new_id (items_total dto.items) discount dto caller.id now year w.db in
      (i.total + i.discount ≡ items_total dto.items)
      × (create_invoice caller dto new_id now year w ≡ (
        ok i,
        record w {
          db = issued_db i profile dto now w.db;
          audit_queue =
              push_entry
                (record {
                  user_id = none;
                  event = invoice_created new_id dto.student_id (applied_code dto.discount_code);
                  success = true;
                })
                w.audit_queue;
        },
      ))
unfolding create_invoice
create_invoice-issues caller dto new_id now year profile discount w h free =
    let issued =
      issue_invoice-eq new_id profile (items_total dto.items) discount dto caller.id now year w in
    (
      omega (arith, h.covered),
      rw (prepare_invoice-accepts dto profile discount now w h, issued, free) refl,
    )

check_period-state : (dto : CreateInvoiceDto) (w : World) → (check_period dto w).1 ≡ w
unfolding check_period
check_period-state dto w = ground arith

pub prepare_invoice-state :
    (dto : CreateInvoiceDto) (now : ℕ) (w : World) → (prepare_invoice dto now w).1 ≡ w
unfolding prepare_invoice
prepare_invoice-state dto now w =
    resume-state w (or_throw (live_profile dto.student_id w.db) not_found w) _
      (or_throw-state (live_profile dto.student_id w.db) not_found w)
      λ profile. resume-state w (check_period dto w) _ (check_period-state dto w) λ u.
        resume-state w (or_fail (subtotal_from 0 dto.items) w) _
          (or_fail-state (subtotal_from 0 dto.items) w)
          λ subtotal.
            resume-state w
              (or_fail (total_discount dto.discount dto.discount_code subtotal now w.db) w) _
              (or_fail-state (total_discount dto.discount dto.discount_code subtotal now w.db) w)
              λ discount. ground arith

issue_invoice-IsAtomic :
    (new_id : ℕ) (profile : StudentProfile) (subtotal discount : ℕ) (dto : CreateInvoiceDto)
    (creator now year : ℕ) (w : World)
    → IsAtomic (issue_invoice new_id profile subtotal discount dto creator now year w) w
issue_invoice-IsAtomic new_id profile subtotal discount dto creator now year w e =
    rw (issue_invoice-eq new_id profile subtotal discount dto creator now year w) (ground arith)

-- A request that `create` refuses, for whatever reason, leaves no trace: neither a row nor an audit
-- entry.
pub create_invoice-IsAtomic :
    (caller : Caller) (dto : CreateInvoiceDto) (new_id now year : ℕ) (w : World)
    → IsAtomic (create_invoice caller dto new_id now year w) w
unfolding create_invoice
create_invoice-IsAtomic caller dto new_id now year w =
    resume-IsAtomic w (prepare_invoice dto now w) _ (prepare_invoice-state dto now w)
      λ (profile, (subtotal, discount)).
        then-IsAtomic w (issue_invoice new_id profile subtotal discount dto caller.id now year w) _
          (issue_invoice-IsAtomic new_id profile subtotal discount dto caller.id now year w)
          (λ i v. (i, refl))
