-- ===== src/Billing/Consistent.antt =====
-- Issuing invoices (src/billing/billing.service.ts) and aging them (src/billing/overdue-invoice.job.ts)
-- against the invariant of the payments.
use vovinam_api_node.Base.{
  ℕ, ◌≡◌, refl, sym, false, Option, none, some, List, [], ◌∷◌, ◌++◌, arith, ◌==◌, ==_iff, is_some,
  find_first, find_unique, find_unique-append, find_unique-append_some, append-IsKeyed, IsKeyed,
  sum_of, Bool-cases, Option-cases, inl, inr,
}
use vovinam_api_node.Schema.{Caller, Invoice, InvoiceStatus, PaymentTxn, Database, StudentProfile}
use vovinam_api_node.Service.{World, resume-db, resume-keeps}
use vovinam_api_node.Payments.Defs.{invoice_id, payment_id, settled_amount, total_settled}
use vovinam_api_node.Payments.Invariant.{
  Balance, HasTotal, Priced, IsWellFormed, IsBalanced, IsConsistent,
}
use vovinam_api_node.Billing.Issue.{
  CreateInvoiceDto, issue_invoice, create_invoice, prepare_invoice,
}
use vovinam_api_node.Billing.Sequence.{is_taken, clashes_apart}
use vovinam_api_node.Billing.Issuing.{next_manual, issued_db, issue_invoice-eq}
use vovinam_api_node.Billing.Created.{prepare_invoice-state}

abbrev AllPriced : List PaymentTxn → List Invoice → Type 0
AllPriced rows invoices = (k : ℕ) → Priced (find_unique payment_id k rows) invoices

AllPriced-rest :
    (p : PaymentTxn) (rows : List PaymentTxn) (invoices : List Invoice)
    → IsKeyed payment_id (p ∷ rows)
    → AllPriced (p ∷ rows) invoices
    → AllPriced rows invoices
unfolding find_unique
AllPriced-rest p rows invoices u h k = elim (Bool-cases (payment_id p == k)) [
  | inl same ↦
      let gone : find_unique payment_id k rows ≡ none =
        rw (sym ((==_iff (payment_id p) k).0 same)) u.0 in
      rw gone tt
  | inr other ↦ let here = h k in rw other at here
]

AllPriced-head :
    (p : PaymentTxn) (rows : List PaymentTxn) (invoices : List Invoice)
    → AllPriced (p ∷ rows) invoices
    → HasTotal (find_unique invoice_id p.invoice_id invoices) p.amount
unfolding find_unique
AllPriced-head p rows invoices h = let here = h p.id in rw ((==_iff p.id p.id).1 refl) at here

-- Nothing is settled on an invoice that is not there.
settled-absent :
    (k : ℕ) (rows : List PaymentTxn) (invoices : List Invoice)
    → IsKeyed payment_id rows
    → AllPriced rows invoices
    → find_unique invoice_id k invoices ≡ none
    → sum_of (settled_amount k) rows ≡ 0
unfolding sum_of settled_amount
settled-absent k [] invoices u h e = refl
settled-absent k (p ∷ rows) invoices u h e =
    let rest = settled-absent k rows invoices u.1 (AllPriced-rest p rows invoices u h) e in
    elim (Bool-cases (p.invoice_id == k)) [
      | inr other ↦ rw (other, rest) refl
      | inl same ↦
          let head = AllPriced-head p rows invoices h in
          absurd (rw ((==_iff p.invoice_id k).0 same, e) at head)
    ]

Priced-add_invoice :
    (o : Option PaymentTxn) (i : Invoice) (rows : List Invoice)
    → Priced o rows
    → Priced o (rows ++ i ∷ [])
Priced-add_invoice none i rows h = tt
Priced-add_invoice (some p) i rows h =
    elim (Option-cases (find_unique invoice_id p.invoice_id rows)) [
      | inl e ↦ absurd (rw e at h)
      | inr (j, e) ↦ rw (find_unique-append_some invoice_id p.invoice_id rows i j e) (rw e at h)
    ]

-- An unpaid invoice under a new id.
module _ (i : Invoice) (db v : Database) (h : IsConsistent db)
    (fresh : find_unique invoice_id i.id db.invoices ≡ none)
    (unpaid : i.status ≡ InvoiceStatus.unpaid) (more : v.invoices ≡ db.invoices ++ i ∷ [])
    (same : v.payments ≡ db.payments) where
  add_invoice-IsWellFormed : IsWellFormed v
  add_invoice-IsWellFormed = record {
    payments_keyed = rw same h.formed.payments_keyed;
    invoices_keyed =
        rw more (append-IsKeyed invoice_id db.invoices i h.formed.invoices_keyed fresh);
    priced = λ k.
        rw (more, same)
          (Priced-add_invoice (find_unique payment_id k db.payments) i db.invoices
            (h.formed.priced k));
  }

  settled_as_before : (k : ℕ) → total_settled k v ≡ total_settled k db
  unfolding total_settled
  settled_as_before k = rw same

  nothing_settled : (k : ℕ) → find_unique invoice_id k db.invoices ≡ none → total_settled k db ≡ 0
  unfolding total_settled
  nothing_settled k e =
      settled-absent k db.payments db.invoices h.formed.payments_keyed h.formed.priced e

  new-Balance : Balance (some i) 0
  new-Balance = (omega arith, (λ p. ground (arith, unpaid)), (λ p q. refl))

  add_invoice-IsBalanced : IsBalanced v
  add_invoice-IsBalanced k =
      rw (settled_as_before k, more)
        (elim (Option-cases (find_unique invoice_id k db.invoices)) [
          | inr (j, e) ↦
              let old = h.balanced k in
              rw (find_unique-append_some invoice_id k db.invoices i j e) (rw e at old)
          | inl e ↦ elim (Bool-cases (i.id == k)) [
            | inr other ↦ rw (find_unique-append invoice_id k db.invoices i e, other) tt
            | inl new ↦
                rw (find_unique-append invoice_id k db.invoices i e, new, nothing_settled k e)
                  new-Balance
          ]
        ])

  pub add_invoice-IsConsistent : IsConsistent v
  add_invoice-IsConsistent = record {
    formed = add_invoice-IsWellFormed;
    balanced = add_invoice-IsBalanced;
  }

pub free-find_unique :
    (i : Invoice) (rows : List Invoice)
    → is_some (find_first (clashes_apart i) rows) ≡ false
    → find_unique invoice_id i.id rows ≡ none
unfolding find_unique find_first
free-find_unique i [] h = refl
free-find_unique i (r ∷ rs) h =
    ground (arith, free-find_unique i rs, ==_iff i.id r.id, ==_iff r.id i.id)

issue_invoice-IsConsistent :
    (new_id : ℕ) (profile : StudentProfile) (subtotal discount : ℕ) (dto : CreateInvoiceDto)
    (creator now year : ℕ) (w : World)
    → IsConsistent w.db
    → IsConsistent (issue_invoice new_id profile subtotal discount dto creator now year w).1.db
issue_invoice-IsConsistent new_id profile subtotal discount dto creator now year w h =
    let i = next_manual new_id subtotal discount dto creator now year w.db in
    elim (Bool-cases (is_taken i w.db)) [
      | inl taken ↦
          rw (issue_invoice-eq new_id profile subtotal discount dto creator now year w, taken) h
      | inr free ↦
          rw (issue_invoice-eq new_id profile subtotal discount dto creator now year w, free)
            (add_invoice-IsConsistent i w.db (issued_db i profile dto now w.db) h
              (free-find_unique i w.db.invoices free) refl refl refl)
    ]

-- Creating an invoice keeps invoices and payments consistent, whatever the request and its outcome.
pub create_invoice-IsConsistent :
    (caller : Caller) (dto : CreateInvoiceDto) (new_id now year : ℕ) (w : World)
    → IsConsistent w.db
    → IsConsistent (create_invoice caller dto new_id now year w).1.db
unfolding create_invoice
create_invoice-IsConsistent caller dto new_id now year w h =
    resume-keeps IsConsistent w (prepare_invoice dto now w) _ (prepare_invoice-state dto now w) h
      λ (profile, (subtotal, discount)).
        resume-db IsConsistent _
          (issue_invoice new_id profile subtotal discount dto caller.id now year w) (λ i v. refl)
          (issue_invoice-IsConsistent new_id profile subtotal discount dto caller.id now year w h)
