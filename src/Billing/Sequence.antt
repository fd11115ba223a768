-- ===== src/Billing/Sequence.antt =====
-- Issuing invoices in src/billing/billing.service.ts: the number that is next is never taken, so
-- the only unique constraints that a single issuer can run into are those of the id and of the
-- billing period.
use vovinam_api_node.Base.{
  ℕ, zero, suc, ◌≡◌, refl, Bool, false, ◌||◌, List, [], ◌∷◌, ◌++◌, arith, ◌==◌, text_eq, is_some,
  if◌then◌else◌, find_first, Bool-cases, inl, inr,
}
use vovinam_api_node.Schema.{Invoice, Database}
use vovinam_api_node.Service.{World, Action, ok, err, unique_violation}
use vovinam_api_node.Billing.Unused.{next_code-unused}
use vovinam_api_node.Billing.Issue.{
  clashes, same_period, insert_invoice, invoice_prefix, next_invoice_no, retry,
}

-- No invoice has the next number.
next_invoice_no-unused :
    (year : ℕ) (db : Database)
    → is_some
        (find_first (λ (j : Invoice). text_eq j.invoice_no (next_invoice_no year db)) db.invoices)
      ≡ false
unfolding next_invoice_no
next_invoice_no-unused year db =
    next_code-unused (λ (i : Invoice). i.invoice_no) (invoice_prefix year) 4 db.invoices

-- The unique columns apart from the number.
abbrev pub clashes_apart : Invoice → Invoice → Bool
clashes_apart i j = i.id == j.id || same_period i j

clashes-apart :
    (i : Invoice) (rows : List Invoice)
    → is_some (find_first (λ (j : Invoice). text_eq j.invoice_no i.invoice_no) rows) ≡ false
    → is_some (find_first (clashes i) rows) ≡ is_some (find_first (clashes_apart i) rows)
unfolding find_first
clashes-apart i [] h = refl
clashes-apart i (r ∷ rs) h = ground (arith, clashes-apart i rs)

abbrev pub is_taken : Invoice → Database → Bool
is_taken i db = is_some (find_first (clashes_apart i) db.invoices)

abbrev pub with_invoice : Invoice → Database → Database
with_invoice i db = record db { invoices = db.invoices ++ i ∷ [] }

pub insert_invoice-next :
    (i : Invoice) (year : ℕ) (w : World)
    → i.invoice_no ≡ next_invoice_no year w.db
    → insert_invoice i w ≡ (
        if is_taken i w.db
        then (err unique_violation, w)
        else (ok i, record w { db = with_invoice i w.db }))
unfolding insert_invoice
insert_invoice-next i year w e =
    let unused = next_invoice_no-unused year w.db in
    let apart = clashes-apart i w.db.invoices (rw e unused) in
    elim (Bool-cases (is_taken i w.db)) [ inl y ↦ rw (apart, y) | inr n ↦ rw (apart, n) ]

pub retry-ok {ℓ} :
    {A : Type ℓ} (more : ℕ) (m : Action A) (w v : World) (a : A)
    → m w ≡ (ok a, v)
    → retry more m w ≡ (ok a, v)
unfolding retry
retry-ok zero m w v a h = h
retry-ok (suc more) m w v a h = rw h refl

pub retry-violation {ℓ} :
    {A : Type ℓ} (more : ℕ) (m : Action A) (w : World)
    → m w ≡ (err unique_violation, w)
    → retry more m w ≡ (err unique_violation, w)
unfolding retry
retry-violation zero m w h = h
retry-violation (suc more) m w h = rw h (retry-violation more m w h)
