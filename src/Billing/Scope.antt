-- ===== src/Billing/Scope.antt =====
-- The invoice list of src/billing/billing.service.ts against the guard of one invoice.
use vovinam_api_node.Base.{
  ℕ, ◌≡◌, ◌≢◌, refl, ◌∙◌, ap, true, ◌&&◌, none, some, List, [], ◌∷◌, arith, ◌==◌, ==_iff, is_some,
  if◌then◌else◌, Bool-cases, inl, inr, find_first, find_unique,
}
use vovinam_api_node.Schema.{
  Role, admin, instructor, student, parent, Caller, Invoice, StudentProfile, ParentStudentLink,
  Database,
}
use vovinam_api_node.Service.{World, ok, err, not_found}
use vovinam_api_node.Ownership.{owns, is_verified_link}
use vovinam_api_node.Ownership.Laws.{contains-find_many, find_first-congr}
use vovinam_api_node.Payments.Defs.{invoice_id}
use vovinam_api_node.Billing.Guards.{
  own_filter, is_parents_link, scope_filter, invoice_access, assert_invoice_access, get_by_id,
}

-- `userId` is unique: no user has two profiles.
abbrev pub HasOneProfile : ℕ → List StudentProfile → Type 0
HasOneProfile user [] = Unit
HasOneProfile user (p ∷ ps) =
    (owns user p ≡ true → find_first (owns user) ps ≡ none) × HasOneProfile user ps

find_first-narrower :
    (a user : ℕ) (rows : List StudentProfile)
    → find_first (owns user) rows ≡ none
    → find_first (λ (p : StudentProfile). p.id == a && owns user p) rows ≡ none
unfolding find_first
find_first-narrower a user [] h = refl
find_first-narrower a user (r ∷ rs) h = ground (arith, find_first-narrower a user rs)

own-scope :
    (i : Invoice) (user : ℕ) (rows : List StudentProfile)
    → HasOneProfile user rows
    → own_filter (find_first (owns user) rows) i
      ≡ is_some (find_first (λ (p : StudentProfile). p.id == i.student_id && owns user p) rows)
unfolding find_first
own-scope i user [] h = refl
own-scope i user (r ∷ rs) h = ground (
  arith,
  h.0,
  own-scope i user rs h.1,
  find_first-narrower i.student_id user rs,
  ==_iff i.student_id r.id,
  ==_iff r.id i.student_id,
)

link-scope :
    (user a : ℕ) (l : ParentStudentLink)
    → (l.student_id == a && is_parents_link user l) ≡ is_verified_link user a l
link-scope user a l = ground arith

-- What a caller who is no instructor lists without filters is what the guard of one invoice lets the
-- caller read.
pub scope_filter-eq-invoice_access :
    (role : Role) (user : ℕ) (db : Database) (i : Invoice)
    → HasOneProfile user db.profiles
    → role ≢ instructor
    → scope_filter role user none db i ≡ invoice_access role user i.student_id db
unfolding scope_filter invoice_access
scope_filter-eq-invoice_access admin user db i h ne = refl
scope_filter-eq-invoice_access instructor user db i h ne = absurd (ne refl)
scope_filter-eq-invoice_access student user db i h ne = own-scope i user db.profiles h
scope_filter-eq-invoice_access parent user db i h ne =
    contains-find_many (λ (l : ParentStudentLink). l.student_id) (is_parents_link user) i.student_id
      db.links
    ∙ ap is_some (
        find_first-congr
          (λ (l : ParentStudentLink). l.student_id == i.student_id && is_parents_link user l)
          (is_verified_link user i.student_id) db.links (link-scope user i.student_id))

-- For a caller who is no instructor, reading one invoice answers it when it is within the caller's
-- unfiltered list, and otherwise answers the 404 of an invoice that does not exist; nothing changes.
pub get_by_id-eq-scope_filter :
    (caller : Caller) (inv : ℕ) (i : Invoice) (w : World)
    → HasOneProfile caller.id w.db.profiles
    → caller.role ≢ instructor
    → find_unique invoice_id inv w.db.invoices ≡ some i
    → get_by_id caller inv w
      ≡ ((if scope_filter caller.role caller.id none w.db i then ok i else err not_found), w)
unfolding get_by_id assert_invoice_access
get_by_id-eq-scope_filter caller inv i w h ne e =
    elim (Bool-cases (invoice_access caller.role caller.id i.student_id w.db)) [
      | inl y ↦ rw (e, y, scope_filter-eq-invoice_access caller.role caller.id w.db i h ne, y) refl
      | inr n ↦ rw (e, n, scope_filter-eq-invoice_access caller.role caller.id w.db i h ne, n) refl
    ]
