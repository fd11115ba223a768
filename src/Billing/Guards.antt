-- ===== src/Billing/Guards.antt =====
-- src/billing/billing.service.ts: who sees which invoice, in `list`, in `getById` and in
-- `assertInvoiceAccess`. A list is the rows that its `where` selects, before they are ordered and cut
-- into pages.
use vovinam_api_node.Base.{
  ℕ, Bool, true, false, not, ◌&&◌, Option, none, some, List, map, ◌==◌, is_some, find_first,
  find_many, find_unique,
}
use vovinam_api_node.Schema.{
  Role, admin, instructor, student, parent, Caller, Invoice, InvoiceStatus, InvoiceType,
  StudentProfile, ParentStudentLink, Database,
}
use vovinam_api_node.Service.{Action, ◌>>=◌, ◌>>◌, pure, gets, throw_if, or_throw, not_found}
use vovinam_api_node.Ownership.{owns, is_verified_link}
use vovinam_api_node.Ownership.Laws.{contains}
use vovinam_api_node.Payments.Defs.{invoice_id}
use vovinam_api_node.Billing.Issue.{type_code}

abbrev pub status_code : InvoiceStatus → ℕ
status_code InvoiceStatus.unpaid = 0
status_code InvoiceStatus.paid = 1
status_code InvoiceStatus.overdue = 2
status_code InvoiceStatus.cancelled = 3
status_code InvoiceStatus.refunded = 4

pub record ListInvoicesQuery : Type 0 where
  pub status : Option InvoiceStatus
  pub kind : Option InvoiceType
  pub student_id : Option ℕ

abbrev pub status_filter : Option InvoiceStatus → Invoice → Bool
status_filter none i = true
status_filter (some s) i = status_code i.status == status_code s

abbrev pub type_filter : Option InvoiceType → Invoice → Bool
type_filter none i = true
type_filter (some t) i = type_code i.kind == type_code t

abbrev pub student_filter : Option ℕ → Invoice → Bool
student_filter none i = true
student_filter (some k) i = i.student_id == k

-- `profile?.id ?? 'no-profile'`: without a profile no invoice is selected.
abbrev pub own_filter : Option StudentProfile → Invoice → Bool
own_filter none i = false
own_filter (some p) i = i.student_id == p.id

-- A verified link of the parent.
abbrev pub is_parents_link : ℕ → ParentStudentLink → Bool
is_parents_link user l = l.parent_user_id == user && l.verified

unfoldable pub scope_filter : Role → ℕ → Option ℕ → Database → Invoice → Bool
scope_filter admin user asked db i = student_filter asked i
scope_filter instructor user asked db i = student_filter asked i
scope_filter student user asked db i = own_filter (find_first (owns user) db.profiles) i
scope_filter parent user asked db i =
    contains i.student_id
      (map (λ (l : ParentStudentLink). l.student_id) (find_many (is_parents_link user) db.links))

unfoldable pub list_invoices : Caller → ListInvoicesQuery → Database → List Invoice
list_invoices caller query db =
    find_many
      (λ (i : Invoice).
        status_filter query.status i
        && (type_filter query.kind i && scope_filter caller.role caller.id query.student_id db i))
      db.invoices

unfoldable pub invoice_access : Role → ℕ → ℕ → Database → Bool
invoice_access admin user student_id db = true
invoice_access student user student_id db =
    is_some (find_first (λ (p : StudentProfile). p.id == student_id && owns user p) db.profiles)
invoice_access parent user student_id db =
    is_some (find_first (is_verified_link user student_id) db.links)
invoice_access instructor user student_id db = false

unfoldable pub assert_invoice_access : Caller → ℕ → Action (Unit {0})
assert_invoice_access caller student_id = do
  allowed ← gets (invoice_access caller.role caller.id student_id)
  throw_if (not allowed) not_found

-- `getById`
unfoldable pub get_by_id : Caller → ℕ → Action Invoice
get_by_id caller inv = do
  invoice ← or_throw (← gets (λ db. find_unique invoice_id inv db.invoices)) not_found
  assert_invoice_access caller invoice.student_id
  pure invoice
