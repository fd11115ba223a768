-- ===== src/Tests/Billing.antt =====
-- Invoices at a club with one student, whose user is 20, and one discount code of 10 percent.
use vovinam_api_node.Base.{
  ℕ, ◌≡◌, refl, true, false, none, some, List, [], ◌∷◌, arith, codes, decimal, decimal_fuel,
  find_unique, find_first, sum_of, text_eq, leb, if◌then◌else◌, ◌+◌, ◌≤◌,
}
use vovinam_api_node.Schema.{
  Caller, student, StudentStatus, StudentProfile, InvoiceType, DiscountCode,
}
use vovinam_api_node.Service.{
  World, ok, err, not_found, bad_request, push_entry, unique_violation, invoice_created,
}
use vovinam_api_node.Payments.Invariant.{IsConsistent}
use vovinam_api_node.Billing.Codes.{
  starts_with, digits_value, signed_value, skip_spaces, parse_int, pad_start, max_suffix,
  next_sequential_code,
}
use vovinam_api_node.Billing.Money.{
  max_money_amount, money_message, ItemDto, subtotal_from, total_discount, resolve_discount_code,
  upper_unit, assert_money_amount,
}
use vovinam_api_node.Billing.Amounts.{items_total, subtotal_from-eq, resolve_discount_code-bound}
use vovinam_api_node.Billing.Issue.{
  ExamFee, CreateInvoiceDto, check_period, issue_invoice, create_invoice, applied_code,
}
use vovinam_api_node.Billing.Sequence.{is_taken}
use vovinam_api_node.Billing.Issuing.{next_manual, issued_db, issue_invoice-eq}
use vovinam_api_node.Billing.Created.{IsAccepted, create_invoice-issues}
use vovinam_api_node.Billing.Consistent.{create_invoice-IsConsistent}
use vovinam_api_node.Billing.Monthly.{GenerateMonthlyDto}
use vovinam_api_node.Billing.Overdue.{mark_overdue, mark_overdue-IsConsistent}
use vovinam_api_node.Billing.Guards.{scope_filter, get_by_id}
use vovinam_api_node.Billing.Scope.{get_by_id-eq-scope_filter}
use vovinam_api_node.Tests.Payments.{db, start, start-IsConsistent, treasurer, invoice}

abbrev pub trainee : StudentProfile
trainee = record {
  id = 7;
  user_id = some 20;
  current_belt_rank_id = none;
  status = StudentStatus.active;
  deleted_at = none;
}

abbrev tet : DiscountCode
tet = record {
  id = 1;
  code = codes "TET10";
  percent_off = some 10;
  amount_off = none;
  valid_from = 10;
  valid_until = 90;
  is_active = true;
}

abbrev club : World
club = record {
  db = record db { profiles = trainee ∷ []; discount_codes = tet ∷ [] };
  audit_queue = [];
  store = [];
  mails = [];
}

abbrev uniforms : ItemDto
uniforms = record { description = codes "uniform"; quantity = 2; unit_amount = 150 }

abbrev order : CreateInvoiceDto
order = record {
  student_id = 7;
  kind = InvoiceType.uniform;
  items = uniforms ∷ [];
  discount = some 20;
  discount_code = some (codes "tet10");
  due_date = some 200;
  note = none;
  period_month = none;
  period_year = none;
}

abbrev used_codes : List (List ℕ)
used_codes = codes "EXAM-2026-07" ∷ codes "EXAM-2026-x" ∷ []

next_code-run : next_sequential_code (codes "EXAM-2026-") used_codes 2 ≡ codes "EXAM-2026-08"
unfolding next_sequential_code max_suffix starts_with parse_int skip_spaces signed_value
    digits_value pad_start decimal decimal_fuel
next_code-run = refl

subtotal_from-eq_example : subtotal_from 0 (uniforms ∷ uniforms ∷ []) ≡ (
    if leb (0 + items_total (uniforms ∷ uniforms ∷ [])) max_money_amount
    then ok (0 + items_total (uniforms ∷ uniforms ∷ []))
    else err (bad_request money_message))
subtotal_from-eq_example = subtotal_from-eq 0 (uniforms ∷ uniforms ∷ []) (omega arith)

resolve_discount_code-bound_example :
    (off : ℕ) × (off ≤ 300) × (resolve_discount_code (codes "tet10") 300 50 club.db ≡ ok off)
resolve_discount_code-bound_example =
    resolve_discount_code-bound (codes "tet10") 300 50 10 tet club.db
      (unfold find_first text_eq upper_unit in refl) refl (omega arith) (omega arith) refl
      (omega arith)

issue_invoice-eq_example : issue_invoice 2 trainee 300 50 order 3 50 2026 club ≡ (
    if is_taken (next_manual 2 300 50 order 3 50 2026 club.db) club.db
    then (err unique_violation, club)
    else (
      ok (next_manual 2 300 50 order 3 50 2026 club.db),
      record club {
        db = issued_db (next_manual 2 300 50 order 3 50 2026 club.db) trainee order 50 club.db;
      },
    ))
issue_invoice-eq_example = issue_invoice-eq 2 trainee 300 50 order 3 50 2026 club

order-IsAccepted : IsAccepted order trainee 50 50 club
unfolding find_first text_eq upper_unit check_period sum_of total_discount resolve_discount_code
    assert_money_amount
order-IsAccepted = record {
  found = refl;
  period = refl;
  bounded = omega arith;
  discounted = refl;
  covered = omega arith;
}

order_is_free :
    is_taken (next_manual 2 (items_total order.items) 50 order 3 50 2026 club.db) club.db ≡ false
unfolding find_first
order_is_free = refl

create_invoice-issues_example :
    let i = next_manual 2 (items_total order.items) 50 order 3 50 2026 club.db in
    (i.total + i.discount ≡ items_total order.items)
    × (create_invoice treasurer order 2 50 2026 club ≡ (
      ok i,
      record club {
        db = issued_db i trainee order 50 club.db;
        audit_queue =
            push_entry
              (record {
                user_id = none;
                event = invoice_created 2 7 (applied_code order.discount_code);
                success = true;
              })
              club.audit_queue;
      },
    ))
create_invoice-issues_example =
    create_invoice-issues treasurer order 2 50 2026 trainee 50 club order-IsAccepted order_is_free

create_invoice-IsConsistent_example :
    IsConsistent (create_invoice treasurer order 2 50 2026 start).1.db
create_invoice-IsConsistent_example =
    create_invoice-IsConsistent treasurer order 2 50 2026 start start-IsConsistent

abbrev exam : ExamFee
exam = record {
  code = codes "EXAM-2026-01";
  title = codes "Yellow belt";
  fee_amount = 300;
  exam_date = 400;
}

mark_overdue-IsConsistent_example : IsConsistent (mark_overdue 101 db)
mark_overdue-IsConsistent_example = mark_overdue-IsConsistent 101 db start-IsConsistent

abbrev reader : Caller
reader = record { id = 20; role = student }

get_by_id-eq-scope_filter_example :
    get_by_id reader 1 club
    ≡ ((if scope_filter student 20 none club.db invoice then ok invoice else err not_found), club)
get_by_id-eq-scope_filter_example =
    get_by_id-eq-scope_filter reader 1 invoice club ((λ p. unfold find_first in refl), tt) (λ p. cc)
      (unfold find_unique in refl)

abbrev september : GenerateMonthlyDto
september = record { month = 9; year = 2026; class_ids = 4 ∷ [] }
