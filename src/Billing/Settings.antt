-- ===== src/Billing/Settings.antt =====
-- src/billing/billing.service.ts: the two settings that billing reads, and the tuition report.
use vovinam_api_node.Base.{
  ℕ, Bool, true, false, not, ◌&&◌, ◌||◌, Option, none, some, List, [], ◌∷◌, Text, codes, ◌==◌,
  length, map, if◌then◌else◌, count_where, sum_of, find_unique,
}
use vovinam_api_node.Schema.{Caller, Class, Invoice, InvoiceStatus, PaymentTxn, Database}
use vovinam_api_node.Service.{
  Action, ◌>>=◌, ◌>>◌, throw_if, gets, modify, record_entry, bad_request, settings_updated,
}
use vovinam_api_node.Payments.Defs.{invoice_id, is_success}
use vovinam_api_node.Billing.Issue.{is_tuition, both_equal}
use vovinam_api_node.Billing.Guards.{status_code}

pub record TuitionRate : Type 0 where
  pub class_id : ℕ
  pub monthly_amount : ℕ

abbrev names_class : ℕ → List TuitionRate → Bool
names_class k [] = false
names_class k (rate ∷ rates) = rate.class_id == k || names_class k rates

-- `map[rate.classId] !== undefined` for some rate
unfoldable pub has_duplicate : List TuitionRate → Bool
has_duplicate [] = false
has_duplicate (rate ∷ rates) = names_class rate.class_id rates || has_duplicate rates

-- A rate that is not positive counts as none where rates are read.
abbrev as_setting : TuitionRate → ℕ × Option ℕ
as_setting rate =
    (rate.class_id, if rate.monthly_amount == 0 then none else some rate.monthly_amount)

-- `updateTuitionRates`
unfoldable pub update_tuition_rates : Caller → List TuitionRate → Action (Unit {0})
update_tuition_rates caller rates = do
  throw_if (has_duplicate rates) (bad_request "Duplicate class id in rates")
  found ← gets (λ db. count_where (λ (c : Class). names_class c.id rates) db.classes)
  throw_if (not (found == length rates)) (bad_request "Unknown class id in rates")
  modify (λ db. record db { tuition_rates = map as_setting rates })
  record_entry (some caller.id) (settings_updated (some (length rates))) true

pub record BusinessAccount : Type 0 where
  pub bin : Text
  pub number : Text
  pub name : Text

-- `updateBankAccount`, whose owner type is always BUSINESS
unfoldable pub update_bank_account : Caller → BusinessAccount → Action (Unit {0})
update_bank_account caller account = do
  modify (λ db. record db {
    bank_account = some (record {
      owner_type = some (codes "BUSINESS");
      bin = some account.bin;
      number = some account.number;
      name = some account.name;
    });
  })
  record_entry (some caller.id) (settings_updated none) true

abbrev pub is_of_period : ℕ → ℕ → Invoice → Bool
is_of_period month year i =
    is_tuition i.kind
    && (both_equal i.period_month (some month) && both_equal i.period_year (some year))

abbrev has_status : InvoiceStatus → Invoice → Bool
has_status s i = status_code i.status == status_code s

-- A row of `byStatus`: the invoices of the period with the status, and the sum of their totals.
unfoldable pub report_row : ℕ → ℕ → Database → InvoiceStatus → ℕ × ℕ
report_row month year db s =
    let chosen : Invoice → Bool = λ i. is_of_period month year i && has_status s i in
    (
      count_where chosen db.invoices,
      sum_of (λ (i : Invoice). if chosen i then i.total else 0) db.invoices,
    )

abbrev pays_for_period : ℕ → ℕ → List Invoice → PaymentTxn → Bool
pays_for_period month year invoices p =
    is_success p.status && elim (find_unique invoice_id p.invoice_id invoices) [
      | none ↦ false
      | some i ↦ is_of_period month year i
    ]

-- `collectedVnd` of `tuitionReport`
unfoldable pub collected : ℕ → ℕ → Database → ℕ
collected month year db =
    sum_of (λ (p : PaymentTxn). if pays_for_period month year db.invoices p then p.amount else 0)
      db.payments
