-- ===== src/Billing/Discounts.antt =====
-- src/billing/billing.service.ts: the operations on discount codes. Checks of a request's form are
-- those of the service.
use vovinam_api_node.Base.{
  ℕ, Bool, true, false, not, Option, none, some, [], ◌∷◌, ◌++◌, Text, leb, ◌==◌, text_eq, is_some,
  find_first, find_many, find_unique, update_many,
}
use vovinam_api_node.Schema.{Caller, DiscountCode}
use vovinam_api_node.Service.{
  Error, Result, ok, err, World, Action, ◌>>=◌, ◌>>◌, pure, throw_if, or_throw, gets, modify,
  record_entry, not_found, conflict, bad_request, unique_violation, discount_code_created,
  discount_code_updated, discount_code_deleted,
}
use vovinam_api_node.Billing.Money.{to_upper_case}

abbrev pub discount_id : DiscountCode → ℕ
discount_id d = d.id

pub record CreateDiscountCodeDto : Type 0 where
  pub code : Text
  pub percent_off : Option ℕ
  pub amount_off : Option ℕ
  pub valid_from : ℕ
  pub valid_until : ℕ

abbrev same_presence : Option ℕ → Option ℕ → Bool
same_presence none none = true
same_presence (some a) (some b) = true
same_presence (some a) none = false
same_presence none (some b) = false

abbrev pub new_discount : ℕ → CreateDiscountCodeDto → DiscountCode
new_discount new_id dto = record {
  id = new_id;
  code = to_upper_case dto.code;
  percent_off = dto.percent_off;
  amount_off = dto.amount_off;
  valid_from = dto.valid_from;
  valid_until = dto.valid_until;
  is_active = true;
}

abbrev pub same_code : DiscountCode → DiscountCode → Bool
same_code d e = text_eq e.code d.code

-- `discountCode.create`: id and code are unique.
unfoldable pub insert_discount : DiscountCode → Action DiscountCode
insert_discount d = do
  rows ← gets (λ db. db.discount_codes)
  throw_if (is_some (find_unique discount_id d.id rows)) unique_violation
  throw_if (is_some (find_first (same_code d) rows)) unique_violation
  modify (λ db. record db { discount_codes = db.discount_codes ++ d ∷ [] })
  pure d

abbrev code_conflict_error : Error → Error
code_conflict_error unique_violation = conflict "Discount code already exists"
code_conflict_error e = e

-- The `catch` around the insertion
abbrev pub code_conflict {ℓ} : {A : Type ℓ} → Result A × World → Result A × World
code_conflict (ok a, w) = (ok a, w)
code_conflict (err e, w) = (err (code_conflict_error e), w)

abbrev write_discount : Caller → ℕ → CreateDiscountCodeDto → Action DiscountCode
write_discount caller new_id dto = do
  row ← insert_discount (new_discount new_id dto)
  record_entry (some caller.id) (discount_code_created row.code) true
  pure row

-- `createDiscountCode`
unfoldable pub create_discount_code : Caller → CreateDiscountCodeDto → ℕ → Action DiscountCode
create_discount_code caller dto new_id = do
  throw_if (same_presence dto.percent_off dto.amount_off)
      (bad_request "Set exactly one of percentOff or amountOff")
  throw_if (leb dto.valid_until dto.valid_from) (bad_request "validUntil must be after validFrom")
  λ w. code_conflict (write_discount caller new_id dto w)

pub record UpdateDiscountCodeDto : Type 0 where
  pub valid_until : Option ℕ
  pub is_active : Option Bool

abbrev or_kept {ℓ} : {A : Type ℓ} → Option A → A → A
or_kept none old = old
or_kept (some new) old = new

abbrev pub changed_discount : UpdateDiscountCodeDto → DiscountCode → DiscountCode
changed_discount dto d = record d {
  valid_until = or_kept dto.valid_until d.valid_until;
  is_active = or_kept dto.is_active d.is_active;
}

abbrev pub is_discount : ℕ → DiscountCode → Bool
is_discount k d = d.id == k

-- `updateDiscountCode`
unfoldable pub update_discount_code : Caller → ℕ → UpdateDiscountCodeDto → Action DiscountCode
update_discount_code caller k dto = do
  existing ← or_throw (← gets (λ db. find_unique discount_id k db.discount_codes)) not_found
  modify (λ db. record db {
    discount_codes = update_many (is_discount k) (changed_discount dto) db.discount_codes;
  })
  record_entry (some caller.id)
      (discount_code_updated existing.code (changed_discount dto existing).is_active) true
  pure (changed_discount dto existing)

-- `deleteDiscountCode`
unfoldable pub delete_discount_code : Caller → ℕ → Action (Unit {0})
delete_discount_code caller k = do
  existing ← or_throw (← gets (λ db. find_unique discount_id k db.discount_codes)) not_found
  modify (λ db. record db {
    discount_codes = find_many (λ d. not (is_discount k d)) db.discount_codes;
  })
  record_entry (some caller.id) (discount_code_deleted existing.code) true
