-- ===== src/Billing/Money.antt =====
-- src/billing/money.ts, and the amounts of an invoice in src/billing/billing.service.ts. Amounts are
-- natural numbers, as the request validation has it, so the tests for a negative number and for one
-- that is no safe integer come down to the upper bound.
use Prim.Native.String.{String}
use vovinam_api_node.Base.{
  ℕ, ◌+◌, ◌-◌, ◌*◌, ◌/◌, Bool, ◌&&◌, Option, none, some, List, [], ◌∷◌, Text, map, ltb, leb,
  text_eq, if◌then◌else◌, find_first,
}
use vovinam_api_node.Schema.{DiscountCode, Database}
use vovinam_api_node.Service.{Result, ok, err, bad_request}

-- `MAX_MONEY_AMOUNT`
abbrev pub max_money_amount : ℕ
max_money_amount = 2147483647

abbrev pub money_message : String
money_message = "Monetary amounts must be integers between 0 and 2147483647 VND"

unfoldable pub assert_money_amount : ℕ → Result ℕ
assert_money_amount amount =
    if ltb max_money_amount amount then err (bad_request money_message) else ok amount

pub record ItemDto : Type 0 where
  pub description : Text
  pub quantity : ℕ
  pub unit_amount : ℕ

abbrev pub and_then {ℓ κ} : {A : Type ℓ} {B : Type κ} → Result A → (A → Result B) → Result B
and_then (ok a) f = f a
and_then (err e) f = err e

-- The `reduce` over the items, from the sum so far.
unfoldable pub subtotal_from : ℕ → List ItemDto → Result ℕ
subtotal_from sum [] = ok sum
subtotal_from sum (item ∷ items) =
    and_then (assert_money_amount (item.quantity * item.unit_amount))
      λ line. and_then (assert_money_amount (sum + line)) λ next. subtotal_from next items

-- `toUpperCase` of a code; the letters that a code may hold are those of ASCII.
unfoldable pub upper_unit : ℕ → ℕ
upper_unit c = if leb b'a' c && leb c b'z' then c - 32 else c

abbrev pub to_upper_case : Text → Text
to_upper_case t = map upper_unit t

abbrev pub is_usable : ℕ → DiscountCode → Bool
is_usable now row = row.is_active && (leb row.valid_from now && leb now row.valid_until)

abbrev pub or_zero : Option ℕ → ℕ
or_zero none = 0
or_zero (some n) = n

-- What a usable code takes off.
abbrev pub discount_of : Option ℕ → Option ℕ → ℕ → ℕ
discount_of (some percent) amount subtotal = subtotal * percent / 100
discount_of none amount subtotal = or_zero amount

unfoldable pub resolve_discount_code : Text → ℕ → ℕ → Database → Result ℕ
resolve_discount_code code subtotal now db =
    elim (find_first (λ (d : DiscountCode). text_eq d.code (to_upper_case code))
      db.discount_codes) [
        | none ↦ err (bad_request "Discount code is not valid")
        | some row ↦
            if is_usable now row
            then ok (discount_of row.percent_off row.amount_off subtotal)
            else err (bad_request "Discount code is not valid")
      ]

-- The discount of `create`: the manual one, and that of a code which is not empty.
unfoldable pub total_discount : Option ℕ → Option Text → ℕ → ℕ → Database → Result ℕ
total_discount manual none subtotal now db = ok (or_zero manual)
total_discount manual (some []) subtotal now db = ok (or_zero manual)
total_discount manual (some (c ∷ code)) subtotal now db =
    and_then (resolve_discount_code (c ∷ code) subtotal now db)
      λ off. assert_money_amount (or_zero manual + off)
