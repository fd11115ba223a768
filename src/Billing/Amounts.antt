-- ===== src/Billing/Amounts.antt =====
-- The amounts that `create` of src/billing/billing.service.ts computes with src/billing/money.ts.
use vovinam_api_node.Base.{
  ℕ, zero, suc, ◌+◌, ◌*◌, ◌/◌, ◌≤◌, ◌≡◌, true, some, List, [], ◌∷◌, Text, arith, leb, if◌then◌else◌,
  find_first, sum_of, text_eq,
}
use vovinam_api_node.Schema.{DiscountCode, Database}
use vovinam_api_node.Service.{ok, err, bad_request}
use vovinam_api_node.Billing.Money.{
  max_money_amount, money_message, assert_money_amount, ItemDto, subtotal_from, to_upper_case,
  resolve_discount_code,
}

-- The sum of the line amounts, without any bound on the way.
abbrev pub items_total : List ItemDto → ℕ
items_total items = sum_of (λ (item : ItemDto). item.quantity * item.unit_amount) items

-- Adding the lines one by one, with a check of each line and of each partial sum, is one check of the
-- whole sum.
pub subtotal_from-eq :
    (sum : ℕ) (items : List ItemDto)
    → sum ≤ max_money_amount
    → subtotal_from sum items ≡ (
        if leb (sum + items_total items) max_money_amount
        then ok (sum + items_total items)
        else err (bad_request money_message))
unfolding subtotal_from assert_money_amount sum_of
subtotal_from-eq sum [] h = ground arith
subtotal_from-eq sum (item ∷ items) h =
    ground (arith, subtotal_from-eq (sum + item.quantity * item.unit_amount) items)

scale_le : (n percent : ℕ) → percent ≤ 100 → n * percent ≤ n * 100
scale_le zero percent h = omega arith
scale_le (suc n) percent h = omega (arith, scale_le n percent h)

percent_bound : (subtotal percent : ℕ) → percent ≤ 100 → subtotal * percent / 100 ≤ subtotal
percent_bound subtotal percent h = omega (arith, scale_le subtotal percent h)

-- A usable code with a percentage of at most 100 resolves, and takes off no more than the subtotal.
pub resolve_discount_code-bound :
    (code : Text) (subtotal now percent : ℕ) (row : DiscountCode) (db : Database)
    → find_first (λ (d : DiscountCode). text_eq d.code (to_upper_case code)) db.discount_codes
      ≡ some row
    → row.is_active ≡ true
    → row.valid_from ≤ now
    → now ≤ row.valid_until
    → row.percent_off ≡ some percent
    → percent ≤ 100
    → (off : ℕ) × (off ≤ subtotal) × (resolve_discount_code code subtotal now db ≡ ok off)
unfolding resolve_discount_code
resolve_discount_code-bound code subtotal now percent row db e active from until off bound = (
  subtotal * percent / 100,
  percent_bound subtotal percent bound,
  rw (e, resolve_discount_code) (ground (arith, active, from, until, off)),
)
