-- ===== src/Billing/Codes.antt =====
-- src/billing/sequential-code.ts: the next code of a sequence such as INV-2026-0007.
use vovinam_api_node.Base.{
  ℕ, ◌+◌, ◌-◌, ◌*◌, Bool, true, false, ◌&&◌, ◌||◌, Option, none, some, List, [], ◌∷◌, ◌++◌, Text,
  decimal, ◌==◌, leb, ltb, if◌then◌else◌, length, drop, replicate,
}

-- `code.startsWith(prefix)`
unfoldable pub starts_with : Text → Text → Bool
starts_with t [] = true
starts_with [] (p ∷ ps) = false
starts_with (c ∷ t) (p ∷ ps) = c == p && starts_with t ps

abbrev pub is_digit : ℕ → Bool
is_digit c = leb b'0' c && leb c b'9'

-- The white space and line terminators that `parseInt` skips.
abbrev pub is_space : ℕ → Bool
is_space c =
    (leb 9 c && leb c 13)
    || (c == 32)
    || (c == 0xa0)
    || (c == 0x1680)
    || (leb 0x2000 c && leb c 0x200a)
    || (c == 0x2028)
    || (c == 0x2029)
    || (c == 0x202f)
    || (c == 0x205f)
    || (c == 0x3000)
    || (c == 0xfeff)

-- The digits up to the first other character, after the value read so far.
unfoldable pub digits_value : ℕ → Text → ℕ
digits_value acc [] = acc
digits_value acc (c ∷ t) =
    let rest = digits_value (acc * 10 + (c - b'0')) t in if is_digit c then rest else acc

unfoldable pub unsigned_value : Text → Option ℕ
unsigned_value [] = none
unsigned_value (c ∷ t) = if is_digit c then some (digits_value 0 (c ∷ t)) else none

-- The value of a natural number; `none` for NaN and for a number below 0, which no caller tells apart.
unfoldable pub signed_value : Text → Option ℕ
unfolding unsigned_value
signed_value [] = none
signed_value (c ∷ t) =
    if c == b'+' then unsigned_value t else if c == b'-' then none else unsigned_value (c ∷ t)

unfoldable pub skip_spaces : Text → Text
skip_spaces [] = []
skip_spaces (c ∷ t) = if is_space c then skip_spaces t else c ∷ t

-- `Number.parseInt(text, 10)`
unfoldable pub parse_int : Text → Option ℕ
parse_int t = signed_value (skip_spaces t)

abbrev pub larger : ℕ → Option ℕ → ℕ
larger m none = m
larger m (some n) = if ltb m n then n else m

-- The loop over the codes.
unfoldable pub max_suffix : Text → ℕ → List Text → ℕ
max_suffix prefix m [] = m
max_suffix prefix m (code ∷ rest) =
    max_suffix prefix
      (if starts_with code prefix then larger m (parse_int (drop (length prefix) code)) else m) rest

-- `padStart(width, '0')`
unfoldable pub pad_start : ℕ → Text → Text
pad_start width t = replicate (width - length t) b'0' ++ t

unfoldable pub next_sequential_code : Text → List Text → ℕ → Text
next_sequential_code prefix used width =
    prefix ++ pad_start width (decimal (max_suffix prefix 0 used + 1))
