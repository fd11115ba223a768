-- ===== src/Duration.antt =====
-- src/common/duration.ts: the durations of the configuration. `none` is the thrown error.
use vovinam_api_node.Base.{
  ℕ, ◌*◌, ◌+◌, ◌-◌, Bool, true, false, ◌&&◌, Option, none, some, [], ◌∷◌, Text, ◌==◌, if◌then◌else◌,
}
use vovinam_api_node.Billing.Codes.{is_digit, is_space, skip_spaces}

abbrev is_empty : Text → Bool
is_empty [] = true
is_empty (c ∷ t) = false

unfoldable pub trim_end : Text → Text
trim_end [] = []
trim_end (c ∷ t) = let rest = trim_end t in if is_space c && is_empty rest then [] else c ∷ rest

-- The seconds in a unit
abbrev pub unit_seconds : ℕ → Option ℕ
unit_seconds c =
    if c == b's'
    then some 1
    else if c == b'm'
    then some 60
    else if c == b'h'
    then some 3600
    else if c == b'd'
    then some 86400
    else none

abbrev scaled : ℕ → Option ℕ → Option ℕ
scaled amount none = none
scaled amount (some seconds) = some (amount * seconds)

-- After the first digit: more digits, and then one unit or nothing.
unfoldable pub read_rest : ℕ → Text → Option ℕ
read_rest amount [] = some amount
read_rest amount (c ∷ t) =
    let more = read_rest (amount * 10 + (c - b'0')) t in
    if is_digit c then more else if is_empty t then scaled amount (unit_seconds c) else none

abbrev read_first : Text → Option ℕ
read_first [] = none
read_first (c ∷ t) = if is_digit c then read_rest (c - b'0') t else none

-- `parseDurationSeconds`
unfoldable pub parse_duration_seconds : Text → Option ℕ
parse_duration_seconds value = read_first (trim_end (skip_spaces value))
