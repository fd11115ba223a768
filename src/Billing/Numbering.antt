-- ===== src/Billing/Numbering.antt =====
-- What src/billing/sequential-code.ts promises: the next code was not used before.
use mathlib.Core.List.{Memᴰ}
use vovinam_api_node.Base.{
  length-append, ℕ, zero, suc, ◌+◌, ◌-◌, ◌*◌, ◌/◌, ◌%◌, ◌≤◌, ◌<◌, ◌≡◌, ◌≢◌, refl, sym, ap, ◌∙◌,
  true, some, List, [], ◌∷◌, ◌++◌, Text, arith, decimal, ltb, if◌then◌else◌, length, drop,
  replicate, drop-append, Bool-cases, inl, inr, decimal_fuel,
}
use vovinam_api_node.Billing.Codes.{
  starts_with, is_digit, digits_value, signed_value, skip_spaces, parse_int, larger, max_suffix,
  pad_start, next_sequential_code,
}

abbrev AllDigits : Text → Type 0
AllDigits [] = Unit
AllDigits (c ∷ t) = (is_digit c ≡ true) × AllDigits t

AllDigits-append : (s t : Text) → AllDigits s → AllDigits t → AllDigits (s ++ t)
AllDigits-append [] t h k = k
AllDigits-append (c ∷ s) t h k = (h.0, AllDigits-append s t h.1 k)

AllDigits-zeros : (n : ℕ) → AllDigits (replicate n b'0')
AllDigits-zeros zero = tt
AllDigits-zeros (suc n) = (refl, AllDigits-zeros n)

AllDigits-decimal_fuel : (fuel n : ℕ) → AllDigits (decimal_fuel fuel n)
unfolding decimal_fuel
AllDigits-decimal_fuel zero n = tt
AllDigits-decimal_fuel (suc fuel) n = elim (Bool-cases (ltb n 10)) [
  | inl small ↦ rw small (ground arith, tt)
  | inr large ↦ rw large (
      AllDigits-append (decimal_fuel fuel (n / 10)) ((b'0' + n % 10) ∷ [])
        (AllDigits-decimal_fuel fuel (n / 10)) (ground arith, tt))
]

digits_value-append :
    (s : Text) (acc d : ℕ)
    → AllDigits s
    → d < 10
    → digits_value acc (s ++ (b'0' + d) ∷ []) ≡ digits_value acc s * 10 + d
unfolding digits_value
digits_value-append [] acc d h lt = ground arith
digits_value-append (c ∷ s) acc d h lt =
    rw h.0 (digits_value-append s (acc * 10 + (c - b'0')) d h.1 lt)

-- Printing with enough fuel and reading back.
digits_value-decimal_fuel : (fuel n : ℕ) → n < fuel → digits_value 0 (decimal_fuel fuel n) ≡ n
unfolding decimal_fuel digits_value
digits_value-decimal_fuel zero n h = elim h [ ]
digits_value-decimal_fuel (suc fuel) n h = elim (Bool-cases (ltb n 10)) [
  | inl small ↦ rw small (ground arith)
  | inr large ↦
      rw
        (
          large,
          digits_value-append (decimal_fuel fuel (n / 10)) 0 (n % 10)
              (AllDigits-decimal_fuel fuel (n / 10)) (omega arith),
          digits_value-decimal_fuel fuel (n / 10) (ground arith),
        )
        (omega arith)
]

digits_value-zeros : (k : ℕ) (t : Text) → digits_value 0 (replicate k b'0' ++ t) ≡ digits_value 0 t
unfolding digits_value
digits_value-zeros zero t = refl
digits_value-zeros (suc k) t = digits_value-zeros k t

-- A text of digits that is not empty is parsed by its value.
parse_int-digits :
    (c : ℕ) (t : Text) → AllDigits (c ∷ t) → parse_int (c ∷ t) ≡ some (digits_value 0 (c ∷ t))
unfolding parse_int skip_spaces signed_value
parse_int-digits c t h = ground arith

parse_int_of_digits :
    (t : Text) → AllDigits t → 0 < length t → parse_int t ≡ some (digits_value 0 t)
parse_int_of_digits [] h p = absurd (omega arith)
parse_int_of_digits (c ∷ t) h p = parse_int-digits c t h

length-decimal_fuel : (fuel n : ℕ) → 0 < length (decimal_fuel (suc fuel) n)
unfolding decimal_fuel
length-decimal_fuel fuel n = elim (Bool-cases (ltb n 10)) [
  | inl small ↦ rw small (omega arith)
  | inr large ↦
      rw (large, length-append (decimal_fuel fuel (n / 10)) ((b'0' + n % 10) ∷ [])) (omega arith)
]

-- `parseInt` reads back a number that was printed and padded with zeros.
pub parse_int-pad_start : (width n : ℕ) → parse_int (pad_start width (decimal n)) ≡ some n
unfolding pad_start decimal
parse_int-pad_start width n =
    let t = decimal_fuel (suc n) n in
    let zeros : Text = replicate (width - length t) b'0' in
    parse_int_of_digits (zeros ++ t)
      (AllDigits-append zeros t (AllDigits-zeros (width - length t))
        (AllDigits-decimal_fuel (suc n) n))
      (omega (arith, length-append zeros t, length-decimal_fuel n n))
    ∙ ap (λ k. some k)
        (digits_value-zeros (width - length t) t
          ∙ digits_value-decimal_fuel (suc n) n (omega arith))

starts_with-append : (p t : Text) → starts_with (p ++ t) p ≡ true
unfolding starts_with
starts_with-append [] t = refl
starts_with-append (c ∷ p) t = ground (arith, starts_with-append p t)

max_suffix-ge : (prefix : Text) (m : ℕ) (used : List Text) → m ≤ max_suffix prefix m used
unfolding max_suffix
max_suffix-ge prefix m [] = omega arith
max_suffix-ge prefix m (code ∷ rest) = ground (
  arith,
  max_suffix-ge prefix
      (if starts_with code prefix then larger m (parse_int (drop (length prefix) code)) else m)
      rest,
)

max_suffix-mem :
    (prefix : Text) (m n : ℕ) (code : Text) (used : List Text)
    → Memᴰ code used
    → starts_with code prefix ≡ true
    → parse_int (drop (length prefix) code) ≡ some n
    → n ≤ max_suffix prefix m used
unfolding max_suffix
max_suffix-mem prefix m n code [] r s p = elim r [ ]
max_suffix-mem prefix m n code (x ∷ rest) (Memᴰ.head e) s p =
    rw (sym e, s, p) (ground (arith, max_suffix-ge prefix (larger m (some n)) rest))
max_suffix-mem prefix m n code (x ∷ rest) (Memᴰ.tail r) s p =
    max_suffix-mem prefix
      (if starts_with x prefix then larger m (parse_int (drop (length prefix) x)) else m) n code
      rest r s p

pub next_sequential_code-fresh :
    (prefix : Text) (used : List Text) (width : ℕ)
    → let next = next_sequential_code prefix used width in
      (starts_with next prefix ≡ true)
      × (parse_int (drop (length prefix) next) ≡ some (max_suffix prefix 0 used + 1))
      × ((code : Text) → Memᴰ code used → code ≢ next)
unfolding next_sequential_code
next_sequential_code-fresh prefix used width =
    let suffix = pad_start width (decimal (max_suffix prefix 0 used + 1)) in
    let reads : parse_int (drop (length prefix) (prefix ++ suffix))
        ≡ some (max_suffix prefix 0 used + 1) =
      rw (drop-append prefix suffix) (parse_int-pad_start width (max_suffix prefix 0 used + 1)) in
    (
      starts_with-append prefix suffix,
      reads,
      λ code m e.
          let above =
            max_suffix-mem prefix 0 (max_suffix prefix 0 used + 1) code used m
              (rw e (starts_with-append prefix suffix)) (rw e reads) in
          absurd (omega (arith, above)),
    )
