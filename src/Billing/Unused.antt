-- ===== src/Billing/Unused.antt =====
-- The callers of src/billing/sequential-code.ts hand it the codes that start with the prefix; the
-- next code is not in the whole table either.
use mathlib.Core.List.{Memᴰ}
use vovinam_api_node.Base.{
  ℕ, ◌≡◌, refl, sym, true, false, List, [], ◌∷◌, map, Text, text_eq, text_eq_iff, is_some,
  find_first, find_many, Bool-cases, inl, inr,
}
use vovinam_api_node.Billing.Codes.{starts_with, next_sequential_code}
use vovinam_api_node.Billing.Numbering.{next_sequential_code-fresh}

module _ {ℓ} {R : Type ℓ} (code_of : R → Text) (prefix : Text) where
  abbrev selected : List R → List Text
  selected rows = map code_of (find_many (λ r. starts_with (code_of r) prefix) rows)

  selected-Memᴰ :
      (t : Text) (rows : List R)
      → starts_with t prefix ≡ true
      → is_some (find_first (λ r. text_eq (code_of r) t) rows) ≡ true
      → Memᴰ t (selected rows)
  unfolding find_first find_many
  selected-Memᴰ t [] s h = cc
  selected-Memᴰ t (r ∷ rs) s h = elim (Bool-cases (text_eq (code_of r) t)) [
    | inl y ↦
        let same : code_of r ≡ t = (text_eq_iff (code_of r) t).0 y in
        let starts : starts_with (code_of r) prefix ≡ true = rw same s in
        rw starts (Memᴰ.head (sym same))
    | inr n ↦
        let rest = selected-Memᴰ t rs s (rw n at h) in
        elim (Bool-cases (starts_with (code_of r) prefix)) [
          | inl y ↦ rw y (Memᴰ.tail rest)
          | inr z ↦ rw z rest
        ]
  ]

  pub next_code-unused :
      (width : ℕ) (rows : List R)
      → is_some (
          find_first
            (λ r. text_eq (code_of r) (next_sequential_code prefix (selected rows) width))
            rows)
        ≡ false
  next_code-unused width rows =
      let next = next_sequential_code prefix (selected rows) width in
      let fresh = next_sequential_code-fresh prefix (selected rows) width in
      elim (Bool-cases (is_some (find_first (λ r. text_eq (code_of r) next) rows))) [
        | inr n ↦ n
        | inl y ↦ absurd (fresh.2 next (selected-Memᴰ next rows fresh.0 y) refl)
      ]
