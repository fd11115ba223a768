-- ===== src/Auth/PasswordPolicy.antt =====
-- src/auth/domain/password-policy.ts, on UTF-16 code units. `toLowerCase` is a parameter.
use vovinam_api_node.Base.{ℕ, Bool, false, not, ◌&&◌, ◌||◌, List, [], ◌∷◌, Text, length, leb, ltb}
use vovinam_api_node.Billing.Codes.{starts_with}

-- `/[A-Za-z]/` and `/\d/` on one code unit
abbrev pub is_letter : ℕ → Bool
is_letter c = leb b'A' c && leb c b'Z' || leb b'a' c && leb c b'z'

abbrev pub is_digit : ℕ → Bool
is_digit c = leb b'0' c && leb c b'9'

unfoldable pub some_unit : (ℕ → Bool) → Text → Bool
some_unit p [] = false
some_unit p (c ∷ t) = p c || some_unit p t

-- `text.includes(part)`
unfoldable pub includes : Text → Text → Bool
includes [] part = starts_with [] part
includes (c ∷ t) part = starts_with (c ∷ t) part || includes t part

-- `identityHints.some(…)`
unfoldable pub mentions : (Text → Text) → Text → List Text → Bool
mentions lower lowered [] = false
mentions lower lowered (hint ∷ hints) =
    leb 3 (length hint) && includes lowered (lower hint) || mentions lower lowered hints

unfoldable pub validate_password_policy : (Text → Text) → Text → List Text → Bool
validate_password_policy lower password hints =
    not (ltb (length password) 8)
    && ((some_unit is_letter password && some_unit is_digit password)
        && not (mentions lower (lower password) hints))
