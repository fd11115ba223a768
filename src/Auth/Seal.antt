-- ===== src/Auth/Seal.antt =====
-- src/auth/mfa/seal.service.ts: secrets at rest, as bytes. AES-256-GCM of node:crypto is a parameter.
use vovinam_api_node.Base.{
  ℕ, ◌+◌, ◌-◌, ◌≡◌, refl, ap, sym, ◌∙◌, Option, some, [], ◌∷◌, ◌++◌, Text, length, length-append,
  take, drop, drop-append, leb, if◌then◌else◌, arith,
}

-- The cipher under the application's key: encryption answers the text and the tag; decryption fails on
-- a tag that does not match.
pub record Cipher : Type 0 where
  pub encrypt : (iv plain : Text) → Text × Text
  pub decrypt : (iv tag text : Text) → Option Text

-- `subarray(0, end)` and `subarray(start)`, for an index `length - n` that may be negative and then
-- counts from the end.
abbrev pub before_end : ℕ → Text → ℕ
before_end n bytes =
    if leb n (length bytes) then length bytes - n else length bytes + length bytes - n

-- `seal`, with the random bytes that it draws.
unfoldable pub seal : Cipher → Text → Text → Text
seal c iv plain = iv ++ ((c.encrypt iv plain).0 ++ (c.encrypt iv plain).1)

-- `unseal`; `none` where the tag does not match
unfoldable pub unseal : Cipher → Text → Option Text
unseal c sealed =
    let iv = take 12 sealed in
    let tag = drop (before_end 16 sealed) sealed in
    let text = take (before_end 16 sealed - 12) (drop 12 sealed) in c.decrypt iv tag text

take-append : (xs ys : Text) → take (length xs) (xs ++ ys) ≡ xs
take-append [] ys = refl
take-append (x ∷ xs) ys = ap (λ t. x ∷ t) (take-append xs ys)

append_assoc : (xs ys zs : Text) → (xs ++ ys) ++ zs ≡ xs ++ (ys ++ zs)
append_assoc [] ys zs = refl
append_assoc (x ∷ xs) ys zs = ap (λ t. x ∷ t) (append_assoc xs ys zs)

-- Where the cipher decrypts what it encrypts and its tags have 16 bytes, a secret sealed with 12 random
-- bytes unseals to itself.
pub unseal-seal :
    (c : Cipher) (iv plain : Text)
    → ((v p : Text) → c.decrypt v (c.encrypt v p).1 (c.encrypt v p).0 ≡ some p)
    → ((v p : Text) → length (c.encrypt v p).1 ≡ 16)
    → length iv ≡ 12
    → unseal c (seal c iv plain) ≡ some plain
unfolding seal unseal
unseal-seal c iv plain back tagged twelve =
    let text = (c.encrypt iv plain).0 in
    let tag = (c.encrypt iv plain).1 in
    let split : length (iv ++ (text ++ tag)) ≡ 12 + (length text + 16) =
      omega
        (arith, length-append iv (text ++ tag), length-append text tag, twelve, tagged iv plain) in
    let at : before_end 16 (iv ++ (text ++ tag)) ≡ length (iv ++ text) =
      ground (arith, split, length-append iv text, twelve) in
    let head : take 12 (iv ++ (text ++ tag)) ≡ iv =
      ap (λ n. take n (iv ++ (text ++ tag))) (sym twelve) ∙ take-append iv (text ++ tag) in
    let rest : drop 12 (iv ++ (text ++ tag)) ≡ text ++ tag =
      ap (λ n. drop n (iv ++ (text ++ tag))) (sym twelve) ∙ drop-append iv (text ++ tag) in
    let last : drop (before_end 16 (iv ++ (text ++ tag))) (iv ++ (text ++ tag)) ≡ tag =
      ap (λ n. drop n (iv ++ (text ++ tag))) at
      ∙ (ap (drop (length (iv ++ text))) (sym (append_assoc iv text tag))
          ∙ drop-append (iv ++ text) tag) in
    let middle : take (before_end 16 (iv ++ (text ++ tag)) - 12) (drop 12 (iv ++ (text ++ tag)))
        ≡ text =
      ap (λ n. take n (drop 12 (iv ++ (text ++ tag))))
        (omega (arith, at, length-append iv text, twelve))
      ∙ (ap (take (length text)) rest ∙ take-append text tag) in
    agree _ _ _ head last middle
  where
    agree :
        (v t x : Text)
        → v ≡ iv
        → t ≡ (c.encrypt iv plain).1
        → x ≡ (c.encrypt iv plain).0
        → c.decrypt v t x ≡ some plain
    agree v t x p q r = rw (p, q, r) (back iv plain)
