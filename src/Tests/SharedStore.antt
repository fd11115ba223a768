-- ===== src/Tests/SharedStore.antt =====
-- A store with one counter, and the codes of one account.
use vovinam_api_node.Base.{
  ℕ, ◌≡◌, ◌≢◌, refl, Bool, true, false, some, [], ◌∷◌, Text, codes, arith, decimal, decimal_fuel,
  text_eq, not, is_some, Bool-cases, inl, inr,
}
use vovinam_api_node.Service.{ok}
use vovinam_api_node.SharedStore.{number, entry_until}
use vovinam_api_node.SharedStore.Memory.{Memory, find, get, get_entry}
use vovinam_api_node.SharedStore.InMemory.{in_memory}
use vovinam_api_node.SharedStore.Promise.{IsKept, in_memory-refines}
use vovinam_api_node.Billing.Codes.{skip_spaces}
use vovinam_api_node.Auth.Totp.{
  trim, too_many, fail_key, replay_key, is_over, verify_code, assert_not_locked, check_code, accept,
  register_failure,
}
use vovinam_api_node.Auth.TotpLaws.{start, next, verify_code-accepts_once}
use vovinam_api_node.Auth.TotpLock.{first, more, Failures-lock}

abbrev counter : Memory
counter = (codes "a", entry_until (number 1) (some 7)) ∷ []

in_memory-refines_example : IsKept 5 8 (codes "a") (codes "a") (number 3) (some 10) counter
in_memory-refines_example =
    in_memory-refines 5 8 (codes "a") (codes "a") (number 3) (some 10) counter (omega arith)

-- Every code is right.
abbrev right : ℕ → Text → Text → Bool
right now secret code = true

abbrev code : Text
code = codes "123456"

abbrev used : Memory
used = (verify_code in_memory right 0 1 [] code []).1

abbrev other : Memory
other = (verify_code in_memory right 40 1 [] (codes "654321") used).1

verify_code-accepts_once_example : (verify_code in_memory right 40 1 [] code other).0 ≢ ok true
verify_code-accepts_once_example =
    verify_code-accepts_once in_memory right 0 40 1 [] [] code code [] other
      (unfold verify_code assert_not_locked check_code accept trim get get_entry find text_eq
          decimal decimal_fuel skip_spaces in
        refl)
      (next start 40 1 [] (codes "654321") (omega arith)) (omega arith) refl

-- No code is right.
abbrev never : ℕ → Text → Text → Bool
never now secret guess = false

abbrev guess : ℕ → Memory → Memory
guess t m = (verify_code in_memory never t 1 [] code m).1

abbrev guessed : Memory
guessed = guess 4 (guess 3 (guess 2 (guess 1 (guess 0 []))))

never-fails : (t : ℕ) (m : Memory) → (verify_code in_memory never t 1 [] code m).0 ≢ ok true
unfolding verify_code assert_not_locked check_code register_failure
never-fails t m p =
    let read = get t (fail_key 1) m in
    let again = get t (replay_key 1 (trim code)) read.1 in
    elim (Bool-cases (is_over read.0)) [
      | inl over ↦ absurd (refused (rw over at p))
      | inr under ↦ elim (Bool-cases (not (is_some again.0))) [
        | inl new ↦ let q = rw (under, new) at p in ground (arith, q)
        | inr old ↦ let q = rw (under, old) at p in ground (arith, q)
      ]
    ]
  where
    refused : ¬ (too_many {A = Bool} ≡ ok true)
    refused q = cc

Failures-lock_example :
    verify_code in_memory never 10 1 [] code guessed
    ≡ (too_many, (in_memory.get 10 (fail_key 1) guessed).1)
Failures-lock_example =
    Failures-lock in_memory never 1 10 [] code
      (more
        (more
          (more (more (first [] code (never-fails 0 [])) 1 [] code (omega arith) (never-fails 1 _))
            2 [] code (omega arith) (never-fails 2 _))
          3 [] code (omega arith) (never-fails 3 _))
        4 [] code (omega arith) (never-fails 4 _))
      (unfold find in refl) (omega arith) (omega arith) (omega arith)
