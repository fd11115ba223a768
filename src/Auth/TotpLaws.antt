-- ===== src/Auth/TotpLaws.antt =====
-- What src/auth/mfa/totp.service.ts guarantees over any shared store: a code is accepted once, and
-- five failures lock the account's codes for the rest of the five minutes.
use vovinam_api_node.Base.{
  ℕ, ◌+◌, ◌≤◌, ◌<◌, ◌≡◌, ◌≢◌, refl, ◌∙◌, ap, Bool, true, false, not, ◌&&◌, some, Text, text_eq,
  text_eq_iff, is_some, arith, Bool-cases, inl, inr,
}
use vovinam_api_node.Service.{ok}
use vovinam_api_node.SharedStore.{flag, StoreEntry, entry_until, value_of, SharedStore}
use vovinam_api_node.Auth.Totp.{
  failure_bucket_ttl, replay_guard, fail_key, replay_key, trim, too_many, is_over,
  assert_not_locked, register_failure, accept, check_code, verify_code,
}

text_eq_self : (t : Text) → text_eq t t ≡ true
text_eq_self t = (text_eq_iff t t).1 refl

fail-ne-replay : (u v : ℕ) (t : Text) → text_eq (fail_key u) (replay_key v t) ≡ false
unfolding text_eq
fail-ne-replay u v t = refl

replay-ne-fail : (u v : ℕ) (t : Text) → text_eq (replay_key v t) (fail_key u) ≡ false
unfolding text_eq
replay-ne-fail u v t = refl

module _ {S : Type 0} (store : SharedStore S) (verifies : ℕ → Text → Text → Bool) where
  -- A key holds something from a time up to an end.
  abbrev Holds : Text → ℕ → ℕ → S → Type 0
  Holds k start end s =
      (t : ℕ) → start ≤ t → t < end → (e : StoreEntry) × (store.entry t k s ≡ some e)

  Holds-get :
      (k j : Text) (now start end : ℕ) (s : S)
      → now ≤ start
      → Holds k start end s
      → Holds k start end (store.get now j s).1
  Holds-get k j now start end s le h t a b =
      rw (store.get_entry now t j k s (omega arith)) (h t a b)

  Holds-register_failure :
      (k : Text) (now end u : ℕ) (s : S)
      → text_eq (fail_key u) k ≡ false
      → Holds k now end s
      → Holds k now end (register_failure store now u s).1
  unfolding register_failure
  Holds-register_failure k now end u s other h t a b =
      rw (store.increment_entry now t (fail_key u) k (some failure_bucket_ttl) s a, other) (h t a b)

  Holds-accept :
      (k : Text) (now end u : ℕ) (token : Text) (s : S)
      → text_eq (fail_key u) k ≡ false
      → end ≤ now + replay_guard
      → Holds k now end s
      → Holds k now end (accept store now u token s).1
  unfolding accept
  Holds-accept k now end u token s other fits h t a b =
      elim (Bool-cases (text_eq (replay_key u token) k)) [
        | inl same ↦
            rw
              (
                store.set_entry now t (replay_key u token) k (flag true) (some replay_guard)
                    (store.delete (fail_key u) s),
                same,
              )
              (entry_until (flag true) (some (now + replay_guard)), ground arith)
        | inr differs ↦
            rw
              (
                store.set_entry now t (replay_key u token) k (flag true) (some replay_guard)
                    (store.delete (fail_key u) s),
                differs,
                store.delete_entry t (fail_key u) k s,
                other,
              )
              (h t a b)
      ]

  Holds-check_code :
      (k : Text) (now end u : ℕ) (secret token : Text) (s : S)
      → text_eq (fail_key u) k ≡ false
      → end ≤ now + replay_guard
      → Holds k now end s
      → Holds k now end (check_code store verifies now u secret token s).1
  unfolding check_code
  Holds-check_code k now end u secret token s other fits h =
      let read = store.get now (replay_key u token) s in
      let kept = Holds-get k (replay_key u token) now now end s (omega arith) h in
      elim (Bool-cases (not (is_some read.0) && verifies now secret token)) [
        | inl right ↦ rw right (Holds-accept k now end u token read.1 other fits kept)
        | inr wrong ↦ rw wrong (Holds-register_failure k now end u read.1 other kept)
      ]

  Holds-verify_code :
      (k : Text) (now end u : ℕ) (secret code : Text) (s : S)
      → text_eq (fail_key u) k ≡ false
      → end ≤ now + replay_guard
      → Holds k now end s
      → Holds k now end (verify_code store verifies now u secret code s).1
  unfolding verify_code assert_not_locked
  Holds-verify_code k now end u secret code s other fits h =
      let read = store.get now (fail_key u) s in
      let kept = Holds-get k (fail_key u) now now end s (omega arith) h in
      elim (Bool-cases (is_over read.0)) [
        | inl over ↦ rw over kept
        | inr under ↦
            rw under (Holds-check_code k now end u secret (trim code) read.1 other fits kept)
      ]

  -- Codes that anybody tries, one after the other, on one store.
  pub data Attempts (now : ℕ) (s : S) : ℕ → S → Type 0 where
    start : Attempts now s now s
    next :
        {t : ℕ} {v : S}
        → Attempts now s t v
        → (t' user : ℕ) (secret code : Text) → t ≤ t'
        → Attempts now s t' (verify_code store verifies t' user secret code v).1

  Attempts-le : {now : ℕ} {s : S} {t : ℕ} {v : S} → Attempts now s t v → now ≤ t
  Attempts-le start = omega arith
  Attempts-le (next before t' user secret code le) = omega (arith, Attempts-le before)

  Holds-later : (k : Text) (a b end : ℕ) (s : S) → a ≤ b → Holds k a end s → Holds k b end s
  Holds-later k a b end s le h t p q = h t (omega arith) q

  Attempts-Holds :
      {now : ℕ} {s : S} (k : Text) (end : ℕ) {t : ℕ} {v : S}
      → Attempts now s t v
      → ((u : ℕ) → text_eq (fail_key u) k ≡ false)
      → end ≤ now + replay_guard
      → Holds k now end s
      → Holds k t end v
  Attempts-Holds k end start other fits h = h
  Attempts-Holds k end (next {t} {v} before t' user secret code le) other fits h =
      Holds-verify_code k t' end user secret code v (other user) (omega (arith, Attempts-le before))
        (Holds-later k t t' end v le (Attempts-Holds k end before other fits h))

  accept-Holds :
      (now u : ℕ) (token : Text) (s : S)
      → Holds (replay_key u token) now (now + replay_guard) (accept store now u token s).1
  unfolding accept
  accept-Holds now u token s t a b =
      rw
        (
          store.set_entry now t (replay_key u token) (replay_key u token) (flag true)
              (some replay_guard) (store.delete (fail_key u) s),
          text_eq_self (replay_key u token),
        )
        (entry_until (flag true) (some (now + replay_guard)), ground arith)

  not_accepted : (now u : ℕ) (s : S) → (register_failure store now u s).0 ≢ ok true
  unfolding register_failure
  not_accepted now u s p = ground arith

  -- Only `accept` accepts.
  verify_code-accepts :
      (now u : ℕ) (secret code : Text) (s : S)
      → (verify_code store verifies now u secret code s).0 ≡ ok true
      → Holds
          (replay_key u (trim code))
          now
          (now + replay_guard)
          (verify_code store verifies now u secret code s).1
  unfolding verify_code assert_not_locked check_code
  verify_code-accepts now u secret code s p =
      let read = store.get now (fail_key u) s in
      let again = store.get now (replay_key u (trim code)) read.1 in
      elim (Bool-cases (is_over read.0)) [
        | inl over ↦ absurd (refused (rw over at p))
        | inr under ↦ elim (Bool-cases (not (is_some again.0) && verifies now secret (trim code))) [
          | inl right ↦ rw (under, right) (accept-Holds now u (trim code) again.1)
          | inr wrong ↦ absurd (not_accepted now u again.1 (rw (under, wrong) at p))
        ]
      ]
    where
      refused : too_many {A = Bool} ≢ ok true
      refused q = cc

  -- While the replay entry of a code is there, the code is not accepted.
  verify_code-refuses :
      (t u : ℕ) (secret code : Text) (s : S)
      → (e : StoreEntry) × (store.entry t (replay_key u (trim code)) s ≡ some e)
      → (verify_code store verifies t u secret code s).0 ≢ ok true
  unfolding verify_code assert_not_locked check_code
  verify_code-refuses t u secret code s (e, h) p =
      let read = store.get t (fail_key u) s in
      let again = store.get t (replay_key u (trim code)) read.1 in
      let answer : again.0 ≡ some e.value =
        store.get_answer t (replay_key u (trim code)) read.1
        ∙ ap value_of
            (store.get_entry t t (fail_key u) (replay_key u (trim code)) s (omega arith) ∙ h) in
      elim (Bool-cases (is_over read.0)) [
        | inl over ↦ absurd (refused (rw over at p))
        | inr under ↦ absurd (not_accepted t u again.1 (rw (under, answer) at p))
      ]
    where
      refused : too_many {A = Bool} ≢ ok true
      refused q = cc

  -- A code that was accepted is not accepted again within the 120 seconds of the replay guard, padded
  -- with blanks or not, whatever codes anybody has tried in between.
  pub verify_code-accepts_once :
      (now t u : ℕ) (secret secret' code code' : Text) (s v : S)
      → (verify_code store verifies now u secret code s).0 ≡ ok true
      → Attempts now (verify_code store verifies now u secret code s).1 t v
      → t < now + replay_guard
      → trim code' ≡ trim code
      → (verify_code store verifies t u secret' code' v).0 ≢ ok true
  verify_code-accepts_once now t u secret secret' code code' s v p tries soon same =
      let k = replay_key u (trim code) in
      let held =
        Attempts-Holds k (now + replay_guard) tries (λ w. fail-ne-replay w u (trim code))
          (omega arith) (verify_code-accepts now u secret code s p) in
      verify_code-refuses t u secret' code' v (rw same (held t (omega arith) soon))
