-- ===== src/Auth/TotpLock.antt =====
-- The failure bucket of src/auth/mfa/totp.service.ts.
use vovinam_api_node.Base.{
  ℕ, suc, ◌+◌, ◌≤◌, ◌<◌, ◌≡◌, ◌≢◌, refl, ◌∙◌, ap, Bool, true, false, not, ◌&&◌, none, some, Text,
  leb, text_eq, text_eq_iff, is_some, arith, Bool-cases, inl, inr,
}
use vovinam_api_node.Service.{Result, ok}
use vovinam_api_node.SharedStore.{number, entry_until, live, value_of, SharedStore}
use vovinam_api_node.Auth.Totp.{
  failure_bucket_ttl, max_mfa_failures, fail_key, replay_key, trim, too_many, is_over,
  assert_not_locked, register_failure, accept, check_code, verify_code,
}

module _ {S : Type 0} (store : SharedStore S) (verifies : ℕ → Text → Text → Bool) (u : ℕ) where
  -- From a time on the bucket counts n failures, until its end.
  abbrev Bucket : ℕ → ℕ → ℕ → S → Type 0
  Bucket n end now s =
      (t : ℕ)
      → now ≤ t
      → store.entry t (fail_key u) s ≡ live t (some (entry_until (number n) (some end)))

  Bucket-get :
      (n end now : ℕ) (j : Text) (s : S)
      → Bucket n end now s
      → Bucket n end now (store.get now j s).1
  Bucket-get n end now j s h t a = store.get_entry now t j (fail_key u) s a ∙ h t a

  live_now :
      (n end now : ℕ)
      → now < end
      → live now (some (entry_until (number n) (some end)))
        ≡ some (entry_until (number n) (some end))
  live_now n end now lt = ground arith

  self : text_eq (fail_key u) (fail_key u) ≡ true
  self = (text_eq_iff (fail_key u) (fail_key u)).1 refl

  register_failure-Bucket :
      (n end now : ℕ) (s : S)
      → now < end
      → Bucket n end now s
      → Bucket (n + 1) end now (register_failure store now u s).1
  unfolding register_failure
  register_failure-Bucket n end now s lt h t a =
      let found : store.entry now (fail_key u) s ≡ some (entry_until (number n) (some end)) =
        h now (omega arith) ∙ live_now n end now lt in
      rw
        (
          store.increment_entry now t (fail_key u) (fail_key u) (some failure_bucket_ttl) s a,
          self,
          found,
        )
        refl

  -- A first failure opens a bucket of five minutes.
  register_failure-opens :
      (now : ℕ) (s : S)
      → store.entry now (fail_key u) s ≡ none
      → Bucket 1 (now + failure_bucket_ttl) now (register_failure store now u s).1
  unfolding register_failure
  register_failure-opens now s empty t a =
      rw
        (
          store.increment_entry now t (fail_key u) (fail_key u) (some failure_bucket_ttl) s a,
          self,
          empty,
        )
        refl

  -- A try at a time with a secret and a code.
  abbrev try : ℕ → Text → Text → S → Result Bool × S
  try t secret code s = verify_code store verifies t u secret code s

  is_over_value :
      (n end now : ℕ) (s : S)
      → now < end
      → Bucket n end now s
      → is_over (store.get now (fail_key u) s).0 ≡ leb max_mfa_failures n
  is_over_value n end now s lt h = ap is_over (
      store.get_answer now (fail_key u) s
      ∙ ap value_of (h now (omega arith) ∙ live_now n end now lt))

  -- A try that is not accepted counts, unless the bucket is full already.
  try-Bucket :
      (n end now : ℕ) (secret code : Text) (s : S)
      → now < end
      → Bucket n end now s
      → (try now secret code s).0 ≢ ok true
      → (m : ℕ) × (Bucket m end now (try now secret code s).1) × (n ≤ m) × (n < 5 → n + 1 ≤ m)
  unfolding verify_code assert_not_locked check_code accept
  try-Bucket n end now secret code s lt h failed =
      let read = store.get now (fail_key u) s in
      let kept = Bucket-get n end now (fail_key u) s h in
      let token = trim code in
      let again = store.get now (replay_key u token) read.1 in
      let over = is_over_value n end now s lt h in
      elim (Bool-cases (leb max_mfa_failures n)) [
        | inl full ↦ rw (over, full) (n, kept, omega arith, λ p. absurd (ground (arith, full, p)))
        | inr room ↦ elim (Bool-cases (not (is_some again.0) && verifies now secret token)) [
          | inl right ↦ absurd (rw (over, room, right) at failed refl)
          | inr wrong ↦
              rw (over, room, wrong)
                (
                  n + 1,
                  register_failure-Bucket n end now again.1 lt
                      (Bucket-get n end now (replay_key u token) read.1 kept),
                  omega arith,
                  λ p. omega arith,
                )
        ]
      ]

  -- The account's tries, none of which was accepted: how many, and what they leave.
  pub data Failures (now : ℕ) (s : S) : ℕ → ℕ → S → Type 0 where
    first :
        (secret code : Text)
        → (try now secret code s).0 ≢ ok true
        → Failures now s 1 now (try now secret code s).1
    more :
        {n t : ℕ} {v : S}
        → Failures now s n t v
        → (t' : ℕ) (secret code : Text) → t ≤ t'
        → (try t' secret code v).0 ≢ ok true
        → Failures now s (suc n) t' (try t' secret code v).1

  try-opens :
      (now : ℕ) (secret code : Text) (s : S)
      → store.entry now (fail_key u) s ≡ none
      → (try now secret code s).0 ≢ ok true
      → Bucket 1 (now + failure_bucket_ttl) now (try now secret code s).1
  unfolding verify_code assert_not_locked check_code accept
  try-opens now secret code s empty failed =
      let read = store.get now (fail_key u) s in
      let token = trim code in
      let again = store.get now (replay_key u token) read.1 in
      let open_still : store.entry now (fail_key u) again.1 ≡ none =
        store.get_entry now now (replay_key u token) (fail_key u) read.1 (omega arith)
        ∙ store.get_entry now now (fail_key u) (fail_key u) s (omega arith)
        ∙ empty in
      let under : is_over read.0 ≡ false =
        ap is_over (store.get_answer now (fail_key u) s ∙ ap value_of empty) in
      elim (Bool-cases (not (is_some again.0) && verifies now secret token)) [
        | inl right ↦ absurd (rw (under, right) at failed refl)
        | inr wrong ↦ rw (under, wrong) (register_failure-opens now again.1 open_still)
      ]

  Bucket-later : (n end a b : ℕ) (s : S) → a ≤ b → Bucket n end a s → Bucket n end b s
  Bucket-later n end a b s le h t p = h t (omega arith)

  abbrev Counted : ℕ → ℕ → ℕ → S → Type 0
  Counted n end t v = (m : ℕ) × (Bucket m end t v) × (n < 5 → n ≤ m) × (5 ≤ n → 5 ≤ m)

  count_more :
      (n end t' : ℕ) (secret code : Text) (v : S)
      → t' < end
      → Counted n end t' v
      → (try t' secret code v).0 ≢ ok true
      → Counted (suc n) end t' (try t' secret code v).1
  count_more n end t' secret code v lt (m, bucket, low, high) failed =
      let (k, bucket', grows, counts) = try-Bucket m end t' secret code v lt bucket failed in
      (k, bucket', (λ p. ground (arith, low, counts)), (λ p. ground (arith, low, high, counts)))

  Failures-Counted :
      {now : ℕ} {s : S} {n t : ℕ} {v : S}
      → Failures now s n t v
      → store.entry now (fail_key u) s ≡ none
      → t < now + failure_bucket_ttl
      → Counted n (now + failure_bucket_ttl) t v
  Failures-Counted {now} {s} (first secret code failed) empty lt =
      (1, try-opens now secret code s empty failed, (λ p. omega arith), (λ p. absurd (omega arith)))
  Failures-Counted {now} (more {n} {t} {v} before t' secret code le failed) empty lt =
      let (m, bucket, low, high) = Failures-Counted before empty (omega arith) in
      count_more n (now + failure_bucket_ttl) t' secret code v lt
        (m, Bucket-later m (now + failure_bucket_ttl) t t' v le bucket, low, high) failed

  -- After five tries of an account that were not accepted, the first on an empty bucket, every further
  -- try within five minutes of the first is refused, also with the right code, and counts nothing.
  pub Failures-lock :
      {now : ℕ} {s : S} {n t : ℕ} {v : S} (t' : ℕ) (secret code : Text)
      → Failures now s n t v
      → store.entry now (fail_key u) s ≡ none
      → 5 ≤ n
      → t ≤ t'
      → t' < now + failure_bucket_ttl
      → try t' secret code v ≡ (too_many, (store.get t' (fail_key u) v).1)
  unfolding verify_code assert_not_locked
  Failures-lock {now} {s} {n} {t} {v} t' secret code tries empty many le lt =
      let end = now + failure_bucket_ttl in
      let (m, bucket, low, high) = Failures-Counted tries empty (omega arith) in
      let over = is_over_value m end t' v lt (Bucket-later m end t t' v le bucket) in
      let full : leb max_mfa_failures m ≡ true = ground (arith, high many) in rw (over, full) refl
