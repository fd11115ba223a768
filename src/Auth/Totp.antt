-- ===== src/Auth/Totp.antt =====
-- src/auth/mfa/totp.service.ts, over any shared store. What otplib answers for a time, a secret and a
-- code is a parameter.
use vovinam_api_node.Base.{
  ℕ, Bool, true, false, not, ◌&&◌, Option, none, some, ◌++◌, Text, codes, decimal, leb, is_some,
  if◌then◌else◌,
}
use vovinam_api_node.Service.{Result, ok, err, unauthorized}
use vovinam_api_node.Billing.Codes.{skip_spaces}
use vovinam_api_node.Duration.{trim_end}
use vovinam_api_node.SharedStore.{StoreValue, number, text, flag, SharedStore}

-- `FAILURE_BUCKET_TTL_MS`, `MAX_MFA_FAILURES`, `REPLAY_GUARD_MS`, `PENDING_SECRET_TTL_MS`
abbrev pub failure_bucket_ttl : ℕ
failure_bucket_ttl = 300000

abbrev pub max_mfa_failures : ℕ
max_mfa_failures = 5

abbrev pub replay_guard : ℕ
replay_guard = 120000

abbrev pub pending_secret_ttl : ℕ
pending_secret_ttl = 600000

abbrev pub fail_key : ℕ → Text
fail_key user = codes "mfa:fail:" ++ decimal user

abbrev pub replay_key : ℕ → Text → Text
replay_key user token = codes "mfa:replay:" ++ (decimal user ++ (codes ":" ++ token))

abbrev pub pending_key : ℕ → Text
pending_key user = codes "mfa:pending:" ++ decimal user

-- `code.trim()`
unfoldable pub trim : Text → Text
trim t = trim_end (skip_spaces t)

abbrev pub too_many {ℓ} : {A : Type ℓ} → Result A
too_many = err (unauthorized "Too many verification attempts")

-- `typeof failures === 'number' && failures >= MAX_MFA_FAILURES`
abbrev pub is_over : Option StoreValue → Bool
is_over (some (number n)) = leb max_mfa_failures n
is_over (some (text t)) = false
is_over (some (flag b)) = false
is_over none = false

abbrev text_value : Option StoreValue → Option Text
text_value (some (text t)) = some t
text_value (some (number n)) = none
text_value (some (flag b)) = none
text_value none = none

module _ {S : Type 0} (store : SharedStore S) where
  unfoldable pub stash_pending_secret : ℕ → ℕ → Text → S → S
  stash_pending_secret now user secret s =
      store.set now (pending_key user) (text secret) (some pending_secret_ttl) s

  unfoldable pub take_pending_secret : ℕ → ℕ → S → Option Text × S
  take_pending_secret now user s =
      let read = store.get now (pending_key user) s in
      (text_value read.0, store.delete (pending_key user) read.1)

  unfoldable pub assert_not_locked : ℕ → ℕ → S → Result (Unit {0}) × S
  assert_not_locked now user s =
      let read = store.get now (fail_key user) s in
      (if is_over read.0 then too_many else ok tt, read.1)

  unfoldable pub register_failure : ℕ → ℕ → S → Result Bool × S
  register_failure now user s =
      let read = store.increment now (fail_key user) (some failure_bucket_ttl) s in
      (if leb max_mfa_failures read.0 then too_many else ok false, read.1)

  -- The code is right and was not used lately.
  unfoldable pub accept : ℕ → ℕ → Text → S → Result Bool × S
  accept now user token s = (
    ok true,
    store.set now (replay_key user token) (flag true) (some replay_guard)
        (store.delete (fail_key user) s),
  )

-- What follows `assertNotLocked`
abbrev pub after_lock {ℓ} :
    {S : Type 0} {A : Type ℓ} → Result (Unit {0}) × S → (S → Result A × S) → Result A × S
after_lock (ok u, s) next = next s
after_lock (err e, s) next = (err e, s)

module _ {S : Type 0} (store : SharedStore S) (verifies : ℕ → Text → Text → Bool) where
  unfoldable pub check_code : ℕ → ℕ → Text → Text → S → Result Bool × S
  check_code now user secret token s =
      let read = store.get now (replay_key user token) s in
      if not (is_some read.0) && verifies now secret token
      then accept store now user token read.1
      else register_failure store now user read.1

  -- `verifyCode`, and `validateCode`, which is the same
  unfoldable pub verify_code : ℕ → ℕ → Text → Text → S → Result Bool × S
  verify_code now user secret code s =
      after_lock (assert_not_locked store now user s) (check_code now user secret (trim code))
