-- ===== src/Auth/Mfa.antt =====
-- src/auth/auth.service.ts: the second factor, from `totpEnable` to `mfaLoginVerify`. The secrets and the
-- recovery codes that a call draws are arguments.
use vovinam_api_node.Base.{
  ℕ, Bool, true, false, not, ◌&&◌, Option, none, some, List, [], ◌∷◌, ◌++◌, Text, ◌==◌, is_none,
  is_some, if◌then◌else◌, text_eq, length, find_first, find_many, update_many, count_where, map,
}
use vovinam_api_node.Schema.{TotpCredential, RecoveryCode, Database}
use vovinam_api_node.Service.{
  Error, ok, Action, ◌>>=◌, ◌>>◌, pure, throw_if, or_throw, gets, modify, when, notify, on_store,
  transaction, record_entry, MailTemplate, AuditEvent, mfa_enabled, mfa_disabled, login,
  bad_request, conflict, unauthorized, unique_violation, record_missing, internal,
}
use vovinam_api_node.SharedStore.InMemory.{in_memory}
use vovinam_api_node.Auth.Seal.{unseal, seal}
use vovinam_api_node.Auth.Tokens.{AuthService, Claims, TokenKind, verify_token}
use vovinam_api_node.Auth.Totp.{stash_pending_secret, take_pending_secret, assert_not_locked}
use vovinam_api_node.Auth.Users.{
  invalid_credentials, by_id, credential_of, update_user, bump, revoke_all,
}
use vovinam_api_node.Auth.Login.{
  Draw, LoginResult, issue_session, alert_on_new_ip, is_disabled, tokens_result,
}
use vovinam_api_node.Auth.Account.{check_totp, verify_sensitive}

unfoldable pub stash : ℕ → ℕ → Text → Action (Unit {0})
stash now user secret = on_store (λ s. (ok tt, stash_pending_secret in_memory now user secret s))

-- `totpEnable`, with the secret that `createEnrollment` draws
unfoldable pub totp_enable : (user : ℕ) → (secret : Text) → (now : ℕ) → Action Text
totp_enable user secret now = do
  throw_if (is_some (← gets (credential_of user))) (conflict "MFA is already enabled")
  or_throw (← gets (by_id user)) record_missing
  stash now user secret
  pure secret

unfoldable pub take_secret : ℕ → ℕ → Action (Option Text)
take_secret now user = on_store (λ s.
    (ok (take_pending_secret in_memory now user s).0, (take_pending_secret in_memory now user s).1))

abbrev pub wrong_code : Error
wrong_code = unauthorized "Invalid verification code"

abbrev pub add_credential : TotpCredential → Database → Database
add_credential c db = record db { totp_credentials = db.totp_credentials ++ c ∷ [] }

-- `totpCredential.create`
unfoldable pub insert_credential : TotpCredential → Action (Unit {0})
insert_credential c = do
  throw_if (is_some (← gets (credential_of c.user_id))) unique_violation
  modify (add_credential c)

abbrev pub new_code : AuthService → ℕ → ℕ × Text → RecoveryCode
new_code a user (k, code) = record {
  id = k;
  user_id = user;
  code_hash = a.sha256 code;
  used_at = none;
}

abbrev pub add_codes : List RecoveryCode → Database → Database
add_codes codes db = record db { recovery_codes = db.recovery_codes ++ codes }

-- `totpVerify`, with the ten recovery codes and their rows' fresh ids
unfoldable pub totp_verify :
    AuthService
    → (user : ℕ) → (code iv : Text) → (drawn : List (ℕ × Text)) → (now : ℕ)
    → Action (List (ℕ × Text))
totp_verify a user code iv drawn now = do
  secret ← or_throw (← take_secret now user) (bad_request "No pending MFA enrollment")
  right ← check_totp a now user secret code
  throw_if (not right) wrong_code
  transaction (
      insert_credential (record { user_id = user; secret_encrypted = seal a.cipher iv secret })
      >> modify (add_codes (map (new_code a user) drawn)))
  record_entry (some user) mfa_enabled true
  pure drawn

-- `totpValidate`
unfoldable pub totp_validate :
    AuthService → (user : ℕ) → (code : Text) → (now : ℕ) → Action (Unit {0})
totp_validate a user code now = do
  credential ← or_throw (← gets (credential_of user)) (bad_request "MFA is not enabled")
  secret ← or_throw (unseal a.cipher credential.secret_encrypted) internal
  right ← check_totp a now user secret code
  throw_if (not right) wrong_code

abbrev pub drop_factor : ℕ → Database → Database
drop_factor user db = record db {
  totp_credentials =
      find_many (λ (c : TotpCredential). not (c.user_id == user)) db.totp_credentials;
  recovery_codes = find_many (λ (c : RecoveryCode). not (c.user_id == user)) db.recovery_codes;
}

-- `totpDisable`
unfoldable pub totp_disable :
    AuthService
    → (user : ℕ) → (password : Text) → (code : Option Text) → (now : ℕ) → Action (Unit {0})
totp_disable a user password code now = do
  u ← or_throw (← gets (by_id user)) record_missing
  verify_sensitive a now u password code
  transaction (modify (drop_factor user) >> revoke_all user >> update_user user bump)
  record_entry (some user) mfa_disabled true

-- `recoveryCodesRemaining`
unfoldable pub recovery_codes_remaining : ℕ → Database → ℕ
recovery_codes_remaining user db =
    count_where (λ (c : RecoveryCode). c.user_id == user && is_none c.used_at) db.recovery_codes

abbrev pub is_code : ℕ → Text → RecoveryCode → Bool
is_code user hash c = c.user_id == user && (text_eq c.code_hash hash && is_none c.used_at)

abbrev use_code : ℕ → ℕ → Database → Database
use_code k now db = record db {
  recovery_codes =
      update_many (λ (c : RecoveryCode). c.id == k)
        (λ (c : RecoveryCode). record c { used_at = some now }) db.recovery_codes;
}

abbrev pub spend : Option RecoveryCode → ℕ → Action Bool
spend none now = pure false
spend (some c) now = do modify (use_code c.id now); pure true

-- The recovery code, where the code is none of the authenticator's and has eight characters
unfoldable pub recover :
    AuthService → (user : ℕ) → (code : Text) → (right : Bool) → (now : ℕ) → Action Bool
recover a user code right now =
    if not right && (length code == 8)
    then (gets (λ db. find_first (is_code user (a.sha256 code)) db.recovery_codes) >>= λ row.
        spend row now)
    else pure false

abbrev pub pending_user : Option Claims → Option ℕ
pending_user none = none
pending_user (some c) = c.sub

-- The session after both factors
unfoldable pub complete_login :
    AuthService → (user : ℕ) → (recovered : Bool) → (ip : Option Text) → Draw → Action LoginResult
complete_login a user recovered ip d = do
  u ← or_throw (← gets (by_id user)) record_missing
  throw_if (is_disabled u) invalid_credentials
  tokens ← issue_session a u.id d
  alert_on_new_ip u ip d.now
  record_entry (some user) login true
  when recovered (
      record_entry (some user) AuditEvent.mfa_recovery_used true
      >> notify u.email MailTemplate.mfa_recovery_used none)
  pure (tokens_result u true tokens)

-- `mfaLoginVerify`
unfoldable pub mfa_login_verify :
    AuthService → (mfa_token code : Text) → (ip : Option Text) → Draw → Action LoginResult
mfa_login_verify a mfa_token code ip d = do
  user ←
      or_throw (pending_user (verify_token a d.now mfa_token TokenKind.mfa_pending))
        invalid_credentials
  on_store (assert_not_locked in_memory d.now user)
  credential ← or_throw (← gets (credential_of user)) invalid_credentials
  secret ← or_throw (unseal a.cipher credential.secret_encrypted) internal
  right ← check_totp a d.now user secret code
  recovered ← recover a user code right d.now
  throw_if (not right && not recovered) invalid_credentials
  complete_login a user recovered ip d
