-- ===== src/Auth/Account.antt =====
-- src/auth/auth.service.ts: a new password, a new address, and the end of an account. What `bcrypt.hash`
-- answers is an argument.
use vovinam_api_node.Base.{
  ℕ, Bool, true, false, not, ◌&&◌, Option, none, some, [], Text, ◌==◌, is_some, text_eq, find_first,
}
use vovinam_api_node.Schema.{User, TokenPurpose}
use vovinam_api_node.Service.{
  Error, Action, ◌>>=◌, ◌>>◌, pure, throw, throw_if, or_throw, gets, notify, on_store, or_catch,
  transaction, record_entry, MailTemplate, password_reset, password_changed, email_change_requested,
  email_changed, account_deactivated, bad_request, conflict, unique_violation, record_missing,
  internal,
}
use vovinam_api_node.SharedStore.InMemory.{in_memory}
use vovinam_api_node.Auth.Seal.{unseal}
use vovinam_api_node.Auth.PasswordPolicy.{validate_password_policy}
use vovinam_api_node.Auth.Tokens.{AuthService, sign_action_token, access_ttl_ms}
use vovinam_api_node.Auth.Totp.{verify_code}
use vovinam_api_node.Auth.Users.{
  invalid_credentials, invalid_token, by_email, by_id, credential_of, update_user, bump, revoke_all,
  use_token, ActionToken, parse_action_token, deny,
}
use vovinam_api_node.Auth.Login.{Draw}
use vovinam_api_node.Auth.Registration.{verify_email_ttl}

abbrev pub weak_new_password : Error
weak_new_password =
    bad_request "Password must be at least 8 characters and contain letters and digits"

abbrev pub new_password_row : Text → User → User
new_password_row password_hash u = bump (record u { password_hash = password_hash })

-- The transaction of `resetPassword`
abbrev pub reset_account : ActionToken → Text → ℕ → Action (Unit {0})
reset_account t hash now =
    use_token t.jti t.user_id TokenPurpose.reset_password now
    >> (update_user t.user_id (new_password_row hash) >> revoke_all t.user_id)

-- `!validatePasswordPolicy(password, [])`
abbrev pub is_weak_new : AuthService → Text → Bool
is_weak_new a password = not (validate_password_policy a.lower password [])

-- `resetPassword`
unfoldable pub reset_password_of :
    AuthService → (token password hash : Text) → (now : ℕ) → Action (Unit {0})
reset_password_of a token password hash now = do
  throw_if (is_weak_new a password) weak_new_password
  t ← parse_action_token a now token TokenPurpose.reset_password
  or_catch (transaction (reset_account t hash now)) invalid_token
  record_entry (some t.user_id) password_reset true

-- `totp.verifyCode` on the store of the application
unfoldable pub check_totp : AuthService → (now user : ℕ) → (secret code : Text) → Action Bool
check_totp a now user secret code = on_store (verify_code in_memory a.verifies now user secret code)

abbrev pub second_factor : AuthService → ℕ → ℕ → Text → Option Text → Action (Unit {0})
second_factor a now user sealed none = throw (bad_request "TOTP code required")
second_factor a now user sealed (some code) = do
  secret ← or_throw (unseal a.cipher sealed) internal
  right ← check_totp a now user secret code
  throw_if (not right) invalid_credentials

-- `verifySensitiveCredentials`
unfoldable pub verify_sensitive :
    AuthService → (now : ℕ) → User → (password : Text) → (code : Option Text) → Action (Unit {0})
verify_sensitive a now u password code = do
  throw_if (not (a.compare password u.password_hash)) invalid_credentials
  credential ← gets (credential_of u.id)
  elim credential [ none ↦ pure tt | some c ↦ second_factor a now u.id c.secret_encrypted code ]

-- `changePassword`
unfoldable pub change_password :
    AuthService
    → (user : ℕ) → (current new hash : Text) → (code : Option Text) → (jti now : ℕ)
    → Action (Unit {0})
change_password a user current new hash code jti now = do
  throw_if (is_weak_new a new) weak_new_password
  u ← or_throw (← gets (by_id user)) record_missing
  verify_sensitive a now u current code
  transaction (update_user user (new_password_row hash) >> revoke_all user)
  deny now jti (access_ttl_ms a)
  record_entry (some user) password_changed true

-- `requestChangeEmail`
unfoldable pub request_change_email :
    AuthService → (user : ℕ) → (current new_email : Text) → Draw → Action (Unit {0})
request_change_email a user current new_email d = do
  u ← or_throw (← gets (by_id user)) record_missing
  verify_sensitive a d.now u current none
  throw_if (is_some (← gets (by_email new_email))) (conflict "Email already in use")
  notify new_email MailTemplate.change_email (
      some (
        sign_action_token a d.now d.jti user TokenPurpose.change_email verify_email_ttl
          (some new_email)))
  record_entry (some user) email_change_requested true

abbrev pub new_email_row : Text → ℕ → User → User
new_email_row email now u = bump (record u { email = email; email_verified_at = some now })

-- The address of another account breaks the unique constraint.
abbrev pub other_has : Text → ℕ → User → Bool
other_has email k u = text_eq u.email email && not (u.id == k)

unfoldable pub update_email : ℕ → Text → ℕ → Action (Unit {0})
update_email k email now = do
  throw_if (is_some (← gets (λ db. find_first (other_has email k) db.users))) unique_violation
  update_user k (new_email_row email now)

-- The transaction of `confirmChangeEmail`
abbrev pub change_account : ActionToken → Text → ℕ → Action (Unit {0})
change_account t target now =
    use_token t.jti t.user_id TokenPurpose.change_email now
    >> (update_email t.user_id target now >> revoke_all t.user_id)

-- `confirmChangeEmail`
unfoldable pub confirm_change_email : AuthService → (token : Text) → (now : ℕ) → Action (Unit {0})
confirm_change_email a token now = do
  t ← parse_action_token a now token TokenPurpose.change_email
  target ← or_throw t.target invalid_token
  throw_if (is_some (← gets (by_email target))) (conflict "Email already in use")
  or_catch (transaction (change_account t target now)) invalid_token
  record_entry (some t.user_id) (email_changed target) true

abbrev pub closed_row : ℕ → User → User
closed_row now u = record u { deleted_at = some now; is_active = false }

-- `deactivate`
unfoldable pub deactivate :
    AuthService
    → (user : ℕ) → (password : Text) → (code : Option Text) → (jti now : ℕ) → Action (Unit {0})
deactivate a user password code jti now = do
  u ← or_throw (← gets (by_id user)) record_missing
  verify_sensitive a now u password code
  transaction (update_user user (closed_row now) >> revoke_all user)
  deny now jti (access_ttl_ms a)
  record_entry (some user) account_deactivated true
