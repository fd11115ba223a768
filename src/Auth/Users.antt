-- ===== src/Auth/Users.antt =====
-- The reads and writes that the flows of src/auth/auth.service.ts share.
use vovinam_api_node.Base.{
  ℕ, ◌+◌, ◌*◌, Bool, true, false, not, ◌&&◌, Option, none, some, [], ◌∷◌, ◌++◌, Text, codes,
  decimal, ◌==◌, is_some, if◌then◌else◌, text_eq, find_first, find_unique, update_many,
}
use vovinam_api_node.Schema.{
  User, Session, RefreshToken, TotpCredential, UsedToken, TokenPurpose, Database,
}
use vovinam_api_node.Service.{
  Error, ok, Action, ◌>>=◌, ◌>>◌, throw_if, or_throw, gets, modify, on_store, unauthorized,
  bad_request, unique_violation, record_missing,
}
use vovinam_api_node.SharedStore.{flag}
use vovinam_api_node.SharedStore.Memory.{set}
use vovinam_api_node.Auth.Tokens.{AuthService, Claims, TokenKind, verify_token}

-- `INVALID_CREDENTIALS_MESSAGE`
abbrev pub invalid_credentials : Error
invalid_credentials = unauthorized "Invalid email or password"

-- `INVALID_TOKEN_MESSAGE`
abbrev pub invalid_token : Error
invalid_token = bad_request "Invalid or expired token"

abbrev pub user_key : User → ℕ
user_key u = u.id

abbrev pub session_key : Session → ℕ
session_key s = s.id

abbrev pub refresh_key : RefreshToken → ℕ
refresh_key t = t.id

abbrev pub used_key : UsedToken → ℕ
used_key t = t.jti

abbrev pub has_email : Text → User → Bool
has_email email u = text_eq u.email email

abbrev pub by_email : Text → Database → Option User
by_email email db = find_first (has_email email) db.users

abbrev pub by_id : ℕ → Database → Option User
by_id k db = find_unique user_key k db.users

abbrev pub credential_of : ℕ → Database → Option TotpCredential
credential_of user db = find_unique (λ (c : TotpCredential). c.user_id) user db.totp_credentials

abbrev pub is_user : ℕ → User → Bool
is_user k u = u.id == k

abbrev pub set_users : ℕ → (User → User) → Database → Database
set_users k f db = record db { users = update_many (is_user k) f db.users }

-- `user.update({ where: { id } })`
unfoldable pub update_user : ℕ → (User → User) → Action (Unit {0})
update_user k f = do or_throw (← gets (by_id k)) record_missing; modify (set_users k f)

abbrev pub bump : User → User
bump u = record u { pwd_version = u.pwd_version + 1 }

abbrev pub is_live_session : (Session → Bool) → Session → Bool
is_live_session p s = p s && not s.revoked

abbrev pub is_live_token : (RefreshToken → Bool) → RefreshToken → Bool
is_live_token p t = p t && not t.revoked

abbrev pub revoked_session : Session → Session
revoked_session s = record s { revoked = true }

abbrev pub revoked_token : RefreshToken → RefreshToken
revoked_token t = record t { revoked = true }

-- `session.updateMany({ where: { …, revoked: false }, data: { revoked: true } })`
abbrev pub revoke_sessions : (Session → Bool) → Database → Database
revoke_sessions p db = record db {
  sessions = update_many (is_live_session p) revoked_session db.sessions;
}

-- The same on refresh tokens
abbrev pub revoke_tokens : (RefreshToken → Bool) → Database → Database
revoke_tokens p db = record db {
  refresh_tokens = update_many (is_live_token p) revoked_token db.refresh_tokens;
}

abbrev pub session_of_user : ℕ → Session → Bool
session_of_user user s = s.user_id == user

abbrev pub token_of_user : ℕ → RefreshToken → Bool
token_of_user user t = t.user_id == user

abbrev pub token_of_session : ℕ → RefreshToken → Bool
token_of_session session t = t.session_id == session

-- The two writes by which every session of a user ends.
abbrev pub revoke_all : ℕ → Action (Unit {0})
revoke_all user = do
  modify (revoke_sessions (session_of_user user))
  modify (revoke_tokens (token_of_user user))

-- `USED_TOKEN_RETENTION_MS`
abbrev pub used_token_retention : ℕ
used_token_retention = 7 * 86400000

abbrev pub add_used : UsedToken → Database → Database
add_used t db = record db { used_tokens = db.used_tokens ++ t ∷ [] }

abbrev pub used_row : ℕ → ℕ → TokenPurpose → ℕ → UsedToken
used_row jti user purpose now = record {
  jti = jti;
  user_id = user;
  purpose = purpose;
  expires_at = now + used_token_retention;
}

-- `usedToken.create`
unfoldable pub use_token : ℕ → ℕ → TokenPurpose → ℕ → Action (Unit {0})
use_token jti user purpose now = do
  rows ← gets (λ db. db.used_tokens)
  throw_if (is_some (find_unique used_key jti rows)) unique_violation
  modify (add_used (used_row jti user purpose now))

-- What an action token says.
pub record ActionToken : Type 0 where
  pub user_id : ℕ
  pub jti : ℕ
  pub target : Option Text

abbrev pub same_purpose : TokenPurpose → TokenPurpose → Bool
same_purpose TokenPurpose.verify_email TokenPurpose.verify_email = true
same_purpose TokenPurpose.reset_password TokenPurpose.reset_password = true
same_purpose TokenPurpose.change_email TokenPurpose.change_email = true
same_purpose _ _ = false

abbrev is_for : TokenPurpose → Option TokenPurpose → Bool
is_for purpose none = false
is_for purpose (some p) = same_purpose p purpose

abbrev read_ids : Option ℕ → Option ℕ → Option Text → Option ActionToken
read_ids (some user) (some jti) target =
    some (record { user_id = user; jti = jti; target = target })
read_ids _ _ target = none

abbrev read_action : TokenPurpose → Option Claims → Option ActionToken
read_action purpose none = none
read_action purpose (some c) =
    if is_for purpose c.purpose then read_ids c.sub c.jti c.target else none

-- What `parseActionToken` finds
unfoldable pub action_of : AuthService → ℕ → Text → TokenPurpose → Option ActionToken
action_of a now token purpose = read_action purpose (verify_token a now token TokenKind.action)

-- `parseActionToken`
unfoldable pub parse_action_token : AuthService → ℕ → Text → TokenPurpose → Action ActionToken
parse_action_token a now token purpose = or_throw (action_of a now token purpose) invalid_token

abbrev pub denylist_key : ℕ → Text
denylist_key jti = codes "jti:denylist:" ++ decimal jti

-- `this.store.set(`jti:denylist:${jti}`, true, ttlMs)`
unfoldable pub deny : ℕ → ℕ → ℕ → Action (Unit {0})
deny now jti ttl = on_store (λ s. (ok tt, set now (denylist_key jti) (flag true) (some ttl) s))
