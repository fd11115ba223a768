-- ===== src/Auth/Login.antt =====
-- src/auth/auth.service.ts: `login` and the session that it opens. The random values of a call are an
-- argument.
use vovinam_api_node.Base.{
  ℕ, ◌+◌, ◌*◌, ◌-◌, Bool, true, false, not, ◌&&◌, ◌||◌, Option, none, some, [], ◌∷◌, ◌++◌, Text,
  ◌==◌, leb, ltb, is_none, is_some, if◌then◌else◌, text_eq, find_first, find_unique, count_where,
}
use vovinam_api_node.Schema.{Role, User, Session, RefreshToken, AuditLog, Database}
use vovinam_api_node.Service.{
  Action, ◌>>=◌, ◌>>◌, pure, throw, throw_if, or_throw, gets, modify, when, notify, transaction,
  record_entry, MailTemplate, account_locked, login_failed, login_locked, login_new_ip, login,
  login_mfa_pending, unique_violation, record_missing,
}
use vovinam_api_node.Auth.Tokens.{AuthService, sign_access_token, sign_mfa_pending_token}
use vovinam_api_node.Auth.Users.{
  invalid_credentials, session_key, by_email, by_id, credential_of, update_user,
}

-- The clock of a call and the random values that it may draw.
pub record Draw : Type 0 where
  pub now : ℕ
  pub jti : ℕ
  pub session_id : ℕ
  pub token_id : ℕ
  pub refresh_token : Text

pub record SessionTokens : Type 0 where
  pub access_token : Text
  pub refresh_token : Text
  pub session_id : ℕ

pub record PublicUser : Type 0 where
  pub id : ℕ
  pub email : Text
  pub role : Role
  pub email_verified : Bool
  pub mfa_enabled : Bool

pub record LoginResult : Type 0 where
  pub mfa_required : Bool
  pub mfa_token : Option Text
  pub tokens : Option SessionTokens
  pub user : PublicUser

-- `toPublicUser`
abbrev pub to_public_user : User → Bool → PublicUser
to_public_user u mfa = record {
  id = u.id;
  email = u.email;
  role = u.role;
  email_verified = is_some u.email_verified_at;
  mfa_enabled = mfa;
}

-- `shouldLock`
abbrev pub should_lock : AuthService → User → Bool
should_lock a u = leb a.max_login_attempts (u.failed_login_attempts + 1)

-- The columns that a failure writes, from the row that the login has read
abbrev pub failed_row : AuthService → ℕ → User → User → User
failed_row a now read u = record u {
  failed_login_attempts = if should_lock a read then 0 else read.failed_login_attempts + 1;
  locked_until = if should_lock a read then some (now + a.login_lockout * 1000) else none;
}

-- `registerFailedAttempt`
unfoldable pub register_failed_attempt : AuthService → User → ℕ → Action (Unit {0})
register_failed_attempt a u now = do
  update_user u.id (failed_row a now u)
  when (should_lock a u) (
      record_entry (some u.id) account_locked false
      >> notify u.email MailTemplate.account_locked none)
  record_entry (some u.id) login_failed false

-- `NEW_IP_WINDOW_DAYS`
abbrev pub new_ip_window : ℕ
new_ip_window = 30 * 86400000

abbrev pub is_known_login : ℕ → Text → ℕ → AuditLog → Bool
is_known_login user ip since l =
    l.user_id == user && (l.is_login && (text_eq l.ip ip && leb since l.created_at))

abbrev pub tell_new_ip : User → Action (Unit {0})
tell_new_ip u = do
  notify u.email MailTemplate.login_new_ip none
  record_entry (some u.id) login_new_ip true

abbrev alert_on : User → Text → ℕ → Action (Unit {0})
alert_on u ip now = do
  known ← gets (λ db. count_where (is_known_login u.id ip (now - new_ip_window)) db.audit_logs)
  when (known == 0) (tell_new_ip u)

-- `alertOnNewIp`
unfoldable pub alert_on_new_ip : User → Option Text → ℕ → Action (Unit {0})
alert_on_new_ip u none now = pure tt
alert_on_new_ip u (some []) now = pure tt
alert_on_new_ip u (some (c ∷ ip)) now = alert_on u (c ∷ ip) now

abbrev pub new_session : AuthService → ℕ → Draw → Session
new_session a user d = record {
  id = d.session_id;
  user_id = user;
  revoked = false;
  last_active_at = d.now;
  expires_at = d.now + a.refresh_ttl * 1000;
}

abbrev pub new_token : AuthService → ℕ → ℕ → ℕ → Draw → RefreshToken
new_token a user session expires d = record {
  id = d.token_id;
  user_id = user;
  session_id = session;
  token_hash = a.sha256 d.refresh_token;
  revoked = false;
  expires_at = expires;
}

abbrev pub same_token : RefreshToken → RefreshToken → Bool
same_token t s = s.id == t.id || text_eq s.token_hash t.token_hash

abbrev pub add_session : Session → Database → Database
add_session s db = record db { sessions = db.sessions ++ s ∷ [] }

abbrev pub add_token : RefreshToken → Database → Database
add_token t db = record db { refresh_tokens = db.refresh_tokens ++ t ∷ [] }

-- `session.create`
unfoldable pub insert_session : Session → Action (Unit {0})
insert_session s = do
  throw_if (is_some (← gets (λ db. find_unique session_key s.id db.sessions))) unique_violation
  modify (add_session s)

-- `refreshToken.create`
unfoldable pub insert_token : RefreshToken → Action (Unit {0})
insert_token t = do
  throw_if (is_some (← gets (λ db. find_first (same_token t) db.refresh_tokens))) unique_violation
  modify (add_token t)

abbrev pub session_tokens : AuthService → User → ℕ → Draw → SessionTokens
session_tokens a u session d = record {
  access_token = sign_access_token a d.now d.jti u.id u.pwd_version session;
  refresh_token = d.refresh_token;
  session_id = session;
}

-- The transaction of `issueSession`
abbrev pub open_session : AuthService → ℕ → Draw → Action (Unit {0})
open_session a user d =
    insert_session (new_session a user d)
    >> insert_token (new_token a user d.session_id (d.now + a.refresh_ttl * 1000) d)

-- `issueSession`
unfoldable pub issue_session : AuthService → ℕ → Draw → Action SessionTokens
issue_session a user d = do
  u ← or_throw (← gets (by_id user)) record_missing
  transaction (open_session a user d)
  pure (session_tokens a u d.session_id d)

-- `user.deletedAt !== null || !user.isActive`
abbrev pub is_disabled : User → Bool
is_disabled u = is_some u.deleted_at || not u.is_active

-- `user.lockedUntil !== null && user.lockedUntil > new Date()`
abbrev pub is_locked : ℕ → Option ℕ → Bool
is_locked now none = false
is_locked now (some t) = ltb now t

-- A sign-in that a mail and an audit entry report, and that is refused.
abbrev pub block : Action (Unit {0}) → Action LoginResult
block report = report >> throw invalid_credentials

abbrev pub mfa_result : AuthService → User → Draw → LoginResult
mfa_result a u d = record {
  mfa_required = true;
  mfa_token = some (sign_mfa_pending_token a d.now d.jti u.id);
  tokens = none;
  user = to_public_user u true;
}

abbrev pub tokens_result : User → Bool → SessionTokens → LoginResult
tokens_result u mfa tokens = record {
  mfa_required = false;
  mfa_token = none;
  tokens = some tokens;
  user = to_public_user u mfa;
}

abbrev pub opened_or_pending : AuthService → User → Option Text → Draw → Bool → Action LoginResult
opened_or_pending a u ip d true = do
  record_entry (some u.id) login_mfa_pending true
  pure (mfa_result a u d)
opened_or_pending a u ip d false = do
  tokens ← issue_session a u.id d
  alert_on_new_ip u ip d.now
  record_entry (some u.id) login true
  pure (tokens_result u false tokens)

-- The part of `login` after the checks of the account
unfoldable pub sign_in : AuthService → User → Option Text → Draw → Action LoginResult
sign_in a u ip d = do
  credential ← gets (credential_of u.id)
  opened_or_pending a u ip d (is_some credential)

-- The checks of an account whose password is right
unfoldable pub check_account : AuthService → User → Option Text → Draw → Action LoginResult
check_account a u ip d =
    if is_disabled u
    then block (
        notify u.email MailTemplate.login_blocked_disabled none
        >> record_entry (some u.id) login_failed false)
    else if is_locked d.now u.locked_until
    then block (
        notify u.email MailTemplate.login_blocked_locked none
        >> record_entry (some u.id) login_locked false)
    else if is_none u.email_verified_at
    then block (
        notify u.email MailTemplate.login_blocked_unverified none
        >> record_entry (some u.id) login_failed false)
    else sign_in a u ip d

abbrev pub login_as : AuthService → Option User → Text → Option Text → Draw → Action LoginResult
login_as a none password ip d = block (record_entry none login_failed false)
login_as a (some u) password ip d =
    if a.compare password u.password_hash
    then check_account a u ip d
    else block (register_failed_attempt a u d.now)

-- `login`
unfoldable pub login_user :
    AuthService → (email password : Text) → (ip : Option Text) → Draw → Action LoginResult
login_user a email password ip d = do user ← gets (by_email email); login_as a user password ip d
