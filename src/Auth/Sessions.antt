-- ===== src/Auth/Sessions.antt =====
-- src/auth/auth.service.ts: what happens to sessions after the login, from `refresh` to
-- `revokeSession`.
use vovinam_api_node.Base.{
  ℕ, ◌+◌, ◌*◌, Bool, true, false, not, ◌&&◌, ◌||◌, Option, none, some, List, Text, ◌==◌, leb, ltb,
  is_none, if◌then◌else◌, text_eq, find_first, find_many, find_unique, update_many, count_where,
}
use vovinam_api_node.Schema.{User, Session, RefreshToken, Database}
use vovinam_api_node.Service.{
  Action, ◌>>=◌, ◌>>◌, pure, throw, throw_if, or_throw, gets, modify, notify, transaction,
  record_entry, MailTemplate, token_reuse_detected, logout, logout_all, session_revoked,
  record_missing,
}
use vovinam_api_node.Auth.Tokens.{AuthService, access_ttl_ms, remaining_lifetime}
use vovinam_api_node.Auth.Users.{
  invalid_credentials, session_key, by_id, update_user, bump, is_live_session, is_live_token,
  revoke_sessions, revoke_tokens, revoke_all, session_of_user, token_of_session, deny,
}
use vovinam_api_node.Auth.Login.{
  Draw, SessionTokens, new_token, insert_token, session_tokens, is_disabled,
}

abbrev pub tell_reuse : Option User → Action (Unit {0})
tell_reuse none = pure tt
tell_reuse (some u) = notify u.email MailTemplate.token_reuse none

-- `revokeEverythingForUser`
unfoldable pub revoke_everything : ℕ → Action (Unit {0})
revoke_everything user = do
  transaction (revoke_all user)
  record_entry (some user) token_reuse_detected false
  tell_reuse (← gets (by_id user))

abbrev pub has_hash : Text → RefreshToken → Bool
has_hash hash t = text_eq t.token_hash hash

abbrev pub is_token : ℕ → RefreshToken → Bool
is_token k t = t.id == k

abbrev pub is_session : ℕ → Session → Bool
is_session k s = s.id == k

abbrev pub reuse : ℕ → Action SessionTokens
reuse user = revoke_everything user >> throw invalid_credentials

-- `nextExpiresAt`
abbrev pub next_expiry : AuthService → ℕ → Session → ℕ
next_expiry a now s = if leb s.expires_at now then s.expires_at else now + a.refresh_ttl * 1000

abbrev pub touch : ℕ → ℕ → Database → Database
touch session now db = record db {
  sessions = update_many (is_session session) (λ s. record s { last_active_at = now }) db.sessions;
}

-- `session.update({ where: { id } })`
unfoldable pub touch_session : ℕ → ℕ → Action (Unit {0})
touch_session session now = do
  or_throw (← gets (λ db. find_unique session_key session db.sessions)) record_missing
  modify (touch session now)

-- The transaction of `refresh`
abbrev pub replace_token : AuthService → User → RefreshToken → Session → Draw → Action (Unit {0})
replace_token a user row session d =
    insert_token (new_token a user.id row.session_id (next_expiry a d.now session) d)
    >> touch_session row.session_id d.now

-- `refresh` after the token is consumed
unfoldable pub rotate : AuthService → User → RefreshToken → Draw → Action SessionTokens
rotate a user row d = do
  throw_if (is_disabled user || is_none user.email_verified_at) invalid_credentials
  session ←
      or_throw (← gets (λ db. find_unique session_key row.session_id db.sessions)) record_missing
  throw_if session.revoked invalid_credentials
  transaction (replace_token a user row session d)
  pure (session_tokens a user row.session_id d)

-- The update that one caller wins: `updateMany({ where: { id, revoked: false } })`
unfoldable pub consume : AuthService → User → RefreshToken → Draw → Action SessionTokens
consume a user row d = do
  consumed ← gets (λ db. count_where (is_live_token (is_token row.id)) db.refresh_tokens)
  modify (revoke_tokens (is_token row.id))
  if consumed == 0 then reuse user.id else rotate a user row d

-- `refresh`. A row without its user is not in the database, by the foreign key.
unfoldable pub refresh : AuthService → Text → Draw → Action SessionTokens
refresh a token d = do
  row ←
      or_throw (← gets (λ db. find_first (has_hash (a.sha256 token)) db.refresh_tokens))
        invalid_credentials
  user ← or_throw (← gets (by_id row.user_id)) record_missing
  if row.revoked
      then reuse user.id
      else if leb row.expires_at d.now
      then throw invalid_credentials
      else consume a user row d

abbrev at_least : ℕ → ℕ → ℕ
at_least low n = if ltb n low then low else n

abbrev pub end_session : ℕ → Action (Unit {0})
end_session session = do
  modify (revoke_sessions (is_session session))
  modify (revoke_tokens (token_of_session session))

-- `logout`
unfoldable pub log_out :
    AuthService → (access_token : Text) → (jti session now : ℕ) → Action (Unit {0})
log_out a access_token jti session now = do
  transaction (end_session session)
  deny now jti (at_least 1000 (remaining_lifetime a now access_token * 1000))
  record_entry none logout true

-- `logoutAll`
unfoldable pub log_out_all : AuthService → (user jti now : ℕ) → Action (Unit {0})
log_out_all a user jti now = do
  transaction (revoke_all user >> update_user user bump)
  deny now jti (access_ttl_ms a)
  record_entry (some user) logout_all true

-- The selection of `listSessions`
unfoldable pub list_sessions : ℕ → ℕ → Database → List Session
list_sessions user now db =
    find_many (λ (s : Session). session_of_user user s && (not s.revoked && ltb now s.expires_at))
      db.sessions

abbrev pub own_session : ℕ → ℕ → Session → Bool
own_session user session s = s.id == session && s.user_id == user

-- `revokeSession`
unfoldable pub revoke_session : (user session : ℕ) → Action (Unit {0})
revoke_session user session = do
  updated ← gets (λ db. count_where (is_live_session (own_session user session)) db.sessions)
  modify (revoke_sessions (own_session user session))
  throw_if (updated == 0) invalid_credentials
  modify (revoke_tokens (token_of_session session))
  record_entry (some user) (session_revoked session) true
