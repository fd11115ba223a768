-- ===== src/Auth/Tokens.antt =====
-- src/auth/domain/token.service.ts, and what AuthService is put together from. The libraries
-- jsonwebtoken, bcryptjs, node:crypto and otplib are parameters.
use vovinam_api_node.Base.{
  ℕ, ◌*◌, ◌-◌, ◌/◌, Bool, true, false, Option, none, some, Text, codes, text_eq, if◌then◌else◌,
}
use vovinam_api_node.Schema.{TokenPurpose}
use vovinam_api_node.Auth.Seal.{Cipher}

-- The claim `type`
pub data TokenKind : Type 0 where
  access mfa_pending action : TokenKind

abbrev pub same_kind : TokenKind → TokenKind → Bool
same_kind TokenKind.access TokenKind.access = true
same_kind TokenKind.mfa_pending TokenKind.mfa_pending = true
same_kind TokenKind.action TokenKind.action = true
same_kind _ _ = false

-- The claims of a payload that the services read; `none` for one that is absent.
pub record Claims : Type 0 where
  pub sub : Option ℕ
  pub kind : Option TokenKind
  pub jti : Option ℕ
  pub sid : Option ℕ
  pub pwdver : Option ℕ
  pub purpose : Option TokenPurpose
  pub target : Option Text

-- What `jwt.decode` reads without the key.
pub record Decoded : Type 0 where
  pub kid : Option Text
  pub exp : Option ℕ

pub record Jwt : Type 0 where
  pub sign : (now : ℕ) (secret issuer kid : Text) (expires_in : ℕ) → Claims → Text
  pub decode : Text → Option Decoded
  pub check : (now : ℕ) (secret issuer token : Text) → Option Claims

-- The environment, its durations in seconds, and the libraries.
pub record AuthService : Type 0 where
  pub jwt_secret : Text
  pub jwt_secret_previous : Option Text
  pub jwt_issuer : Text
  pub access_ttl : ℕ
  pub refresh_ttl : ℕ
  pub max_login_attempts : ℕ
  pub login_lockout : ℕ
  pub jwt : Jwt
  pub cipher : Cipher
  pub compare : (password hash : Text) → Bool
  pub sha256 : Text → Text
  pub lower : Text → Text
  pub verifies : (now : ℕ) (secret code : Text) → Bool

abbrev pub current_kid : Text
current_kid = codes "current"

abbrev pub previous_kid : Text
previous_kid = codes "previous"

-- `env.accessTtlMs`
abbrev pub access_ttl_ms : AuthService → ℕ
access_ttl_ms a = a.access_ttl * 1000

abbrev pub no_claims : ℕ → TokenKind → ℕ → Claims
no_claims user kind jti = record {
  sub = some user;
  kind = some kind;
  jti = some jti;
  sid = none;
  pwdver = none;
  purpose = none;
  target = none;
}

abbrev pub sign_token : AuthService → ℕ → ℕ → Claims → Text
sign_token a now ttl claims = a.jwt.sign now a.jwt_secret a.jwt_issuer current_kid ttl claims

unfoldable pub sign_access_token : AuthService → (now jti user pwd_version session : ℕ) → Text
sign_access_token a now jti user pwd_version session =
    sign_token a now a.access_ttl (record (no_claims user TokenKind.access jti) {
      sid = some session;
      pwdver = some pwd_version;
    })

unfoldable pub sign_mfa_pending_token : AuthService → (now jti user : ℕ) → Text
sign_mfa_pending_token a now jti user =
    sign_token a now 300 (no_claims user TokenKind.mfa_pending jti)

unfoldable pub sign_action_token :
    AuthService → (now jti user : ℕ) → TokenPurpose → ℕ → Option Text → Text
sign_action_token a now jti user purpose ttl target =
    sign_token a now ttl
      (record (no_claims user TokenKind.action jti) { purpose = some purpose; target = target })

abbrev or_current : Option Text → Text
or_current none = current_kid
or_current (some kid) = kid

abbrev or_text : Option Text → Text → Text
or_text none t = t
or_text (some s) t = s

-- The key that a token is checked against.
abbrev pub secret_of : AuthService → Text → Text
secret_of a kid =
    if text_eq kid previous_kid then or_text a.jwt_secret_previous a.jwt_secret else a.jwt_secret

abbrev is_known_kid : Text → Bool
is_known_kid kid = if text_eq kid current_kid then true else text_eq kid previous_kid

abbrev has_kind : TokenKind → Option TokenKind → Bool
has_kind expected none = false
has_kind expected (some kind) = same_kind kind expected

-- `payload.type !== expectedType`
abbrev of_kind : TokenKind → Option Claims → Option Claims
of_kind expected none = none
of_kind expected (some claims) = if has_kind expected claims.kind then some claims else none

abbrev checked : AuthService → ℕ → Text → TokenKind → Option Decoded → Option Claims
checked a now token expected none = none
checked a now token expected (some header) =
    let kid = or_current header.kid in
    if is_known_kid kid
    then of_kind expected (a.jwt.check now (secret_of a kid) a.jwt_issuer token)
    else none

-- `TokenService.verify`; `none` where it throws
unfoldable pub verify_token : AuthService → ℕ → Text → TokenKind → Option Claims
verify_token a now token expected = checked a now token expected (a.jwt.decode token)

abbrev lifetime : Option Decoded → ℕ → ℕ
lifetime none now = 0
lifetime (some header) now = until header.exp
  where
    until : Option ℕ → ℕ
    until none = 0
    until (some exp) = exp - now / 1000

-- `remainingLifetimeSeconds`
unfoldable pub remaining_lifetime : AuthService → ℕ → Text → ℕ
remaining_lifetime a now token = lifetime (a.jwt.decode token) now
