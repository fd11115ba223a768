-- ===== src/Auth/Guards.antt =====
-- src/auth/guards: the bearer token guard and the role guard.
use vovinam_api_node.Base.{
  ℕ, Bool, true, false, not, ◌&&◌, ◌||◌, Option, none, some, List, [], ◌∷◌, Text, codes, ◌==◌, leb,
  is_none, is_some, drop, if◌then◌else◌, find_unique,
}
use vovinam_api_node.Schema.{Role, admin, instructor, student, parent, User, Session}
use vovinam_api_node.Service.{
  Error, ok, Action, ◌>>=◌, ◌>>◌, pure, throw_if, or_throw, gets, on_store, unauthorized, forbidden,
}
use vovinam_api_node.SharedStore.{StoreValue}
use vovinam_api_node.SharedStore.Memory.{get}
use vovinam_api_node.Billing.Codes.{starts_with}
use vovinam_api_node.Auth.Tokens.{AuthService, Claims, TokenKind, verify_token}
use vovinam_api_node.Auth.Users.{by_id, session_key, credential_of, denylist_key}

-- `AuthenticatedUser`
pub record AuthenticatedUser : Type 0 where
  pub id : ℕ
  pub role : Role
  pub session_id : ℕ
  pub jti : ℕ

abbrev pub refused : Error
refused = unauthorized "Unauthorized"

abbrev pub bearer : Text
bearer = codes "Bearer "

-- The token of an `authorization` header
abbrev pub bearer_token : Option Text → Option Text
bearer_token none = none
bearer_token (some header) = if starts_with header bearer then some (drop 7 header) else none

-- The claims that have to be strings, and `pwdver`
pub record AccessClaims : Type 0 where
  pub sub : ℕ
  pub jti : ℕ
  pub sid : ℕ
  pub pwdver : Option ℕ

abbrev access_claims : Option ℕ → Option ℕ → Option ℕ → Option ℕ → Option AccessClaims
access_claims (some sub) (some jti) (some sid) pwdver =
    some (record { sub = sub; jti = jti; sid = sid; pwdver = pwdver })
access_claims _ _ _ pwdver = none

abbrev read_access : Option Claims → Option AccessClaims
read_access none = none
read_access (some c) = access_claims c.sub c.jti c.sid c.pwdver

abbrev claims_of : AuthService → ℕ → Option Text → Option AccessClaims
claims_of a now none = none
claims_of a now (some token) = read_access (verify_token a now token TokenKind.access)

-- The claims of an authorization header, when it has a token that checks
unfoldable pub header_claims : AuthService → ℕ → Option Text → Option AccessClaims
header_claims a now header = claims_of a now (bearer_token header)

unfoldable pub read_denylist : ℕ → ℕ → Action (Option StoreValue)
read_denylist now jti =
    on_store (λ s. (ok (get now (denylist_key jti) s).0, (get now (denylist_key jti) s).1))

-- `user.pwdVersion !== pwdver`
abbrev pub other_version : Option ℕ → ℕ → Bool
other_version none version = true
other_version (some v) version = not (version == v)

abbrev pub is_refused_user : Option ℕ → User → Bool
is_refused_user pwdver u =
    is_some u.deleted_at || (not u.is_active || other_version pwdver u.pwd_version)

abbrev pub is_ended : ℕ → Session → Bool
is_ended now s = s.revoked || leb s.expires_at now

-- `JwtAuthGuard.canActivate`
unfoldable pub jwt_guard : AuthService → ℕ → Option Text → Action AuthenticatedUser
jwt_guard a now header = do
  claims ← or_throw (header_claims a now header) refused
  denied ← read_denylist now claims.jti
  throw_if (is_some denied) refused
  user ← or_throw (← gets (by_id claims.sub)) refused
  throw_if (is_refused_user claims.pwdver user) refused
  session ← or_throw (← gets (λ db. find_unique session_key claims.sid db.sessions)) refused
  throw_if (is_ended now session) refused
  pure (record { id = user.id; role = user.role; session_id = claims.sid; jti = claims.jti })

abbrev same_role : Role → Role → Bool
same_role admin admin = true
same_role instructor instructor = true
same_role student student = true
same_role parent parent = true
same_role _ _ = false

abbrev pub admits : List Role → Role → Bool
admits [] r = false
admits (x ∷ xs) r = same_role x r || admits xs r

-- `RolesGuard.canActivate`, with the roles of the route; `none` where it names none
unfoldable pub roles_guard : Option (List Role) → Option AuthenticatedUser → Action (Unit {0})
roles_guard none user = pure tt
roles_guard (some []) user = pure tt
roles_guard (some (r ∷ rs)) user = do
  caller ← or_throw user refused
  throw_if (not (admits (r ∷ rs) caller.role)) (forbidden "Forbidden")
  credential ← gets (credential_of caller.id)
  throw_if (same_role caller.role admin && (admits (r ∷ rs) admin && is_none credential))
      (forbidden "MFA enrollment required")
