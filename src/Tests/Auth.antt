-- ===== src/Tests/Auth.antt =====
-- An account that signs in, changes its password and is attacked. A token is its claims in plain digits, and
-- a hash is the text itself.
use vovinam_api_node.Base.{
  ℕ, ◌≡◌, refl, true, false, Option, none, some, [], ◌∷◌, ◌++◌, Text, codes, arith, text_eq,
  find_first, find_unique, update_many, count_where,
}
use vovinam_api_node.Schema.{Role, User, Session, RefreshToken, TokenPurpose}
use vovinam_api_node.Service.{World, err, unauthorized}
use vovinam_api_node.Billing.Codes.{starts_with}
use vovinam_api_node.Auth.Tokens.{
  AuthService, Jwt, Claims, TokenKind, verify_token, sign_access_token,
}
use vovinam_api_node.Auth.Users.{
  invalid_credentials, by_email, update_user, action_of, parse_action_token, use_token, deny,
}
use vovinam_api_node.Auth.Guards.{jwt_guard, header_claims, bearer}
use vovinam_api_node.Auth.Login.{Draw, login_user, is_locked, insert_token}
use vovinam_api_node.Auth.Sessions.{refresh, consume, rotate, touch_session, log_out_all}
use vovinam_api_node.Auth.Registration.{verify_email_of}
use vovinam_api_node.Auth.Steps.{here, next, logs_in}
use vovinam_api_node.Auth.Replay.{IsOut, refresh-once}
use vovinam_api_node.Auth.Single.{IsSingle}
use vovinam_api_node.Auth.Races
use mathlib.Core.List.{Memᴰ}
use vovinam_api_node.Auth.Outdated.{everywhere, jwt_guard-refuses_outdated}
use vovinam_api_node.Auth.ActionTokens.{Accepts, by_verification, Accepts-once}
use vovinam_api_node.Auth.Lockout.{
  Tries, none_yet, again, login_user-locked, wrong_password-unlocks,
}
use vovinam_api_node.Tests.Payments.{db}

abbrev claims : (sub jti : ℕ) → TokenKind → Option TokenPurpose → (sid pwdver : ℕ) → Claims
claims sub jti kind purpose sid pwdver = record {
  sub = some sub;
  kind = some kind;
  jti = some jti;
  sid = some sid;
  pwdver = some pwdver;
  purpose = purpose;
  target = none;
}

-- A token of four digits gives access, and one of two verifies an address.
abbrev plain_check : Text → Option Claims
plain_check (sub ∷ jti ∷ sid ∷ version ∷ []) =
    some (claims sub jti TokenKind.access none sid version)
plain_check (sub ∷ jti ∷ []) =
    some (claims sub jti TokenKind.action (some TokenPurpose.verify_email) 0 0)
plain_check _ = none

abbrev plain_jwt : Jwt
plain_jwt = record {
  sign = λ now secret issuer kid ttl c. [];
  decode = λ token. some (record { kid = none; exp = none });
  check = λ now secret issuer token. plain_check token;
}

abbrev service : AuthService
service = record {
  jwt_secret = codes "s";
  jwt_secret_previous = none;
  jwt_issuer = codes "i";
  access_ttl = 900;
  refresh_ttl = 604800;
  max_login_attempts = 2;
  login_lockout = 60;
  jwt = plain_jwt;
  cipher = record { encrypt = λ iv text. (text, []); decrypt = λ iv tag text. some text };
  compare = text_eq;
  sha256 = λ t. t;
  lower = λ t. t;
  verifies = λ now secret code. false;
}

abbrev address : Text
address = 1 ∷ []

abbrev hash : Text
hash = 9 ∷ []

abbrev account : User
account = record {
  id = 20;
  email = address;
  password_hash = hash;
  role = Role.student;
  email_verified_at = some 5;
  failed_login_attempts = 0;
  locked_until = none;
  pwd_version = 1;
  is_active = true;
  deleted_at = none;
}

abbrev session : Session
session = record {
  id = 40;
  user_id = 20;
  revoked = false;
  last_active_at = 10;
  expires_at = 9000000;
}

abbrev token : RefreshToken
token = record {
  id = 50;
  user_id = 20;
  session_id = 40;
  token_hash = 7 ∷ [];
  revoked = false;
  expires_at = 9000000;
}

abbrev site : World
site = record {
  db = record db { users = account ∷ []; sessions = session ∷ []; refresh_tokens = token ∷ [] };
  audit_queue = [];
  store = [];
  mails = [];
}

abbrev draw : ℕ → ℕ → Text → Draw
draw now k refresh_token = record {
  now = now;
  jti = k;
  session_id = k;
  token_id = k;
  refresh_token = refresh_token;
}

-- The refresh token is exchanged, and presented again.
abbrev exchanged : World
exchanged = (refresh service (7 ∷ []) (draw 100 60 (8 ∷ [])) site).1

refresh-once_example :
    ((refresh service
        (7 ∷ [])
        (draw 300 62 (6 ∷ []))
        (login_user service address hash none (draw 200 61 (5 ∷ [])) exchanged).1).0
      ≡ err invalid_credentials)
    × IsOut 20
        (refresh service
          (7 ∷ [])
          (draw 300 62 (6 ∷ []))
          (login_user service address hash none (draw 200 61 (5 ∷ [])) exchanged).1).1.db
refresh-once_example =
    refresh-once service (7 ∷ []) (draw 100 60 (8 ∷ [])) (draw 300 62 (6 ∷ [])) site _ token
      (record { access_token = []; refresh_token = 8 ∷ []; session_id = 40 })
      (unfold find_first text_eq in refl)
      (unfold refresh consume rotate find_first find_unique text_eq update_many count_where
          insert_token touch_session sign_access_token in
        refl)
      (next here (logs_in address hash none (draw 200 61 (5 ∷ []))))

site-IsSingle : IsSingle site.db
unfolding find_unique count_where
site-IsSingle = record { unknown = λ k e. ground (arith, e); single = λ k. ground arith }

-- Two refreshes read the one token before either takes it.
abbrev reading : Races.Reading
reading = record { user = account; row = token }

Reach-IsSingle_example :
    IsSingle
      (consume service account token
        (draw 200 61 (9 ∷ []))
        (consume service account token (draw 100 60 (8 ∷ [])) site).1).1.db
unfolding find_unique find_first text_eq
Reach-IsSingle_example =
    Races.Reach-IsSingle
      (Races.next
        (Races.next
          (Races.next (Races.next Races.here (Races.reads (7 ∷ []) 90 reading refl refl refl refl))
            (Races.reads (7 ∷ []) 91 reading refl refl refl refl))
          (Races.takes reading (draw 100 60 (8 ∷ [])) (Memᴰ.head refl)))
        (Races.takes reading (draw 200 61 (9 ∷ [])) (Memᴰ.head refl)))
      (refl, tt) site-IsSingle

-- The second of them finds the token taken, although a login lies between.
abbrev raced : World
raced = (consume service account token (draw 100 60 (8 ∷ [])) site).1

abbrev between : World
between = (login_user service address hash none (draw 150 63 (5 ∷ [])) raced).1

consume-once_example :
    ((consume service account token (draw 200 61 (9 ∷ [])) between).0 ≡ err invalid_credentials)
    × IsOut 20 (consume service account token (draw 200 61 (9 ∷ [])) between).1.db
unfolding consume rotate find_first find_unique text_eq update_many count_where insert_token
    touch_session sign_access_token
consume-once_example =
    Races.consume-once reading (draw 100 60 (8 ∷ [])) (draw 200 61 (9 ∷ []))
      (record { access_token = []; refresh_token = 8 ∷ []; session_id = 40 })
      (Races.next (Races.next Races.here (Races.reads (7 ∷ []) 90 reading refl refl refl refl))
        (Races.reads (7 ∷ []) 91 reading refl refl refl refl))
      (refl, tt) site-IsSingle (Memᴰ.head refl) refl
      (Races.next Races.here (Races.flow (logs_in address hash none (draw 150 63 (5 ∷ [])))))

-- A sign-out everywhere, and then a request with the token from before.
abbrev signed_out : World
signed_out = (log_out_all service 20 70 100 site).1

abbrev header : Text
header = bearer ++ (20 ∷ 70 ∷ 40 ∷ 1 ∷ [])

jwt_guard-refuses_outdated_example :
    (jwt_guard service 200 (some header) signed_out).0 ≡ err (unauthorized "Unauthorized")
jwt_guard-refuses_outdated_example =
    jwt_guard-refuses_outdated service 20 200 (some header)
      (record { sub = 20; jti = 70; sid = 40; pwdver = some 1 }) account site signed_out signed_out
      (unfold find_unique in refl)
      (everywhere {w = site} 70 100 (unfold log_out_all deny update_user find_unique in refl)) here
      (unfold header_claims starts_with verify_token text_eq in refl) refl refl

-- The address is verified, twice with the same token.
abbrev verified : World
verified = (verify_email_of service (20 ∷ 80 ∷ []) 100 site).1

abbrev accepted : Accepts service 80 site verified
accepted =
    by_verification {w = site} (20 ∷ 80 ∷ []) 100 (record { user_id = 20; jti = 80; target = none })
      (unfold action_of verify_token text_eq in refl) refl
      (unfold verify_email_of parse_action_token action_of verify_token text_eq use_token
          update_user find_unique in
        refl)

Accepts-once_example :
    ¬ Accepts service 80 verified (verify_email_of service (20 ∷ 80 ∷ []) 200 verified).1
Accepts-once_example = Accepts-once accepted here

-- Two wrong passwords lock the account for a minute.
abbrev wrong : Text
wrong = 3 ∷ []

abbrev tried : World
tried =
    (login_user service address wrong none (draw 200 91 [])
      (login_user service address wrong none (draw 100 90 []) site).1).1

abbrev two_tries : Tries service address hash 2 200 site tried
two_tries =
    again (again none_yet wrong none (draw 100 90 []) (unfold text_eq in refl)) wrong none
      (draw 200 91 []) (unfold text_eq in refl)

login_user-locked_example :
    (login_user service address hash none (draw 60199 92 []) tried).0 ≡ err invalid_credentials
login_user-locked_example =
    login_user-locked service address 200 site tried account hash none (draw 60199 92 [])
      (unfold find_first text_eq in refl) refl (omega arith) two_tries (omega arith)
      (unfold text_eq in refl)

wrong_password-unlocks_example :
    (x : User) × (by_email address
        (login_user service address wrong none (draw 300 93 []) tried).1.db
      ≡ some x)
    × ((t : ℕ) → is_locked t x.locked_until ≡ false)
wrong_password-unlocks_example =
    wrong_password-unlocks service address 200 site tried account wrong none (draw 300 93 [])
      (unfold find_first text_eq in refl) refl (omega arith) two_tries (unfold text_eq in refl)
