-- ===== src/Auth/Registration.antt =====
-- src/auth/auth.service.ts: registration, the verification of an address, and the mails of recovery. What
-- `bcrypt.hash` answers is an argument.
use vovinam_api_node.Base.{
  ℕ, ◌-◌, Bool, true, false, not, ◌&&◌, ◌||◌, Option, none, some, [], ◌∷◌, ◌++◌, Text, codes,
  decimal, ◌==◌, leb, ltb, is_none, is_some, if◌then◌else◌,
}
use vovinam_api_node.Schema.{Role, student, User, TokenPurpose, Database}
use vovinam_api_node.Service.{
  Error, ok, Action, ◌>>=◌, ◌>>◌, pure, throw_if, gets, modify, when, notify, on_store, or_catch,
  transaction, record_entry, MailTemplate, AuditEvent, register_new, email_verified,
  email_verification_resent, password_reset_requested, bad_request, unique_violation,
}
use vovinam_api_node.SharedStore.Memory.{increment}
use vovinam_api_node.Auth.PasswordPolicy.{validate_password_policy}
use vovinam_api_node.Auth.Tokens.{AuthService, sign_action_token}
use vovinam_api_node.Auth.Users.{
  invalid_token, by_email, by_id, update_user, use_token, ActionToken, parse_action_token,
}
use vovinam_api_node.Auth.Login.{Draw}

-- A calendar day in UTC.
pub record Day : Type 0 where
  pub year : ℕ
  pub month : ℕ
  pub day : ℕ

-- `yearsFrom`, where a negative age counts as 0
unfoldable pub years_from : Day → Day → ℕ
years_from now date =
    let before_birthday =
      ltb now.month date.month || now.month == date.month && ltb now.day date.day in
    if before_birthday then now.year - date.year - 1 else now.year - date.year

pub record RegisterDto : Type 0 where
  pub email : Text
  pub password : Text
  pub role : Role
  pub date_of_birth : Day

-- `dto.email.split('@')[0]`
unfoldable pub local_part : Text → Text
local_part [] = []
local_part (c ∷ t) = if c == b'@' then [] else c ∷ local_part t

abbrev is_student : Role → Bool
is_student student = true
is_student _ = false

abbrev weak_password : Error
weak_password =
    bad_request
      "Password must be at least 8 characters, contain letters and digits, and not include your email"

abbrev minor : Error
minor = bad_request "Students under 18 must be registered by a parent or guardian"

-- `VERIFY_EMAIL_TTL_SECONDS`, `RESET_PASSWORD_TTL_SECONDS`
abbrev pub verify_email_ttl : ℕ
verify_email_ttl = 86400

abbrev pub reset_password_ttl : ℕ
reset_password_ttl = 900

abbrev pub new_user : ℕ → RegisterDto → Text → User
new_user new_id dto password_hash = record {
  id = new_id;
  email = dto.email;
  password_hash = password_hash;
  role = dto.role;
  email_verified_at = none;
  failed_login_attempts = 0;
  locked_until = none;
  pwd_version = 1;
  is_active = true;
  deleted_at = none;
}

abbrev pub add_user : User → Database → Database
add_user u db = record db { users = db.users ++ u ∷ [] }

-- `user.create`
unfoldable pub insert_user : User → Action User
insert_user u = do
  throw_if (is_some (← gets (by_id u.id))) unique_violation
  throw_if (is_some (← gets (by_email u.email))) unique_violation
  modify (add_user u)
  pure u

-- What `register` answers.
abbrev registered : Text → Action (Text × Bool)
registered email = pure (email, true)

abbrev pub known_email : Text → Action (Text × Bool)
known_email email =
    record_entry none AuditEvent.register_duplicate true
    >> notify email MailTemplate.register_duplicate none
    >> registered email

abbrev pub mail_verification : AuthService → User → Draw → Action (Unit {0})
mail_verification a u d =
    notify u.email MailTemplate.verify_email
      (some (sign_action_token a d.now d.jti u.id TokenPurpose.verify_email verify_email_ttl none))

abbrev pub new_account :
    AuthService → RegisterDto → (new_id : ℕ) → (hash : Text) → Draw → Action (Text × Bool)
new_account a dto new_id password_hash d = do
  user ← insert_user (new_user new_id dto password_hash)
  mail_verification a user d
  record_entry (some user.id) register_new true
  registered user.email

abbrev pub is_weak : AuthService → RegisterDto → Bool
is_weak a dto =
    not (validate_password_policy a.lower dto.password (dto.email ∷ local_part dto.email ∷ []))

abbrev pub is_minor : RegisterDto → Day → Bool
is_minor dto today = is_student dto.role && ltb (years_from today dto.date_of_birth) 18

-- `register`
unfoldable pub register :
    AuthService
    → RegisterDto
    → (today : Day) → (new_id : ℕ) → (hash : Text) → Draw
    → Action (Text × Bool)
register a dto today new_id password_hash d = do
  throw_if (is_weak a dto) weak_password
  throw_if (is_minor dto today) minor
  existing ← gets (by_email dto.email)
  if is_some existing then known_email dto.email else new_account a dto new_id password_hash d

abbrev pub verified_row : ℕ → User → User
verified_row now u = record u { email_verified_at = some now }

-- The transaction of `verifyEmail`
abbrev pub verify_account : ActionToken → ℕ → Action (Unit {0})
verify_account t now =
    use_token t.jti t.user_id TokenPurpose.verify_email now
    >> update_user t.user_id (verified_row now)

-- `verifyEmail`
unfoldable pub verify_email_of : AuthService → (token : Text) → (now : ℕ) → Action (Unit {0})
verify_email_of a token now = do
  t ← parse_action_token a now token TokenPurpose.verify_email
  or_catch (transaction (verify_account t now)) invalid_token
  record_entry (some t.user_id) email_verified true

-- The mails of one kind to one account in an hour
unfoldable pub count_mail : ℕ → Text → Action ℕ
count_mail now key =
    on_store
      (λ s. (ok (increment now key (some 3600000) s).0, (increment now key (some 3600000) s).1))

abbrev pub verify_mail_key : ℕ → Text
verify_mail_key user = codes "mail:VERIFY_EMAIL:" ++ decimal user

abbrev pub reset_mail_key : ℕ → Text
reset_mail_key user = codes "mail:RESET_PASSWORD:" ++ decimal user

abbrev pub resend_verification_to : AuthService → User → Draw → Action (Unit {0})
resend_verification_to a u d = do
  sent ← count_mail d.now (verify_mail_key u.id)
  when (leb sent 5) (mail_verification a u d)
  record_entry (some u.id) email_verification_resent true

abbrev pub resend_to : AuthService → Option User → Draw → Action (Unit {0})
resend_to a none d = pure tt
resend_to a (some u) d =
    when (is_none u.deleted_at && (u.is_active && is_none u.email_verified_at))
      (resend_verification_to a u d)

-- `resendVerification`
unfoldable pub resend_verification : AuthService → (email : Text) → Draw → Action (Unit {0})
resend_verification a email d = do user ← gets (by_email email); resend_to a user d

abbrev pub mail_reset : AuthService → User → Draw → Action (Unit {0})
mail_reset a u d = notify u.email MailTemplate.reset_password (
    some (sign_action_token a d.now d.jti u.id TokenPurpose.reset_password reset_password_ttl none))

abbrev pub send_reset_to : AuthService → User → Draw → Action (Unit {0})
send_reset_to a u d = do
  sent ← count_mail d.now (reset_mail_key u.id)
  when (leb sent 5) (mail_reset a u d)
  record_entry (some u.id) password_reset_requested true

abbrev pub recover_to : AuthService → Option User → Draw → Action (Unit {0})
recover_to a none d = pure tt
recover_to a (some u) d = when (is_none u.deleted_at && u.is_active) (send_reset_to a u d)

-- `forgotPassword`
unfoldable pub forgot_password : AuthService → (email : Text) → Draw → Action (Unit {0})
forgot_password a email d = do user ← gets (by_email email); recover_to a user d
