-- ===== src/Auth/Steps.antt =====
-- The flows of src/auth/auth.service.ts as the steps of one relation.
use vovinam_api_node.Base.{ℕ, Option, List, Text}
use vovinam_api_node.Service.{World}
use vovinam_api_node.Auth.Tokens.{AuthService}
use vovinam_api_node.Auth.Login.{Draw, login_user}
use vovinam_api_node.Auth.Sessions.{refresh, log_out, log_out_all, revoke_session}
use vovinam_api_node.Auth.Account.{
  reset_password_of, change_password, request_change_email, confirm_change_email, deactivate,
}
use vovinam_api_node.Auth.Registration.{
  Day, RegisterDto, register, verify_email_of, resend_verification, forgot_password,
}
use vovinam_api_node.Auth.Mfa.{
  totp_enable, totp_verify, totp_validate, totp_disable, mfa_login_verify,
}
use vovinam_api_node.Auth.Writes.{Writes, done, join}
use vovinam_api_node.Auth.Flows.{
  login_user-Writes, refresh-Writes, log_out-Writes, log_out_all-Writes, revoke_session-Writes,
}
use vovinam_api_node.Auth.AccountFlows.{
  reset_password_of-Writes, change_password-Writes, request_change_email-Writes,
  confirm_change_email-Writes, deactivate-Writes,
}
use vovinam_api_node.Auth.RegistrationFlows.{
  register-Writes, verify_email_of-Writes, resend_verification-Writes, forgot_password-Writes,
}
use vovinam_api_node.Auth.MfaFlows.{
  totp_enable-Writes, totp_verify-Writes, totp_validate-Writes, totp_disable-Writes,
  mfa_login_verify-Writes,
}

-- The flows that change something, with whatever arguments.
pub data Step (a : AuthService) : World → World → Type 0 where
  registers :
      {w : World} (dto : RegisterDto) (today : Day) (new_id : ℕ) (hash : Text) (d : Draw)
      → Step a w (register a dto today new_id hash d w).1
  verifies_email : {w : World} (token : Text) (now : ℕ) → Step a w (verify_email_of a token now w).1
  resends : {w : World} (email : Text) (d : Draw) → Step a w (resend_verification a email d w).1
  forgets : {w : World} (email : Text) (d : Draw) → Step a w (forgot_password a email d w).1
  resets :
      {w : World} (token password hash : Text) (now : ℕ)
      → Step a w (reset_password_of a token password hash now w).1
  logs_in :
      {w : World} (email password : Text) (ip : Option Text) (d : Draw)
      → Step a w (login_user a email password ip d w).1
  logs_in_mfa :
      {w : World} (token code : Text) (ip : Option Text) (d : Draw)
      → Step a w (mfa_login_verify a token code ip d w).1
  refreshes : {w : World} (token : Text) (d : Draw) → Step a w (refresh a token d w).1
  logs_out :
      {w : World} (token : Text) (jti session now : ℕ)
      → Step a w (log_out a token jti session now w).1
  logs_out_all : {w : World} (user jti now : ℕ) → Step a w (log_out_all a user jti now w).1
  ends_session : {w : World} (user session : ℕ) → Step a w (revoke_session user session w).1
  enables :
      {w : World} (user : ℕ) (secret : Text) (now : ℕ) → Step a w (totp_enable user secret now w).1
  confirms_totp :
      {w : World} (user : ℕ) (code iv : Text) (drawn : List (ℕ × Text)) (now : ℕ)
      → Step a w (totp_verify a user code iv drawn now w).1
  validates :
      {w : World} (user : ℕ) (code : Text) (now : ℕ) → Step a w (totp_validate a user code now w).1
  disables :
      {w : World} (user : ℕ) (password : Text) (code : Option Text) (now : ℕ)
      → Step a w (totp_disable a user password code now w).1
  changes_password :
      {w : World} (user : ℕ) (current new hash : Text) (code : Option Text) (jti now : ℕ)
      → Step a w (change_password a user current new hash code jti now w).1
  requests_email :
      {w : World} (user : ℕ) (current email : Text) (d : Draw)
      → Step a w (request_change_email a user current email d w).1
  confirms_email :
      {w : World} (token : Text) (now : ℕ) → Step a w (confirm_change_email a token now w).1
  deactivates :
      {w : World} (user : ℕ) (password : Text) (code : Option Text) (jti now : ℕ)
      → Step a w (deactivate a user password code jti now w).1

pub data Reach (a : AuthService) : World → World → Type 0 where
  here : {w : World} → Reach a w w
  next : {u v w : World} → Reach a u v → Step a v w → Reach a u w

pub Step-Writes : {a : AuthService} {v w : World} → Step a v w → Writes v.db w.db
Step-Writes {a} {v} (registers dto today new_id hash d) =
    register-Writes a dto today new_id hash d v
Step-Writes {a} {v} (verifies_email token now) = verify_email_of-Writes a token now v
Step-Writes {a} {v} (resends email d) = resend_verification-Writes a email d v
Step-Writes {a} {v} (forgets email d) = forgot_password-Writes a email d v
Step-Writes {a} {v} (resets token password hash now) =
    reset_password_of-Writes a token password hash now v
Step-Writes {a} {v} (logs_in email password ip d) = login_user-Writes a email password ip d v
Step-Writes {a} {v} (logs_in_mfa token code ip d) = mfa_login_verify-Writes a token code ip d v
Step-Writes {a} {v} (refreshes token d) = refresh-Writes a token d v
Step-Writes {a} {v} (logs_out token jti session now) = log_out-Writes a token jti session now v
Step-Writes {a} {v} (logs_out_all user jti now) = log_out_all-Writes a user jti now v
Step-Writes {a} {v} (ends_session user session) = revoke_session-Writes user session v
Step-Writes {a} {v} (enables user secret now) = totp_enable-Writes user secret now v
Step-Writes {a} {v} (confirms_totp user code iv drawn now) =
    totp_verify-Writes a user code iv drawn now v
Step-Writes {a} {v} (validates user code now) = totp_validate-Writes a user code now v
Step-Writes {a} {v} (disables user password code now) =
    totp_disable-Writes a user password code now v
Step-Writes {a} {v} (changes_password user current new hash code jti now) =
    change_password-Writes a user current new hash code jti now v
Step-Writes {a} {v} (requests_email user current email d) =
    request_change_email-Writes a user current email d v
Step-Writes {a} {v} (confirms_email token now) = confirm_change_email-Writes a token now v
Step-Writes {a} {v} (deactivates user password code jti now) =
    deactivate-Writes a user password code jti now v

pub Reach-Writes : {a : AuthService} {v w : World} → Reach a v w → Writes v.db w.db
Reach-Writes here = done
Reach-Writes (next before step) = join (Reach-Writes before) (Step-Writes step)
