-- ===== src/Auth/RegistrationFlows.antt =====
-- Each flow of src/auth/auth.service.ts as a sequence of writes: registration and the mailed tokens.
use vovinam_api_node.Base.{
  ℕ, ◌≡◌, refl, ◌&&◌, Option, none, some, Text, arith, leb, is_none, is_some, Bool-cases,
  Option-cases, inl, inr,
}
use vovinam_api_node.Schema.{User, TokenPurpose, Database}
use vovinam_api_node.Service.{
  Error, Result, World, Action, resume, or_throw, commit, caught, when, throw_if,
}
use vovinam_api_node.SharedStore.Memory.{increment}
use vovinam_api_node.Auth.Tokens.{AuthService}
use vovinam_api_node.Auth.Users.{
  by_id, by_email, use_token, action_of, parse_action_token, invalid_token,
}
use vovinam_api_node.Auth.Login.{Draw}
use vovinam_api_node.Auth.Registration.{
  Day, RegisterDto, new_user, insert_user, register, verified_row, verify_email_of, verify_account,
  is_weak, is_minor, resend_verification_to, send_reset_to, mail_verification, mail_reset,
  verify_mail_key, reset_mail_key, count_mail, resend_to, resend_verification, recover_to,
  forgot_password,
}
use vovinam_api_node.Auth.Writes.{
  IsCareful, add_account, Writes, done, one, through, or_throw-Writes, commit-Writes, caught-Writes,
  when-Writes, update_user-Writes, use_token-Writes,
}

insert_user-Writes : (u : User) (w : World) → Writes w.db (insert_user u w).1.db
unfolding insert_user
insert_user-Writes u w = elim (Option-cases (by_id u.id w.db)) [
  | inr (x, taken) ↦ rw taken done
  | inl free ↦ elim (Bool-cases (is_some (by_email u.email w.db))) [
    | inl taken ↦ rw (free, taken) done
    | inr new ↦ rw (free, new) (one (add_account u free))
  ]
]

pub register-Writes :
    (a : AuthService) (dto : RegisterDto) (today : Day) (new_id : ℕ) (hash : Text) (d : Draw)
    (w : World)
    → Writes w.db (register a dto today new_id hash d w).1.db
unfolding register
register-Writes a dto today new_id hash d w = through (throw_if (is_weak a dto) _ w) _ done λ u v.
    through (throw_if (is_minor dto today) _ v) _ done λ u v.
      elim (Bool-cases (is_some (by_email dto.email v.db))) [
        | inl known ↦ rw known done
        | inr new ↦ rw new (
            through (insert_user (new_user new_id dto hash) v) _ (insert_user-Writes _ v)
              λ x t. done)
      ]

-- A write inside a transaction whose failure is answered as an invalid token
pub caught_commit :
    {db : Database} (e : Error) (out : Result (Unit {0}) × World)
    → Writes db out.1.db
    → Writes db (caught e (commit db out)).1.db
caught_commit e out p = caught-Writes e (commit _ out) (commit-Writes out p)

pub verified-IsCareful : (now : ℕ) → IsCareful (verified_row now)
verified-IsCareful now = record {
  same_id = λ u. refl;
  version = λ u. omega arith;
  closed = λ u p. p;
}

pub verify_email_of-Writes :
    (a : AuthService) (token : Text) (now : ℕ) (w : World)
    → Writes w.db (verify_email_of a token now w).1.db
unfolding verify_email_of parse_action_token
verify_email_of-Writes a token now w =
    let found = action_of a now token TokenPurpose.verify_email in
    through (or_throw found _ w) _ (or_throw-Writes found _ w) λ t v.
      through (caught invalid_token (commit v.db (verify_account t now v))) _
        (caught_commit invalid_token (verify_account t now v) (
          through (use_token t.jti t.user_id TokenPurpose.verify_email now v) _
            (use_token-Writes t.jti t.user_id TokenPurpose.verify_email now v)
            λ u x. update_user-Writes t.user_id (verified_row now) x (verified-IsCareful now)))
        λ u x. done

-- A budgeted mail
budget-Writes :
    (now : ℕ) (key : Text) (mail : Action (Unit {0})) (f : Unit {0} → Action (Unit {0})) (w : World)
    → ((v : World) → (mail v).1.db ≡ v.db)
    → ((u : Unit {0}) (v : World) → (f u v).1.db ≡ v.db)
    → Writes w.db (resume (count_mail now key w) λ sent v. resume (when (leb sent 5) mail v) f).1.db
unfolding count_mail
budget-Writes now key mail f w quiet after =
    through (when (leb (increment now key (some 3600000) w.store).0 5) mail _) f
      (when-Writes (leb (increment now key (some 3600000) w.store).0 5) mail _ (rw (quiet _) done))
      λ u v. rw (after u v) done

resend_to-Writes :
    (a : AuthService) (o : Option User) (d : Draw) (w : World)
    → Writes w.db (resend_to a o d w).1.db
resend_to-Writes a none d w = done
resend_to-Writes a (some u) d w =
    when-Writes (is_none u.deleted_at && (u.is_active && is_none u.email_verified_at))
      (resend_verification_to a u d) w
      (budget-Writes d.now (verify_mail_key u.id) (mail_verification a u d) _ w (λ v. refl)
        λ u v. refl)

recover_to-Writes :
    (a : AuthService) (o : Option User) (d : Draw) (w : World)
    → Writes w.db (recover_to a o d w).1.db
recover_to-Writes a none d w = done
recover_to-Writes a (some u) d w =
    when-Writes (is_none u.deleted_at && u.is_active) (send_reset_to a u d) w
      (budget-Writes d.now (reset_mail_key u.id) (mail_reset a u d) _ w (λ v. refl) λ u v. refl)

pub resend_verification-Writes :
    (a : AuthService) (email : Text) (d : Draw) (w : World)
    → Writes w.db (resend_verification a email d w).1.db
unfolding resend_verification
resend_verification-Writes a email d w = resend_to-Writes a (by_email email w.db) d w

pub forgot_password-Writes :
    (a : AuthService) (email : Text) (d : Draw) (w : World)
    → Writes w.db (forgot_password a email d w).1.db
unfolding forgot_password
forgot_password-Writes a email d w = recover_to-Writes a (by_email email w.db) d w
