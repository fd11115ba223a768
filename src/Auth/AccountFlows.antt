-- ===== src/Auth/AccountFlows.antt =====
-- Each flow of src/auth/auth.service.ts as a sequence of writes: the life of an account.
use vovinam_api_node.Base.{
  ℕ, refl, not, Option, none, some, Text, arith, is_some, find_first, Option-cases, inl, inr,
}
use vovinam_api_node.Schema.{User, TokenPurpose}
use vovinam_api_node.Service.{World, resume, or_throw, commit, caught, throw_if}
use vovinam_api_node.Auth.Tokens.{AuthService}
use vovinam_api_node.Auth.Seal.{unseal}
use vovinam_api_node.Auth.Users.{
  by_id, by_email, update_user, revoke_all, deny, credential_of, use_token, action_of,
  parse_action_token, invalid_token,
}
use vovinam_api_node.Auth.Login.{Draw}
use vovinam_api_node.Auth.Account.{
  reset_account, change_account, is_weak_new, new_password_row, reset_password_of, check_totp,
  second_factor, verify_sensitive, change_password, request_change_email, new_email_row,
  update_email, other_has, confirm_change_email, closed_row, deactivate,
}
use vovinam_api_node.Auth.Writes.{
  IsCareful, Writes, done, through, or_throw-Writes, commit-Writes, update_user-Writes,
  use_token-Writes, revoke_all-Writes,
}
use vovinam_api_node.Auth.RegistrationFlows.{caught_commit}

pub new_password-IsCareful : (hash : Text) → IsCareful (new_password_row hash)
new_password-IsCareful hash = record {
  same_id = λ u. refl;
  version = λ u. omega arith;
  closed = λ u p. p;
}

pub new_email-IsCareful : (email : Text) (now : ℕ) → IsCareful (new_email_row email now)
new_email-IsCareful email now = record {
  same_id = λ u. refl;
  version = λ u. omega arith;
  closed = λ u p. p;
}

pub closed-IsCareful : (now : ℕ) → IsCareful (closed_row now)
closed-IsCareful now = record {
  same_id = λ u. refl;
  version = λ u. omega arith;
  closed = λ u p. refl;
}

pub update_then_revoke :
    (k : ℕ) (f : User → User)
    → IsCareful f
    → (w : World) → Writes w.db (resume (update_user k f w) λ u. revoke_all k).1.db
update_then_revoke k f careful w =
    through (update_user k f w) _ (update_user-Writes k f w careful) λ u v. revoke_all-Writes k v

pub reset_password_of-Writes :
    (a : AuthService) (token password hash : Text) (now : ℕ) (w : World)
    → Writes w.db (reset_password_of a token password hash now w).1.db
unfolding reset_password_of parse_action_token
reset_password_of-Writes a token password hash now w =
    let found = action_of a now token TokenPurpose.reset_password in
    through (throw_if (is_weak_new a password) _ w) _ done λ u v.
      through (or_throw found _ v) _ (or_throw-Writes found _ v) λ t v.
        through (caught invalid_token (commit v.db (reset_account t hash now v))) _
          (caught_commit invalid_token (reset_account t hash now v) (
            through (use_token t.jti t.user_id TokenPurpose.reset_password now v) _
              (use_token-Writes t.jti t.user_id TokenPurpose.reset_password now v)
              λ u x.
                update_then_revoke t.user_id (new_password_row hash) (new_password-IsCareful hash)
                  x))
          λ u x. done

-- What the second factor changes is the shared store.
second_factor-Writes :
    (a : AuthService) (now user : ℕ) (sealed : Text) (code : Option Text) (w : World)
    → Writes w.db (second_factor a now user sealed code w).1.db
unfolding check_totp
second_factor-Writes a now user sealed none w = done
second_factor-Writes a now user sealed (some code) w =
    let secret = unseal a.cipher sealed in
    through (or_throw secret _ w) _ (or_throw-Writes secret _ w)
      λ s v. through (check_totp a now user s code v) _ done λ right v. done

pub verify_sensitive-Writes :
    (a : AuthService) (now : ℕ) (u : User) (password : Text) (code : Option Text) (w : World)
    → Writes w.db (verify_sensitive a now u password code w).1.db
unfolding verify_sensitive
verify_sensitive-Writes a now u password code w =
    through (throw_if (not (a.compare password u.password_hash)) _ w) _ done λ x v.
      elim (Option-cases (credential_of u.id v.db)) [
        | inl e ↦ rw e done
        | inr (c, e) ↦ rw e (second_factor-Writes a now u.id c.secret_encrypted code v)
      ]

pub change_password-Writes :
    (a : AuthService) (user : ℕ) (current new hash : Text) (code : Option Text) (jti now : ℕ)
    (w : World)
    → Writes w.db (change_password a user current new hash code jti now w).1.db
unfolding change_password deny
change_password-Writes a user current new hash code jti now w =
    through (throw_if (is_weak_new a new) _ w) _ done λ x v.
      through (or_throw (by_id user v.db) _ v) _ (or_throw-Writes (by_id user v.db) _ v) λ u v.
        through (verify_sensitive a now u current code v) _
          (verify_sensitive-Writes a now u current code v)
          λ x v.
            through
              (commit v.db
                (resume (update_user user (new_password_row hash) v) λ u. revoke_all user))
              _
              (commit-Writes _
                (update_then_revoke user (new_password_row hash) (new_password-IsCareful hash) v))
              λ x v. done

pub request_change_email-Writes :
    (a : AuthService) (user : ℕ) (current email : Text) (d : Draw) (w : World)
    → Writes w.db (request_change_email a user current email d w).1.db
unfolding request_change_email
request_change_email-Writes a user current email d w =
    through (or_throw (by_id user w.db) _ w) _ (or_throw-Writes (by_id user w.db) _ w) λ u v.
      through (verify_sensitive a d.now u current none v) _
        (verify_sensitive-Writes a d.now u current none v)
        λ x v. through (throw_if (is_some (by_email email v.db)) _ v) _ done λ x v. done

pub update_email-Writes :
    (k : ℕ) (email : Text) (now : ℕ) (w : World) → Writes w.db (update_email k email now w).1.db
unfolding update_email
update_email-Writes k email now w =
    through (throw_if (is_some (find_first (other_has email k) w.db.users)) _ w) _ done
      λ x v. update_user-Writes k (new_email_row email now) v (new_email-IsCareful email now)

pub confirm_change_email-Writes :
    (a : AuthService) (token : Text) (now : ℕ) (w : World)
    → Writes w.db (confirm_change_email a token now w).1.db
unfolding confirm_change_email parse_action_token
confirm_change_email-Writes a token now w =
    let found = action_of a now token TokenPurpose.change_email in
    through (or_throw found _ w) _ (or_throw-Writes found _ w) λ t v.
      through (or_throw t.target _ v) _ (or_throw-Writes t.target _ v) λ target v.
        through (throw_if (is_some (by_email target v.db)) _ v) _ done λ x v.
          through (caught invalid_token (commit v.db (change_account t target now v))) _
            (caught_commit invalid_token (change_account t target now v) (
              through (use_token t.jti t.user_id TokenPurpose.change_email now v) _
                (use_token-Writes t.jti t.user_id TokenPurpose.change_email now v)
                λ u x.
                  through (update_email t.user_id target now x) _
                    (update_email-Writes t.user_id target now x)
                    λ u x. revoke_all-Writes t.user_id x))
            λ u x. done

pub deactivate-Writes :
    (a : AuthService) (user : ℕ) (password : Text) (code : Option Text) (jti now : ℕ) (w : World)
    → Writes w.db (deactivate a user password code jti now w).1.db
unfolding deactivate deny
deactivate-Writes a user password code jti now w =
    through (or_throw (by_id user w.db) _ w) _ (or_throw-Writes (by_id user w.db) _ w) λ u v.
      through (verify_sensitive a now u password code v) _
        (verify_sensitive-Writes a now u password code v)
        λ x v.
          through (commit v.db (resume (update_user user (closed_row now) v) λ u. revoke_all user))
            _ (commit-Writes _ (update_then_revoke user (closed_row now) (closed-IsCareful now) v))
            λ x v. done
