-- ===== src/Auth/MfaFlows.antt =====
-- Each flow of the second factor of src/auth/auth.service.ts as a sequence of writes.
use vovinam_api_node.Base.{
  ℕ, refl, Bool, not, ◌&&◌, Option, none, some, List, Text, ◌==◌, is_some, length, find_first,
  Bool-cases, inl, inr,
}
use vovinam_api_node.Schema.{RecoveryCode, TotpCredential, Database}
use vovinam_api_node.Service.{World, resume, or_throw, commit, when, throw_if}
use vovinam_api_node.SharedStore.InMemory.{in_memory}
use vovinam_api_node.Auth.Seal.{unseal, seal}
use vovinam_api_node.Auth.Tokens.{AuthService, TokenKind, verify_token}
use vovinam_api_node.Auth.Totp.{assert_not_locked}
use vovinam_api_node.Auth.Users.{by_id, update_user, revoke_all, bump, credential_of}
use vovinam_api_node.Auth.Login.{Draw, issue_session, alert_on_new_ip, is_disabled}
use vovinam_api_node.Auth.Account.{check_totp, verify_sensitive}
use vovinam_api_node.Auth.Mfa.{
  stash, totp_enable, take_secret, insert_credential, totp_verify, totp_validate, drop_factor,
  totp_disable, recover, spend, is_code, complete_login, pending_user, mfa_login_verify,
}
use vovinam_api_node.Auth.Writes.{
  SameAccounts, elsewhere, Writes, done, one, join, through, or_throw-Writes, commit-Writes,
  when-Writes, update_user-Writes, revoke_all-Writes,
}
use vovinam_api_node.Auth.Flows.{bump-IsCareful, issue_session-Writes, alert_on_new_ip-Writes}
use vovinam_api_node.Auth.AccountFlows.{verify_sensitive-Writes}

abbrev not_accounts : {db v : Database} → SameAccounts db v → Writes db v
not_accounts s = one (elsewhere s)

pub totp_enable-Writes :
    (user : ℕ) (secret : Text) (now : ℕ) (w : World)
    → Writes w.db (totp_enable user secret now w).1.db
unfolding totp_enable stash
totp_enable-Writes user secret now w =
    through (throw_if (is_some (credential_of user w.db)) _ w) _ done λ x v.
      through (or_throw (by_id user v.db) _ v) _ (or_throw-Writes (by_id user v.db) _ v) λ u v. done

insert_credential-Writes :
    (c : TotpCredential) (w : World) → Writes w.db (insert_credential c w).1.db
unfolding insert_credential
insert_credential-Writes c w =
    through (throw_if (is_some (credential_of c.user_id w.db)) _ w) _ done λ x v.
      not_accounts
        (record { users = refl; sessions = refl; refresh_tokens = refl; used_tokens = refl })

take_secret-Writes : (now user : ℕ) (w : World) → Writes w.db (take_secret now user w).1.db
unfolding take_secret
take_secret-Writes now user w = done

pub totp_verify-Writes :
    (a : AuthService) (user : ℕ) (code iv : Text) (drawn : List (ℕ × Text)) (now : ℕ) (w : World)
    → Writes w.db (totp_verify a user code iv drawn now w).1.db
unfolding totp_verify check_totp
totp_verify-Writes a user code iv drawn now w =
    through (take_secret now user w) _ (take_secret-Writes now user w) λ found v.
      through (or_throw found _ v) _ (or_throw-Writes found _ v) λ secret v.
        through (check_totp a now user secret code v) _ done λ right v.
          through (throw_if (not right) _ v) _ done λ x v.
            let c : TotpCredential = record {
              user_id = user;
              secret_encrypted = seal a.cipher iv secret;
            } in
            let out = insert_credential c v in
            through (commit v.db (resume out _)) _
              (commit-Writes (resume out _) (
                through out _ (insert_credential-Writes c v) λ x v. not_accounts (record {
                  users = refl;
                  sessions = refl;
                  refresh_tokens = refl;
                  used_tokens = refl;
                })))
              λ x v. done

pub totp_validate-Writes :
    (a : AuthService) (user : ℕ) (code : Text) (now : ℕ) (w : World)
    → Writes w.db (totp_validate a user code now w).1.db
unfolding totp_validate check_totp
totp_validate-Writes a user code now w =
    through (or_throw (credential_of user w.db) _ w) _
      (or_throw-Writes (credential_of user w.db) _ w)
      λ c v.
        let sealed = unseal a.cipher c.secret_encrypted in
        through (or_throw sealed _ v) _ (or_throw-Writes sealed _ v)
          λ secret v. through (check_totp a now user secret code v) _ done λ right v. done

pub totp_disable-Writes :
    (a : AuthService) (user : ℕ) (password : Text) (code : Option Text) (now : ℕ) (w : World)
    → Writes w.db (totp_disable a user password code now w).1.db
unfolding totp_disable
totp_disable-Writes a user password code now w =
    through (or_throw (by_id user w.db) _ w) _ (or_throw-Writes (by_id user w.db) _ w) λ u v.
      through (verify_sensitive a now u password code v) _
        (verify_sensitive-Writes a now u password code v)
        λ x v.
          let dropped : World = record v { db = drop_factor user v.db } in
          let out = update_user user bump (revoke_all user dropped).1 in
          through (commit v.db out) _
            (commit-Writes out (
              join
                (join
                  (not_accounts (record {
                    users = refl;
                    sessions = refl;
                    refresh_tokens = refl;
                    used_tokens = refl;
                  }))
                  (revoke_all-Writes user dropped))
                (update_user-Writes user bump _ bump-IsCareful)))
            λ x v. done

spend-Writes : (o : Option RecoveryCode) (now : ℕ) (w : World) → Writes w.db (spend o now w).1.db
spend-Writes none now w = done
spend-Writes (some c) now w =
    not_accounts
      (record { users = refl; sessions = refl; refresh_tokens = refl; used_tokens = refl })

recover-Writes :
    (a : AuthService) (user : ℕ) (code : Text) (right : Bool) (now : ℕ) (w : World)
    → Writes w.db (recover a user code right now w).1.db
unfolding recover
recover-Writes a user code right now w = elim (Bool-cases (not right && (length code == 8))) [
  | inl c ↦
      rw c (spend-Writes (find_first (is_code user (a.sha256 code)) w.db.recovery_codes) now w)
  | inr c ↦ rw c done
]

complete_login-Writes :
    (a : AuthService) (user : ℕ) (recovered : Bool) (ip : Option Text) (d : Draw) (w : World)
    → Writes w.db (complete_login a user recovered ip d w).1.db
unfolding complete_login
complete_login-Writes a user recovered ip d w =
    through (or_throw (by_id user w.db) _ w) _ (or_throw-Writes (by_id user w.db) _ w) λ u v.
      through (throw_if (is_disabled u) _ v) _ done λ x v.
        through (issue_session a u.id d v) _ (issue_session-Writes a u.id d v) λ tokens v.
          through (alert_on_new_ip u ip d.now v) _ (alert_on_new_ip-Writes u ip d.now v)
            λ x v. through (when recovered _ _) _ (when-Writes recovered _ _ done) λ x v. done

pub mfa_login_verify-Writes :
    (a : AuthService) (token code : Text) (ip : Option Text) (d : Draw) (w : World)
    → Writes w.db (mfa_login_verify a token code ip d w).1.db
unfolding mfa_login_verify check_totp
mfa_login_verify-Writes a token code ip d w =
    let user_found = pending_user (verify_token a d.now token TokenKind.mfa_pending) in
    through (or_throw user_found _ w) _ (or_throw-Writes user_found _ w) λ user v.
      through ((assert_not_locked in_memory d.now user v.store).0, _) _ done
        λ x v.
          through (or_throw (credential_of user v.db) _ v) _
            (or_throw-Writes (credential_of user v.db) _ v)
            λ c v.
              let sealed = unseal a.cipher c.secret_encrypted in
              through (or_throw sealed _ v) _ (or_throw-Writes sealed _ v) λ secret v.
                through (check_totp a d.now user secret code v) _ done λ right v.
                  through (recover a user code right d.now v) _
                    (recover-Writes a user code right d.now v)
                    λ recovered v.
                      through (throw_if (not right && not recovered) _ v) _ done
                        λ x v. complete_login-Writes a user recovered ip d v
