-- ===== src/Auth/Outdated.antt =====
-- An access token from before a change of the credentials does not pass the guard: the changes by a token
-- of a mail, and the guard.
use vovinam_api_node.Base.{
  ℕ, ◌≡◌, refl, sym, true, Option, some, Text, arith, is_some, find_first, Bool-cases, Option-cases,
  inl, inr,
}
use vovinam_api_node.Schema.{User, TokenPurpose}
use vovinam_api_node.Service.{
  ok, err, World, Action, resume, commit, caught, unauthorized, Ensures, Ensures-of_db,
  chain-Ensures, then-Ensures, commit-then, caught-then, ok-Ensures,
}
use vovinam_api_node.SharedStore.Memory.{get}
use vovinam_api_node.Auth.Tokens.{AuthService}
use vovinam_api_node.Auth.Users.{
  invalid_token, by_id, by_email, update_user, revoke_all, use_token, ActionToken, action_of,
  parse_action_token, denylist_key,
}
use vovinam_api_node.Auth.Guards.{
  AccessClaims, header_claims, jwt_guard, read_denylist, is_refused_user,
}
use vovinam_api_node.Auth.Sessions.{log_out_all}
use vovinam_api_node.Auth.Account.{
  is_weak_new, new_password_row, reset_account, reset_password_of, change_password, new_email_row,
  update_email, other_has, change_account, confirm_change_email, deactivate,
}
use vovinam_api_node.Auth.Mfa.{totp_disable}
use vovinam_api_node.Auth.Writes.{use_token-Writes}
use vovinam_api_node.Auth.AccountFlows.{new_password-IsCareful, new_email-IsCareful}
use vovinam_api_node.Auth.Steps.{Reach, Reach-Writes}
use vovinam_api_node.Auth.Versions.{
  Has, Outdated, IsOutdated, Writes-Has, later-Outdated, update_user-Outdated, log_out_all-Outdated,
  change_password-Outdated, deactivate-Outdated, totp_disable-Outdated,
}

-- The flows whose transaction uses up a token first
module _ (k n jti : ℕ) (purpose : TokenPurpose) (now : ℕ) (rest : Action (Unit {0}))
    (next : (v : World) → Has k n v.db → Ensures (Outdated k n) (rest v)) where
  after_token-Outdated :
      (w : World)
      → Has k n w.db
      → Ensures
          (Outdated k n)
          (caught invalid_token (commit w.db (resume (use_token jti k purpose now w) λ u. rest)))
  after_token-Outdated w h =
      let P = Outdated k n in
      caught-then P invalid_token _ (
        commit-then P w.db _ (
          chain-Ensures (Has k n) P (use_token jti k purpose now w) (λ u. rest)
            (Ensures-of_db (Has k n) _ (Writes-Has k n (use_token-Writes jti k purpose now w) h))
            λ u v p. next v p))

reset_password_of-Outdated :
    (a : AuthService) (token password hash : Text) (now n : ℕ) (t : ActionToken) (w : World)
    → action_of a now token TokenPurpose.reset_password ≡ some t
    → Has t.user_id n w.db
    → Ensures (Outdated t.user_id n) (reset_password_of a token password hash now w)
unfolding reset_password_of parse_action_token
reset_password_of-Outdated a token password hash now n t w found h =
    let k = t.user_id in
    let P = Outdated k n in
    let f = new_password_row hash in
    elim (Bool-cases (is_weak_new a password)) [
      | inl weak ↦ rw weak tt
      | inr strong ↦
          rw (strong, found)
            (then-Ensures P (caught invalid_token (commit w.db (reset_account t hash now w))) _
              (λ u v p. p)
              (after_token-Outdated k n t.jti TokenPurpose.reset_password now
                (λ v. resume (update_user k f v) λ u. revoke_all k)
                (λ v p.
                  then-Ensures P (update_user k f v) (λ u. revoke_all k) (λ u v p. p)
                    (update_user-Outdated k n f (new_password-IsCareful hash)
                      (λ u le. inl (omega (arith, le))) v p))
                w h))
    ]

update_email-Outdated :
    (target : Text) (k now n : ℕ) (v : World)
    → Has k n v.db
    → Ensures (Outdated k n) (update_email k target now v)
unfolding update_email
update_email-Outdated target k now n v p =
    elim (Bool-cases (is_some (find_first (other_has target k) v.db.users))) [
      | inl taken ↦ rw taken tt
      | inr free ↦ rw free (
          update_user-Outdated k n (new_email_row target now) (new_email-IsCareful target now)
            (λ u le. inl (omega (arith, le))) v p)
    ]

confirm_change_email-Outdated :
    (a : AuthService) (token : Text) (now n : ℕ) (t : ActionToken) (w : World)
    → action_of a now token TokenPurpose.change_email ≡ some t
    → Has t.user_id n w.db
    → Ensures (Outdated t.user_id n) (confirm_change_email a token now w)
unfolding confirm_change_email parse_action_token
confirm_change_email-Outdated a token now n t w found h =
    let k = t.user_id in
    let P = Outdated k n in
    elim (Option-cases t.target) [
      | inl e ↦ rw (found, e) tt
      | inr (target, e) ↦ elim (Bool-cases (is_some (by_email target w.db))) [
        | inl taken ↦ rw (found, e, taken) tt
        | inr free ↦
            rw (found, e, free)
              (then-Ensures P (caught invalid_token (commit w.db (change_account t target now w))) _
                (λ u v p. p)
                (after_token-Outdated k n t.jti TokenPurpose.change_email now
                  (λ v. resume (update_email k target now v) λ u. revoke_all k)
                  (λ v p.
                    then-Ensures P (update_email k target now v) (λ u. revoke_all k) (λ u v p. p)
                      (update_email-Outdated target k now n v p))
                  w h))
      ]
    ]

-- A flow that has changed the credentials of the account k, or closed it.
pub data Changes (a : AuthService) (k : ℕ) : World → World → Type 0 where
  everywhere :
      {w : World} (jti now : ℕ)
      → (log_out_all a k jti now w).0 ≡ ok tt
      → Changes a k w (log_out_all a k jti now w).1
  by_password :
      {w : World} (current new hash : Text) (code : Option Text) (jti now : ℕ)
      → (change_password a k current new hash code jti now w).0 ≡ ok tt
      → Changes a k w (change_password a k current new hash code jti now w).1
  by_reset :
      {w : World} (token password hash : Text) (now : ℕ) (t : ActionToken)
      → action_of a now token TokenPurpose.reset_password ≡ some t
      → t.user_id ≡ k
      → (reset_password_of a token password hash now w).0 ≡ ok tt
      → Changes a k w (reset_password_of a token password hash now w).1
  by_email_change :
      {w : World} (token : Text) (now : ℕ) (t : ActionToken)
      → action_of a now token TokenPurpose.change_email ≡ some t
      → t.user_id ≡ k
      → (confirm_change_email a token now w).0 ≡ ok tt
      → Changes a k w (confirm_change_email a token now w).1
  no_totp :
      {w : World} (password : Text) (code : Option Text) (now : ℕ)
      → (totp_disable a k password code now w).0 ≡ ok tt
      → Changes a k w (totp_disable a k password code now w).1
  closing :
      {w : World} (password : Text) (code : Option Text) (jti now : ℕ)
      → (deactivate a k password code jti now w).0 ≡ ok tt
      → Changes a k w (deactivate a k password code jti now w).1

Changes-Outdated :
    {a : AuthService} {k : ℕ} {w v : World} (n : ℕ)
    → Changes a k w v
    → Has k n w.db
    → Outdated k n v.db
Changes-Outdated {a} {k} {w} n (everywhere jti now fine) h =
    ok-Ensures (Outdated k n) _ tt fine (log_out_all-Outdated a k jti now n w h)
Changes-Outdated {a} {k} {w} n (by_password current new hash code jti now fine) h =
    ok-Ensures (Outdated k n) _ tt fine
      (change_password-Outdated a k current new hash code jti now n w h)
Changes-Outdated {a} {k} {w} n (by_reset token password hash now t found same fine) h =
    rw (sym same) (
      ok-Ensures (Outdated t.user_id n) _ tt fine
        (reset_password_of-Outdated a token password hash now n t w found (rw same h)))
Changes-Outdated {a} {k} {w} n (by_email_change token now t found same fine) h = rw (sym same) (
    ok-Ensures (Outdated t.user_id n) _ tt fine
      (confirm_change_email-Outdated a token now n t w found (rw same h)))
Changes-Outdated {a} {k} {w} n (no_totp password code now fine) h =
    ok-Ensures (Outdated k n) _ tt fine (totp_disable-Outdated a k password code now n w h)
Changes-Outdated {a} {k} {w} n (closing password code jti now fine) h =
    ok-Ensures (Outdated k n) _ tt fine (deactivate-Outdated a k password code jti now n w h)

outdated-IsRefused : (n : ℕ) (u : User) → IsOutdated n u → is_refused_user (some n) u ≡ true
outdated-IsRefused n u (inl newer) = ground (arith, newer)
outdated-IsRefused n u (inr shut) = ground (arith, shut)

-- After a sign-out everywhere, a new password, a reset, a new address, the end of the second factor or the
-- closing of the account, whatever flows follow, the guard refuses each access token that was issued for
-- the account as it was before.
pub jwt_guard-refuses_outdated :
    (a : AuthService) (k now : ℕ) (header : Option Text) (c : AccessClaims) (u : User)
    (w v x : World)
    → by_id k w.db ≡ some u
    → Changes a k w v
    → Reach a v x
    → header_claims a now header ≡ some c
    → c.sub ≡ k
    → c.pwdver ≡ some u.pwd_version
    → (jwt_guard a now header x).0 ≡ err (unauthorized "Unauthorized")
unfolding jwt_guard read_denylist
jwt_guard-refuses_outdated a k now header c u w v x at changes path claims same version =
    let (y, there, out) =
      later-Outdated k u.pwd_version (Reach-Writes path)
        (Changes-Outdated u.pwd_version changes (u, at, omega arith)) in
    let known : by_id c.sub x.db ≡ some y = rw same there in
    let bad : is_refused_user c.pwdver y ≡ true =
      rw version (outdated-IsRefused u.pwd_version y out) in
    elim (Bool-cases (is_some (get now (denylist_key c.jti) x.store).0)) [
      | inl denied ↦ rw (claims, denied) refl
      | inr fine ↦ rw (claims, fine, known, bad) refl
    ]
