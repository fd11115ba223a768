-- ===== src/Auth/ActionTokens.antt =====
-- The tokens of the mails are used once (`verifyEmail`, `resetPassword` and `confirmChangeEmail` of
-- src/auth/auth.service.ts).
use vovinam_api_node.Base.{
  ℕ, ◌≡◌, sym, ◌∙◌, ap, none, some, Text, is_some, find_unique, find_unique-append, Bool-cases,
  Option-cases, inl, inr, ==_refl, if◌then◌else◌,
}
use vovinam_api_node.Schema.{TokenPurpose, Database}
use vovinam_api_node.Service.{
  ok, World, Action, resume, commit, caught, Ensures, Ensures-of_db, then-Ensures, commit-then,
  caught-then, ok-Ensures,
}
use vovinam_api_node.Auth.Tokens.{AuthService}
use vovinam_api_node.Auth.Users.{
  invalid_token, used_key, by_email, update_user, revoke_all, use_token, used_row, add_used,
  ActionToken, action_of, parse_action_token,
}
use vovinam_api_node.Auth.Account.{
  is_weak_new, new_password_row, reset_account, reset_password_of, update_email, change_account,
  confirm_change_email,
}
use vovinam_api_node.Auth.Registration.{verified_row, verify_account, verify_email_of}
use vovinam_api_node.Auth.Writes.{Writes, update_user-Writes, revoke_all-Writes, through}
use vovinam_api_node.Auth.AccountFlows.{
  new_password-IsCareful, update_then_revoke, update_email-Writes,
}
use vovinam_api_node.Auth.RegistrationFlows.{verified-IsCareful}
use vovinam_api_node.Auth.Steps.{Reach, Reach-Writes}
use vovinam_api_node.Auth.Kept.{IsUsed, Writes-IsUsed}

-- What only a program that throws ensures.
abbrev Never : Database → Type 0
Never db = ⊥

-- The body of the three transactions: the id of the token is used up, then something is written.
module _ (jti user : ℕ) (purpose : TokenPurpose) (now : ℕ) (rest : Action (Unit {0})) where
  abbrev body : Action (Unit {0})
  body w = caught invalid_token (commit w.db (resume (use_token jti user purpose now w) λ u. rest))

  body-IsUsed :
      (w : World) → ((v : World) → Writes v.db (rest v).1.db) → Ensures (IsUsed jti) (body w)
  unfolding use_token
  body-IsUsed w writes =
      let row = used_row jti user purpose now in
      let after : World = record w { db = add_used row w.db } in
      elim (Option-cases (find_unique used_key jti w.db.used_tokens)) [
        | inr (t, taken) ↦ rw taken tt
        | inl free ↦
            let there : find_unique used_key jti after.db.used_tokens ≡ some row =
              find_unique-append used_key jti w.db.used_tokens row free
              ∙ ap (λ c. if c then some row else none) (==_refl jti) in
            rw free (
              caught-then (IsUsed jti) invalid_token (commit w.db (rest after)) (
                commit-then (IsUsed jti) w.db (rest after) (
                  Ensures-of_db (IsUsed jti) (rest after)
                    (Writes-IsUsed jti (writes after) (row, there)))))
      ]

  body-Never : (w : World) → IsUsed jti w.db → Ensures Never (body w)
  unfolding use_token
  body-Never w (t, taken) = rw taken tt

verify_account-Writes :
    (t : ActionToken) (now : ℕ) (v : World)
    → Writes v.db (update_user t.user_id (verified_row now) v).1.db
verify_account-Writes t now v =
    update_user-Writes t.user_id (verified_row now) v (verified-IsCareful now)

change_account-Writes :
    (t : ActionToken) (target : Text) (now : ℕ) (v : World)
    → Writes v.db (resume (update_email t.user_id target now v) λ u. revoke_all t.user_id).1.db
change_account-Writes t target now v =
    through (update_email t.user_id target now v) _ (update_email-Writes t.user_id target now v)
      λ u x. revoke_all-Writes t.user_id x

-- The three flows, with what their transaction ensures.
module _ (P : Database → Type 0) (a : AuthService) (token : Text) (now : ℕ) (t : ActionToken)
    (w : World) where
  verify_email_of-Ensures :
      action_of a now token TokenPurpose.verify_email ≡ some t
      → Ensures P (caught invalid_token (commit w.db (verify_account t now w)))
      → Ensures P (verify_email_of a token now w)
  unfolding verify_email_of parse_action_token
  verify_email_of-Ensures found h = rw found (
      then-Ensures P (caught invalid_token (commit w.db (verify_account t now w))) _ (λ u v p. p) h)

  reset_password_of-Ensures :
      (password hash : Text)
      → action_of a now token TokenPurpose.reset_password ≡ some t
      → Ensures P (caught invalid_token (commit w.db (reset_account t hash now w)))
      → Ensures P (reset_password_of a token password hash now w)
  unfolding reset_password_of parse_action_token
  reset_password_of-Ensures password hash found h = elim (Bool-cases (is_weak_new a password)) [
    | inl weak ↦ rw weak tt
    | inr strong ↦
        rw (strong, found)
          (then-Ensures P (caught invalid_token (commit w.db (reset_account t hash now w))) _
            (λ u v p. p) h)
  ]

  confirm_change_email-Ensures :
      action_of a now token TokenPurpose.change_email ≡ some t
      → ((target : Text)
          → Ensures P (caught invalid_token (commit w.db (change_account t target now w))))
      → Ensures P (confirm_change_email a token now w)
  unfolding confirm_change_email parse_action_token
  confirm_change_email-Ensures found h = elim (Option-cases t.target) [
    | inl e ↦ rw (found, e) tt
    | inr (target, e) ↦ elim (Bool-cases (is_some (by_email target w.db))) [
      | inl taken ↦ rw (found, e, taken) tt
      | inr free ↦
          rw (found, e, free)
            (then-Ensures P (caught invalid_token (commit w.db (change_account t target now w))) _
              (λ u v p. p) (h target))
    ]
  ]

-- A flow that has accepted a mailed token with the id jti.
pub data Accepts (a : AuthService) (jti : ℕ) : World → World → Type 0 where
  by_verification :
      {w : World} (token : Text) (now : ℕ) (t : ActionToken)
      → action_of a now token TokenPurpose.verify_email ≡ some t
      → t.jti ≡ jti
      → (verify_email_of a token now w).0 ≡ ok tt
      → Accepts a jti w (verify_email_of a token now w).1
  by_recovery :
      {w : World} (token password hash : Text) (now : ℕ) (t : ActionToken)
      → action_of a now token TokenPurpose.reset_password ≡ some t
      → t.jti ≡ jti
      → (reset_password_of a token password hash now w).0 ≡ ok tt
      → Accepts a jti w (reset_password_of a token password hash now w).1
  by_confirmation :
      {w : World} (token : Text) (now : ℕ) (t : ActionToken)
      → action_of a now token TokenPurpose.change_email ≡ some t
      → t.jti ≡ jti
      → (confirm_change_email a token now w).0 ≡ ok tt
      → Accepts a jti w (confirm_change_email a token now w).1

Accepts-IsUsed : {a : AuthService} {jti : ℕ} {w v : World} → Accepts a jti w v → IsUsed jti v.db
Accepts-IsUsed {a} {jti} {w} (by_verification token now t found same fine) = rw (sym same) (
    ok-Ensures (IsUsed t.jti) (verify_email_of a token now w) tt fine (
      verify_email_of-Ensures (IsUsed t.jti) a token now t w found (
        body-IsUsed t.jti t.user_id TokenPurpose.verify_email now _ w
          (verify_account-Writes t now))))
Accepts-IsUsed {a} {jti} {w} (by_recovery token password hash now t found same fine) =
    rw (sym same) (
      ok-Ensures (IsUsed t.jti) (reset_password_of a token password hash now w) tt fine (
        reset_password_of-Ensures (IsUsed t.jti) a token now t w password hash found (
          body-IsUsed t.jti t.user_id TokenPurpose.reset_password now _ w
            (update_then_revoke t.user_id (new_password_row hash) (new_password-IsCareful hash)))))
Accepts-IsUsed {a} {jti} {w} (by_confirmation token now t found same fine) = rw (sym same) (
    ok-Ensures (IsUsed t.jti) (confirm_change_email a token now w) tt fine (
      confirm_change_email-Ensures (IsUsed t.jti) a token now t w found λ target.
        body-IsUsed t.jti t.user_id TokenPurpose.change_email now _ w
          (change_account-Writes t target now)))

used-Accepts : {a : AuthService} {jti : ℕ} {w v : World} → IsUsed jti w.db → ¬ Accepts a jti w v
used-Accepts {a} {jti} {w} used (by_verification token now t found same fine) =
    ok-Ensures Never (verify_email_of a token now w) tt fine (
      verify_email_of-Ensures Never a token now t w found
        (body-Never t.jti t.user_id TokenPurpose.verify_email now _ w (rw same used)))
used-Accepts {a} {jti} {w} used (by_recovery token password hash now t found same fine) =
    ok-Ensures Never (reset_password_of a token password hash now w) tt fine (
      reset_password_of-Ensures Never a token now t w password hash found
        (body-Never t.jti t.user_id TokenPurpose.reset_password now _ w (rw same used)))
used-Accepts {a} {jti} {w} used (by_confirmation token now t found same fine) =
    ok-Ensures Never (confirm_change_email a token now w) tt fine (
      confirm_change_email-Ensures Never a token now t w found
        λ target. body-Never t.jti t.user_id TokenPurpose.change_email now _ w (rw same used))

-- A mailed token that one of the three flows has accepted is accepted by none of them again, whatever flows
-- have followed.
pub Accepts-once :
    {a : AuthService} {jti : ℕ} {w v x y : World}
    → Accepts a jti w v
    → Reach a v x
    → ¬ Accepts a jti x y
Accepts-once {jti} first path =
    used-Accepts (Writes-IsUsed jti (Reach-Writes path) (Accepts-IsUsed first))
