-- ===== src/Auth/Versions.antt =====
-- An access token from before a change of the credentials does not pass the guard (src/auth/auth.service.ts
-- with src/auth/guards/jwt-auth.guard.ts).
use vovinam_api_node.Base.{
  ℕ, ◌≤◌, ◌<◌, ◌≡◌, refl, ◌⊎◌, true, false, Option, some, Text, arith, ==_iff, find_unique-key,
  find_unique-update, Bool-cases, inl, inr,
}
use vovinam_api_node.Schema.{User, Database}
use vovinam_api_node.Service.{
  World, Action, resume, commit, Ensures, Ensures-of_db, chain-Ensures, then-Ensures, commit-then,
}
use vovinam_api_node.Auth.Tokens.{AuthService}
use vovinam_api_node.Auth.Users.{user_key, by_id, is_user, update_user, bump, revoke_all, deny}
use vovinam_api_node.Auth.Sessions.{log_out_all}
use vovinam_api_node.Auth.Account.{
  is_weak_new, new_password_row, verify_sensitive, change_password, closed_row, deactivate,
}
use vovinam_api_node.Auth.Mfa.{drop_factor, totp_disable}
use vovinam_api_node.Auth.Writes.{IsCareful, Writes}
use vovinam_api_node.Auth.Flows.{bump-IsCareful}
use vovinam_api_node.Auth.AccountFlows.{
  new_password-IsCareful, closed-IsCareful, verify_sensitive-Writes,
}
use vovinam_api_node.Auth.Kept.{Writes-Remains}

-- The account k is there with the version n or a later one.
abbrev pub Has : ℕ → ℕ → Database → Type 0
Has k n db = (u : User) × (by_id k db ≡ some u) × (n ≤ u.pwd_version)

-- A token of the version n is of no use any more.
abbrev pub IsOutdated : ℕ → User → Type 0
IsOutdated n u = (n < u.pwd_version) ⊎ (u.is_active ≡ false)

abbrev pub Outdated : ℕ → ℕ → Database → Type 0
Outdated k n db = (u : User) × (by_id k db ≡ some u) × IsOutdated n u

pub Writes-Has : {db v : Database} (k n : ℕ) → Writes db v → Has k n db → Has k n v
Writes-Has k n writes (u, at, le) =
    let (x, there, later) = Writes-Remains k u writes at in
    (x, there, omega (arith, le, later.version))

pub later-Outdated : {db v : Database} (k n : ℕ) → Writes db v → Outdated k n db → Outdated k n v
later-Outdated k n writes (u, at, out) =
    let (x, there, later) = Writes-Remains k u writes at in
    (
      x,
      there,
      elim out [
        | inl newer ↦ inl (omega (arith, newer, later.version))
        | inr shut ↦ inr (later.closed shut)
      ],
    )

-- A write that outdates the account.
module _ (k n : ℕ) (f : User → User) (careful : IsCareful f)
    (outdates : (u : User) → n ≤ u.pwd_version → IsOutdated n (f u)) where
  pub update_user-Outdated : (w : World) → Has k n w.db → Ensures (Outdated k n) (update_user k f w)
  unfolding update_user
  update_user-Outdated w (u, at, le) =
      let its : is_user k u ≡ true =
        (==_iff u.id k).1 (find_unique-key user_key k w.db.users u at) in
      rw at (
        f u,
        rw (find_unique-update user_key (is_user k) f careful.same_id k w.db.users, at, its) refl,
        outdates u le,
      )

  -- Followed by the end of every session, in one transaction.
  pub then_revoke-Outdated :
      (before : Database) (w : World)
      → Has k n w.db
      → Ensures (Outdated k n) (commit before (resume (update_user k f w) λ u. revoke_all k))
  then_revoke-Outdated before w h = commit-then (Outdated k n) before _ (
      then-Ensures (Outdated k n) (update_user k f w) (λ u. revoke_all k) (λ u v p. p)
        (update_user-Outdated w h))

newer : (n : ℕ) (u : User) → n ≤ u.pwd_version → IsOutdated n (bump u)
newer n u le = inl (omega (arith, le))

pub log_out_all-Outdated :
    (a : AuthService) (k jti now n : ℕ) (w : World)
    → Has k n w.db
    → Ensures (Outdated k n) (log_out_all a k jti now w)
unfolding log_out_all deny
log_out_all-Outdated a k jti now n w h =
    let P = Outdated k n in
    let out = update_user k bump (revoke_all k w).1 in
    then-Ensures P (commit w.db out) _ (λ u v p. p)
      (commit-then P w.db out
        (update_user-Outdated k n bump bump-IsCareful (newer n) (revoke_all k w).1 h))

-- The flows that ask for the password first
module _ (a : AuthService) (k n : ℕ) (u : User) (password : Text) (code : Option Text)
    (now : ℕ) where
  after_password :
      (f : Unit {0} → Action (Unit {0})) (w : World)
      → Has k n w.db
      → ((v : World) → Has k n v.db → Ensures (Outdated k n) (f tt v))
      → Ensures (Outdated k n) (resume (verify_sensitive a now u password code w) f)
  after_password f w h next =
      chain-Ensures (Has k n) (Outdated k n) (verify_sensitive a now u password code w) f
        (Ensures-of_db (Has k n) _
          (Writes-Has k n (verify_sensitive-Writes a now u password code w) h))
        λ x v p. next v p

pub change_password-Outdated :
    (a : AuthService) (k : ℕ) (current new hash : Text) (code : Option Text) (jti now n : ℕ)
    (w : World)
    → Has k n w.db
    → Ensures (Outdated k n) (change_password a k current new hash code jti now w)
unfolding change_password deny
change_password-Outdated a k current new hash code jti now n w (u, at, le) =
    let f = new_password_row hash in
    let P = Outdated k n in
    elim (Bool-cases (is_weak_new a new)) [
      | inl weak ↦ rw weak tt
      | inr strong ↦
          rw (strong, at)
            (after_password a k n u current code now _ w (u, at, le)
              λ v h.
                then-Ensures P (commit v.db (resume (update_user k f v) λ u. revoke_all k)) _
                  (λ x v p. p)
                  (then_revoke-Outdated k n f (new_password-IsCareful hash)
                    (λ u le. inl (omega (arith, le))) v.db v h))
    ]

pub deactivate-Outdated :
    (a : AuthService) (k : ℕ) (password : Text) (code : Option Text) (jti now n : ℕ) (w : World)
    → Has k n w.db
    → Ensures (Outdated k n) (deactivate a k password code jti now w)
unfolding deactivate deny
deactivate-Outdated a k password code jti now n w (u, at, le) =
    let f = closed_row now in
    let P = Outdated k n in
    rw at (
      after_password a k n u password code now _ w (u, at, le)
        λ v h.
          then-Ensures P (commit v.db (resume (update_user k f v) λ u. revoke_all k)) _ (λ x v p. p)
            (then_revoke-Outdated k n f (closed-IsCareful now) (λ u le. inr refl) v.db v h))

pub totp_disable-Outdated :
    (a : AuthService) (k : ℕ) (password : Text) (code : Option Text) (now n : ℕ) (w : World)
    → Has k n w.db
    → Ensures (Outdated k n) (totp_disable a k password code now w)
unfolding totp_disable
totp_disable-Outdated a k password code now n w (u, at, le) =
    let P = Outdated k n in
    rw at (
      after_password a k n u password code now _ w (u, at, le)
        λ v h.
          let dropped : World = record v { db = drop_factor k v.db } in
          let out = update_user k bump (revoke_all k dropped).1 in
          then-Ensures P (commit v.db out) _ (λ x v p. p)
            (commit-then P v.db out
              (update_user-Outdated k n bump bump-IsCareful (newer n) (revoke_all k dropped).1 h)))
