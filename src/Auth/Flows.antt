-- ===== src/Auth/Flows.antt =====
-- Each flow of src/auth/auth.service.ts as a sequence of writes: the login, the sessions and the tokens.
use vovinam_api_node.Base.{
  ℕ, ◌+◌, ◌-◌, ◌*◌, ◌≡◌, refl, Bool, true, false, ◌||◌, Option, none, some, List, [], ◌∷◌, Text,
  arith, ◌==◌, leb, is_none, is_some, find_first, find_unique, count_where, Bool-cases,
  Option-cases, inl, inr,
}
use vovinam_api_node.Schema.{User, Session, RefreshToken}
use vovinam_api_node.Service.{World, or_throw, commit, when, throw_if}
use vovinam_api_node.Auth.Tokens.{AuthService}
use vovinam_api_node.Auth.Users.{
  session_key, by_id, by_email, update_user, revoke_tokens, is_live_token, revoke_all, bump, deny,
  credential_of,
}
use vovinam_api_node.Auth.Login.{
  Draw, should_lock, failed_row, register_failed_attempt, alert_on_new_ip, new_session, new_token,
  same_token, is_known_login, new_ip_window, tell_new_ip, insert_session, insert_token,
  open_session, issue_session, is_disabled, is_locked, sign_in, check_account, login_as, login_user,
  opened_or_pending,
}
use vovinam_api_node.Auth.Sessions.{
  revoke_everything, reuse, next_expiry, replace_token, tell_reuse, has_hash, is_token,
  touch_session, rotate, consume, refresh, end_session, log_out, log_out_all, own_session,
  revoke_session,
}
use vovinam_api_node.Auth.Writes.{
  refresh_key, IsLive, IsCareful, end_sessions, end_tokens, opening, rotating, Writes, done, more,
  one, join, through, or_throw-Writes, commit-Writes, when-Writes, update_user-Writes,
  revoke_all-Writes,
}

failed_row-IsCareful : (a : AuthService) (now : ℕ) (read : User) → IsCareful (failed_row a now read)
failed_row-IsCareful a now read = record {
  same_id = λ u. refl;
  version = λ u. omega arith;
  closed = λ u p. p;
}

pub bump-IsCareful : IsCareful bump
bump-IsCareful = record { same_id = λ u. refl; version = λ u. omega arith; closed = λ u p. p }

register_failed_attempt-Writes :
    (a : AuthService) (u : User) (now : ℕ) (w : World)
    → Writes w.db (register_failed_attempt a u now w).1.db
unfolding register_failed_attempt
register_failed_attempt-Writes a u now w =
    through (update_user u.id (failed_row a now u) w) _
      (update_user-Writes u.id (failed_row a now u) w (failed_row-IsCareful a now u))
      λ x v.
        through (when (should_lock a u) _ v) _ (when-Writes (should_lock a u) _ v done) λ y t. done

pub alert_on_new_ip-Writes :
    (u : User) (ip : Option Text) (now : ℕ) (w : World)
    → Writes w.db (alert_on_new_ip u ip now w).1.db
unfolding alert_on_new_ip
alert_on_new_ip-Writes u none now w = done
alert_on_new_ip-Writes u (some []) now w = done
alert_on_new_ip-Writes u (some (c ∷ ip)) now w =
    when-Writes
      (count_where (is_known_login u.id (c ∷ ip) (now - new_ip_window)) w.db.audit_logs == 0)
      (tell_new_ip u) w done

same_token-none :
    (t : RefreshToken) (rows : List RefreshToken)
    → find_first (same_token t) rows ≡ none
    → find_unique refresh_key t.id rows ≡ none
unfolding find_first find_unique
same_token-none t [] h = refl
same_token-none t (x ∷ rows) h = ground (arith, same_token-none t rows)

open_session-Writes :
    (a : AuthService) (user : ℕ) (d : Draw) (w : World)
    → Writes w.db (commit w.db (open_session a user d w)).1.db
unfolding insert_session insert_token
open_session-Writes a user d w =
    let t = new_token a user d.session_id (d.now + a.refresh_ttl * 1000) d in
    elim (Option-cases (find_unique session_key d.session_id w.db.sessions)) [
      | inr (s, taken) ↦ rw taken done
      | inl free ↦ elim (Option-cases (find_first (same_token t) w.db.refresh_tokens)) [
        | inr (s, taken) ↦ rw (free, taken) done
        | inl new ↦
            rw (free, new)
              (one (
                opening (new_session a user d) t free (same_token-none t w.db.refresh_tokens new)
                  refl))
      ]
    ]

pub issue_session-Writes :
    (a : AuthService) (user : ℕ) (d : Draw) (w : World)
    → Writes w.db (issue_session a user d w).1.db
unfolding issue_session
issue_session-Writes a user d w =
    through (or_throw (by_id user w.db) _ w) _ (or_throw-Writes (by_id user w.db) _ w) λ u v.
      through (commit v.db (open_session a user d v)) _ (open_session-Writes a user d v) λ x t. done

opened_or_pending-Writes :
    (a : AuthService) (u : User) (ip : Option Text) (d : Draw) (c : Bool) (w : World)
    → Writes w.db (opened_or_pending a u ip d c w).1.db
opened_or_pending-Writes a u ip d true w = done
opened_or_pending-Writes a u ip d false w =
    through (issue_session a u.id d w) _ (issue_session-Writes a u.id d w) λ tokens v.
      through (alert_on_new_ip u ip d.now v) _ (alert_on_new_ip-Writes u ip d.now v) λ x t. done

check_account-Writes :
    (a : AuthService) (u : User) (ip : Option Text) (d : Draw) (w : World)
    → Writes w.db (check_account a u ip d w).1.db
unfolding check_account sign_in
check_account-Writes a u ip d w = elim (Bool-cases (is_disabled u)) [
  | inl x ↦ rw x done
  | inr x ↦ elim (Bool-cases (is_locked d.now u.locked_until)) [
    | inl y ↦ rw (x, y) done
    | inr y ↦ elim (Bool-cases (is_none u.email_verified_at)) [
      | inl z ↦ rw (x, y, z) done
      | inr z ↦
          rw (x, y, z) (opened_or_pending-Writes a u ip d (is_some (credential_of u.id w.db)) w)
    ]
  ]
]

login_as-Writes :
    (a : AuthService) (o : Option User) (password : Text) (ip : Option Text) (d : Draw) (w : World)
    → Writes w.db (login_as a o password ip d w).1.db
login_as-Writes a none password ip d w = done
login_as-Writes a (some u) password ip d w =
    elim (Bool-cases (a.compare password u.password_hash)) [
      | inl right ↦ rw right (check_account-Writes a u ip d w)
      | inr wrong ↦ rw wrong (
          through (register_failed_attempt a u d.now w) _
            (register_failed_attempt-Writes a u d.now w) λ x v. done)
    ]

pub login_user-Writes :
    (a : AuthService) (email password : Text) (ip : Option Text) (d : Draw) (w : World)
    → Writes w.db (login_user a email password ip d w).1.db
unfolding login_user
login_user-Writes a email password ip d w = login_as-Writes a (by_email email w.db) password ip d w

tell_reuse-Writes : (o : Option User) (w : World) → Writes w.db (tell_reuse o w).1.db
tell_reuse-Writes none w = done
tell_reuse-Writes (some u) w = done

revoke_everything-Writes : (user : ℕ) (w : World) → Writes w.db (revoke_everything user w).1.db
unfolding revoke_everything
revoke_everything-Writes user w =
    join (revoke_all-Writes user w) (tell_reuse-Writes (by_id user (revoke_all user w).1.db) _)

reuse-Writes : (user : ℕ) (w : World) → Writes w.db (reuse user w).1.db
reuse-Writes user w =
    through (revoke_everything user w) _ (revoke_everything-Writes user w) λ x v. done

pub end_session-Writes : (session : ℕ) (w : World) → Writes w.db (end_session session w).1.db
end_session-Writes session w = more (one (end_sessions _)) (end_tokens _)

pub log_out-Writes :
    (a : AuthService) (token : Text) (jti session now : ℕ) (w : World)
    → Writes w.db (log_out a token jti session now w).1.db
unfolding log_out deny
log_out-Writes a token jti session now w = end_session-Writes session w

pub log_out_all-Writes :
    (a : AuthService) (user jti now : ℕ) (w : World)
    → Writes w.db (log_out_all a user jti now w).1.db
unfolding log_out_all deny
log_out_all-Writes a user jti now w =
    let out = update_user user bump (revoke_all user w).1 in
    through (commit w.db out) _
      (commit-Writes out
        (join (revoke_all-Writes user w) (update_user-Writes user bump _ bump-IsCareful)))
      λ x v. done

pub revoke_session-Writes :
    (user session : ℕ) (w : World) → Writes w.db (revoke_session user session w).1.db
unfolding revoke_session
revoke_session-Writes user session w =
    through (throw_if (count_where _ w.db.sessions == 0) _ _) _
      (one (end_sessions (own_session user session))) λ x v. one (end_tokens _)

-- A token that is consumed.
module _ (a : AuthService) (user : User) (row : RefreshToken) (d : Draw) (w : World) where
  abbrev taken : World
  taken = record w { db = revoke_tokens (is_token row.id) w.db }

  consumed : Writes w.db taken.db
  consumed = one (end_tokens (is_token row.id))

  replace_token-Writes :
      (s : Session)
      → IsLive row w.db
      → find_unique session_key row.session_id w.db.sessions ≡ some s
      → Writes w.db (commit taken.db (replace_token a user row s d taken)).1.db
  unfolding insert_token touch_session
  replace_token-Writes s live known =
      let t = new_token a user.id row.session_id (next_expiry a d.now s) d in
      elim (Option-cases (find_first (same_token t) taken.db.refresh_tokens)) [
        | inr (other, there) ↦ rw there consumed
        | inl new ↦
            rw (new, known)
              (one (
                rotating row t d.now s live (same_token-none t taken.db.refresh_tokens new) refl
                  known))
      ]

  rotate-Writes : IsLive row w.db → Writes w.db (rotate a user row d taken).1.db
  unfolding rotate
  rotate-Writes live = elim (Bool-cases (is_disabled user || is_none user.email_verified_at)) [
    | inl shut ↦ rw shut consumed
    | inr fine ↦ elim (Option-cases (find_unique session_key row.session_id w.db.sessions)) [
      | inl e ↦ rw (fine, e) consumed
      | inr (s, known) ↦ elim (Bool-cases s.revoked) [
        | inl over ↦ rw (fine, known, over) consumed
        | inr running ↦
            rw (fine, known)
              (simp running (
                through (commit taken.db (replace_token a user row s d taken)) _
                  (replace_token-Writes s live known) λ x t. done))
      ]
    ]
  ]

  -- Only the caller that finds the token live needs it live.
  pub consume-Writes :
      ((count_where (is_live_token (is_token row.id)) w.db.refresh_tokens == 0) ≡ false
        → IsLive row w.db)
      → Writes w.db (consume a user row d w).1.db
  unfolding consume
  consume-Writes live =
      elim (Bool-cases (count_where (is_live_token (is_token row.id)) w.db.refresh_tokens == 0)) [
        | inl lost ↦ rw lost (join consumed (reuse-Writes user.id taken))
        | inr won ↦ rw won (rotate-Writes (live won))
      ]

pub refresh-Writes :
    (a : AuthService) (token : Text) (d : Draw) (w : World) → Writes w.db (refresh a token d w).1.db
unfolding refresh
refresh-Writes a token d w =
    elim (Option-cases (find_first (has_hash (a.sha256 token)) w.db.refresh_tokens)) [
      | inl e ↦ rw e done
      | inr (row, found) ↦ elim (Option-cases (by_id row.user_id w.db)) [
        | inl e ↦ rw (found, e) done
        | inr (u, known) ↦ elim (Bool-cases row.revoked) [
          | inl reused ↦ rw (found, known, reused) (reuse-Writes u.id w)
          | inr live ↦ elim (Bool-cases (leb row.expires_at d.now)) [
            | inl late ↦ rw (found, known) (simp (live, late) done)
            | inr early ↦
                rw (found, known)
                  (simp (live, early)
                    (consume-Writes a u row d w λ won. record {
                      test = has_hash (a.sha256 token);
                      token = row;
                      found = found;
                      live = live;
                      its_id = refl;
                      its_session = refl;
                    }))
          ]
        ]
      ]
    ]
