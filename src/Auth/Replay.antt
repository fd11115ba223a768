-- ===== src/Auth/Replay.antt =====
-- A refresh token that was exchanged is spent (`refresh` of src/auth/auth.service.ts).
use vovinam_api_node.Base.{
  ℕ, ◌≡◌, refl, sym, subst, Bool, not, ◌&&◌, ◌||◌, Option, none, some, List, [], ◌∷◌, Text, arith,
  ◌==◌, leb, ltb, is_none, find_first, find_many, find_unique, find_unique-key, update_many,
  count_where, Bool-cases, Option-cases, inl, inr,
}
use vovinam_api_node.Schema.{User, Session, RefreshToken, Database}
use vovinam_api_node.Service.{
  Result, record_missing, ok, err, World, resume, or_throw, or_throw-state, throw_if, throw, commit,
  Ensures, Ensures-of_db, then-Ensures, refused-Ensures, ok-err, ok-Ensures, commit-then,
}
use vovinam_api_node.Auth.Tokens.{AuthService}
use vovinam_api_node.Auth.Users.{
  invalid_credentials, user_key, session_key, by_id, session_of_user, token_of_user,
  is_live_session, is_live_token, revoked_session, revoked_token, revoke_tokens, revoke_all,
}
use vovinam_api_node.Auth.Login.{
  Draw, SessionTokens, new_token, add_token, same_token, insert_token, is_disabled,
}
use vovinam_api_node.Auth.Sessions.{
  has_hash, is_token, touch, next_expiry, replace_token, touch_session, rotate, consume, reuse,
  tell_reuse, revoke_everything, refresh, list_sessions,
}
use vovinam_api_node.Auth.Kept.{
  IsSpent, revoke-IsSpent, append-IsSpent, same-IsSpent, Writes-IsSpent, Writes-Remains,
}
use vovinam_api_node.Auth.Writes.{join}
use vovinam_api_node.Auth.Flows.{refresh-Writes}
use vovinam_api_node.Auth.Steps.{Reach, Reach-Writes}

abbrev is_listed : ℕ → ℕ → Session → Bool
is_listed user now s = session_of_user user s && (not s.revoked && ltb now s.expires_at)

-- No session and no refresh token of the user is live.
pub record IsOut (user : ℕ) (db : Database) : Type 0 where
  pub no_session : (now : ℕ) → list_sessions user now db ≡ []
  pub no_token : count_where (is_live_token (token_of_user user)) db.refresh_tokens ≡ 0

revoked-listed :
    (user now : ℕ) (rows : List Session)
    → find_many
        (is_listed user now)
        (update_many (is_live_session (session_of_user user)) revoked_session rows)
      ≡ []
unfolding find_many update_many
revoked-listed user now [] = refl
revoked-listed user now (s ∷ rows) = ground (arith, revoked-listed user now rows)

revoked-live :
    (user : ℕ) (rows : List RefreshToken)
    → count_where
        (is_live_token (token_of_user user))
        (update_many (is_live_token (token_of_user user)) revoked_token rows)
      ≡ 0
unfolding count_where update_many
revoked-live user [] = refl
revoked-live user (t ∷ rows) = ground (arith, revoked-live user rows)

pub revoke_all-IsOut : (user : ℕ) (w : World) → IsOut user (revoke_all user w).1.db
unfolding list_sessions
revoke_all-IsOut user w = record {
  no_session = λ now. revoked-listed user now w.db.sessions;
  no_token = revoked-live user w.db.refresh_tokens;
}

tell_reuse-IsOut :
    (user : ℕ) (o : Option User) (w : World)
    → IsOut user w.db
    → ((tell_reuse o w).0 ≡ ok tt) × IsOut user (tell_reuse o w).1.db
tell_reuse-IsOut user none w h = (refl, h)
tell_reuse-IsOut user (some u) w h =
    (refl, record { no_session = h.no_session; no_token = h.no_token })

after_reuse :
    (user : ℕ) (out : Result (Unit {0}) × World)
    → (out.0 ≡ ok tt) × IsOut user out.1.db
    → ((resume out λ u. throw {A = SessionTokens} invalid_credentials).0 ≡ err invalid_credentials)
      × IsOut user (resume out λ u. throw {A = SessionTokens} invalid_credentials).1.db
after_reuse user (ok x, v) h = (refl, h.1)
after_reuse user (err e, v) h = absurd (ok-err tt e (sym h.0))

-- A reuse is refused, and ends every session of the user.
pub reuse-IsOut :
    (user : ℕ) (w : World)
    → ((reuse user w).0 ≡ err invalid_credentials) × IsOut user (reuse user w).1.db
unfolding revoke_everything
reuse-IsOut user w =
    after_reuse user (revoke_everything user w)
      (tell_reuse-IsOut user (by_id user (revoke_all user w).1.db) _ (revoke_all-IsOut user w))

-- What a new token and the touched session leave, the exchange leaves.
module _ (a : AuthService) (user : User) (row : RefreshToken) (d : Draw) (P : Database → Type 0)
    (kept : (t : RefreshToken) (session now : ℕ) (db : Database)
      → P db
      → P (touch session now (add_token t db))) where
  replace_token-Ensures :
      (s : Session) (v : World) → P v.db → Ensures P (replace_token a user row s d v)
  unfolding insert_token touch_session
  replace_token-Ensures s v h =
      let t = new_token a user.id row.session_id (next_expiry a d.now s) d in
      elim (Option-cases (find_first (same_token t) v.db.refresh_tokens)) [
        | inr (other, there) ↦ rw there tt
        | inl new ↦ elim (Option-cases (find_unique session_key row.session_id v.db.sessions)) [
          | inl gone ↦ rw (new, gone) tt
          | inr (x, known) ↦ rw (new, known) (kept t row.session_id d.now v.db h)
        ]
      ]

  pub rotate-Ensures : (v : World) → P v.db → Ensures P (rotate a user row d v)
  unfolding rotate
  rotate-Ensures v h =
      let shut = is_disabled user || is_none user.email_verified_at in
      then-Ensures P (throw_if shut _ v) _
        (λ u v h.
          let session = find_unique session_key row.session_id v.db.sessions in
          then-Ensures P (or_throw session _ v) _
            (λ s v h.
              then-Ensures P (throw_if s.revoked _ v) _
                (λ u v h.
                  then-Ensures P (commit v.db (replace_token a user row s d v)) _ (λ x v h. h)
                    (commit-then P v.db (replace_token a user row s d v)
                      (replace_token-Ensures s v h)))
                (Ensures-of_db P _ h))
            (Ensures-of_db P _ (rw (or_throw-state session _ v) h)))
        (Ensures-of_db P _ h)

pub refresh-Ensures :
    (a : AuthService) (token : Text) (d : Draw) (w : World) (row : RefreshToken)
    → find_first (has_hash (a.sha256 token)) w.db.refresh_tokens ≡ some row
    → Ensures (IsSpent (a.sha256 token) row.user_id) (refresh a token d w)
unfolding refresh consume
refresh-Ensures a token d w row found =
    let P = IsSpent (a.sha256 token) row.user_id in
    elim (Option-cases (by_id row.user_id w.db)) [
      | inl e ↦ rw (found, e) tt
      | inr (u, known) ↦ elim (Bool-cases row.revoked) [
        | inl reused ↦
            rw (found, known)
              (simp reused
                (refused-Ensures P (reuse u.id w) invalid_credentials (reuse-IsOut u.id w).0))
        | inr live ↦ elim (Bool-cases (leb row.expires_at d.now)) [
          | inl late ↦ rw (found, known) (simp (live, late) tt)
          | inr early ↦
              let count = count_where (is_live_token (is_token row.id)) w.db.refresh_tokens in
              let v : World = record w { db = revoke_tokens (is_token row.id) w.db } in
              let spent =
                revoke-IsSpent (a.sha256 token) row.user_id (is_token row.id) w.db row found refl
                  (λ miss. ground (arith, miss)) in
              elim (Bool-cases (count == 0)) [
                | inl lost ↦
                    rw (found, known)
                      (simp (live, early, lost)
                        (refused-Ensures P (reuse u.id v) invalid_credentials
                          (reuse-IsOut u.id v).0))
                | inr won ↦
                    rw (found, known)
                      (simp (live, early, won)
                        (rotate-Ensures a u row d P
                          (λ t session now db p.
                            same-IsSpent (a.sha256 token) row.user_id _ _ refl
                              (append-IsSpent (a.sha256 token) row.user_id t db p))
                          v spent))
              ]
        ]
      ]
    ]

-- A token that is spent when it is presented.
spent-IsOut :
    (a : AuthService) (token : Text) (e : Draw) (k : ℕ) (u : User) (v : World)
    → IsSpent (a.sha256 token) k v.db
    → by_id k v.db ≡ some u
    → ((refresh a token e v).0 ≡ err invalid_credentials) × IsOut k (refresh a token e v).1.db
unfolding refresh
spent-IsOut a token e k u v h known =
    let its : by_id h.row.user_id v.db ≡ some u = rw (h.its_user) known in
    let same : u.id ≡ k = find_unique-key user_key k v.db.users u known in
    rw (h.found, its, h.spent)
      (subst (λ j. ((reuse u.id v).0 ≡ err invalid_credentials) × IsOut j (reuse u.id v).1.db) same
        (reuse-IsOut u.id v))

ok-refresh :
    (a : AuthService) (token : Text) (d : Draw) (w : World) (row : RefreshToken) (r : SessionTokens)
    → find_first (has_hash (a.sha256 token)) w.db.refresh_tokens ≡ some row
    → (refresh a token d w).0 ≡ ok r
    → (u : User) × (by_id row.user_id w.db ≡ some u)
unfolding refresh
ok-refresh a token d w row r found h = elim (Option-cases (by_id row.user_id w.db)) [
  | inr known ↦ known
  | inl e ↦ absurd (ok-err r record_missing (sym (rw (found, e) at h)))
]

-- A refresh token that was exchanged once, whatever flows have followed, is refused the next time, and
-- then no session and no refresh token of its user is live.
pub refresh-once :
    (a : AuthService) (token : Text) (d e : Draw) (w v : World) (row : RefreshToken)
    (r : SessionTokens)
    → find_first (has_hash (a.sha256 token)) w.db.refresh_tokens ≡ some row
    → (refresh a token d w).0 ≡ ok r
    → Reach a (refresh a token d w).1 v
    → ((refresh a token e v).0 ≡ err invalid_credentials)
      × IsOut row.user_id (refresh a token e v).1.db
refresh-once a token d e w v row r found fine path =
    let hash = a.sha256 token in
    let (u, known) = ok-refresh a token d w row r found fine in
    let spent =
      ok-Ensures (IsSpent hash row.user_id) (refresh a token d w) r fine
        (refresh-Ensures a token d w row found) in
    let (x, there, later) =
      Writes-Remains row.user_id u (join (refresh-Writes a token d w) (Reach-Writes path)) known in
    spent-IsOut a token e row.user_id x v
      (Writes-IsSpent hash row.user_id (Reach-Writes path) spent) there
