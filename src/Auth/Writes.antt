-- ===== src/Auth/Writes.antt =====
-- What the flows of src/auth/auth.service.ts write to the tables of accounts: each is a sequence of a few
-- kinds of write.
use vovinam_api_node.Base.{
  ℕ, ◌≤◌, ◌≡◌, Bool, true, false, Option, none, some, find_first, find_unique, Option-cases, inl,
  inr,
}
use vovinam_api_node.Schema.{User, Session, RefreshToken, UsedToken, Database, TokenPurpose}
use vovinam_api_node.Service.{
  Error, Result, ok, err, World, Action, resume, or_throw, commit, caught, when,
}
use vovinam_api_node.Auth.Users.{
  user_key, session_key, used_key, by_id, update_user, set_users, revoke_sessions, revoke_tokens,
  add_used, use_token, revoke_all,
}
use vovinam_api_node.Auth.Login.{add_session, add_token}
use vovinam_api_node.Auth.Registration.{add_user}
use vovinam_api_node.Auth.Sessions.{touch, is_token}

-- Two databases with the same accounts.
pub record SameAccounts (db v : Database) : Type 0 where
  pub users : v.users ≡ db.users
  pub sessions : v.sessions ≡ db.sessions
  pub refresh_tokens : v.refresh_tokens ≡ db.refresh_tokens
  pub used_tokens : v.used_tokens ≡ db.used_tokens

-- A write to a user does not lower the version of the password, nor open a closed account.
pub record IsCareful (f : User → User) : Type 0 where
  pub same_id : (u : User) → (f u).id ≡ u.id
  pub version : (u : User) → u.pwd_version ≤ (f u).pwd_version
  pub closed : (u : User) → u.is_active ≡ false → (f u).is_active ≡ false

abbrev pub refresh_key : RefreshToken → ℕ
refresh_key t = t.id

-- A token with the id and the session of the row is there and live.
pub record IsLive (row : RefreshToken) (db : Database) : Type 0 where
  pub test : RefreshToken → Bool
  pub token : RefreshToken
  pub found : find_first test db.refresh_tokens ≡ some token
  pub live : token.revoked ≡ false
  pub its_id : token.id ≡ row.id
  pub its_session : token.session_id ≡ row.session_id

pub data Write : Database → Database → Type 0 where
  elsewhere : {db v : Database} → SameAccounts db v → Write db v
  set_user : {db : Database} (k : ℕ) (f : User → User) → IsCareful f → Write db (set_users k f db)
  add_account :
      {db : Database} (u : User)
      → find_unique user_key u.id db.users ≡ none
      → Write db (add_user u db)
  end_sessions : {db : Database} (p : Session → Bool) → Write db (revoke_sessions p db)
  end_tokens : {db : Database} (p : RefreshToken → Bool) → Write db (revoke_tokens p db)
  use_up :
      {db : Database} (t : UsedToken)
      → find_unique used_key t.jti db.used_tokens ≡ none
      → Write db (add_used t db)
  opening :
      {db : Database} (s : Session) (t : RefreshToken)
      → find_unique session_key s.id db.sessions ≡ none
      → find_unique refresh_key t.id db.refresh_tokens ≡ none
      → t.session_id ≡ s.id
      → Write db (add_token t (add_session s db))
  rotating :
      {db : Database} (row t : RefreshToken) (now : ℕ) (s : Session)
      → IsLive row db
      → find_unique refresh_key t.id (revoke_tokens (is_token row.id) db).refresh_tokens ≡ none
      → t.session_id ≡ row.session_id
      → find_unique session_key row.session_id db.sessions ≡ some s
      → Write db (touch row.session_id now (add_token t (revoke_tokens (is_token row.id) db)))

pub data Writes : Database → Database → Type 0 where
  done : {db : Database} → Writes db db
  more : {db u v : Database} → Writes db u → Write u v → Writes db v

pub one : {db v : Database} → Write db v → Writes db v
one x = more done x

pub join : {db u v : Database} → Writes db u → Writes u v → Writes db v
join p done = p
join p (more q x) = more (join p q) x

module _ {ℓ} {A : Type ℓ} where
  pub through {κ} :
      {B : Type κ} {db : Database} (out : Result A × World) (f : A → Action B)
      → Writes db out.1.db
      → ((a : A) (v : World) → Writes v.db (f a v).1.db)
      → Writes db (resume out f).1.db
  through (ok a, v) f p q = join p (q a v)
  through (err e, v) f p q = p

  pub or_throw-Writes : (o : Option A) (e : Error) (w : World) → Writes w.db (or_throw o e w).1.db
  or_throw-Writes none e w = done
  or_throw-Writes (some a) e w = done

  pub commit-Writes :
      {db : Database} (out : Result A × World) → Writes db out.1.db → Writes db (commit db out).1.db
  commit-Writes (ok a, v) p = p
  commit-Writes (err e, v) p = done

  pub caught-Writes :
      {db : Database} (e : Error) (out : Result A × World)
      → Writes db out.1.db
      → Writes db (caught e out).1.db
  caught-Writes e (ok a, v) p = p
  caught-Writes e (err d, v) p = p

pub when-Writes :
    (c : Bool) (m : Action (Unit {0})) (w : World)
    → Writes w.db (m w).1.db
    → Writes w.db (when c m w).1.db
when-Writes true m w p = p
when-Writes false m w p = done

pub update_user-Writes :
    (k : ℕ) (f : User → User) (w : World) → IsCareful f → Writes w.db (update_user k f w).1.db
unfolding update_user
update_user-Writes k f w careful =
    through (or_throw (by_id k w.db) _ w) _ (or_throw-Writes (by_id k w.db) _ w)
      λ u v. one (set_user k f careful)

pub use_token-Writes :
    (jti user : ℕ) (purpose : TokenPurpose) (now : ℕ) (w : World)
    → Writes w.db (use_token jti user purpose now w).1.db
unfolding use_token
use_token-Writes jti user purpose now w =
    elim (Option-cases (find_unique used_key jti w.db.used_tokens)) [
      | inl free ↦ rw free (one (use_up _ free))
      | inr (t, taken) ↦ rw taken done
    ]

pub revoke_all-Writes : (user : ℕ) (w : World) → Writes w.db (revoke_all user w).1.db
revoke_all-Writes user w = more (one (end_sessions _)) (end_tokens _)
