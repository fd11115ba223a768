-- ===== src/Auth/Kept.antt =====
-- What the writes of src/auth/auth.service.ts keep: accounts, used tokens, revoked refresh tokens, and one
-- live refresh token for each session.
use vovinam_api_node.Base.{
  ℕ, ◌≤◌, ◌≡◌, refl, Bool, true, false, some, [], ◌∷◌, ◌++◌, Text, arith, find_first, find_unique,
  update_many, find_unique-update, find_unique-append_some, find_first-update,
  find_first-append_some, Bool-cases, inl, inr, if◌then◌else◌,
}
use vovinam_api_node.Schema.{User, RefreshToken, UsedToken, Database}
use vovinam_api_node.Auth.Users.{user_key, used_key, by_id, is_user, is_live_token, revoked_token}
use vovinam_api_node.Auth.Sessions.{has_hash, is_token}
use vovinam_api_node.Auth.Writes.{
  IsCareful, Write, elsewhere, set_user, add_account, end_sessions, end_tokens, use_up, opening,
  rotating, Writes, done, more,
}

-- What a user can have become.
pub record IsLater (u v : User) : Type 0 where
  pub version : u.pwd_version ≤ v.pwd_version
  pub closed : u.is_active ≡ false → v.is_active ≡ false

abbrev unchanged : (u : User) → IsLater u u
unchanged u = record { version = omega arith; closed = λ p. p }

-- The account k is there, later than u.
abbrev pub Remains : ℕ → User → Database → Type 0
Remains k u db = (v : User) × (by_id k db ≡ some v) × IsLater u v

careful-IsLater :
    (f : User → User) (k : ℕ) (u : User) → IsCareful f → IsLater u (if is_user k u then f u else u)
careful-IsLater f k u careful = elim (Bool-cases (is_user k u)) [
  | inl hit ↦ rw hit (record { version = careful.version u; closed = careful.closed u })
  | inr miss ↦ rw miss (unchanged u)
]

Write-Remains :
    {db v : Database} (k : ℕ) (u : User) → Write db v → by_id k db ≡ some u → Remains k u v
Write-Remains k u (elsewhere s) h = (u, rw (s.users) h, unchanged u)
Write-Remains {db} k u (set_user j f careful) h = (
  if is_user j u then f u else u,
  rw (find_unique-update user_key (is_user j) f careful.same_id k db.users, h) refl,
  careful-IsLater f j u careful,
)
Write-Remains {db} k u (add_account x fresh) h =
    (u, find_unique-append_some user_key k db.users x u h, unchanged u)
Write-Remains k u (end_sessions p) h = (u, h, unchanged u)
Write-Remains k u (end_tokens p) h = (u, h, unchanged u)
Write-Remains k u (use_up t fresh) h = (u, h, unchanged u)
Write-Remains k u (opening s t fresh new same) h = (u, h, unchanged u)
Write-Remains k u (rotating row t now s live new same known) h = (u, h, unchanged u)

IsLater-trans : (u v x : User) → IsLater u v → IsLater v x → IsLater u x
IsLater-trans u v x p q = record {
  version = omega (arith, p.version, q.version);
  closed = λ c. q.closed (p.closed c);
}

pub Writes-Remains :
    {db v : Database} (k : ℕ) (u : User) → Writes db v → by_id k db ≡ some u → Remains k u v
Writes-Remains k u done h = (u, h, unchanged u)
Writes-Remains k u (more before write) h =
    let (x, at, later) = Writes-Remains k u before h in
    let (y, there, still) = Write-Remains k x write at in
    (y, there, IsLater-trans u x y later still)

-- The id of a token is used up.
abbrev pub IsUsed : ℕ → Database → Type 0
IsUsed jti db = (t : UsedToken) × (find_unique used_key jti db.used_tokens ≡ some t)

Write-IsUsed : {db v : Database} (jti : ℕ) → Write db v → IsUsed jti db → IsUsed jti v
Write-IsUsed jti (elsewhere s) (t, h) = (t, rw (s.used_tokens) h)
Write-IsUsed jti (set_user j f careful) h = h
Write-IsUsed jti (add_account x fresh) h = h
Write-IsUsed jti (end_sessions p) h = h
Write-IsUsed jti (end_tokens p) h = h
Write-IsUsed {db} jti (use_up x fresh) (t, h) =
    (t, find_unique-append_some used_key jti db.used_tokens x t h)
Write-IsUsed jti (opening s t fresh new same) h = h
Write-IsUsed jti (rotating row t now s live new same known) h = h

pub Writes-IsUsed : {db v : Database} (jti : ℕ) → Writes db v → IsUsed jti db → IsUsed jti v
Writes-IsUsed jti done h = h
Writes-IsUsed jti (more before write) h = Write-IsUsed jti write (Writes-IsUsed jti before h)

-- The refresh token with a hash belongs to the user k and is revoked.
pub record IsSpent (hash : Text) (k : ℕ) (db : Database) : Type 0 where
  pub row : RefreshToken
  pub found : find_first (has_hash hash) db.refresh_tokens ≡ some row
  pub its_user : row.user_id ≡ k
  pub spent : row.revoked ≡ true

-- A bulk revocation leaves it so.
pub revoke-IsSpent :
    (hash : Text) (k : ℕ) (p : RefreshToken → Bool) (db : Database) (row : RefreshToken)
    → find_first (has_hash hash) db.refresh_tokens ≡ some row
    → row.user_id ≡ k
    → (is_live_token p row ≡ false → row.revoked ≡ true)
    → IsSpent hash k (record db {
      refresh_tokens = update_many (is_live_token p) revoked_token db.refresh_tokens;
    })
revoke-IsSpent hash k p db row h user spent = elim (Bool-cases (is_live_token p row)) [
  | inl hit ↦ record {
    row = revoked_token row;
    found =
        rw
          (
            find_first-update (has_hash hash) (is_live_token p) revoked_token db.refresh_tokens
                (λ r. refl),
            h,
            hit,
          )
          refl;
    its_user = user;
    spent = refl;
  }
  | inr miss ↦ record {
    row = row;
    found =
        rw
          (
            find_first-update (has_hash hash) (is_live_token p) revoked_token db.refresh_tokens
                (λ r. refl),
            h,
            miss,
          )
          refl;
    its_user = user;
    spent = spent miss;
  }
]

pub append-IsSpent :
    (hash : Text) (k : ℕ) (t : RefreshToken) (db : Database)
    → IsSpent hash k db
    → IsSpent hash k (record db { refresh_tokens = db.refresh_tokens ++ t ∷ [] })
append-IsSpent hash k t db h = record {
  row = h.row;
  found = find_first-append_some (has_hash hash) db.refresh_tokens t h.row h.found;
  its_user = h.its_user;
  spent = h.spent;
}

pub same-IsSpent :
    (hash : Text) (k : ℕ) (db v : Database)
    → v.refresh_tokens ≡ db.refresh_tokens
    → IsSpent hash k db
    → IsSpent hash k v
same-IsSpent hash k db v same h = record {
  row = h.row;
  found = rw same (h.found);
  its_user = h.its_user;
  spent = h.spent;
}

Write-IsSpent :
    {db v : Database} (hash : Text) (k : ℕ) → Write db v → IsSpent hash k db → IsSpent hash k v
Write-IsSpent {db} {v} hash k (elsewhere s) h = same-IsSpent hash k db v s.refresh_tokens h
Write-IsSpent {db} hash k (set_user j f careful) h = same-IsSpent hash k db _ refl h
Write-IsSpent {db} hash k (add_account x fresh) h = same-IsSpent hash k db _ refl h
Write-IsSpent {db} hash k (end_sessions p) h = same-IsSpent hash k db _ refl h
Write-IsSpent {db} hash k (end_tokens p) h =
    revoke-IsSpent hash k p db h.row h.found h.its_user (λ miss. h.spent)
Write-IsSpent {db} hash k (use_up x fresh) h = same-IsSpent hash k db _ refl h
Write-IsSpent {db} hash k (opening s t fresh new same) h =
    same-IsSpent hash k _ _ refl (append-IsSpent hash k t db h)
Write-IsSpent {db} hash k (rotating row t now s live new same known) h =
    let revoked =
      revoke-IsSpent hash k (is_token row.id) db h.row h.found h.its_user (λ miss. h.spent) in
    same-IsSpent hash k _ _ refl (append-IsSpent hash k t _ revoked)

pub Writes-IsSpent :
    {db v : Database} (hash : Text) (k : ℕ) → Writes db v → IsSpent hash k db → IsSpent hash k v
Writes-IsSpent hash k done h = h
Writes-IsSpent hash k (more before write) h =
    Write-IsSpent hash k write (Writes-IsSpent hash k before h)
