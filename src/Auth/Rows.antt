-- ===== src/Auth/Rows.antt =====
-- The refresh tokens of src/auth/auth.service.ts by their ids: what the writes of the flows leave of them.
use mathlib.Core.Option.{some-injective}
use vovinam_api_node.Base.{
  ℕ, ◌≡◌, refl, sym, ◌∙◌, Bool, false, true, some, List, [], ◌∷◌, Text, arith, ◌==◌, ==_iff,
  ==_refl, find_first, find_unique, find_unique-update, find_unique-append_some, find_unique-key,
  IsKeyed, append-IsKeyed, update-IsKeyed, count_where, count_where-none, find_first-keyed, not,
  Bool-cases, inl, inr,
}
use vovinam_api_node.Schema.{RefreshToken, Database}
use vovinam_api_node.Auth.Users.{is_live_token, revoked_token, revoke_tokens}
use vovinam_api_node.Auth.Sessions.{has_hash, is_token}
use vovinam_api_node.Auth.Writes.{
  refresh_key, IsLive, Write, elsewhere, set_user, add_account, end_sessions, end_tokens, use_up,
  opening, rotating, Writes, done, more,
}

-- The token k is there, and P holds of its row.
abbrev pub Finds : (RefreshToken → Type 0) → ℕ → Database → Type 0
Finds P k db = (t : RefreshToken) × (find_unique refresh_key k db.refresh_tokens ≡ some t) × P t

abbrev pub IsInSession : RefreshToken → RefreshToken → Type 0
IsInSession row t = t.session_id ≡ row.session_id

abbrev pub IsRevoked : RefreshToken → Type 0
IsRevoked t = t.revoked ≡ true

abbrev pub Tokens : Database → Type 0
Tokens db = IsKeyed refresh_key db.refresh_tokens

module _ (P : RefreshToken → Type 0) (stable : (t : RefreshToken) → P t → P (revoked_token t))
    (k : ℕ) where
  pub revoke-Finds :
      (p : RefreshToken → Bool) (db : Database) → Finds P k db → Finds P k (revoke_tokens p db)
  revoke-Finds p db (t, e, h) =
      let row =
        find_unique-update refresh_key (is_live_token p) revoked_token (λ r. refl) k
          db.refresh_tokens in
      elim (Bool-cases (is_live_token p t)) [
        | inl hit ↦ (revoked_token t, rw (row, e, hit) refl, stable t h)
        | inr miss ↦ (t, rw (row, e, miss) refl, h)
      ]

  Write-Finds : {db v : Database} → Write db v → Finds P k db → Finds P k v
  Write-Finds (elsewhere same) (t, e, h) = (t, rw (same.refresh_tokens) e, h)
  Write-Finds (set_user j f careful) h = h
  Write-Finds (add_account x fresh) h = h
  Write-Finds (end_sessions p) h = h
  Write-Finds {db} (end_tokens p) h = revoke-Finds p db h
  Write-Finds (use_up x fresh) h = h
  Write-Finds {db} (opening s x fresh new same) (t, e, h) =
      (t, find_unique-append_some refresh_key k db.refresh_tokens x t e, h)
  Write-Finds {db} (rotating row x now s live new same known) found =
      let (t, e, h) = revoke-Finds (is_token row.id) db found in
      (t, find_unique-append_some refresh_key k _ x t e, h)

  pub Writes-Finds : {db v : Database} → Writes db v → Finds P k db → Finds P k v
  Writes-Finds done h = h
  Writes-Finds (more before write) h = Write-Finds write (Writes-Finds before h)

revoke-Tokens : (p : RefreshToken → Bool) (db : Database) → Tokens db → Tokens (revoke_tokens p db)
revoke-Tokens p db u =
    update-IsKeyed refresh_key (is_live_token p) revoked_token (λ r. refl) db.refresh_tokens u

Write-Tokens : {db v : Database} → Write db v → Tokens db → Tokens v
Write-Tokens (elsewhere same) u = rw (same.refresh_tokens) u
Write-Tokens (set_user j f careful) u = u
Write-Tokens (add_account x fresh) u = u
Write-Tokens (end_sessions p) u = u
Write-Tokens {db} (end_tokens p) u = revoke-Tokens p db u
Write-Tokens (use_up x fresh) u = u
Write-Tokens {db} (opening s x fresh new same) u =
    append-IsKeyed refresh_key db.refresh_tokens x u new
Write-Tokens {db} (rotating row x now s live new same known) u =
    append-IsKeyed refresh_key _ x (revoke-Tokens (is_token row.id) db u) new

pub Writes-Tokens : {db v : Database} → Writes db v → Tokens db → Tokens v
Writes-Tokens done u = u
Writes-Tokens (more before write) u = Write-Tokens write (Writes-Tokens before u)

-- The update by the id of a revoked token finds nothing.
pub none_live :
    (k : ℕ) (t : RefreshToken) (rows : List RefreshToken)
    → IsKeyed refresh_key rows
    → find_unique refresh_key k rows ≡ some t
    → t.revoked ≡ true
    → count_where (is_live_token (is_token k)) rows ≡ 0
none_live k t rows u e revoked =
    count_where-none (is_live_token (is_token k)) rows
      (find_first-keyed refresh_key k (λ r. not r.revoked) rows u ∙ rw (e, revoked) refl)

-- A conditional update that takes its token finds it live, and in the session in which it was read.
pub taken-IsLive :
    (row : RefreshToken) (db : Database)
    → Tokens db
    → Finds (IsInSession row) row.id db
    → (count_where (is_live_token (is_token row.id)) db.refresh_tokens == 0) ≡ false
    → IsLive row db
taken-IsLive row db u (t, e, its) won = record {
  test = is_token row.id;
  token = t;
  found = unfold find_unique find_first in e;
  live = elim (Bool-cases t.revoked) [
    | inr live ↦ live
    | inl revoked ↦ absurd (ground (arith, won, none_live row.id t db.refresh_tokens u e revoked))
  ];
  its_id = find_unique-key refresh_key row.id db.refresh_tokens t e;
  its_session = its;
}

pub has_hash-Finds :
    (hash : Text) (row : RefreshToken) (rows : List RefreshToken)
    → IsKeyed refresh_key rows
    → find_first (has_hash hash) rows ≡ some row
    → find_unique refresh_key row.id rows ≡ some row
unfolding find_first find_unique
has_hash-Finds hash row [] u h = absurd (cc)
has_hash-Finds hash row (x ∷ rows) u h = elim (Bool-cases (has_hash hash x)) [
  | inl hit ↦
      let it : x ≡ row = some-injective x row (rw hit at h) in rw (sym it, ==_refl x.id) refl
  | inr miss ↦
      let rest = has_hash-Finds hash row rows u.1 (rw miss at h) in
      ground (arith, ==_iff x.id row.id, u.0, rest)
]
