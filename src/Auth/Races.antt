-- ===== src/Auth/Races.antt =====
-- Refreshes of src/auth/auth.service.ts that overlap: `refresh` reads its token, and later takes it with a
-- conditional update; between the two any other flow may run, also a refresh with the same token.
use mathlib.Core.List.{Memᴰ}
use vovinam_api_node.Base.{
  ℕ, ◌≡◌, refl, sym, ◌∙◌, subst, false, some, List, [], ◌∷◌, Text, arith, ◌==◌, ==_refl, leb,
  find_first, find_unique-update, find_unique-append_some, find_unique-key, IsKeyed, count_where,
  Bool-cases, inl, inr,
}
use vovinam_api_node.Schema.{User, RefreshToken, Database}
use vovinam_api_node.Service.{World, ok, err, ok-err, ok-Ensures}
use vovinam_api_node.Auth.Tokens.{AuthService}
use vovinam_api_node.Auth.Users.{
  invalid_credentials, by_id, is_live_token, revoked_token, revoke_tokens,
}
use vovinam_api_node.Auth.Login.{Draw, SessionTokens}
use vovinam_api_node.Auth.Sessions.{has_hash, is_token, rotate, consume}
use vovinam_api_node.Auth.Writes.{refresh_key, Writes, done}
use vovinam_api_node.Auth.Flows.{consume-Writes}
use vovinam_api_node.Auth.Steps.{Step, Step-Writes}
use vovinam_api_node.Auth.Replay.{IsOut, reuse-IsOut, rotate-Ensures}
use vovinam_api_node.Auth.Single.{IsSingle, Writes-IsSingle}
use vovinam_api_node.Auth.Rows.{
  Finds, IsInSession, IsRevoked, Tokens, Writes-Finds, Writes-Tokens, none_live, taken-IsLive,
  has_hash-Finds,
}

-- What a refresh has read: a token and its user.
pub record Reading : Type 0 where
  pub user : User
  pub row : RefreshToken

-- The database, with the refreshes that have read their token. A refresh stays in the list after it has
-- taken its token.
pub record Site : Type 0 where
  pub world : World
  pub readings : List Reading

pub data Move (a : AuthService) (s : Site) : Site → Type 0 where
  flow : {w : World} → Step a s.world w → Move a s (record s { world = w })
  reads :
      (token : Text) (now : ℕ) (r : Reading)
      → find_first (has_hash (a.sha256 token)) s.world.db.refresh_tokens ≡ some r.row
      → by_id r.row.user_id s.world.db ≡ some r.user
      → r.row.revoked ≡ false
      → leb r.row.expires_at now ≡ false
      → Move a s (record s { readings = r ∷ s.readings })
  takes :
      (r : Reading) (d : Draw)
      → Memᴰ r s.readings
      → Move a s (record s { world = (consume a r.user r.row d s.world).1 })

pub data Reach (a : AuthService) (s : Site) : Site → Type 0 where
  here : Reach a s s
  next : {t u : Site} → Reach a s t → Move a t u → Reach a s u

abbrev AllThere : List Reading → Database → Type 0
AllThere [] db = Unit
AllThere (r ∷ rs) db = Finds (IsInSession r.row) r.row.id db × AllThere rs db

AllThere-Writes :
    {db v : Database} (rs : List Reading) → Writes db v → AllThere rs db → AllThere rs v
AllThere-Writes [] ws h = tt
AllThere-Writes (r ∷ rs) ws h =
    (Writes-Finds (IsInSession r.row) (λ t p. p) r.row.id ws h.0, AllThere-Writes rs ws h.1)

Finds-of_mem :
    {r : Reading} {rs : List Reading} (db : Database)
    → Memᴰ r rs
    → AllThere rs db
    → Finds (IsInSession r.row) r.row.id db
Finds-of_mem db (Memᴰ.head e) h =
    subst (λ (r : Reading). Finds (IsInSession r.row) r.row.id db) (sym e) h.0
Finds-of_mem db (Memᴰ.tail m) h = Finds-of_mem db m h.1

-- What the moves keep: token ids are unique, each session has one live token at most, and what was read
-- is there.
record IsSound (s : Site) : Type 0 where
  keyed : Tokens s.world.db
  single : IsSingle s.world.db
  there : AllThere s.readings s.world.db

takes-Writes :
    (a : AuthService) (r : Reading) (d : Draw) (w : World)
    → Tokens w.db
    → Finds (IsInSession r.row) r.row.id w.db
    → Writes w.db (consume a r.user r.row d w).1.db
takes-Writes a r d w u found = consume-Writes a r.user r.row d w (taken-IsLive r.row w.db u found)

written :
    {s t : Site} → Writes s.world.db t.world.db → t.readings ≡ s.readings → IsSound s → IsSound t
written {s} {t} ws same h = record {
  keyed = Writes-Tokens ws h.keyed;
  single = Writes-IsSingle ws h.single;
  there = rw same (AllThere-Writes s.readings ws h.there);
}

Move-Writes : {a : AuthService} {s t : Site} → Move a s t → IsSound s → Writes s.world.db t.world.db
Move-Writes (flow step) h = Step-Writes step
Move-Writes (reads token now r found known live early) h = done
Move-Writes {a} {s} (takes r d m) h =
    takes-Writes a r d s.world h.keyed (Finds-of_mem s.world.db m h.there)

Move-IsSound : {a : AuthService} {s t : Site} → Move a s t → IsSound s → IsSound t
Move-IsSound (flow step) h = written (Step-Writes step) refl h
Move-IsSound {a} {s} (reads token now r found known live early) h = record {
  keyed = h.keyed;
  single = h.single;
  there = (
    (r.row, has_hash-Finds (a.sha256 token) r.row s.world.db.refresh_tokens h.keyed found, refl),
    h.there,
  );
}
Move-IsSound (takes r d m) h = written (Move-Writes (takes r d m) h) refl h

Reach-IsSound : {a : AuthService} {s t : Site} → Reach a s t → IsSound s → IsSound t
Reach-IsSound here h = h
Reach-IsSound (next before move) h = Move-IsSound move (Reach-IsSound before h)

-- Where token ids are unique, each session has one live refresh token at most, the session of each live one is
-- there, and no refresh is on its way, each session has one live refresh token at most after whatever flows and
-- refreshes, also when several refreshes have read the same token before the first of them takes it.
pub Reach-IsSingle :
    {a : AuthService} {w : World} {t : Site}
    → Reach a (record { world = w; readings = [] }) t
    → IsKeyed refresh_key w.db.refresh_tokens
    → IsSingle w.db
    → IsSingle t.world.db
Reach-IsSingle path u h = (Reach-IsSound path (record { keyed = u; single = h; there = tt })).single

-- A token stays revoked.
Reach-IsRevoked :
    {a : AuthService} {s t : Site} (k : ℕ)
    → Reach a s t
    → IsSound s
    → Finds IsRevoked k s.world.db
    → Finds IsRevoked k t.world.db
Reach-IsRevoked k here h found = found
Reach-IsRevoked k (next before move) h found =
    Writes-Finds IsRevoked (λ t p. refl) k (Move-Writes move (Reach-IsSound before h))
      (Reach-IsRevoked k before h found)

-- A refresh that took its token and succeeded has left it revoked.
consume-IsRevoked :
    (a : AuthService) (r : Reading) (d : Draw) (w : World) (got : SessionTokens)
    → Finds (IsInSession r.row) r.row.id w.db
    → (consume a r.user r.row d w).0 ≡ ok got
    → Finds IsRevoked r.row.id (consume a r.user r.row d w).1.db
unfolding consume
consume-IsRevoked a r d w got (t, e, its) fine =
    let taken : World = record w { db = revoke_tokens (is_token r.row.id) w.db } in
    let id = find_unique-key refresh_key r.row.id w.db.refresh_tokens t e in
    let row =
      find_unique-update refresh_key (is_live_token (is_token r.row.id)) revoked_token (λ r. refl)
        r.row.id w.db.refresh_tokens in
    let spent : Finds IsRevoked r.row.id taken.db =
      elim (Bool-cases (is_live_token (is_token r.row.id) t)) [
        | inl hit ↦ (revoked_token t, rw (row, e, hit) refl, refl)
        | inr miss ↦ (t, rw (row, e, miss) refl, ground (arith, miss, id, ==_refl r.row.id))
      ] in
    elim (Bool-cases (count_where (is_live_token (is_token r.row.id)) w.db.refresh_tokens == 0)) [
      | inl lost ↦
          absurd (
            ok-err got invalid_credentials
              (sym (rw lost at fine) ∙ (reuse-IsOut r.user.id taken).0))
      | inr won ↦ rw won (
          ok-Ensures (Finds IsRevoked r.row.id) (rotate a r.user r.row d taken) got (rw won at fine)
            (rotate-Ensures a r.user r.row d (Finds IsRevoked r.row.id)
              (λ x session now db h. (
                h.0,
                find_unique-append_some refresh_key r.row.id db.refresh_tokens x h.0 h.1,
                h.2,
              ))
              taken spent))
    ]

-- Of the refreshes that have read the same token one succeeds: when one has taken it and succeeded, each
-- other one that takes it later, whatever flows and refreshes lie between, is refused, and then no session and
-- no refresh token of the user is live. Token ids are unique at the start, each session has one live refresh
-- token at most and is there, and no refresh is on its way.
pub consume-once :
    {a : AuthService} {w : World} {s t : Site} (r : Reading) (d e : Draw) (got : SessionTokens)
    → Reach a (record { world = w; readings = [] }) s
    → IsKeyed refresh_key w.db.refresh_tokens
    → IsSingle w.db
    → Memᴰ r s.readings
    → (consume a r.user r.row d s.world).0 ≡ ok got
    → Reach a (record s { world = (consume a r.user r.row d s.world).1 }) t
    → ((consume a r.user r.row e t.world).0 ≡ err invalid_credentials)
      × IsOut r.user.id (consume a r.user r.row e t.world).1.db
unfolding consume
consume-once {a} {w} {s} {t} r d e got path u h m fine later =
    let sound = Reach-IsSound path (record { keyed = u; single = h; there = tt }) in
    let after : IsSound (record s { world = (consume a r.user r.row d s.world).1 }) =
      Move-IsSound {a = a} (takes r d m) sound in
    let (x, at, spent) =
      Reach-IsRevoked r.row.id later after
        (consume-IsRevoked a r d s.world got (Finds-of_mem s.world.db m sound.there) fine) in
    let nothing =
      none_live r.row.id x t.world.db.refresh_tokens (Reach-IsSound later after).keyed at spent in
    rw nothing (reuse-IsOut r.user.id _)
