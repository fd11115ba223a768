-- ===== src/Auth/Single.antt =====
-- A session has one live refresh token at most, in src/auth/auth.service.ts.
use vovinam_api_node.Base.{
  ℕ, ◌≤◌, ◌≡◌, ◌≢◌, refl, sym, ◌∙◌, ap, Bool, false, none, some, List, [], ◌∷◌, ◌++◌, arith, ◌==◌,
  ==_iff, ==_refl, find_unique, update_many, count_where, find_unique-update, find_unique-append,
  find_unique-append_some, count_where-shrink, count_where-drop, count_where-append, Bool-cases,
  Option-cases, inl, inr,
}
use vovinam_api_node.Schema.{Session, RefreshToken, Database}
use vovinam_api_node.Auth.Users.{
  session_key, is_live_session, is_live_token, revoked_session, revoked_token, token_of_session,
}
use vovinam_api_node.Auth.Sessions.{is_token, is_session}
use vovinam_api_node.Auth.Writes.{
  IsLive, Write, elsewhere, set_user, add_account, end_sessions, end_tokens, use_up, opening,
  rotating, Writes, done, more,
}

-- The live tokens of a session.
abbrev pub live_of : ℕ → RefreshToken → Bool
live_of k = is_live_token (token_of_session k)

abbrev pub live_tokens : ℕ → Database → ℕ
live_tokens k db = count_where (live_of k) db.refresh_tokens

pub record IsSingle (db : Database) : Type 0 where
  pub unknown : (k : ℕ) → find_unique session_key k db.sessions ≡ none → live_tokens k db ≡ 0
  pub single : (k : ℕ) → live_tokens k db ≤ 1

-- Fewer live tokens and no session less.
shrink-IsSingle :
    (db v : Database)
    → ((k : ℕ) → live_tokens k v ≤ live_tokens k db)
    → ((k : ℕ)
        → find_unique session_key k v.sessions ≡ none
        → find_unique session_key k db.sessions ≡ none)
    → IsSingle db
    → IsSingle v
shrink-IsSingle db v fewer known h = record {
  unknown = λ k none_there. omega (arith, fewer k, h.unknown k (known k none_there));
  single = λ k. omega (arith, fewer k, h.single k);
}

mapped_none :
    (k : ℕ) (p : Session → Bool) (f : Session → Session) (rows : List Session)
    → ((s : Session) → (f s).id ≡ s.id)
    → find_unique session_key k (update_many p f rows) ≡ none
    → find_unique session_key k rows ≡ none
mapped_none k p f rows kept h = elim (Option-cases (find_unique session_key k rows)) [
  | inl e ↦ e
  | inr (s, e) ↦ absurd (some_none (rw (find_unique-update session_key p f kept k rows, e) at h))
]
  where
    some_none : {s : Session} → some s ≢ none
    some_none p = cc

fewer_revoked :
    (k : ℕ) (p : RefreshToken → Bool) (rows : List RefreshToken)
    → count_where (live_of k) (update_many (is_live_token p) revoked_token rows)
      ≤ count_where (live_of k) rows
fewer_revoked k p rows =
    count_where-shrink (live_of k) (is_live_token p) revoked_token rows (λ t e. ground (arith, e))

-- The new session's token is its only one.
opening-IsSingle :
    (s : Session) (t : RefreshToken) (db : Database)
    → find_unique session_key s.id db.sessions ≡ none
    → t.session_id ≡ s.id
    → IsSingle db
    → IsSingle (record db {
      sessions = db.sessions ++ s ∷ [];
      refresh_tokens = db.refresh_tokens ++ t ∷ [];
    })
opening-IsSingle s t db fresh same h = record {
  unknown = λ k e. elim (Option-cases (find_unique session_key k db.sessions)) [
    | inr (x, there) ↦
        absurd (some_none (sym (find_unique-append_some session_key k db.sessions s x there) ∙ e))
    | inl before ↦
        let other : (s.id == k) ≡ false = appended_none k before e in
        let counted = count_where-append (live_of k) db.refresh_tokens t in
        let before_none = h.unknown k before in
        let not_its : (t.session_id == k) ≡ false = rw same other in
        ground (arith, counted, before_none, not_its)
  ];
  single = λ k. elim (Bool-cases (t.session_id == k)) [
    | inl hit ↦
        let at : find_unique session_key k db.sessions ≡ none =
          ap (λ j. find_unique session_key j db.sessions)
            (sym ((==_iff t.session_id k).0 hit) ∙ same)
          ∙ fresh in
        ground (arith, count_where-append (live_of k) db.refresh_tokens t, h.unknown k at)
    | inr miss ↦
        ground (arith, count_where-append (live_of k) db.refresh_tokens t, h.single k, miss)
  ];
}
  where
    some_none : {x : Session} → some x ≢ none
    some_none p = cc

    appended_none :
        (k : ℕ)
        → find_unique session_key k db.sessions ≡ none
        → find_unique session_key k (db.sessions ++ s ∷ []) ≡ none
        → (s.id == k) ≡ false
    appended_none k before e =
        ground (arith, find_unique-append session_key k db.sessions s before, e)

-- The new token of a session replaces the one that was found live.
module _ (row t : RefreshToken) (now : ℕ) (s : Session) (db : Database) (live : IsLive row db)
    (same : t.session_id ≡ row.session_id)
    (known : find_unique session_key row.session_id db.sessions ≡ some s) (h : IsSingle db) where
  abbrev left : List RefreshToken
  left = update_many (is_live_token (is_token row.id)) revoked_token db.refresh_tokens

  none_left : count_where (live_of row.session_id) left ≡ 0
  none_left = omega (
    arith,
    count_where-drop (live_of row.session_id) (is_live_token (is_token row.id)) live.test
        revoked_token db.refresh_tokens live.token (λ r e. ground (arith, e)) live.found
        (ground (arith, live.live, live.its_session, ==_refl row.session_id))
        (ground (arith, live.live, live.its_id, ==_refl row.id)) (ground arith),
    h.single row.session_id,
  )

  rotating-single : (k : ℕ) → count_where (live_of k) (left ++ t ∷ []) ≤ 1
  rotating-single k = elim (Bool-cases (t.session_id == k)) [
    | inl hit ↦
        let at : row.session_id ≡ k = sym same ∙ (==_iff t.session_id k).0 hit in
        ground (arith, count_where-append (live_of k) left t, rw at at none_left)
    | inr miss ↦ ground (
      arith,
      count_where-append (live_of k) left t,
      fewer_revoked k (is_token row.id) db.refresh_tokens,
      h.single k,
      miss,
    )
  ]

  rotating-unknown :
      (k : ℕ)
      → find_unique session_key k db.sessions ≡ none
      → count_where (live_of k) (left ++ t ∷ []) ≡ 0
  rotating-unknown k e = elim (Bool-cases (t.session_id == k)) [
    | inl hit ↦
        let at : row.session_id ≡ k = sym same ∙ (==_iff t.session_id k).0 hit in
        absurd (some_none (sym known ∙ rw (sym at) at e))
    | inr miss ↦ ground (
      arith,
      count_where-append (live_of k) left t,
      fewer_revoked k (is_token row.id) db.refresh_tokens,
      h.unknown k e,
      miss,
    )
  ]
    where
      some_none : {x : Session} → some x ≢ none
      some_none p = cc

Write-IsSingle : {db v : Database} → Write db v → IsSingle db → IsSingle v
Write-IsSingle {db} {v} (elsewhere e) h =
    shrink-IsSingle db v (λ k. rw (e.refresh_tokens) (omega arith)) (λ k p. rw (e.sessions) at p) h
Write-IsSingle {db} (set_user j f careful) h = shrink-IsSingle db _ (λ k. omega arith) (λ k p. p) h
Write-IsSingle {db} (add_account x fresh) h = shrink-IsSingle db _ (λ k. omega arith) (λ k p. p) h
Write-IsSingle {db} (end_sessions p) h =
    shrink-IsSingle db _ (λ k. omega arith)
      (λ k. mapped_none k (is_live_session p) revoked_session db.sessions (λ s. refl)) h
Write-IsSingle {db} (end_tokens p) h =
    shrink-IsSingle db _ (λ k. fewer_revoked k p db.refresh_tokens) (λ k e. e) h
Write-IsSingle {db} (use_up x fresh) h = shrink-IsSingle db _ (λ k. omega arith) (λ k p. p) h
Write-IsSingle {db} (opening s t fresh new same) h = opening-IsSingle s t db fresh same h
Write-IsSingle {db} (rotating row t now s live new same known) h = record {
  unknown = λ k e. rotating-unknown row t now s db live same known h k (
      mapped_none k (is_session row.session_id) (λ s. record s { last_active_at = now }) db.sessions
        (λ s. refl) e);
  single = rotating-single row t now s db live same known h;
}

pub Writes-IsSingle : {db v : Database} → Writes db v → IsSingle db → IsSingle v
Writes-IsSingle done h = h
Writes-IsSingle (more before write) h = Write-IsSingle write (Writes-IsSingle before h)
