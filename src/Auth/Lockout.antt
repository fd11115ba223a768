-- ===== src/Auth/Lockout.antt =====
-- Wrong passwords and the lock of an account (`login` and `registerFailedAttempt` of
-- src/auth/auth.service.ts).
use mathlib.Core.Option.{some-injective}
use vovinam_api_node.Base.{
  ℕ, ◌+◌, ◌*◌, ◌≤◌, ◌<◌, ◌≡◌, refl, ap, Bool, true, false, Option, some, List, [], ◌∷◌, Text, arith,
  ◌==◌, ==_refl, find_first, find_unique, find_first-update, Bool-cases, inl, inr,
}
use vovinam_api_node.Schema.{User}
use vovinam_api_node.Service.{World, err}
use vovinam_api_node.Auth.Tokens.{AuthService}
use vovinam_api_node.Auth.Users.{
  invalid_credentials, user_key, has_email, by_email, is_user, update_user,
}
use vovinam_api_node.Auth.Login.{
  Draw, should_lock, failed_row, register_failed_attempt, is_disabled, is_locked, check_account,
  login_user,
}

find_unique-exists :
    (q : User → Bool) (rows : List User) (x : User)
    → find_first q rows ≡ some x
    → (r : User) × (find_unique user_key x.id rows ≡ some r)
unfolding find_first find_unique
find_unique-exists q [] x h = cc
find_unique-exists q (r ∷ rows) x h = elim (Bool-cases (r.id == x.id)) [
  | inl same ↦ (r, rw same refl)
  | inr other ↦ elim (Bool-cases (q r)) [
    | inl hit ↦
        let it : r ≡ x = some-injective r x (rw hit at h) in
        absurd (ground (arith, other, ==_refl r.id, ap (λ (u : User). u.id) it))
    | inr miss ↦ let (s, there) = find_unique-exists q rows x (rw miss at h) in (s, rw other there)
  ]
]

-- What one wrong password leaves of the account.
wrong_password :
    (a : AuthService) (email password : Text) (ip : Option Text) (d : Draw) (v : World) (x : User)
    → by_email email v.db ≡ some x
    → a.compare password x.password_hash ≡ false
    → by_email email (login_user a email password ip d v).1.db ≡ some (failed_row a d.now x x)
unfolding login_user register_failed_attempt update_user
wrong_password a email password ip d v x at wrong =
    let (r, there) = find_unique-exists (has_email email) v.db.users x at in
    let written =
      find_first-update (has_email email) (is_user x.id) (failed_row a d.now x) v.db.users
        (λ u. refl) in
    elim (Bool-cases (should_lock a x)) [
      | inl locks ↦ rw (at, wrong, there, locks) (rw (written, at, ==_refl x.id, locks) refl)
      | inr spares ↦ rw (at, wrong, there, spares) (rw (written, at, ==_refl x.id, spares) refl)
    ]

-- Sign-ins for an address with wrong passwords only, one after the other, and the time of the last.
pub data Tries (a : AuthService) (email hash : Text) : ℕ → ℕ → World → World → Type 0 where
  none_yet : {w : World} → Tries a email hash 0 0 w w
  again :
      {n s : ℕ} {w v : World}
      → Tries a email hash n s w v
      → (password : Text) (ip : Option Text) (d : Draw) → a.compare password hash ≡ false
      → Tries a email hash (n + 1) d.now w (login_user a email password ip d v).1

-- The account after n of them.
record IsTried (a : AuthService) (email hash : Text) (n now : ℕ) (v : World) : Type 0 where
  row : User
  found : by_email email v.db ≡ some row
  same_hash : row.password_hash ≡ hash
  counted : n < a.max_login_attempts → row.failed_login_attempts ≡ n
  locked :
      n ≡ a.max_login_attempts
      → (row.failed_login_attempts ≡ 0) × (row.locked_until ≡ some (now + a.login_lockout * 1000))

again-IsTried :
    (a : AuthService) (email hash : Text) (n s : ℕ) (v : World) (password : Text) (ip : Option Text)
    (d : Draw)
    → n + 1 ≤ a.max_login_attempts
    → a.compare password hash ≡ false
    → IsTried a email hash n s v
    → IsTried a email hash (n + 1) d.now (login_user a email password ip d v).1
again-IsTried a email hash n s v password ip d le wrong h =
    let count = h.counted (omega (arith, le)) in
    record {
      row = failed_row a d.now h.row h.row;
      found = wrong_password a email password ip d v h.row h.found (rw (h.same_hash) wrong);
      same_hash = h.same_hash;
      counted = λ under. ground (arith, count, under);
      locked = λ full. (ground (arith, count, full), ground (arith, count, full));
    }

Tries-IsTried :
    {a : AuthService} {email hash : Text} {n now : ℕ} {w v : World} (u : User)
    → by_email email w.db ≡ some u
    → u.password_hash ≡ hash
    → u.failed_login_attempts ≡ 0
    → 0 < a.max_login_attempts
    → n ≤ a.max_login_attempts
    → Tries a email hash n now w v
    → IsTried a email hash n now v
Tries-IsTried u at same clean some_tries le none_yet = record {
  row = u;
  found = at;
  same_hash = same;
  counted = λ under. clean;
  locked = λ full. absurd (omega (arith, full, some_tries));
}
Tries-IsTried {a} {email} {hash} u at same clean some_tries le
      (again {n} {s} {w} {v} before password ip d wrong) =
    again-IsTried a email hash n s v password ip d le wrong
      (Tries-IsTried u at same clean some_tries (omega (arith, le)) before)

-- After as many wrong passwords as the limit, with no failure counted before, the right password is refused
-- too, until the duration of the lock is over.
pub login_user-locked :
    (a : AuthService) (email : Text) (now : ℕ) (w v : World) (u : User) (password : Text)
    (ip : Option Text) (e : Draw)
    → by_email email w.db ≡ some u
    → u.failed_login_attempts ≡ 0
    → 0 < a.max_login_attempts
    → Tries a email u.password_hash a.max_login_attempts now w v
    → e.now < now + a.login_lockout * 1000
    → a.compare password u.password_hash ≡ true
    → (login_user a email password ip e v).0 ≡ err invalid_credentials
unfolding login_user check_account
login_user-locked a email now w v u password ip e at clean some_tries tries soon right =
    let h = Tries-IsTried u at refl clean some_tries (omega arith) tries in
    let x = h.row in
    let right_too : a.compare password x.password_hash ≡ true = rw (h.same_hash) right in
    let shut : is_locked e.now x.locked_until ≡ true =
      rw ((h.locked refl).1) (ground (arith, soon)) in
    elim (Bool-cases (is_disabled x)) [
      | inl closed ↦ rw (h.found, right_too, closed) refl
      | inr usable ↦ rw (h.found, right_too, usable, shut) refl
    ]

-- The next wrong password during the lock lifts the lock, where the limit is above one: no time is too
-- early any more for a sign-in.
pub wrong_password-unlocks :
    (a : AuthService) (email : Text) (now : ℕ) (w v : World) (u : User) (password : Text)
    (ip : Option Text) (d : Draw)
    → by_email email w.db ≡ some u
    → u.failed_login_attempts ≡ 0
    → 1 < a.max_login_attempts
    → Tries a email u.password_hash a.max_login_attempts now w v
    → a.compare password u.password_hash ≡ false
    → (x : User) × (by_email email (login_user a email password ip d v).1.db ≡ some x)
      × ((t : ℕ) → is_locked t x.locked_until ≡ false)
wrong_password-unlocks a email now w v u password ip d at clean above tries wrong =
    let h = Tries-IsTried u at refl clean (omega (arith, above)) (omega arith) tries in
    (
      failed_row a d.now h.row h.row,
      wrong_password a email password ip d v h.row h.found (rw (h.same_hash) wrong),
      λ t. rw (spared h.row (h.locked refl).0) refl,
    )
  where
    spared : (x : User) → x.failed_login_attempts ≡ 0 → should_lock a x ≡ false
    spared x none_counted = ground (arith, none_counted, above)
