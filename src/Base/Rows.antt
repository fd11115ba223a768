-- ===== src/Base/Rows.antt =====
-- A table is the list of its rows in the order of insertion. These are the reads and the bulk
-- writes that the services ask the Prisma client for, with the `where` object as a test on a row
-- and the `data` object as a function on rows.
use Prim.Native.Nat.{ℕ, ◌+◌, ◌≤◌, ◌<◌}
use mathlib.Core.Path.{◌≡◌, refl}
use mathlib.Core.Bool.{Bool, true, false, ◌&&◌}
use mathlib.Core.Option
use mathlib.Core.Option.{Option, none, some}
use mathlib.Core.List.{List, [], ◌∷◌, ◌++◌}
use native.Mathlib.Omega.{arith}
use vovinam_api_node.Base.Tests.{◌==◌, ==_iff, if◌then◌else◌}

module _ {ℓ} {R : Type ℓ} where
  -- `findFirst({ where })`
  unfoldable pub find_first : (R → Bool) → List R → Option R
  find_first p [] = none
  find_first p (r ∷ rs) = if p r then some r else find_first p rs

  -- `updateMany({ where, data })`, and the `count` that it answers
  unfoldable pub update_many : (R → Bool) → (R → R) → List R → List R
  update_many p f [] = []
  update_many p f (r ∷ rs) = (if p r then f r else r) ∷ update_many p f rs

  unfoldable pub count_where : (R → Bool) → List R → ℕ
  count_where p [] = 0
  count_where p (r ∷ rs) = (if p r then 1 else 0) + count_where p rs

  unfoldable pub find_many : (R → Bool) → List R → List R
  find_many p [] = []
  find_many p (r ∷ rs) = if p r then r ∷ find_many p rs else find_many p rs

  -- `aggregate({ _sum })` of a number that is 0 on the rows left out
  unfoldable pub sum_of : (R → ℕ) → List R → ℕ
  sum_of w [] = 0
  sum_of w (r ∷ rs) = w r + sum_of w rs

  pub sum_of-append : (w : R → ℕ) (xs ys : List R) → sum_of w (xs ++ ys) ≡ sum_of w xs + sum_of w ys
  unfolding sum_of
  sum_of-append w [] ys = omega arith
  sum_of-append w (x ∷ xs) ys = omega (arith, sum_of-append w xs ys)

  -- An update that leaves the weight of each row leaves the sum.
  pub sum_of-update_same :
      (w : R → ℕ) (p : R → Bool) (f : R → R) (rows : List R)
      → ((r : R) → p r ≡ true → w (f r) ≡ w r)
      → sum_of w (update_many p f rows) ≡ sum_of w rows
  unfolding sum_of update_many
  sum_of-update_same w p f [] h = refl
  sum_of-update_same w p f (r ∷ rs) h = ground (arith, h r, sum_of-update_same w p f rs h)

  -- A bulk write that the test cannot see acts on the row that the test finds.
  pub find_first-update :
      (q p : R → Bool) (f : R → R) (rows : List R)
      → ((r : R) → q (f r) ≡ q r)
      → find_first q (update_many p f rows)
        ≡ Option.map (λ r. if p r then f r else r) (find_first q rows)
  unfolding find_first update_many
  find_first-update q p f [] same = refl
  find_first-update q p f (r ∷ rs) same = ground (arith, same r, find_first-update q p f rs same)

  pub find_first-append_some :
      (q : R → Bool) (xs : List R) (y r : R)
      → find_first q xs ≡ some r
      → find_first q (xs ++ y ∷ []) ≡ some r
  unfolding find_first
  find_first-append_some q [] y r h = cc
  find_first-append_some q (x ∷ xs) y r h = ground (arith, find_first-append_some q xs y r)

  -- A write after which no row counts that did not count before.
  pub count_where-shrink :
      (q p : R → Bool) (f : R → R) (rows : List R)
      → ((r : R) → q (f r) ≡ true → q r ≡ true)
      → count_where q (update_many p f rows) ≤ count_where q rows
  unfolding update_many count_where
  count_where-shrink q p f [] h = omega arith
  count_where-shrink q p f (r ∷ rs) h = ground (arith, h r, count_where-shrink q p f rs h)

  -- Where it takes away a row that a search finds, the count goes down.
  pub count_where-drop :
      (q p s : R → Bool) (f : R → R) (rows : List R) (x : R)
      → ((r : R) → q (f r) ≡ true → q r ≡ true)
      → find_first s rows ≡ some x
      → q x ≡ true
      → p x ≡ true
      → q (f x) ≡ false
      → count_where q (update_many p f rows) < count_where q rows
  unfolding update_many count_where find_first
  count_where-drop q p s f [] x h found a b c = cc
  count_where-drop q p s f (r ∷ rs) x h found a b c =
      ground (arith, h r, a, b, c, count_where-drop q p s f rs x h, count_where-shrink q p f rs h)

  pub count_where-append :
      (p : R → Bool) (xs : List R) (y : R)
      → count_where p (xs ++ y ∷ []) ≡ count_where p xs + (if p y then 1 else 0)
  unfolding count_where
  count_where-append p [] y = omega arith
  count_where-append p (x ∷ xs) y = omega (arith, count_where-append p xs y)

  pub count_where-none :
      (p : R → Bool) (rows : List R) → find_first p rows ≡ none → count_where p rows ≡ 0
  unfolding find_first count_where
  count_where-none p [] h = refl
  count_where-none p (r ∷ rs) h = ground (arith, count_where-none p rs)

  -- A bulk write that the test cannot see leaves the count.
  pub count_where-update :
      (q p : R → Bool) (f : R → R) (rows : List R)
      → ((r : R) → q (f r) ≡ q r)
      → count_where q (update_many p f rows) ≡ count_where q rows
  unfolding update_many count_where
  count_where-update q p f [] h = refl
  count_where-update q p f (r ∷ rs) h = ground (arith, h r, count_where-update q p f rs h)

-- Rows with a key.
module _ {ℓ} {R : Type ℓ} (key : R → ℕ) where
  -- `findUnique({ where: { id } })`
  unfoldable pub find_unique : ℕ → List R → Option R
  find_unique k [] = none
  find_unique k (r ∷ rs) = if key r == k then some r else find_unique k rs

  -- No key occurs twice.
  abbrev pub IsKeyed : List R → Type ℓ
  IsKeyed [] = Unit
  IsKeyed (r ∷ rs) = (find_unique (key r) rs ≡ none) × IsKeyed rs

  pub find_unique-key : (k : ℕ) (rows : List R) (r : R) → find_unique k rows ≡ some r → key r ≡ k
  unfolding find_unique
  find_unique-key k [] r h = cc
  find_unique-key k (x ∷ rs) r h = ground (arith, find_unique-key k rs r)

  -- With unique keys a search for a key under a condition looks at one row.
  pub find_first-keyed :
      (k : ℕ) (q : R → Bool) (rows : List R)
      → IsKeyed rows
      → find_first (λ r. key r == k && q r) rows
        ≡ elim (find_unique k rows) [ none ↦ none | some x ↦ if q x then some x else none ]
  unfolding find_unique find_first
  find_first-keyed k q [] u = refl
  find_first-keyed k q (r ∷ rs) u = ground (arith, ==_iff (key r) k, find_first-keyed k q rs u.1)

  pub find_unique_of_find_first :
      (q : R → Bool) (rows : List R) (x : R)
      → IsKeyed rows
      → find_first q rows ≡ some x
      → find_unique (key x) rows ≡ some x
  unfolding find_unique find_first
  find_unique_of_find_first q [] x u h = cc
  find_unique_of_find_first q (r ∷ rs) x u h =
      ground (arith, ==_iff (key r) (key x), find_unique_of_find_first q rs x u.1)

  pub find_unique-append :
      (k : ℕ) (xs : List R) (y : R)
      → find_unique k xs ≡ none
      → find_unique k (xs ++ y ∷ []) ≡ (if key y == k then some y else none)
  unfolding find_unique
  find_unique-append k [] y h = refl
  find_unique-append k (x ∷ xs) y h = ground (arith, find_unique-append k xs y)

  pub find_unique-append_some :
      (k : ℕ) (xs : List R) (y r : R)
      → find_unique k xs ≡ some r
      → find_unique k (xs ++ y ∷ []) ≡ some r
  unfolding find_unique
  find_unique-append_some k [] y r h = cc
  find_unique-append_some k (x ∷ xs) y r h = ground (arith, find_unique-append_some k xs y r)

  pub append-IsKeyed :
      (xs : List R) (y : R) → IsKeyed xs → find_unique (key y) xs ≡ none → IsKeyed (xs ++ y ∷ [])
  unfolding find_unique
  append-IsKeyed [] y h fresh = (refl, tt)
  append-IsKeyed (x ∷ xs) y h fresh =
      ground (arith, append-IsKeyed xs y h.1, find_unique-append (key x) xs y)

  -- A bulk write that keeps the keys acts on a found row, and keeps keys unique.
  module _ (p : R → Bool) (f : R → R) (kept : (r : R) → key (f r) ≡ key r) where
    pub find_unique-update :
        (k : ℕ) (rows : List R)
        → find_unique k (update_many p f rows)
          ≡ Option.map (λ r. if p r then f r else r) (find_unique k rows)
    unfolding find_unique update_many
    find_unique-update k [] = refl
    find_unique-update k (r ∷ rs) = ground (arith, kept r, find_unique-update k rs)

    pub update-IsKeyed : (rows : List R) → IsKeyed rows → IsKeyed (update_many p f rows)
    unfolding update_many
    update-IsKeyed [] h = tt
    update-IsKeyed (r ∷ rs) h =
        ground (arith, kept r, update-IsKeyed rs h.1, find_unique-update (key r) rs)

  -- A write whose test pins one key.
  module _ (p : R → Bool) (k : ℕ) (only : (r : R) → p r ≡ true → key r ≡ k) where
    pub update-absent :
        (f : R → R) (rows : List R) → find_unique k rows ≡ none → update_many p f rows ≡ rows
    unfolding find_unique update_many
    update-absent f [] h = refl
    update-absent f (r ∷ rs) h = ground (arith, only r, update-absent f rs)

    pub count-absent : (rows : List R) → find_unique k rows ≡ none → count_where p rows ≡ 0
    unfolding find_unique count_where
    count-absent [] h = refl
    count-absent (r ∷ rs) h = ground (arith, only r, count-absent rs)

    pub count-found :
        (rows : List R) (x : R)
        → IsKeyed rows
        → find_unique k rows ≡ some x
        → count_where p rows ≡ (if p x then 1 else 0)
    unfolding find_unique count_where
    count-found [] x u h = cc
    count-found (r ∷ rs) x u h =
        ground (arith, only r, ==_iff (key r) k, count-found rs x u.1, count-absent rs)

    -- The sum moves by what the one row's weight moves by.
    pub sum_of-update :
        (w : R → ℕ) (f : R → R) (rows : List R) (x : R)
        → IsKeyed rows
        → find_unique k rows ≡ some x
        → sum_of w (update_many p f rows) + w x ≡ sum_of w rows + w (if p x then f x else x)
    unfolding find_unique update_many sum_of
    sum_of-update w f [] x u h = cc
    sum_of-update w f (r ∷ rs) x u h =
        ground (arith, only r, sum_of-update w f rs x u.1, update-absent f rs)
