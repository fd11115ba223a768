-- ===== src/SharedStore/Memory.antt =====
-- src/common/shared-store.ts: `InMemorySharedStore`. A JavaScript map is the list of its entries in
-- the order of insertion.
use vovinam_api_node.Base.{
  ℕ, ◌+◌, ◌≤◌, ◌≡◌, refl, sym, true, Option, none, some, List, [], ◌∷◌, if◌then◌else◌, Text,
  text_eq, text_eq_iff, arith, Bool-cases, Option-cases, inl, inr,
}
use vovinam_api_node.SharedStore.{
  StoreValue, StoreEntry, entry_until, deadline, is_expired, live, value_of, count_of, counted,
}

abbrev pub Memory : Type 0
Memory = List (Text × StoreEntry)

-- `Map.get`
unfoldable pub find : Text → Memory → Option StoreEntry
find k [] = none
find k ((j, e) ∷ m) = if text_eq j k then some e else find k m

-- `Map.set`: a key that is there keeps its place.
unfoldable pub put : Text → StoreEntry → Memory → Memory
put k e [] = (k, e) ∷ []
put k e ((j, x) ∷ m) = if text_eq j k then (j, e) ∷ m else (j, x) ∷ put k e m

-- `Map.delete`
unfoldable pub delete : Text → Memory → Memory
delete k [] = []
delete k ((j, e) ∷ m) = if text_eq j k then delete k m else (j, e) ∷ delete k m

-- `getEntry`, which deletes an entry that has expired
abbrev pub drop_expired : ℕ → Text → Option StoreEntry → Memory → Memory
drop_expired now k none m = m
drop_expired now k (some e) m = if is_expired now e.expires_at then delete k m else m

unfoldable pub get_entry : ℕ → Text → Memory → Option StoreEntry × Memory
get_entry now k m = (live now (find k m), drop_expired now k (find k m) m)

-- `get`
unfoldable pub get : ℕ → Text → Memory → Option StoreValue × Memory
get now k m = (value_of (get_entry now k m).0, (get_entry now k m).1)

-- `set`
unfoldable pub set : ℕ → Text → StoreValue → Option ℕ → Memory → Memory
set now k v ttl m = put k (entry_until v (deadline ttl now)) m

-- `increment`
unfoldable pub increment : ℕ → Text → Option ℕ → Memory → ℕ × Memory
increment now k ttl m =
    let found = (get_entry now k m).0 in
    (count_of found + 1, put k (counted found ttl now) (get_entry now k m).1)

-- `sweep`
unfoldable pub sweep : ℕ → Memory → Memory
sweep now [] = []
sweep now ((k, e) ∷ m) = if is_expired now e.expires_at then sweep now m else (k, e) ∷ sweep now m

-- A map has no key twice.
abbrev pub IsMap : Memory → Type 0
IsMap [] = Unit
IsMap ((k, e) ∷ m) = (find k m ≡ none) × IsMap m

pub find-put :
    (k j : Text) (e : StoreEntry) (m : Memory)
    → find j (put k e m) ≡ (if text_eq k j then some e else find j m)
unfolding find put
find-put k j e [] = refl
find-put k j e ((i, x) ∷ m) =
    ground (arith, text_eq_iff k j, text_eq_iff i k, text_eq_iff i j, find-put k j e m)

pub find-delete :
    (k j : Text) (m : Memory) → find j (delete k m) ≡ (if text_eq k j then none else find j m)
unfolding find delete
find-delete k j [] = ground arith
find-delete k j ((i, x) ∷ m) =
    ground (arith, text_eq_iff k j, text_eq_iff i k, text_eq_iff i j, find-delete k j m)

-- The view of a memory at a time.
abbrev pub entry : ℕ → Text → Memory → Option StoreEntry
entry now k m = live now (find k m)

pub expired_later :
    (now later : ℕ) (e : StoreEntry)
    → now ≤ later
    → is_expired now e.expires_at ≡ true
    → live later (some e) ≡ none
expired_later now later e h x = at e.expires_at x
  where
    at :
        (t : Option ℕ)
        → is_expired now t ≡ true
        → (if is_expired later t then none else some e) ≡ none
    at none x = cc
    at (some t) x = ground arith

-- Dropping an expired entry shows at no later time.
pub entry-drop_expired :
    (now later : ℕ) (k j : Text) (m : Memory)
    → now ≤ later
    → entry later j (drop_expired now k (find k m) m) ≡ entry later j m
entry-drop_expired now later k j m h = elim (Option-cases (find k m)) [
  | inl e ↦ rw e refl
  | inr (x, e) ↦ elim (Bool-cases (is_expired now x.expires_at)) [
    | inr fresh ↦ rw (e, fresh) refl
    | inl old ↦ rw (e, old, find-delete k j m) (gone x e old)
  ]
]
  where
    gone :
        (x : StoreEntry)
        → find k m ≡ some x
        → is_expired now x.expires_at ≡ true
        → live later (if text_eq k j then none else find j m) ≡ live later (find j m)
    gone x e old = elim (Bool-cases (text_eq k j)) [
      | inr other ↦ rw other refl
      | inl same ↦
          rw (same, sym ((text_eq_iff k j).0 same), e) (sym (expired_later now later x h old))
    ]
