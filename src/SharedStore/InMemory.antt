-- ===== src/SharedStore/InMemory.antt =====
-- The in-memory store of src/common/shared-store.ts keeps the promise of a shared store, and its
-- sweeper cannot be observed.
use vovinam_api_node.Base.{
  ℕ, ◌+◌, ◌≤◌, ◌≡◌, refl, sym, ◌∙◌, ap, Option, none, some, [], ◌∷◌, if◌then◌else◌, Text, text_eq,
  text_eq_iff, arith, Bool-cases, inl, inr,
}
use vovinam_api_node.SharedStore.{
  StoreValue, StoreEntry, entry_until, deadline, is_expired, live, value_of, count_of, counted,
  SharedStore,
}
use vovinam_api_node.SharedStore.Memory.{
  Memory, find, put, delete, drop_expired, get_entry, get, set, increment, sweep, IsMap, find-put,
  find-delete, entry, expired_later, entry-drop_expired,
}

pub get_answer : (now : ℕ) (k : Text) (m : Memory) → (get now k m).0 ≡ value_of (entry now k m)
unfolding get get_entry
get_answer now k m = refl

pub get_keeps :
    (now later : ℕ) (k j : Text) (m : Memory)
    → now ≤ later
    → entry later j (get now k m).1 ≡ entry later j m
unfolding get get_entry
get_keeps now later k j m h = entry-drop_expired now later k j m h

entry-put :
    (later : ℕ) (k j : Text) (e : StoreEntry) (m : Memory)
    → entry later j (put k e m) ≡ (if text_eq k j then live later (some e) else entry later j m)
entry-put later k j e m = elim (Bool-cases (text_eq k j)) [
  | inl same ↦ rw (find-put k j e m, same) refl
  | inr other ↦ rw (find-put k j e m, other) refl
]

pub set_entry :
    (now later : ℕ) (k j : Text) (v : StoreValue) (ttl : Option ℕ) (m : Memory)
    → entry later j (set now k v ttl m) ≡ (
        if text_eq k j
        then live later (some (entry_until v (deadline ttl now)))
        else entry later j m)
unfolding set
set_entry now later k j v ttl m = entry-put later k j (entry_until v (deadline ttl now)) m

pub delete_entry :
    (later : ℕ) (k j : Text) (m : Memory)
    → entry later j (delete k m) ≡ (if text_eq k j then none else entry later j m)
delete_entry later k j m = elim (Bool-cases (text_eq k j)) [
  | inl same ↦ rw (find-delete k j m, same) refl
  | inr other ↦ rw (find-delete k j m, other) refl
]

pub increment_answer :
    (now : ℕ) (k : Text) (ttl : Option ℕ) (m : Memory)
    → (increment now k ttl m).0 ≡ count_of (entry now k m) + 1
unfolding increment get_entry
increment_answer now k ttl m = refl

pub increment_entry :
    (now later : ℕ) (k j : Text) (ttl : Option ℕ) (m : Memory)
    → now ≤ later
    → entry later j (increment now k ttl m).1 ≡ (
        if text_eq k j
        then live later (some (counted (entry now k m) ttl now))
        else entry later j m)
unfolding increment get_entry
increment_entry now later k j ttl m h =
    entry-put later k j (counted (entry now k m) ttl now) (drop_expired now k (find k m) m)
    ∙ ap (λ o. if text_eq k j then live later (some (counted (entry now k m) ttl now)) else o)
        (entry-drop_expired now later k j m h)

-- The in-memory store is a shared store: under its view of live entries, each operation does what the
-- promise says, at every later time.
abbrev pub in_memory : SharedStore Memory
in_memory = record {
  entry = entry;
  get = get;
  set = set;
  delete = delete;
  increment = increment;
  get_answer = get_answer;
  get_entry = get_keeps;
  set_entry = set_entry;
  delete_entry = delete_entry;
  increment_answer = increment_answer;
  increment_entry = increment_entry;
}

find-sweep : (now : ℕ) (k : Text) (m : Memory) → find k m ≡ none → find k (sweep now m) ≡ none
unfolding find sweep
find-sweep now k [] h = refl
find-sweep now k ((j, e) ∷ m) h = ground (arith, find-sweep now k m)

-- The sweeper shows at no later time: every key has the entry that it had.
pub sweep_unseen :
    (now later : ℕ) (k : Text) (m : Memory)
    → IsMap m
    → now ≤ later
    → in_memory.entry later k (sweep now m) ≡ in_memory.entry later k m
unfolding find sweep
sweep_unseen now later k [] u h = refl
sweep_unseen now later k ((j, e) ∷ m) u h = elim (Bool-cases (is_expired now e.expires_at)) [
  | inr fresh ↦ elim (Bool-cases (text_eq j k)) [
    | inl same ↦ rw (fresh, same) refl
    | inr other ↦ rw (fresh, other) (sweep_unseen now later k m u.1 h)
  ]
  | inl old ↦ elim (Bool-cases (text_eq j k)) [
    | inr other ↦ rw (old, other) (sweep_unseen now later k m u.1 h)
    | inl same ↦
        let gone : find k (sweep now m) ≡ none =
          rw (sym ((text_eq_iff j k).0 same)) (find-sweep now j m u.0) in
        rw (old, same, gone) (sym (expired_later now later e h old))
  ]
]

put-IsMap : (k : Text) (e : StoreEntry) (m : Memory) → IsMap m → IsMap (put k e m)
unfolding put find
put-IsMap k e [] h = (refl, tt)
put-IsMap k e ((j, x) ∷ m) h =
    ground (arith, put-IsMap k e m h.1, find-put k j e m, text_eq_iff k j, text_eq_iff j k)

delete-IsMap : (k : Text) (m : Memory) → IsMap m → IsMap (delete k m)
unfolding delete find
delete-IsMap k [] h = tt
delete-IsMap k ((j, x) ∷ m) h = ground (arith, delete-IsMap k m h.1, find-delete k j m)

drop_expired-IsMap :
    (now : ℕ) (k : Text) (o : Option StoreEntry) (m : Memory)
    → IsMap m
    → IsMap (drop_expired now k o m)
drop_expired-IsMap now k none m h = h
drop_expired-IsMap now k (some e) m h = elim (Bool-cases (is_expired now e.expires_at)) [
  | inl old ↦ rw old (delete-IsMap k m h)
  | inr fresh ↦ rw fresh h
]

sweep-IsMap : (now : ℕ) (m : Memory) → IsMap m → IsMap (sweep now m)
unfolding sweep
sweep-IsMap now [] h = tt
sweep-IsMap now ((k, e) ∷ m) h = elim (Bool-cases (is_expired now e.expires_at)) [
  | inl old ↦ rw old (sweep-IsMap now m h.1)
  | inr fresh ↦ rw fresh (find-sweep now k m h.0, sweep-IsMap now m h.1)
]

-- Every operation, the sweeper included, leaves a map: no key is there twice.
pub operations-IsMap :
    (now : ℕ) (k : Text) (v : StoreValue) (ttl : Option ℕ) (m : Memory)
    → IsMap m
    → IsMap (get now k m).1
      × IsMap (set now k v ttl m)
      × IsMap (delete k m)
      × IsMap (increment now k ttl m).1
      × IsMap (sweep now m)
unfolding get get_entry set increment
operations-IsMap now k v ttl m h =
    let dropped = drop_expired-IsMap now k (find k m) m h in
    (
      dropped,
      put-IsMap k (entry_until v (deadline ttl now)) m h,
      delete-IsMap k m h,
      put-IsMap k (counted (entry now k m) ttl now) (drop_expired now k (find k m) m) dropped,
      sweep-IsMap now m h,
    )
