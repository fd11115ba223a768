-- ===== src/SharedStore.antt =====
-- src/common/shared-store.ts: what a shared store promises, over any representation. A key is a text,
-- and the clock is an argument of each operation. `SharedStore.Memory` is the in-memory store.
pub mod Memory
pub mod InMemory
pub mod Promise
use vovinam_api_node.Base.{
  ℕ, ◌+◌, ◌≤◌, ◌≡◌, Bool, true, false, Option, none, some, if◌then◌else◌, Text, text_eq, leb,
}

-- `SharedStoreValue`
pub data StoreValue : Type 0 where
  number : ℕ → StoreValue
  text : Text → StoreValue
  flag : Bool → StoreValue

-- `SharedStoreEntry`
pub record StoreEntry : Type 0 where
  pub value : StoreValue
  pub expires_at : Option ℕ

abbrev pub entry_until : StoreValue → Option ℕ → StoreEntry
entry_until v end = record { value = v; expires_at = end }

-- `ttlMs === undefined ? null : Date.now() + ttlMs`
abbrev pub deadline : Option ℕ → ℕ → Option ℕ
deadline none now = none
deadline (some ttl) now = some (now + ttl)

-- `entry.expiresAt !== null && entry.expiresAt <= now`
abbrev pub is_expired : ℕ → Option ℕ → Bool
is_expired now none = false
is_expired now (some t) = leb t now

-- What is left of an entry at a time.
abbrev pub live : ℕ → Option StoreEntry → Option StoreEntry
live now none = none
live now (some e) = if is_expired now e.expires_at then none else some e

abbrev pub value_of : Option StoreEntry → Option StoreValue
value_of none = none
value_of (some e) = some e.value

-- `typeof entry.value === 'number' ? entry.value : 0`
abbrev pub number_of : StoreValue → ℕ
number_of (number n) = n
number_of (text t) = 0
number_of (flag b) = 0

abbrev pub count_of : Option StoreEntry → ℕ
count_of none = 0
count_of (some e) = number_of e.value

abbrev pub or_deadline : Option ℕ → Option ℕ → Option ℕ
or_deadline none end = end
or_deadline (some t) end = some t

-- `entry?.expiresAt ?? (ttlMs === undefined ? null : Date.now() + ttlMs)`
abbrev pub kept_deadline : Option StoreEntry → Option ℕ → ℕ → Option ℕ
kept_deadline none ttl now = deadline ttl now
kept_deadline (some e) ttl now = or_deadline e.expires_at (deadline ttl now)

-- The entry that `increment` leaves, after the one that it finds.
abbrev pub counted : Option StoreEntry → Option ℕ → ℕ → StoreEntry
counted found ttl now = entry_until (number (count_of found + 1)) (kept_deadline found ttl now)

-- The promise: a map from keys to entries that vanish at their deadlines. `entry` is the abstract view
-- of a store at a time; the operations are described by it alone.
pub record SharedStore (S : Type 0) : Type 0 where
  pub entry : ℕ → Text → S → Option StoreEntry
  pub get : ℕ → Text → S → Option StoreValue × S
  pub set : ℕ → Text → StoreValue → Option ℕ → S → S
  pub delete : Text → S → S
  pub increment : ℕ → Text → Option ℕ → S → ℕ × S
  pub get_answer : (now : ℕ) (k : Text) (s : S) → (get now k s).0 ≡ value_of (entry now k s)
  pub get_entry :
      (now later : ℕ) (k j : Text) (s : S)
      → now ≤ later
      → entry later j (get now k s).1 ≡ entry later j s
  pub set_entry :
      (now later : ℕ) (k j : Text) (v : StoreValue) (ttl : Option ℕ) (s : S)
      → entry later j (set now k v ttl s) ≡ (
          if text_eq k j
          then live later (some (entry_until v (deadline ttl now)))
          else entry later j s)
  pub delete_entry :
      (later : ℕ) (k j : Text) (s : S)
      → entry later j (delete k s) ≡ (if text_eq k j then none else entry later j s)
  pub increment_answer :
      (now : ℕ) (k : Text) (ttl : Option ℕ) (s : S)
      → (increment now k ttl s).0 ≡ count_of (entry now k s) + 1
  pub increment_entry :
      (now later : ℕ) (k j : Text) (ttl : Option ℕ) (s : S)
      → now ≤ later
      → entry later j (increment now k ttl s).1 ≡ (
          if text_eq k j
          then live later (some (counted (entry now k s) ttl now))
          else entry later j s)
