-- ===== src/SharedStore/Promise.antt =====
-- What the operations of src/common/shared-store.ts promise, written without the helpers of the
-- implementation, and that `InMemorySharedStore` keeps it.
use vovinam_api_node.Base.{
  ℕ, ◌+◌, ◌≤◌, ◌≡◌, refl, sym, ◌∙◌, ap, Bool, true, false, Option, none, some, if◌then◌else◌, Text,
  text_eq, arith, ltb,
}
use vovinam_api_node.SharedStore.{
  StoreValue, number, text, flag, StoreEntry, entry_until, deadline, live, value_of, count_of,
  counted,
}
use vovinam_api_node.SharedStore.Memory.{Memory, find, get, set, delete, increment, entry}
use vovinam_api_node.SharedStore.InMemory.{
  get_answer, get_keeps, set_entry, delete_entry, increment_answer, increment_entry,
}

abbrev there_until : ℕ → Option ℕ → StoreEntry → Option StoreEntry
there_until now none e = some e
there_until now (some end) e = if ltb now end then some e else none

-- An entry is there before its deadline, and always when it has none.
abbrev pub there_at : ℕ → Option StoreEntry → Option StoreEntry
there_at now none = none
there_at now (some e) = there_until now e.expires_at e

abbrev end_of : (ttl : Option ℕ) → (now : ℕ) → Option ℕ
end_of none now = none
end_of (some ttl) now = some (now + ttl)

abbrev value_in : Option StoreEntry → Option StoreValue
value_in none = none
value_in (some e) = some e.value

-- A number is counted up; counting starts at one after anything else.
abbrev pub next_number : Option StoreValue → ℕ
next_number none = 1
next_number (some (number n)) = n + 1
next_number (some (text t)) = 1
next_number (some (flag b)) = 1

-- The deadline of an entry stays; an entry without one, and a new entry, gets one from the time to live.
abbrev pub next_end : (before : Option StoreEntry) → (ttl : Option ℕ) → (now : ℕ) → Option ℕ
next_end none ttl now = end_of ttl now
next_end (some e) ttl now = kept e.expires_at
  where
    kept : Option ℕ → Option ℕ
    kept none = end_of ttl now
    kept (some end) = some end

abbrev next_entry : Option StoreEntry → Option ℕ → ℕ → StoreEntry
next_entry before ttl now = record {
  value = number (next_number (value_in before));
  expires_at = next_end before ttl now;
}

-- The promise of a shared store, for one key and another, at a time and a later one.
abbrev pub IsKept : (now later : ℕ) (k j : Text) (v : StoreValue) (ttl : Option ℕ) → Memory → Type 0
IsKept now later k j v ttl m =
    let before = there_at now (find k m) in
    let unchanged = there_at later (find j m) in
    ((get now k m).0 ≡ value_in before)
    × (there_at later (find j (get now k m).1) ≡ unchanged)
    × (there_at later (find j (set now k v ttl m)) ≡ (
        if text_eq k j
        then there_at later (some (record { value = v; expires_at = end_of ttl now }))
        else unchanged))
    × (there_at later (find j (delete k m)) ≡ (if text_eq k j then none else unchanged))
    × ((increment now k ttl m).0 ≡ next_number (value_in before))
    × (there_at later (find j (increment now k ttl m).1)
        ≡ (if text_eq k j then there_at later (some (next_entry before ttl now)) else unchanged))

live-there_at : (now : ℕ) (o : Option StoreEntry) → live now o ≡ there_at now o
live-there_at now none = refl
live-there_at now (some e) = at e.expires_at
  where
    at :
        (end : Option ℕ)
        → live now (some (entry_until e.value end)) ≡ there_until now end (entry_until e.value end)
    at none = refl
    at (some t) = ground arith

deadline-end_of : (ttl : Option ℕ) (now : ℕ) → deadline ttl now ≡ end_of ttl now
deadline-end_of none now = refl
deadline-end_of (some t) now = refl

value_of-value_in : (o : Option StoreEntry) → value_of o ≡ value_in o
value_of-value_in none = refl
value_of-value_in (some e) = refl

count_of-next_number : (o : Option StoreEntry) → count_of o + 1 ≡ next_number (value_in o)
count_of-next_number none = refl
count_of-next_number (some e) = at e.value
  where
    at : (v : StoreValue) → count_of (some (entry_until v none)) + 1 ≡ next_number (some v)
    at (number n) = refl
    at (text t) = refl
    at (flag b) = refl

counted-next_entry :
    (o : Option StoreEntry) (ttl : Option ℕ) (now : ℕ) → counted o ttl now ≡ next_entry o ttl now
counted-next_entry none none now = refl
counted-next_entry none (some t) now = refl
counted-next_entry (some e) ttl now = at e.expires_at ttl
  where
    at :
        (end ttl : Option ℕ)
        → counted (some (entry_until e.value end)) ttl now
          ≡ next_entry (some (entry_until e.value end)) ttl now
    at none none =
        ap (λ n. entry_until (number n) none)
          (count_of-next_number (some (entry_until e.value none)))
    at none (some t) =
        ap (λ n. entry_until (number n) (some (now + t)))
          (count_of-next_number (some (entry_until e.value none)))
    at (some t) ttl =
        ap (λ n. entry_until (number n) (some t))
          (count_of-next_number (some (entry_until e.value none)))

as_promised :
    (later : ℕ) (j : Text) (m : Memory) {o : Option StoreEntry}
    → entry later j m ≡ o
    → there_at later (find j m) ≡ o
as_promised later j m e = sym (live-there_at later (find j m)) ∙ e

branches :
    (c : Bool) {o p q r : Option StoreEntry}
    → o ≡ p
    → q ≡ r
    → (if c then o else q) ≡ (if c then p else r)
branches true e d = e
branches false e d = d

-- Reading the in-memory store answers the value of an entry whose deadline is not reached, and nothing
-- otherwise; at every later time reading has changed no entry, and writing and deleting have changed one key;
-- counting answers one more than the number that was there, one where none was, stores that, and keeps the
-- deadline that was there.
pub in_memory-refines :
    (now later : ℕ) (k j : Text) (v : StoreValue) (ttl : Option ℕ) (m : Memory)
    → now ≤ later
    → IsKept now later k j v ttl m
in_memory-refines now later k j v ttl m h =
    let was = live-there_at now (find k m) in
    let same = live-there_at later (find j m) in
    (
      get_answer now k m ∙ value_of-value_in (entry now k m) ∙ ap value_in was,
      as_promised later j (get now k m).1 (get_keeps now later k j m h ∙ same),
      as_promised later j (set now k v ttl m) (
          set_entry now later k j v ttl m
          ∙ branches (text_eq k j)
              (ap (λ end. live later (some (entry_until v end))) (deadline-end_of ttl now)
                ∙ live-there_at later (some (entry_until v (end_of ttl now))))
              same),
      as_promised later j (delete k m)
          (delete_entry later k j m ∙ branches (text_eq k j) refl same),
      increment_answer now k ttl m
          ∙ count_of-next_number (entry now k m)
          ∙ ap (λ o. next_number (value_in o)) was,
      as_promised later j (increment now k ttl m).1 (
          increment_entry now later k j ttl m h
          ∙ branches (text_eq k j)
              (ap (λ e. live later (some e))
                  (counted-next_entry (entry now k m) ttl now ∙ ap (λ o. next_entry o ttl now) was)
                ∙ live-there_at later (some (next_entry (there_at now (find k m)) ttl now)))
              same),
    )
