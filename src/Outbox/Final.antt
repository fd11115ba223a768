-- ===== src/Outbox/Final.antt =====
-- A notification that is sent, failed or skipped stays as it is
-- (src/notifications/notification-outbox.service.ts).
use mathlib.Core.Option.{some-injective}
use vovinam_api_node.Base.{
  ℕ, ◌≡◌, refl, sym, ◌∙◌, ap, Bool, true, false, ◌||◌, none, some, List, inl, inr, arith, ◌==◌,
  ==_iff, if◌then◌else◌, Bool-cases, find_unique, find_unique-update, find_unique-key,
  find_unique-append_some, IsKeyed, append-IsKeyed, update_many, update-IsKeyed,
}
use vovinam_api_node.Schema.{NotificationChannel, NotificationStatus}
use vovinam_api_node.Outbox.{
  OutboxRow, Senders, row_id, is_row, is_queued, is_sending, is_due, is_stale, requeued, enqueue,
  enqueue_in_app, is_claimable, claimed, claim, channel_chain, along, deliver, reset_stale,
  process_batch,
}
use vovinam_api_node.Outbox.Rounds.{Has, Has-find_unique, claimed_row, along-id, run_attempts-keeps}

abbrev pub is_open : NotificationStatus → Bool
is_open s = is_queued s || is_sending s

-- The row k is r.
abbrev pub HasRow : ℕ → OutboxRow → List OutboxRow → Type 0
HasRow k r rows = find_unique row_id k rows ≡ some r

untouched :
    (k : ℕ) (r : OutboxRow) (p : OutboxRow → Bool) (f : OutboxRow → OutboxRow)
    (rows : List OutboxRow)
    → ((s : OutboxRow) → (f s).id ≡ s.id)
    → HasRow k r rows
    → p r ≡ false
    → HasRow k r (update_many p f rows)
untouched k r p f rows kept h miss = rw (find_unique-update row_id p f kept k rows, h, miss) refl

round-HasRow :
    (send : Senders) (now k : ℕ) (r : OutboxRow) (rows : List OutboxRow) (x : OutboxRow)
    → is_open r.status ≡ false
    → IsKeyed row_id rows
    → HasRow k r rows
    → Has x rows
    → is_due now x ≡ true
    → HasRow k r (deliver send now (claimed_row now x) (claim now x.id rows))
unfolding claim deliver
round-HasRow send now k r rows x closed u h there due =
    let row = claimed_row now x in
    let its : r.id ≡ k = find_unique-key row_id k rows r h in
    untouched k r (is_row row.id) (along send now row (channel_chain row.channel))
      (claim now x.id rows) (along-id send now row (channel_chain row.channel))
      (untouched k r (is_claimable x.id) (claimed now) rows (λ s. refl) h (ground (arith, closed)))
      (elim (Bool-cases (r.id == x.id)) [
        | inr other ↦ other_row x (is_claimable x.id x) other
        | inl same ↦
            let at : find_unique row_id k rows ≡ some x =
              ap (λ j. find_unique row_id j rows) (sym its ∙ (==_iff r.id x.id).0 same)
              ∙ Has-find_unique x rows u there in
            let it : r ≡ x = some-injective r x (sym h ∙ at) in
            absurd (ground (arith, closed, due, it))
      ])
  where
    other_row :
        (x : OutboxRow) (c : Bool)
        → (r.id == x.id) ≡ false
        → (r.id == (if c then claimed now x else x).id) ≡ false
    other_row x true e = e
    other_row x false e = e

-- What happens to the outbox: messages are put in with fresh ids, and the worker passes.
pub data Step : List OutboxRow → List OutboxRow → Type 0 where
  queue :
      {rows : List OutboxRow} (id : ℕ) (channel : NotificationChannel) (template now : ℕ)
      → find_unique row_id id rows ≡ none
      → Step rows (enqueue id channel template now rows)
  show :
      {rows : List OutboxRow} (id template now : ℕ)
      → find_unique row_id id rows ≡ none
      → Step rows (enqueue_in_app id template now rows)
  pass :
      {rows : List OutboxRow} (send : Senders) (now : ℕ) → Step rows (process_batch send now rows)

pub data Reach : List OutboxRow → List OutboxRow → Type 0 where
  here : {rows : List OutboxRow} → Reach rows rows
  next : {a b c : List OutboxRow} → Reach a b → Step b c → Reach a c

process_batch-HasRow :
    (send : Senders) (now k : ℕ) (r : OutboxRow) (rows : List OutboxRow)
    → is_open r.status ≡ false
    → IsKeyed row_id rows
    → HasRow k r rows
    → IsKeyed row_id (process_batch send now rows) × HasRow k r (process_batch send now rows)
unfolding process_batch reset_stale
process_batch-HasRow send now k r rows closed u h =
    run_attempts-keeps (HasRow k r) send now
      (λ rows x u h there due. round-HasRow send now k r rows x closed u h there due) 50
      (reset_stale now rows) (update-IsKeyed row_id (is_stale now) requeued (λ s. refl) rows u)
      (untouched k r (is_stale now) requeued rows (λ s. refl) h (ground (arith, closed)))

Step-HasRow :
    {a b : List OutboxRow} (k : ℕ) (r : OutboxRow)
    → is_open r.status ≡ false
    → Step a b
    → IsKeyed row_id a
    → HasRow k r a
    → IsKeyed row_id b × HasRow k r b
unfolding enqueue enqueue_in_app
Step-HasRow {a} k r closed (queue id channel template now fresh) u h =
    (append-IsKeyed row_id a _ u fresh, find_unique-append_some row_id k a _ r h)
Step-HasRow {a} k r closed (show id template now fresh) u h =
    (append-IsKeyed row_id a _ u fresh, find_unique-append_some row_id k a _ r h)
Step-HasRow {a} k r closed (pass send now) u h = process_batch-HasRow send now k r a closed u h

Reach-both :
    {a b : List OutboxRow} (k : ℕ) (r : OutboxRow)
    → is_open r.status ≡ false
    → Reach a b
    → IsKeyed row_id a
    → HasRow k r a
    → IsKeyed row_id b × HasRow k r b
Reach-both k r closed here u h = (u, h)
Reach-both k r closed (next before step) u h =
    let (v, i) = Reach-both k r closed before u h in Step-HasRow k r closed step v i

-- A row whose status is neither queued nor sending keeps all its columns, whatever is put in and however
-- many passes the worker makes.
pub Reach-HasRow :
    {a b : List OutboxRow} (k : ℕ) (r : OutboxRow)
    → Reach a b
    → IsKeyed row_id a
    → HasRow k r a
    → is_open r.status ≡ false
    → HasRow k r b
Reach-HasRow k r path u h closed = (Reach-both k r closed path u h).1
