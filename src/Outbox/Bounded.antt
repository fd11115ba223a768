-- ===== src/Outbox/Bounded.antt =====
-- A notification is tried five times at most (src/notifications/notification-outbox.service.ts).
use vovinam_api_node.Base.{
  ℕ, ◌≤◌, ◌<◌, ◌≡◌, refl, Bool, true, false, List, [], ◌∷◌, ◌++◌, subst, inl, inr, arith,
  if◌then◌else◌, Bool-cases, IsKeyed, append-IsKeyed, update_many, update-IsKeyed,
}
use vovinam_api_node.Schema.{NotificationChannel}
use vovinam_api_node.Outbox.{
  OutboxError, OutboxRow, Sending, delivered, unrecorded, unconfigured, refused, Senders, row_id,
  is_row, is_due, is_stale, requeued, enqueue, enqueue_in_app, is_claimable, claimed, claim,
  channel_chain, sent_row, failed_row, along, deliver, reset_stale, process_batch, no_channel,
  delivery_failed,
}
use vovinam_api_node.Outbox.Rounds.{Has, claimed_row, run_attempts-keeps}
use vovinam_api_node.Outbox.Final.{is_open, Step, queue, show, pass, Reach, here, next}

-- A row that is not settled has an attempt left.
pub record IsBounded (r : OutboxRow) : Type 0 where
  pub most : r.retries ≤ 5
  pub left : is_open r.status ≡ true → r.retries < 5

abbrev pub All : List OutboxRow → Type 0
All [] = Unit
All (r ∷ rows) = IsBounded r × All rows

update-All :
    (p : OutboxRow → Bool) (f : OutboxRow → OutboxRow) (rows : List OutboxRow)
    → ((r : OutboxRow) → p r ≡ true → IsBounded r → IsBounded (f r))
    → All rows
    → All (update_many p f rows)
unfolding update_many
update-All p f [] kept h = tt
update-All p f (r ∷ rows) kept h = elim (Bool-cases (p r)) [
  | inl hit ↦ rw hit (kept r hit h.0, update-All p f rows kept h.1)
  | inr miss ↦ rw miss (h.0, update-All p f rows kept h.1)
]

append-All : (rows : List OutboxRow) (r : OutboxRow) → All rows → IsBounded r → All (rows ++ r ∷ [])
append-All [] r h new = (new, tt)
append-All (x ∷ rows) r h new = (h.0, append-All rows r h.1 new)

Has-IsBounded : (x : OutboxRow) (rows : List OutboxRow) → Has x rows → All rows → IsBounded x
Has-IsBounded x [] there h = absurd there
Has-IsBounded x (r ∷ rows) (inl it) h = subst IsBounded it (h.0)
Has-IsBounded x (r ∷ rows) (inr there) h = Has-IsBounded x rows there h.1

failed-IsBounded :
    (now n : ℕ) (e : OutboxError) (r : OutboxRow) → n < 5 → IsBounded (failed_row now n e r)
failed-IsBounded now n e r lt = record {
  most = omega (arith, lt);
  left = λ opened. ground (arith, lt, opened);
}

along-IsBounded :
    (send : Senders) (now : ℕ) (row : OutboxRow) (chain : List NotificationChannel) (r : OutboxRow)
    → row.retries < 5
    → IsBounded r
    → IsBounded (along send now row chain r)
unfolding along
along-IsBounded send now row [] r lt h = failed-IsBounded now row.retries no_channel r lt
along-IsBounded send now row (channel ∷ chain) r lt h =
    at (along-IsBounded send now row chain r lt h) (send channel row)
  where
    at :
        IsBounded (along send now row chain r)
        → (s : Sending)
        → IsBounded (
            elim s as (λ x. OutboxRow → OutboxRow) [
              | delivered ↦ sent_row now channel
              | unrecorded ↦ failed_row now row.retries delivery_failed
              | unconfigured ↦ along send now row chain
              | refused ↦ failed_row now row.retries delivery_failed
            ]
              r)
    at rest delivered = record { most = h.most; left = λ opened. absurd (closed opened) }
      where
        closed : ¬ (false ≡ true)
        closed p = cc
    at rest unrecorded = failed-IsBounded now row.retries delivery_failed r lt
    at rest unconfigured = rest
    at rest refused = failed-IsBounded now row.retries delivery_failed r lt

claimed-retries : (now : ℕ) (x : OutboxRow) → (claimed_row now x).retries ≡ x.retries
claimed-retries now x = at (is_claimable x.id x)
  where
    at : (c : Bool) → (if c then claimed now x else x).retries ≡ x.retries
    at true = refl
    at false = refl

round-All :
    (send : Senders) (now : ℕ) (rows : List OutboxRow) (x : OutboxRow)
    → All rows
    → Has x rows
    → is_due now x ≡ true
    → All (deliver send now (claimed_row now x) (claim now x.id rows))
unfolding claim deliver
round-All send now rows x h there due =
    let row = claimed_row now x in
    let mine = Has-IsBounded x rows there h in
    let room : x.retries < 5 = mine.left (ground (arith, due)) in
    let its : row.retries < 5 = omega (arith, room, claimed-retries now x) in
    update-All (is_row row.id) (along send now row (channel_chain row.channel))
      (claim now x.id rows)
      (λ r hit k. along-IsBounded send now row (channel_chain row.channel) r its k)
      (update-All (is_claimable x.id) (claimed now) rows
        (λ r hit k. record { most = k.most; left = λ e. k.left (ground (arith, hit)) }) h)

process_batch-All :
    (send : Senders) (now : ℕ) (rows : List OutboxRow)
    → IsKeyed row_id rows
    → All rows
    → IsKeyed row_id (process_batch send now rows) × All (process_batch send now rows)
unfolding process_batch reset_stale
process_batch-All send now rows u h =
    run_attempts-keeps All send now (λ rows x u h there due. round-All send now rows x h there due)
      50 (reset_stale now rows) (update-IsKeyed row_id (is_stale now) requeued (λ s. refl) rows u)
      (update-All (is_stale now) requeued rows
        (λ r hit k. record { most = k.most; left = λ e. k.left (ground (arith, hit)) }) h)

Step-All : {a b : List OutboxRow} → Step a b → IsKeyed row_id a → All a → IsKeyed row_id b × All b
unfolding enqueue enqueue_in_app
Step-All {a} (queue id channel template now fresh) u h = (
  append-IsKeyed row_id a _ u fresh,
  append-All a _ h (record { most = omega arith; left = λ e. omega arith }),
)
Step-All {a} (show id template now fresh) u h = (
  append-IsKeyed row_id a _ u fresh,
  append-All a _ h (record { most = omega arith; left = λ e. omega arith }),
)
Step-All {a} (pass send now) u h = process_batch-All send now a u h

Reach-both :
    {a b : List OutboxRow} → Reach a b → IsKeyed row_id a → All a → IsKeyed row_id b × All b
Reach-both here u h = (u, h)
Reach-both (next before step) u h = let (v, i) = Reach-both before u h in Step-All step v i

-- From an empty outbox, whatever is put in and whatever the senders answer, no message ever counts more than
-- five failed deliveries, and one that is still queued or being sent counts fewer than five.
pub Reach-All : {rows : List OutboxRow} → Reach [] rows → All rows
Reach-All path = (Reach-both path tt tt).1
