-- ===== src/Outbox.antt =====
-- src/notifications/notification-outbox.service.ts: the worker that delivers notifications. Its rows keep the
-- columns that it reads and writes; what a sender answers is a parameter. A pass reads the clock once.
pub mod Rounds
pub mod Final
pub mod Bounded
use vovinam_api_node.Base.{
  ℕ, zero, suc, ◌+◌, ◌*◌, ◌^◌, Bool, true, false, not, ◌&&◌, ◌||◌, Option, none, some, List, [],
  ◌∷◌, ◌++◌, ◌==◌, leb, ltb, if◌then◌else◌, find_unique, update_many,
}
use vovinam_api_node.Schema.{NotificationChannel, NotificationStatus}

-- The two messages of `recordFailure`
pub data OutboxError : Type 0 where
  delivery_failed no_channel : OutboxError

pub record OutboxRow : Type 0 where
  pub id : ℕ
  pub channel : NotificationChannel
  pub template : ℕ
  pub status : NotificationStatus
  pub retries : ℕ
  pub created_at : ℕ
  pub claimed_at : Option ℕ
  pub next_attempt_at : Option ℕ
  pub sent_at : Option ℕ
  pub delivered_via : Option NotificationChannel
  pub error : Option OutboxError

-- What becomes of one sender in the loop of `deliver`: `send` returns and the row is updated, `send` returns
-- and the update of the row throws, `send` throws an `UnconfiguredChannelError`, or it throws another error.
pub data Sending : Type 0 where
  delivered unrecorded unconfigured refused : Sending

abbrev pub Senders : Type 0
Senders = NotificationChannel → OutboxRow → Sending

abbrev pub row_id : OutboxRow → ℕ
row_id r = r.id

abbrev pub is_row : ℕ → OutboxRow → Bool
is_row k r = r.id == k

-- `MAX_RETRIES`
abbrev pub max_retries : ℕ
max_retries = 5

-- `backoffMs`
unfoldable pub backoff : ℕ → ℕ
backoff retries = 30000 * 2 ^ retries

abbrev pub is_queued : NotificationStatus → Bool
is_queued NotificationStatus.queued = true
is_queued _ = false

abbrev pub is_sending : NotificationStatus → Bool
is_sending NotificationStatus.sending = true
is_sending _ = false

abbrev pub new_row :
    (id : ℕ) → NotificationChannel → (template now : ℕ) → NotificationStatus → Option ℕ → OutboxRow
new_row id channel template now status sent_at = record {
  id = id;
  channel = channel;
  template = template;
  status = status;
  retries = 0;
  created_at = now;
  claimed_at = none;
  next_attempt_at = none;
  sent_at = sent_at;
  delivered_via = none;
  error = none;
}

-- `enqueue`
unfoldable pub enqueue :
    (id : ℕ) → NotificationChannel → (template now : ℕ) → List OutboxRow → List OutboxRow
enqueue id channel template now rows =
    rows ++ new_row id channel template now NotificationStatus.queued none ∷ []

-- `enqueueInApp`
unfoldable pub enqueue_in_app : (id template now : ℕ) → List OutboxRow → List OutboxRow
enqueue_in_app id template now rows =
    rows
    ++ new_row id NotificationChannel.inapp template now NotificationStatus.sent (some now) ∷ []

abbrev started_before : ℕ → Option ℕ → ℕ → Bool
started_before now none created = ltb (created + 600000) now
started_before now (some claimed) created = ltb (claimed + 600000) now

-- A claim that its pass has not finished in ten minutes.
abbrev pub is_stale : ℕ → OutboxRow → Bool
is_stale now r = is_sending r.status && started_before now r.claimed_at r.created_at

abbrev pub requeued : OutboxRow → OutboxRow
requeued r = record r { status = NotificationStatus.queued; claimed_at = none }

-- The first update of `processBatch`
unfoldable pub reset_stale : ℕ → List OutboxRow → List OutboxRow
reset_stale now rows = update_many (is_stale now) requeued rows

abbrev pub is_ready : ℕ → Option ℕ → Bool
is_ready now none = true
is_ready now (some t) = leb t now

-- The `WHERE` of the query for candidates
abbrev pub is_due : ℕ → OutboxRow → Bool
is_due now r = is_queued r.status && is_ready now r.next_attempt_at

-- `ORDER BY created_at, id`
abbrev pub precedes : OutboxRow → OutboxRow → Bool
precedes r s = ltb r.created_at s.created_at || r.created_at == s.created_at && ltb r.id s.id

abbrev pub earlier : OutboxRow → Option OutboxRow → OutboxRow
earlier r none = r
earlier r (some s) = if precedes s r then s else r

-- The query, with its `LIMIT 1`
unfoldable pub first_due : ℕ → List OutboxRow → Option OutboxRow
first_due now [] = none
first_due now (r ∷ rows) =
    let rest = first_due now rows in if is_due now r then some (earlier r rest) else rest

abbrev pub is_claimable : ℕ → OutboxRow → Bool
is_claimable k r = r.id == k && is_queued r.status

abbrev pub claimed : ℕ → OutboxRow → OutboxRow
claimed now r = record r { status = NotificationStatus.sending; claimed_at = some now }

-- The claim of a candidate
unfoldable pub claim : ℕ → ℕ → List OutboxRow → List OutboxRow
claim now k rows = update_many (is_claimable k) (claimed now) rows

-- `channelChain`
abbrev pub channel_chain : NotificationChannel → List NotificationChannel
channel_chain NotificationChannel.zns =
    NotificationChannel.zns ∷ NotificationChannel.sms ∷ NotificationChannel.email ∷ []
channel_chain NotificationChannel.sms = NotificationChannel.sms ∷ NotificationChannel.email ∷ []
channel_chain _ = NotificationChannel.email ∷ []

abbrev pub sent_row : ℕ → NotificationChannel → OutboxRow → OutboxRow
sent_row now channel r = record r {
  status = NotificationStatus.sent;
  sent_at = some now;
  error = none;
  next_attempt_at = none;
  claimed_at = none;
  delivered_via = some channel;
}

-- The columns that `recordFailure` writes, from the retries of the claimed row
abbrev pub failed_row : ℕ → ℕ → OutboxError → OutboxRow → OutboxRow
failed_row now retries message r =
    let exhausted = leb max_retries (retries + 1) in
    record r {
      status = if exhausted then NotificationStatus.failed else NotificationStatus.queued;
      retries = retries + 1;
      error = some message;
      claimed_at = none;
      next_attempt_at = if exhausted then none else some (now + backoff retries);
    }

-- The loop of `deliver` over the chain: what it makes of the row
unfoldable pub along : Senders → ℕ → OutboxRow → List NotificationChannel → OutboxRow → OutboxRow
along send now row [] = failed_row now row.retries no_channel
along send now row (channel ∷ chain) = elim (send channel row) [
  | delivered ↦ sent_row now channel
  | unrecorded ↦ failed_row now row.retries delivery_failed
  | unconfigured ↦ along send now row chain
  | refused ↦ failed_row now row.retries delivery_failed
]

-- `deliver`
unfoldable pub deliver : Senders → ℕ → OutboxRow → List OutboxRow → List OutboxRow
deliver send now row rows =
    update_many (is_row row.id) (along send now row (channel_chain row.channel)) rows

-- The loop of `processBatch`, with the attempts that are left
unfoldable pub run_attempts : Senders → ℕ → ℕ → List OutboxRow → List OutboxRow
run_attempts send now zero rows = rows
run_attempts send now (suc more) rows = elim (first_due now rows) [
  | none ↦ rows
  | some candidate ↦ elim (find_unique row_id candidate.id (claim now candidate.id rows)) [
    | none ↦ claim now candidate.id rows
    | some row ↦ run_attempts send now more (deliver send now row (claim now candidate.id rows))
  ]
]

-- `processBatch`
unfoldable pub process_batch : Senders → ℕ → List OutboxRow → List OutboxRow
process_batch send now rows = run_attempts send now 50 (reset_stale now rows)
