-- ===== src/Outbox/Rounds.antt =====
-- One round of the worker of src/notifications/notification-outbox.service.ts: what a claim and a delivery
-- leave, and that a pass serves every row that is due.
use mathlib.Core.Option.{some-injective}
use vovinam_api_node.Base.{
  ℕ, zero, suc, ◌≤◌, ◌<◌, ◌≡◌, refl, sym, ◌∙◌, subst, Bool, true, false, Option, none, some, List,
  [], ◌∷◌, ◌⊎◌, inl, inr, arith, ==_iff, ==_refl, if◌then◌else◌, Bool-cases, Option-cases,
  find_unique, find_unique-update, IsKeyed, update_many, update-IsKeyed, count_where,
  count_where-shrink,
}
use vovinam_api_node.Schema.{NotificationChannel}
use vovinam_api_node.Outbox.{
  OutboxRow, Sending, delivered, unrecorded, unconfigured, refused, Senders, row_id, is_row,
  backoff, is_due, is_stale, requeued, earlier, precedes, first_due, is_claimable, claimed, claim,
  channel_chain, sent_row, failed_row, along, deliver, run_attempts, reset_stale, process_batch,
  delivery_failed,
}

-- A row of a list.
abbrev pub Has : OutboxRow → List OutboxRow → Type 0
Has x [] = ⊥
Has x (r ∷ rows) = (r ≡ x) ⊎ Has x rows

pub Has-find_unique :
    (x : OutboxRow) (rows : List OutboxRow)
    → IsKeyed row_id rows
    → Has x rows
    → find_unique row_id x.id rows ≡ some x
unfolding find_unique
Has-find_unique x [] u h = absurd h
Has-find_unique x (r ∷ rows) u (inl here) = rw (here, ==_refl x.id) refl
Has-find_unique x (r ∷ rows) u (inr there) =
    let found = Has-find_unique x rows u.1 there in ground (arith, u.0, found, ==_iff r.id x.id)

earlier-Has :
    (now : ℕ) (r : OutboxRow) (rows : List OutboxRow) (o : Option OutboxRow)
    → ((x : OutboxRow) → o ≡ some x → Has x rows × (is_due now x ≡ true))
    → is_due now r ≡ true
    → Has (earlier r o) (r ∷ rows) × (is_due now (earlier r o) ≡ true)
earlier-Has now r rows none h due = (inl refl, due)
earlier-Has now r rows (some s) h due = chosen (precedes s r)
  where
    chosen :
        (c : Bool) → Has (if c then s else r) (r ∷ rows) × (is_due now (if c then s else r) ≡ true)
    chosen true = (inr (h s refl).0, (h s refl).1)
    chosen false = (inl refl, due)

-- The candidate is a row that is due.
pub first_due-Has :
    (now : ℕ) (rows : List OutboxRow) (x : OutboxRow)
    → first_due now rows ≡ some x
    → Has x rows × (is_due now x ≡ true)
unfolding first_due
first_due-Has now [] x h = cc
first_due-Has now (r ∷ rows) x h = elim (Bool-cases (is_due now r)) [
  | inl due ↦
      let it : earlier r (first_due now rows) ≡ x =
        some-injective (earlier r (first_due now rows)) x (rw due at h) in
      subst (λ y. Has y (r ∷ rows) × (is_due now y ≡ true)) it
        (earlier-Has now r rows (first_due now rows) (first_due-Has now rows) due)
  | inr not_due ↦ let (there, due) = first_due-Has now rows x (rw not_due at h) in (inr there, due)
]

first_due-none :
    (now : ℕ) (rows : List OutboxRow)
    → first_due now rows ≡ none
    → count_where (is_due now) rows ≡ 0
unfolding first_due count_where
first_due-none now [] h = refl
first_due-none now (r ∷ rows) h = ground (arith, first_due-none now rows)

-- A claim takes its row from those that are due.
count-claim :
    (now : ℕ) (x : OutboxRow) (rows : List OutboxRow)
    → Has x rows
    → is_due now x ≡ true
    → count_where (is_due now) (claim now x.id rows) < count_where (is_due now) rows
unfolding claim update_many count_where
count-claim now x [] h due = absurd h
count-claim now x (r ∷ rows) (inl here) due =
    let shrunk =
      count_where-shrink (is_due now) (is_claimable x.id) (claimed now) rows
        (λ s e. ground (arith, e)) in
    rw here (ground (arith, due, ==_refl x.id, shrunk))
count-claim now x (r ∷ rows) (inr there) due = ground (arith, count-claim now x rows there due)

backoff-positive : (n : ℕ) → 0 < backoff n
unfolding backoff
backoff-positive zero = omega arith
backoff-positive (suc n) = omega (arith, backoff-positive n)

-- What a delivery leaves is not due at that time.
along-due :
    (send : Senders) (now : ℕ) (row : OutboxRow) (chain : List NotificationChannel) (r : OutboxRow)
    → is_due now (along send now row chain r) ≡ false
unfolding along
along-due send now row [] r = ground (arith, backoff-positive row.retries)
along-due send now row (channel ∷ chain) r = at (along-due send now row chain r) (send channel row)
  where
    at :
        is_due now (along send now row chain r) ≡ false
        → (s : Sending)
        → is_due now (
            elim s as (λ x. OutboxRow → OutboxRow) [
              | delivered ↦ sent_row now channel
              | unrecorded ↦ failed_row now row.retries delivery_failed
              | unconfigured ↦ along send now row chain
              | refused ↦ failed_row now row.retries delivery_failed
            ]
              r)
          ≡ false
    at rest delivered = refl
    at rest unrecorded = ground (arith, backoff-positive row.retries)
    at rest unconfigured = rest
    at rest refused = ground (arith, backoff-positive row.retries)

pub along-id :
    (send : Senders) (now : ℕ) (row : OutboxRow) (chain : List NotificationChannel) (r : OutboxRow)
    → (along send now row chain r).id ≡ r.id
unfolding along
along-id send now row [] r = refl
along-id send now row (channel ∷ chain) r = at (along-id send now row chain r) (send channel row)
  where
    at :
        (along send now row chain r).id ≡ r.id
        → (s : Sending)
        → (elim s as (λ x. OutboxRow → OutboxRow) [
          | delivered ↦ sent_row now channel
          | unrecorded ↦ failed_row now row.retries delivery_failed
          | unconfigured ↦ along send now row chain
          | refused ↦ failed_row now row.retries delivery_failed
        ]
            r).id
          ≡ r.id
    at rest delivered = refl
    at rest unrecorded = refl
    at rest unconfigured = rest
    at rest refused = refl

count-deliver :
    (send : Senders) (now : ℕ) (row : OutboxRow) (rows : List OutboxRow)
    → count_where (is_due now) (deliver send now row rows) ≤ count_where (is_due now) rows
unfolding deliver
count-deliver send now row rows =
    count_where-shrink (is_due now) (is_row row.id) (along send now row (channel_chain row.channel))
      rows λ r e. absurd (never (sym (along-due send now row (channel_chain row.channel) r) ∙ e))
  where
    never : ¬ (false ≡ true)
    never p = cc

-- With an attempt for each row that is due, none is left.
run_attempts-serves :
    (send : Senders) (now attempts : ℕ) (rows : List OutboxRow)
    → IsKeyed row_id rows
    → count_where (is_due now) rows ≤ attempts
    → count_where (is_due now) (run_attempts send now attempts rows) ≡ 0
unfolding run_attempts claim deliver
run_attempts-serves send now zero rows u le = omega (arith, le)
run_attempts-serves send now (suc more) rows u le = elim (Option-cases (first_due now rows)) [
  | inl e ↦ rw (e, run_attempts) (first_due-none now rows e)
  | inr (x, e) ↦
      let (there, due) = first_due-Has now rows x e in
      let found =
        find_unique-update row_id (is_claimable x.id) (claimed now) (λ r. refl) x.id rows in
      let at = Has-find_unique x rows u there in
      let row = if is_claimable x.id x then claimed now x else x in
      let known : find_unique row_id x.id (claim now x.id rows) ≡ some row = rw (found, at) refl in
      let fewer = count-claim now x rows there due in
      let still = count-deliver send now row (claim now x.id rows) in
      rw (e, run_attempts, known)
        (run_attempts-serves send now more (deliver send now row (claim now x.id rows))
          (update-IsKeyed row_id (is_row row.id) (along send now row (channel_chain row.channel))
            (along-id send now row (channel_chain row.channel)) (claim now x.id rows)
            (update-IsKeyed row_id (is_claimable x.id) (claimed now) (λ r. refl) rows u))
          (omega (arith, le, fewer, still)))
]

abbrev pub claimed_row : ℕ → OutboxRow → OutboxRow
claimed_row now x = if is_claimable x.id x then claimed now x else x

pub claim-found :
    (now : ℕ) (x : OutboxRow) (rows : List OutboxRow)
    → IsKeyed row_id rows
    → Has x rows
    → find_unique row_id x.id (claim now x.id rows) ≡ some (claimed_row now x)
unfolding claim
claim-found now x rows u there =
    rw
      (
        find_unique-update row_id (is_claimable x.id) (claimed now) (λ r. refl) x.id rows,
        Has-find_unique x rows u there,
      )
      refl

pub round-IsKeyed :
    (send : Senders) (now : ℕ) (x : OutboxRow) (rows : List OutboxRow)
    → IsKeyed row_id rows
    → IsKeyed row_id (deliver send now (claimed_row now x) (claim now x.id rows))
unfolding claim deliver
round-IsKeyed send now x rows u =
    let row = claimed_row now x in
    update-IsKeyed row_id (is_row row.id) (along send now row (channel_chain row.channel))
      (along-id send now row (channel_chain row.channel)) (claim now x.id rows)
      (update-IsKeyed row_id (is_claimable x.id) (claimed now) (λ r. refl) rows u)

-- What each round keeps, a pass keeps.
pub run_attempts-keeps :
    (P : List OutboxRow → Type 0) (send : Senders) (now : ℕ)
    → ((rows : List OutboxRow) (x : OutboxRow)
        → IsKeyed row_id rows
        → P rows
        → Has x rows
        → is_due now x ≡ true
        → P (deliver send now (claimed_row now x) (claim now x.id rows)))
    → (attempts : ℕ) (rows : List OutboxRow) → IsKeyed row_id rows
    → P rows
    → IsKeyed row_id (run_attempts send now attempts rows) × P (run_attempts send now attempts rows)
unfolding run_attempts
run_attempts-keeps P send now round zero rows u h = (u, h)
run_attempts-keeps P send now round (suc more) rows u h = elim (Option-cases (first_due now rows)) [
  | inl e ↦ rw (e, run_attempts) (u, h)
  | inr (x, e) ↦
      let (there, due) = first_due-Has now rows x e in
      rw (e, run_attempts, claim-found now x rows u there)
        (run_attempts-keeps P send now round more
          (deliver send now (claimed_row now x) (claim now x.id rows))
          (round-IsKeyed send now x rows u) (round rows x u h there due))
]

-- A pass leaves no row due, as long as not more than fifty are, counting the stale claims.
pub process_batch-serves :
    (send : Senders) (now : ℕ) (rows : List OutboxRow)
    → IsKeyed row_id rows
    → count_where (is_due now) (reset_stale now rows) ≤ 50
    → count_where (is_due now) (process_batch send now rows) ≡ 0
unfolding process_batch reset_stale
process_batch-serves send now rows u le =
    run_attempts-serves send now 50 (reset_stale now rows)
      (update-IsKeyed row_id (is_stale now) requeued (λ r. refl) rows u) le
