-- ===== src/Tests/Outbox.antt =====
-- An outbox with one message that is due.
use vovinam_api_node.Base.{
  ◌≡◌, refl, none, some, [], ◌∷◌, List, arith, count_where, find_unique, update_many,
}
use vovinam_api_node.Schema.{NotificationChannel, NotificationStatus}
use vovinam_api_node.Outbox.{
  OutboxRow, Senders, delivered, unconfigured, refused, new_row, enqueue, is_due, reset_stale,
  process_batch,
}
use vovinam_api_node.Outbox.Rounds.{process_batch-serves}
use vovinam_api_node.Outbox.Final.{HasRow, here, next, queue, pass, Reach-HasRow}
use vovinam_api_node.Outbox.Bounded.{All, Reach-All}

-- Zalo is not configured, and SMS breaks down.
abbrev senders : Senders
senders NotificationChannel.zns row = unconfigured
senders NotificationChannel.sms row = refused
senders _ row = delivered

abbrev waiting : OutboxRow
waiting = new_row 1 NotificationChannel.zns 7 1000 NotificationStatus.queued none

abbrev done : OutboxRow
done = new_row 2 NotificationChannel.inapp 8 900 NotificationStatus.sent (some 900)

abbrev box : List OutboxRow
box = waiting ∷ done ∷ []

process_batch-serves_example : count_where (is_due 2000) (process_batch senders 2000 box) ≡ 0
process_batch-serves_example =
    process_batch-serves senders 2000 box (unfold find_unique in (refl, (refl, tt)))
      (unfold reset_stale update_many count_where in omega arith)

Reach-HasRow_example : HasRow 2 done (process_batch senders 40000 (process_batch senders 2000 box))
Reach-HasRow_example =
    Reach-HasRow 2 done (next (next here (pass senders 2000)) (pass senders 40000))
      (unfold find_unique in (refl, (refl, tt))) (unfold find_unique in refl) refl

Reach-All_example : All (process_batch senders 2000 (enqueue 1 NotificationChannel.zns 7 1000 []))
Reach-All_example = Reach-All (
    next
      (next here (queue {rows = []} 1 NotificationChannel.zns 7 1000 (unfold find_unique in refl)))
      (pass senders 2000))
