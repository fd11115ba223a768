-- ===== src/Payments/Races.antt =====
-- Handlers of src/billing/payments.service.ts that run at the same time. A handler reads a payment
-- or an invoice, and later runs its transaction on what it has read; between the two any other
-- handler may run, also one for the same payment.
use vovinam_api_node.Base.{ℕ, ◌≡◌, false, Option, List, [], ◌∷◌, Text, subst, sym, find_unique}
use mathlib.Core.List.{Memᴰ}
use vovinam_api_node.Schema.{Caller, PaymentTxn, PaymentGateway, TxnStatus, Database}
use vovinam_api_node.Service.{World}
use vovinam_api_node.Payments.Defs.{invoice_id, is_success, Outcome, apply_outcome, claim_cash}
use vovinam_api_node.Payments.Qr.{commit_qr}
use vovinam_api_node.Payments.Settle.{settle, transition_receipt}
use vovinam_api_node.Payments.Invariant.{HasTotal, IsConsistent}
use vovinam_api_node.Payments.Operations.{commit_qr-IsConsistent}
use vovinam_api_node.Payments.Claims.{Agrees, settle-IsConsistent}
use vovinam_api_node.Payments.Receipts.{transition_receipt-IsConsistent}
use vovinam_api_node.Payments.Cash.{claim_cash-IsConsistent}
use vovinam_api_node.Payments.Outcomes.{apply_outcome-IsConsistent}
use vovinam_api_node.Payments.History.{Writes, Writes-Agrees, Writes-HasTotal}
use vovinam_api_node.Payments.Writes.{settle-Writes, transition_receipt-Writes, claim_cash-Writes}
use vovinam_api_node.Payments.Revisions.{commit_qr-Writes, apply_outcome-Writes}

-- A handler between its reads and its transaction, with what it has read.
pub data Task : Type 0 where
  settling : (txn : PaymentTxn) → (g : Text) → Task
  receiving : (txn : PaymentTxn) → (g : Text) → (s : TxnStatus) → (note : Text) → Task
  taking_cash : (inv total : ℕ) → Caller → Option Text → Task
  offering_qr : (inv total : ℕ) → PaymentGateway → Task

-- What a task has read is still so.
abbrev pub IsCurrent : Task → Database → Type 0
IsCurrent (settling txn g) db = Agrees txn db
IsCurrent (receiving txn g s _) db = Agrees txn db × (is_success s ≡ false)
IsCurrent (taking_cash inv total caller _) db =
    HasTotal (find_unique invoice_id inv db.invoices) total
IsCurrent (offering_qr inv total gateway) db =
    HasTotal (find_unique invoice_id inv db.invoices) total

-- The transaction of a task, at a time and with the id and the random bytes that it draws.
pub record Draw : Type 0 where
  pub now : ℕ
  pub new_id : ℕ
  pub bytes : List ℕ
  pub order_ref : Text
  pub expires_at : ℕ

unfoldable pub run_task : Task → Draw → World → World
run_task (settling txn g) d w = (settle txn g d.now w).1
run_task (receiving txn g s note) d w = (transition_receipt txn.id g s note w).1
run_task (taking_cash inv total caller note) d w =
    (claim_cash inv total caller note d.new_id d.bytes d.now w).1
run_task (offering_qr inv total gateway) d w =
    (commit_qr inv total d.order_ref gateway d.expires_at d.new_id d.now w).1

run_task-Writes : (t : Task) (d : Draw) (w : World) → Writes w.db (run_task t d w).db
unfolding run_task
run_task-Writes (settling txn g) d w = settle-Writes txn g d.now w
run_task-Writes (receiving txn g s note) d w = transition_receipt-Writes txn.id g s note w
run_task-Writes (taking_cash inv total caller note) d w =
    claim_cash-Writes inv total caller note d.new_id d.bytes d.now w
run_task-Writes (offering_qr inv total gateway) d w =
    commit_qr-Writes inv total d.order_ref gateway d.expires_at d.new_id d.now w

run_task-IsConsistent :
    (t : Task) (d : Draw) (w : World)
    → IsConsistent w.db
    → IsCurrent t w.db
    → IsConsistent (run_task t d w).db
unfolding run_task
run_task-IsConsistent (settling txn g) d w h c = settle-IsConsistent txn g d.now w h c
run_task-IsConsistent (receiving txn g s note) d w h c =
    transition_receipt-IsConsistent txn g s note w h c.0 c.1
run_task-IsConsistent (taking_cash inv total caller note) d w h c =
    claim_cash-IsConsistent inv total caller note d.new_id d.bytes d.now w h c
run_task-IsConsistent (offering_qr inv total gateway) d w h c =
    commit_qr-IsConsistent inv total d.order_ref gateway d.expires_at d.new_id d.now w h c

IsCurrent-Writes :
    {db : Database} {db' : Database} (t : Task) → Writes db db' → IsCurrent t db → IsCurrent t db'
IsCurrent-Writes (settling txn g) ws c = Writes-Agrees txn ws c
IsCurrent-Writes (receiving txn g s _) ws c = (Writes-Agrees txn ws c.0, c.1)
IsCurrent-Writes (taking_cash inv total caller _) ws c = Writes-HasTotal inv total ws c
IsCurrent-Writes (offering_qr inv total gateway) ws c = Writes-HasTotal inv total ws c

-- The database with the tasks that have been begun. A task stays begun, so that running it again,
-- as a repeated delivery does, is covered.
pub record Site : Type 0 where
  pub world : World
  pub tasks : List Task

abbrev pub AllCurrent : List Task → Database → Type 0
AllCurrent [] db = Unit
AllCurrent (t ∷ ts) db = IsCurrent t db × AllCurrent ts db

pub record IsSound (s : Site) : Type 0 where
  pub consistent : IsConsistent s.world.db
  pub current : AllCurrent s.tasks s.world.db

-- One step of the site: a handler reads and begins a task, a begun task runs its transaction, or an
-- administrator's outcome is applied.
pub data Step (s : Site) : Site → Type 0 where
  begin : (t : Task) → IsCurrent t s.world.db → Step s (record s { tasks = t ∷ s.tasks })
  run : (t : Task) (d : Draw) → Memᴰ t s.tasks → Step s (record s { world = run_task t d s.world })
  decide :
      (k : ℕ) (outcome : Outcome) (note : Option Text)
      → Step s (record s { world = (apply_outcome k outcome note s.world).1 })

pub data Reach (s : Site) : Site → Type 0 where
  here : Reach s s
  next : {t u : Site} → Reach s t → Step t u → Reach s u

AllCurrent-Writes :
    {db : Database} {db' : Database} (ts : List Task)
    → Writes db db'
    → AllCurrent ts db
    → AllCurrent ts db'
AllCurrent-Writes [] ws c = tt
AllCurrent-Writes (t ∷ ts) ws c = (IsCurrent-Writes t ws c.0, AllCurrent-Writes ts ws c.1)

IsCurrent-of_mem :
    {t : Task} {ts : List Task} (db : Database) → Memᴰ t ts → AllCurrent ts db → IsCurrent t db
IsCurrent-of_mem db (Memᴰ.head e) c = subst (λ u. IsCurrent u db) (sym e) c.0
IsCurrent-of_mem db (Memᴰ.tail m) c = IsCurrent-of_mem db m c.1

Step-IsSound : {s t : Site} → Step s t → IsSound s → IsSound t
Step-IsSound {s} (begin t c) h = record { consistent = h.consistent; current = (c, h.current) }
Step-IsSound {s} (run t d m) h = record {
  consistent =
      run_task-IsConsistent t d s.world h.consistent (IsCurrent-of_mem s.world.db m h.current);
  current = AllCurrent-Writes s.tasks (run_task-Writes t d s.world) h.current;
}
Step-IsSound {s} (decide k outcome _) h = record {
  consistent = apply_outcome-IsConsistent k outcome _ s.world h.consistent;
  current = AllCurrent-Writes s.tasks (apply_outcome-Writes k outcome _ s.world) h.current;
}

-- However the handlers interleave, from a sound site only sound sites are reached: invoices and
-- payments stay consistent, and what every begun handler has read stays true.
pub Reach-IsSound : {s t : Site} → IsSound s → Reach s t → IsSound t
Reach-IsSound h here = h
Reach-IsSound h (next r st) = Step-IsSound st (Reach-IsSound h r)
