-- ===== src/Tests/Payments.antt =====
-- Payments at one invoice of 500 VND with one pending payment.
use mathlib.Core.List.{Memᴰ}
use vovinam_api_node.Base.{
  ◌≡◌, refl, true, none, some, [], ◌∷◌, codes, arith, text_eq, find_unique, find_first, update_many,
  count_where, sum_of,
}
use vovinam_api_node.Schema.{
  Caller, admin, Invoice, InvoiceStatus, InvoiceType, PaymentTxn, PaymentGateway, TxnStatus,
  Database,
}
use vovinam_api_node.Service.{ok, World, push_entry}
use vovinam_api_node.Payments.Defs.{
  total_settled, settled_amount, update_payments, update_invoices, Outcome, apply_outcome,
  confirm_cash,
}
use vovinam_api_node.Payments.Qr.{Provider, GatewayWebhookEvent, PaymentGatewayPort}
use vovinam_api_node.Payments.Settle.{
  processed_success, not_processed, claim_payment, settle_claimed, after_claim, settle_claim,
  settle_body, settle,
}
use vovinam_api_node.Payments.Webhook.{
  audit_settlement, after_settlement, process_event, receive_event, handle_webhook,
}
use vovinam_api_node.Payments.Invariant.{IsConsistent}
use vovinam_api_node.Payments.Claims.{Agrees, agrees}
use vovinam_api_node.Payments.Outcomes.{apply_outcome-IsConsistent}
use vovinam_api_node.Payments.Handlers.{handle_webhook-IsConsistent, confirm_cash-IsConsistent}
use vovinam_api_node.Payments.Redelivery.{is_processed, handle_webhook-replay}
use vovinam_api_node.Payments.Races.{
  Task, settling, Draw, Site, IsSound, Reach, here, next, begin, run, Reach-IsSound, run_task,
}

abbrev pub invoice : Invoice
invoice = record {
  id = 1;
  invoice_no = codes "INV-2026-0001";
  student_id = 7;
  kind = InvoiceType.uniform;
  ref_exam_registration_id = none;
  period_month = none;
  period_year = none;
  subtotal = 500;
  discount = 0;
  total = 500;
  status = InvoiceStatus.unpaid;
  due_date = 100;
  note = none;
  created_by = 3;
}

abbrev payment : PaymentTxn
payment = record {
  id = 10;
  invoice_id = 1;
  order_ref = codes "VVAAAAAAAA";
  gateway = PaymentGateway.bank_transfer;
  gateway_txn_id = none;
  amount = 500;
  status = TxnStatus.pending;
  paid_at = none;
  expires_at = some 90;
  recorded_by = none;
  note = none;
}

abbrev pub db : Database
db = record {
  users = [];
  profiles = [];
  links = [];
  classes = [];
  enrollments = [];
  invoices = invoice ∷ [];
  invoice_items = [];
  payments = payment ∷ [];
  bank_account = none;
  tuition_rates = [];
  discount_codes = [];
  notifications = [];
  ranks = [];
  exams = [];
  registrations = [];
  leaves = [];
  proposals = [];
  sessions = [];
  refresh_tokens = [];
  totp_credentials = [];
  recovery_codes = [];
  used_tokens = [];
  audit_logs = [];
}

abbrev pub start : World
start = record { db = db; audit_queue = []; store = []; mails = [] }

abbrev event : GatewayWebhookEvent
event = record {
  order_ref = codes "VVAAAAAAAA";
  gateway_txn_id = codes "T1";
  amount = 500;
  success = true;
}

-- A provider whose signatures all verify and whose bodies all report the transfer.
abbrev port : PaymentGatewayPort
port = record {
  provider = Provider.simulated;
  create_request = λ r. ok (record { checkout_url = r.order_ref; qr_code_data_url = none });
  verify_signature = λ headers body. true;
  parse_event = λ body. some event;
}

abbrev settled : World
settled = (handle_webhook port Provider.simulated [] [] 50 start).1

handle_webhook-run :
    handle_webhook port Provider.simulated [] [] 50 start ≡ (ok processed_success, settled)
unfolding handle_webhook receive_event process_event settle settle_body settle_claim claim_payment
    after_claim settle_claimed total_settled settled_amount update_payments update_invoices
    find_unique find_first update_many count_where sum_of text_eq after_settlement audit_settlement
    push_entry
handle_webhook-run = refl

is_processed-run : is_processed processed_success ≡ true
unfolding is_processed
is_processed-run = refl

handle_webhook-replay_example :
    handle_webhook port Provider.simulated [] [] 60 settled ≡ (ok not_processed, settled)
handle_webhook-replay_example =
    handle_webhook-replay port Provider.simulated [] [] 50 60 processed_success start settled
      (unfold find_unique in refl, tt) handle_webhook-run is_processed-run

pub start-IsConsistent : IsConsistent db
unfolding find_unique total_settled sum_of settled_amount
start-IsConsistent = record {
  formed = record {
    payments_keyed = (refl, tt);
    invoices_keyed = (refl, tt);
    priced = λ k. ground arith;
  };
  balanced = λ k. ground arith;
}

payment-Agrees : Agrees payment db
unfolding find_unique
payment-Agrees = agrees payment refl refl refl

abbrev pub treasurer : Caller
treasurer = record { id = 3; role = admin }

settled-IsConsistent : IsConsistent settled.db
settled-IsConsistent =
    handle_webhook-IsConsistent port Provider.simulated [] [] 50 start start-IsConsistent

apply_outcome-IsConsistent_example :
    IsConsistent (apply_outcome 10 Outcome.refunded none settled).1.db
apply_outcome-IsConsistent_example =
    apply_outcome-IsConsistent 10 Outcome.refunded none settled settled-IsConsistent

abbrev site : Site
site = record { world = start; tasks = [] }

abbrev waiting : Task
waiting = settling payment (codes "T1")

abbrev draw : Draw
draw = record { now = 50; new_id = 11; bytes = []; order_ref = []; expires_at = 95 }

-- The same transfer is delivered to two handlers, which settle one after the other.
abbrev twice : Site
twice = record { world = run_task waiting draw (run_task waiting draw start); tasks = waiting ∷ [] }

site-Reach : Reach site twice
site-Reach =
    next (next (next here (begin waiting payment-Agrees)) (run waiting draw (Memᴰ.head refl)))
      (run waiting draw (Memᴰ.head refl))

Reach-IsSound_example : IsSound twice
Reach-IsSound_example =
    Reach-IsSound (record { consistent = start-IsConsistent; current = tt }) site-Reach

handle_webhook-IsConsistent_example :
    IsConsistent (handle_webhook port Provider.simulated [] [] 50 start).1.db
handle_webhook-IsConsistent_example =
    handle_webhook-IsConsistent port Provider.simulated [] [] 50 start start-IsConsistent

confirm_cash-IsConsistent_example : IsConsistent (confirm_cash treasurer 1 none 11 [] 50 start).1.db
confirm_cash-IsConsistent_example =
    confirm_cash-IsConsistent treasurer 1 none 11 [] 50 start start-IsConsistent
