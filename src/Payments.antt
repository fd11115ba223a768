-- ===== src/Payments.antt =====
-- src/billing/payments.service.ts: the payments of an invoice. A handler reads before it opens
-- its transaction, so the transaction is an operation of its own that takes what was read, and
-- the handler is their composition. `lockInvoice` makes a transaction one step and changes
-- nothing, so it has no counterpart. `now` is the clock's value in one call.
pub mod Defs
pub mod Qr
pub mod Settle
pub mod Webhook
pub mod Invariant
pub mod Settlement
pub mod Claims
pub mod Receipts
pub mod Operations
pub mod Cash
pub mod Outcomes
pub mod History
pub mod Writes
pub mod Races
pub mod Revisions
pub mod Replay
pub mod Redelivery
pub mod Handlers
