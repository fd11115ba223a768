-- ===== src/Billing.antt =====
-- Invoices: src/billing/billing.service.ts with the helpers money.ts and sequential-code.ts beside it.
pub mod Codes
pub mod Numbering
pub mod Money
pub mod Issue
pub mod Guards
pub mod Scope
pub mod Amounts
pub mod Unused
pub mod Sequence
pub mod Issuing
pub mod Created
pub mod Consistent
pub mod Overdue
pub mod Monthly
pub mod Discounts
pub mod Tuition
pub mod Settings
