-- ===== src/Tests.antt =====
-- The theorems at concrete inputs, and runs of the modelled code.
mod Payments
mod Billing
mod Ownership
mod Exams
mod Leaves
mod Outbox
mod Enrollments
mod Auth
mod SharedStore
