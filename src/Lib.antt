-- ===== src/Lib.antt =====
-- A verification library for VovinamApiNode, the backend of a Vovinam club.
--
-- The program is a set of NestJS services over one PostgreSQL database, reached through Prisma.
-- A service method reads rows, checks them, writes rows, alone or in a transaction, and records audit
-- events; it answers a value or throws. The model keeps that shape. `Service` has the type of such a
-- method, `Action`: a function of the world (the database, the audit queue, the shared store and the
-- mails sent) to a result and a world. A throw keeps what was written before it; `transaction` takes
-- the writes to the database back, and leaves the rest, as `$transaction` does. `Schema` has the tables, after
-- prisma/schema.prisma, and `Base.Rows` the reads and bulk writes that the services ask of them.
--
-- The parts:
--   * `Payments`, src/billing/payments.service.ts with the port of
--     src/billing/payment-gateway.port.ts. `Payments.Defs` has the tests on rows and the operations
--     `confirmCash` (confirm_cash), `setOutcome` (set_outcome), `recomputeInvoiceStatus`;
--     `Payments.Qr` has `createQrPayment`; `Payments.Settle` the transactions of the webhook, and
--     `Payments.Webhook` `handleWebhook` around them. What holds between transactions is in
--     `Payments.Invariant`, and the proofs are in the modules named for their subjects.
--     `Payments.Races` is the step relation: a handler reads, other handlers run, and then its
--     transaction runs on what it read.
--   * `Billing`, src/billing/billing.service.ts with src/billing/sequential-code.ts (`Codes`,
--     `Numbering`), src/billing/money.ts (`Money`, `Amounts`) and src/billing/overdue-invoice.job.ts
--     (`Overdue`). `Issue` has `create`, `createExamFeeInvoice` and `nextInvoiceNo`; `Sequence`,
--     `Issuing`, `Created` and `Consistent` prove what they write; `Guards` and `Scope` are who sees
--     which invoice; `Monthly` and `Tuition` are `generateMonthly`, and `Discounts` has the
--     operations on discount codes; `Settings` has the two settings and the tuition report.
--   * `Ownership`, src/students/student-ownership.service.ts: the guard `canAccess` of one student
--     and the list scope `visibleStudentIds`, which every other service uses.
--   * `Exams`, src/exams/exams.service.ts: `create` and `generateExamCode` are in `Exams`, `register`
--     in `Register`, `recordResult` in `Results`, `update` in `Update`. `Capacity`, `Ranks` and `Naming` are their laws.
--   * `Leaves`, src/leaves/leaves.service.ts: its operations, with `list` in `Scope`. `review` and
--     `cancel` are split where they stop checking and start writing; `Decisions` has the step relation of
--     calls that overlap at that point, without the deletion by an administrator.
--   * `Auth`, src/auth. `Tokens` is src/auth/domain/token.service.ts, `PasswordPolicy` the policy beside
--     it, `Guards` the two guards of src/auth/guards, `Totp` and `Seal` the services of src/auth/mfa.
--     src/auth/auth.service.ts is in five modules: `Login` (login, issueSession), `Sessions` (refresh,
--     logout, logoutAll, listSessions, revokeSession), `Registration` (register,
--     verifyEmail, resendVerification, forgotPassword), `Account` (resetPassword, changePassword,
--     requestChangeEmail, confirmChangeEmail, deactivate) and `Mfa` (totpEnable to mfaLoginVerify), over the reads and
--     writes of `Users`. `Writes` has the kinds of write that a flow is made of, `Flows`,
--     `RegistrationFlows`, `AccountFlows` and `MfaFlows` say so for each flow, and `Steps.Reach` is any sequence of
--     flows. `Races` adds refreshes that overlap, on the lemmas of `Rows`. `Kept`, `Single`, `Replay`, `Versions`, `Outdated`, `ActionTokens`, `Lockout`,
--     `TotpLaws` and `TotpLock` prove what they are named for.
--   * `SharedStore`, src/common/shared-store.ts: the promise of a store as a record of operations and
--     laws, which `Auth.Totp` takes as its parameter, and `InMemory`, which fills it. `Promise` describes
--     the operations a second time, without the helpers of the implementation.
--   * `Outbox`, src/notifications/notification-outbox.service.ts: the worker, on rows of its own with
--     the columns that it uses; the rows that Billing and Payments insert are `Schema.Notification`.
--   * `Enrollments`, src/classes/enrollments.service.ts, and `Promotions`,
--     src/promotions/promotions.service.ts, with one module each for their invariants. The operations of
--     `Promotions` are split into checks and writes too, and `Promotions.Open` lets calls overlap there.
--   * `Duration`, src/common/duration.ts: the durations of the configuration.
--   * `Tests` has the theorems at concrete inputs.
--
-- Conventions. A uuid is a number, which is only compared; a point in time is a number of
-- milliseconds; an amount is a natural number of VND, as the request validation has it, so that the
-- test for a negative amount never fires. Text is a list of code units. The clock, the random bytes
-- of an order reference, the id of a new row and the year of an invoice number are arguments, one
-- reading for each call. A numeric suffix of a code is an exact number: the columns are too short for
-- one that a double would round. An audit event holds the values that its `detail` is printed from,
-- and a notification the row that its message is printed from. The step relations say
-- which calls overlap, and where. In `Payments.Races` a handler stops between its reads and its transaction,
-- and each transaction runs alone, as its row locks and conditional updates are there to give; the same holds
-- of `register` of the exams and of `create` of the enrolments, which lock a row. In `Auth.Races` a refresh
-- stops between reading its token and the conditional update that takes it; what it does from that update on
-- (`consume`), and each other flow of `Auth`, is one step. In `Leaves.Decisions` and `Promotions.Open` a call
-- stops between its checks and its writes: there the code has neither a transaction nor a condition on its
-- updates. `recordResult` of the exams has a transaction, but takes no lock in it: `record_result` is one call
-- that runs alone, and says nothing of two at once. All other functions are single calls.
--
-- A sum of tuition rates is a natural number without a bound, where its column has 32 bits.
--
-- Libraries are parameters: jsonwebtoken is the record `Jwt`, node:crypto's cipher `Cipher`, and
-- bcryptjs, SHA-256, `toLowerCase` and otplib are fields of `AuthService`, next to the environment, with
-- the durations in seconds. What bcrypt, uuid and randomBytes draw is an argument, collected in
-- `Login.Draw`. A mail that the port takes or loses has no effect on a flow, and is kept in the world.
-- For each channel and row there is one of four outcomes of a sender in the outbox:
-- it sends and the row is updated, it sends and the update fails, it is not configured, or it fails.
--
-- Fuel. `decimal` prints n with n + 1 steps, which is enough since each divides by ten;
-- `digits_value-decimal_fuel` reads the number back. `retry` has as many steps as the loop has
-- further attempts, and `generate_attempts` as many as it has attempts. `run_attempts` has the fifty
-- attempts of a pass, which the source bounds too. All else is recursion on lists.
--
-- Not modelled: what is behind the payment port (payOS, SePay, the simulated adapter), which is a
-- parameter; HTTP controllers and validation of requests; the order and paging of lists; the revenue
-- report; the purge of used tokens, which deletes them a week after their week of retention, long after
-- the tokens' day; timers and shutdown; and the services for the administration of users, students,
-- parents, classes, attendance, belts, announcements, evaluations and consent.
pub mod Auth
pub mod Base
pub mod Billing
pub mod Duration
pub mod Enrollments
pub mod Exams
pub mod Leaves
pub mod Outbox
pub mod Ownership
pub mod Payments
pub mod Promotions
pub mod Schema
pub mod Service
pub mod SharedStore
pub mod Tests
