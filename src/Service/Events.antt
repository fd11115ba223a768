-- ===== src/Service/Events.antt =====
-- What a service method throws, audits and mails: the exceptions, the events of
-- src/auth/audit/audit.service.ts, and the mails of the account flows.
use Prim.Native.String.{String}
use vovinam_api_node.Base.{ℕ, Bool, Option, Text}
use vovinam_api_node.Schema.{RegistrationStatus, LeaveStatus, ProposalStatus}

-- The exceptions: those of NestJS with their messages, and the two of Prisma that the schema's
-- constraints give, P2002 (unique) and P2025 (record not found).
pub data Error : Type 0 where
  not_found : Error
  unauthorized : String → Error
  forbidden : String → Error
  conflict : String → Error
  bad_request : String → Error
  unique_violation : Error
  record_missing : Error
  internal : Error  -- thrown by a library, answered as a 500

-- An audit event with the values that its `detail` is put together from.
pub data AuditEvent : Type 0 where
  payment_created : (payment invoice : ℕ) → (order_ref : Text) → AuditEvent
  payment_failed : (payment : ℕ) → (order_ref : Text) → AuditEvent
  payment_mismatched : (payment : ℕ) → (order_ref : Text) → (expected received : ℕ) → AuditEvent
  payment_flagged : (payment invoice total_settled : ℕ) → AuditEvent
  payment_succeeded : (payment invoice amount : ℕ) → AuditEvent
  payment_confirmed_cash : (payment invoice amount by_admin : ℕ) → AuditEvent
  payment_refunded : (payment by_admin : ℕ) → Option Text → AuditEvent
  payment_disputed : (payment by_admin : ℕ) → Option Text → AuditEvent
  invoice_issued : (invoice registration : ℕ) → AuditEvent
  invoice_created : (invoice student : ℕ) → (applied_code : Option Text) → AuditEvent
  tuition_generated : (month year created skipped : ℕ) → AuditEvent
  settings_updated : (classes : Option ℕ) → AuditEvent  -- `none` for the bank account
  discount_code_created : (code : Text) → AuditEvent
  discount_code_updated : (code : Text) → (active : Bool) → AuditEvent
  discount_code_deleted : (code : Text) → AuditEvent
  belt_exam_created : (exam : ℕ) → (exam_code : Text) → AuditEvent
  belt_exam_updated : (exam : ℕ) → AuditEvent
  exam_registration_created : (registration student exam : ℕ) → AuditEvent
  exam_result_recorded :
      (registration : ℕ) → (outcome : RegistrationStatus) → (examiner : ℕ) → AuditEvent
  register_duplicate register_new email_verified email_verification_resent : AuditEvent
  password_reset_requested password_reset : AuditEvent
  login_failed login_locked account_locked login login_mfa_pending login_new_ip : AuditEvent
  mfa_recovery_used mfa_enabled mfa_disabled token_reuse_detected : AuditEvent
  logout logout_all password_changed email_change_requested account_deactivated : AuditEvent
  session_revoked : (session : ℕ) → AuditEvent
  email_changed : (target : Text) → AuditEvent
  enrollment_created : (enrollment student class_id : ℕ) → AuditEvent
  enrollment_removed : (enrollment : ℕ) → AuditEvent
  proposal_created : (proposal student rank : ℕ) → AuditEvent
  proposal_updated : (proposal : ℕ) → AuditEvent
  proposal_reviewed : (proposal : ℕ) → (outcome : ProposalStatus) → AuditEvent
  leave_request_created : (request student session_date : ℕ) → AuditEvent
  leave_request_reviewed : (request : ℕ) → (outcome : LeaveStatus) → AuditEvent
  leave_request_cancelled : (request : ℕ) → AuditEvent
  leave_request_deleted : (request : ℕ) → AuditEvent

pub record AuditEntry : Type 0 where
  pub user_id : Option ℕ
  pub event : AuditEvent
  pub success : Bool

-- The `templateCode` of a mail of the account flows.
pub data MailTemplate : Type 0 where
  register_duplicate verify_email reset_password change_email account_locked : MailTemplate
  login_blocked_disabled login_blocked_locked login_blocked_unverified : MailTemplate
  login_new_ip mfa_recovery_used token_reuse : MailTemplate

-- A mail that was handed to the mail port; `token` is the one in its body.
pub record Mail : Type 0 where
  pub recipient : Text
  pub template : MailTemplate
  pub token : Option Text
