-- ===== src/Schema.antt =====
-- The tables of prisma/schema.prisma that the services read and write. A uuid is only compared,
-- so it is a number; a point in time is the number of milliseconds since 1970; an amount is a
-- number of VND. Rows keep the schema's columns, without those that no modelled code reads.
use vovinam_api_node.Base.{ℕ, Bool, Option, List, Text}

pub data Role : Type 0 where
  admin instructor student parent : Role

-- `AuthenticatedUser`
pub record Caller : Type 0 where
  pub id : ℕ
  pub role : Role

pub data StudentStatus : Type 0 where
  pending active paused left : StudentStatus

pub data ClassStatus : Type 0 where
  active paused archived : ClassStatus

pub data InvoiceType : Type 0 where
  tuition exam_fee uniform other : InvoiceType

pub data InvoiceStatus : Type 0 where
  unpaid paid overdue cancelled refunded : InvoiceStatus

pub data PaymentGateway : Type 0 where
  payos sepay cash bank_transfer : PaymentGateway

pub data TxnStatus : Type 0 where
  pending success failed refunded disputed : TxnStatus

pub data ExamStatus : Type 0 where
  draft open_status closed completed cancelled : ExamStatus

pub data RegistrationStatus : Type 0 where
  pending_payment paid result_pass result_fail cancelled : RegistrationStatus

pub data LeaveStatus : Type 0 where
  pending approved rejected cancelled : LeaveStatus

pub record StudentProfile : Type 0 where
  pub id : ℕ
  pub user_id : Option ℕ
  pub current_belt_rank_id : Option ℕ
  pub status : StudentStatus
  pub deleted_at : Option ℕ

pub record ParentStudentLink : Type 0 where
  pub id : ℕ
  pub parent_user_id : ℕ
  pub student_id : ℕ
  pub verified : Bool

pub record Class : Type 0 where
  pub id : ℕ
  pub name : Text
  pub instructor_id : ℕ
  pub capacity : ℕ
  pub status : ClassStatus

pub record Enrollment : Type 0 where
  pub id : ℕ
  pub student_id : ℕ
  pub class_id : ℕ
  pub enrolled_at : ℕ
  pub left_at : Option ℕ

pub record Invoice : Type 0 where
  pub id : ℕ
  pub invoice_no : Text
  pub student_id : ℕ
  pub kind : InvoiceType  -- the column `type`
  pub ref_exam_registration_id : Option ℕ
  pub period_month : Option ℕ
  pub period_year : Option ℕ
  pub subtotal : ℕ
  pub discount : ℕ
  pub total : ℕ
  pub status : InvoiceStatus
  pub due_date : ℕ
  pub note : Option Text
  pub created_by : ℕ

pub record InvoiceItem : Type 0 where
  pub invoice_id : ℕ
  pub description : Text
  pub quantity : ℕ
  pub unit_amount : ℕ
  pub amount : ℕ

pub record PaymentTxn : Type 0 where
  pub id : ℕ
  pub invoice_id : ℕ
  pub order_ref : Text
  pub gateway : PaymentGateway
  pub gateway_txn_id : Option Text
  pub amount : ℕ
  pub status : TxnStatus
  pub paid_at : Option ℕ
  pub expires_at : Option ℕ
  pub recorded_by : Option ℕ
  pub note : Option Text

-- The JSON value of the setting `bank_account`, as `assertBankAccountConfigured` reads it.
pub record BankAccount : Type 0 where
  pub owner_type : Option Text
  pub bin : Option Text
  pub number : Option Text
  pub name : Option Text

pub record DiscountCode : Type 0 where
  pub id : ℕ
  pub code : Text
  pub percent_off : Option ℕ
  pub amount_off : Option ℕ
  pub valid_from : ℕ
  pub valid_until : ℕ
  pub is_active : Bool

pub data NotificationChannel : Type 0 where
  email zns sms inapp : NotificationChannel

pub data NotificationStatus : Type 0 where
  queued sending sent failed skipped : NotificationStatus

pub record Notification : Type 0 where
  pub user_id : Option ℕ
  pub channel : NotificationChannel
  pub template_code : Text
  pub about : ℕ  -- the row that the payload's message is made from
  pub status : NotificationStatus
  pub sent_at : Option ℕ

pub record BeltRank : Type 0 where
  pub id : ℕ
  pub order_index : ℕ
  pub is_active : Bool

pub record BeltExam : Type 0 where
  pub id : ℕ
  pub code : Text
  pub title : Text
  pub exam_date : ℕ
  pub target_rank_id : ℕ
  pub fee_amount : ℕ
  pub capacity : Option ℕ
  pub registration_deadline : ℕ
  pub status : ExamStatus

pub record ExamRegistration : Type 0 where
  pub id : ℕ
  pub exam_id : ℕ
  pub student_id : ℕ
  pub current_rank_id : Option ℕ
  pub target_rank_id : ℕ
  pub status : RegistrationStatus
  pub result_note : Option Text
  pub examiner_id : Option ℕ

pub record User : Type 0 where
  pub id : ℕ
  pub email : Text
  pub password_hash : Text
  pub role : Role
  pub email_verified_at : Option ℕ
  pub failed_login_attempts : ℕ
  pub locked_until : Option ℕ
  pub pwd_version : ℕ
  pub is_active : Bool
  pub deleted_at : Option ℕ

pub record Session : Type 0 where
  pub id : ℕ
  pub user_id : ℕ
  pub revoked : Bool
  pub last_active_at : ℕ
  pub expires_at : ℕ

pub record RefreshToken : Type 0 where
  pub id : ℕ
  pub user_id : ℕ
  pub session_id : ℕ
  pub token_hash : Text
  pub revoked : Bool
  pub expires_at : ℕ

pub record TotpCredential : Type 0 where
  pub user_id : ℕ
  pub secret_encrypted : Text

pub record RecoveryCode : Type 0 where
  pub id : ℕ
  pub user_id : ℕ
  pub code_hash : Text
  pub used_at : Option ℕ

pub data TokenPurpose : Type 0 where
  verify_email reset_password change_email : TokenPurpose

pub record UsedToken : Type 0 where
  pub jti : ℕ
  pub user_id : ℕ
  pub purpose : TokenPurpose
  pub expires_at : ℕ

-- A row of the audit log, as `alertOnNewIp` reads it.
pub record AuditLog : Type 0 where
  pub user_id : ℕ
  pub is_login : Bool
  pub ip : Text
  pub created_at : ℕ

pub data ProposalStatus : Type 0 where
  pending approved rejected : ProposalStatus

pub record PromotionProposal : Type 0 where
  pub id : ℕ
  pub student_id : ℕ
  pub proposed_rank_id : ℕ
  pub proposed_by_user_id : ℕ
  pub note : Option Text
  pub status : ProposalStatus
  pub reviewed_by_user_id : Option ℕ
  pub reviewed_at : Option ℕ
  pub review_note : Option Text

pub record LeaveRequest : Type 0 where
  pub id : ℕ
  pub student_id : ℕ
  pub class_id : ℕ
  pub requested_by_user_id : Option ℕ
  pub session_date : ℕ
  pub reason : Text
  pub status : LeaveStatus
  pub reviewed_by_user_id : Option ℕ
  pub reviewed_at : Option ℕ
  pub review_note : Option Text

pub record Database : Type 0 where
  pub users : List User
  pub profiles : List StudentProfile
  pub links : List ParentStudentLink
  pub classes : List Class
  pub enrollments : List Enrollment
  pub invoices : List Invoice
  pub invoice_items : List InvoiceItem
  pub payments : List PaymentTxn
  pub bank_account : Option BankAccount
  pub tuition_rates : List (ℕ × Option ℕ)  -- `none` where the value is not a positive number
  pub discount_codes : List DiscountCode
  pub notifications : List Notification
  pub ranks : List BeltRank
  pub exams : List BeltExam
  pub registrations : List ExamRegistration
  pub leaves : List LeaveRequest
  pub proposals : List PromotionProposal
  pub sessions : List Session
  pub refresh_tokens : List RefreshToken
  pub totp_credentials : List TotpCredential
  pub recovery_codes : List RecoveryCode
  pub used_tokens : List UsedToken
  pub audit_logs : List AuditLog
