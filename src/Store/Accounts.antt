-- ===== src/Store/Accounts.antt =====
-- The rows of prisma/schema.prisma for logins, reactivation requests and support tickets. The column
-- `updatedAt` of a ticket is `updated_at`, the time of its last write.
use propmatch_backend.Prelude.{ℕ, Option, Bool}
use propmatch_backend.Text.{Text}
use propmatch_backend.Store.Market.{MessageAttachmentType}

pub record LoginAttempt : Type 0 where
  pub user_id : ℕ
  pub ip : Text
  pub success : Bool
  pub created_at : ℕ

pub data ActivationRequestStatus : Type 0 where
  pending approved rejected : ActivationRequestStatus

pub record ActivationRequest : Type 0 where
  pub id : ℕ
  pub user_id : ℕ
  pub status : ActivationRequestStatus
  pub created_at : ℕ

pub data TicketStatus : Type 0 where
  fresh assigned in_progress waiting closed : TicketStatus

pub data SupportAuthor : Type 0 where
  by_ai by_user by_admin : SupportAuthor

pub data SupportPriority : Type 0 where
  low normal high urgent critical : SupportPriority

pub record SupportTicket : Type 0 where
  pub id : ℕ
  pub user_id : ℕ
  pub status : TicketStatus
  pub assigned_admin_id : Option ℕ
  pub last_message_at : ℕ
  pub escalation_reason : Option Text
  pub agent_escalation_key : Option ℕ
  pub priority : SupportPriority
  pub ai_summary : Option Text
  pub created_at : ℕ
  pub updated_at : ℕ

pub record SupportMessage : Type 0 where
  pub id : ℕ
  pub ticket_id : ℕ
  pub author_type : SupportAuthor
  pub author_name : Text
  pub author_id : Option ℕ
  pub content : Text
  pub attachment_url : Option ℕ
  pub attachment_type : Option MessageAttachmentType
  pub attachment_name : Option Text
  pub attachment_duration_ms : Option ℕ
  pub internal : Bool
  pub created_at : ℕ
