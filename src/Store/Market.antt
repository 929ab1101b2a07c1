-- ===== src/Store/Market.antt =====
-- The rows of prisma/schema.prisma for requests, offers, connections and messages, and what a
-- request leaves outside its own tables: the notices of `RealtimeService.notifyUser` and the
-- counters of `PropertyAnalyticsService.recordCounter`. A price is a number that is stored and
-- quoted only.
use propmatch_backend.Prelude.{ℕ, String, Option, Bool}
use propmatch_backend.Text.{Text}

pub data TenantOfferStatus : Type 0 where
  pending countered accepted declined withdrawn : TenantOfferStatus

pub record TenantOffer : Type 0 where
  pub id : ℕ
  pub tenant_id : ℕ
  pub property_id : ℕ
  pub owner_id : ℕ
  pub message : String
  pub proposed_price : ℕ
  pub counter_price : Option ℕ
  pub counter_message : Option String
  pub status : TenantOfferStatus

pub data ConnectionStatus : Type 0 where
  interested connected rejected : ConnectionStatus

pub record MatchConnection : Type 0 where
  pub id : ℕ
  pub tenant_id : ℕ
  pub property_id : ℕ
  pub owner_id : ℕ
  pub tenant_request_id : Option ℕ
  pub match_score : ℕ
  pub status : ConnectionStatus
  pub agreement_reached_at : Option ℕ

pub data PropertyType : Type 0 where
  apartment villa studio : PropertyType

pub data TenantRequestStatus : Type 0 where
  pending approved rejected fulfilled closed archived : TenantRequestStatus

-- The columns `embedding` and `approvedBy` are left out.
pub record TenantRequest : Type 0 where
  pub id : ℕ
  pub tenant_id : ℕ
  pub min_budget : ℕ
  pub max_budget : ℕ
  pub preferred_locations : Text
  pub property_type : PropertyType
  pub required_bedrooms : ℕ
  pub needs_furnished : Bool
  pub flexibility_score : ℕ
  pub lifestyle_requirements : Text
  pub status : TenantRequestStatus
  pub created_at : ℕ

pub data OwnerOfferStatus : Type 0 where
  sent viewed accepted rejected : OwnerOfferStatus

-- An offer's property is always given when it is made.
pub record OwnerOffer : Type 0 where
  pub id : ℕ
  pub owner_id : ℕ
  pub tenant_request_id : ℕ
  pub property_id : ℕ
  pub pitch_message : String
  pub proposed_price : ℕ
  pub status : OwnerOfferStatus
  pub created_at : ℕ

pub data MessageAttachmentType : Type 0 where
  image video audio : MessageAttachmentType

pub record Message : Type 0 where
  pub id : ℕ
  pub match_connection_id : ℕ
  pub sender_id : ℕ
  pub body : Text
  pub attachment_url : Option ℕ
  pub attachment_type : Option MessageAttachmentType
  pub attachment_name : Option Text
  pub attachment_duration_ms : Option ℕ
  pub created_at : ℕ
  pub edited_at : Option ℕ

pub data NotificationType : Type 0 where
  new_match new_offer_received new_review_submitted : NotificationType
  new_message reactivation_request support_ticket_escalated contract_ready_for_review
        contract_approved contract_rejected user_review_received :
      NotificationType

-- A notice: who is told, of what, where it leads, and the price that its message quotes.
pub record Notice : Type 0 where
  pub user_id : ℕ
  pub type : NotificationType
  pub title : String
  pub link : String
  pub price : Option ℕ

pub data Counter : Type 0 where
  tenant_offers owner_offers matches : ℕ → Counter

-- What a handler asks of the sockets, of the vector store and of the file store: each call as it is
-- made. A message event names who is told, the message, and its text.
pub data Effect : Type 0 where
  message_sent message_edited : ℕ → ℕ → Text → Effect
  message_deleted : ℕ → ℕ → Effect
  vectors_removed file_removed : ℕ → Effect
  -- A mail with a code or a token to an address, and one about a reply to a ticket.
  code_mailed token_mailed : Text → Text → Effect
  reply_mailed : Text → ℕ → Effect
  -- A ticket or a reactivation request in the queue of the administrators.
  ticket_announced reactivation_announced : ℕ → Effect
  -- A reply to a ticket, pushed to a user or to all administrators.
  reply_pushed : ℕ → ℕ → Text → Bool → Effect
  reply_to_admins : ℕ → Text → Effect
  -- A listing in a queue of the administrators.
  property_submitted property_edited : ℕ → Effect
