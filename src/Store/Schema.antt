-- ===== src/Store/Schema.antt =====
-- The rows of prisma/schema.prisma that the commercial services share, with the columns that they
-- read or write. An identifier is a number, since identifiers are only compared; a table is the list
-- of its rows; a date is milliseconds since 1970.
use propmatch_backend.Prelude.{ℕ, Option, List, [], Bool}
use propmatch_backend.Catalog.{
  Plan, Billing, Kind, EntitlementType, BillablePaymentType, PlanAllowances,
}
use propmatch_backend.Text.{Text}
use propmatch_backend.Store.Accounts.{
  LoginAttempt, ActivationRequest, SupportTicket, SupportMessage,
}
use propmatch_backend.Store.Leases.{LeaseContract, UserReview, IdentityVerification}
use propmatch_backend.Store.Market.{
  TenantOffer, MatchConnection, Notice, Counter, PropertyType, TenantRequest, OwnerOffer, Message,
  Effect,
}

pub data UserRole : Type 0 where
  tenant landlord admin : UserRole

pub record User : Type 0 where
  pub id : ℕ
  pub role : UserRole
  pub full_name : Text
  pub phone_number : Text
  pub email : Text
  pub password_hash : Text
  pub is_active : Bool
  pub deleted_at : Option ℕ
  pub token_version : ℕ
  pub suspended_at : Option ℕ
  pub suspended_until : Option ℕ
  pub reset_token : Option Text
  pub reset_token_expiry : Option ℕ
  pub email_verified_at : Option ℕ
  pub email_otp_hash : Option Text
  pub email_otp_expires_at : Option ℕ
  pub email_otp_attempts : ℕ
  pub email_otp_sent_at : Option ℕ

pub record UserQuota : Type 0 where
  pub user_id : ℕ
  pub plan_type : Plan
  pub plan_expires_at : Option ℕ
  pub max_active_listings : ℕ
  pub optimizer_uses_left : ℕ
  pub free_offers_left : ℕ
  pub boost_credits_left : ℕ
  pub billing_interval : Option Billing
  pub current_period_starts_at : Option ℕ
  pub current_period_ends_at : Option ℕ
  pub listing_grace_ends_at : Option ℕ
  pub pending_plan_type : Option Plan
  pub pending_billing_interval : Option Billing
  pub pending_plan_starts_at : Option ℕ
  pub pending_plan_expires_at : Option ℕ
  pub last_reset_date : ℕ

pub record EntitlementGrant : Type 0 where
  pub id : ℕ
  pub user_id : ℕ
  pub payment_transaction_id : Option ℕ
  pub type : EntitlementType
  pub granted_quantity : ℕ
  pub remaining_quantity : ℕ
  pub starts_at : ℕ
  pub expires_at : ℕ

pub data PropertyStatus : Type 0 where
  pending approved rejected archived : PropertyStatus

pub record Property : Type 0 where
  pub id : ℕ
  pub owner_id : ℕ
  pub status : PropertyStatus
  pub is_boosted : Bool
  pub boosted_until : Option ℕ
  pub created_at : ℕ
  pub district : Text
  pub manual_address : Text
  pub rent_amount : ℕ
  pub title : Text
  pub description : Text
  pub property_type : PropertyType
  pub property_around_services : Option Text
  pub bedrooms : ℕ
  pub is_furnished : Bool
  pub country_id : ℕ
  pub governorate_id : ℕ
  pub city_id : ℕ
  pub area_m2 : ℕ
  pub bathrooms : ℕ
  pub has_elevator : Bool
  pub has_parking : Bool
  pub approved_at : Option ℕ
  pub approved_by : Option ℕ
  pub rejection_reason : Option Text

pub record PropertyImage : Type 0 where
  pub id : ℕ
  pub property_id : ℕ
  pub image_url : ℕ
  pub display_order : ℕ
  pub is_cover : Bool

pub record Governorate : Type 0 where
  pub id : ℕ
  pub country_id : ℕ
  pub name_ar : Text
  pub name_en : Text
  pub status : Bool

pub record City : Type 0 where
  pub id : ℕ
  pub governorate_id : ℕ
  pub name_ar : Text
  pub name_en : Text
  pub status : Bool

pub data CampaignStatus : Type 0 where
  scheduled active expired cancelled : CampaignStatus

pub record BoostCampaign : Type 0 where
  pub id : ℕ
  pub property_id : ℕ
  pub user_id : ℕ
  pub payment_transaction_id : Option ℕ
  pub duration_days : ℕ
  pub starts_at : ℕ
  pub ends_at : ℕ
  pub status : CampaignStatus

-- The payment types of the database: those of the catalogue and those of earlier revisions.
pub data PaymentType : Type 0 where
  billable : BillablePaymentType → PaymentType
  premium_owner owner_plus single_listing single_offer boost_listing ai_addon : PaymentType
  docs_pack legacy_owner_plus legacy_new_listing legacy_boost_listing : PaymentType
  legacy_refill_matches legacy_offer_pack : PaymentType

pub data PaymentStatus : Type 0 where
  pending success failed : PaymentStatus

-- `ResolvedProduct`
pub record ResolvedProduct : Type 0 where
  pub payment_type : BillablePaymentType
  pub price_egp : ℕ
  pub enabled : Bool
  pub billing : Billing
  pub kind : Kind
  pub plan_type : Option Plan
  pub entitlement_type : Option EntitlementType
  pub quantity : Option ℕ
  pub validity_days : Option ℕ
  pub duration_days : Option ℕ

pub record CatalogSnapshot : Type 0 where
  pub product : ResolvedProduct
  pub plan_allowances : Option PlanAllowances

-- `amount` is a whole number of pounds, as `checkout` stores it.
pub record PaymentTransaction : Type 0 where
  pub id : ℕ
  pub user_id : ℕ
  pub provider_order_id : ℕ
  pub provider_transaction_id : Option ℕ
  pub amount : ℕ
  pub currency : Text
  pub payment_type : PaymentType
  pub billing_interval : Option Billing
  pub target_property_id : Option ℕ
  pub catalog_snapshot : Option CatalogSnapshot
  pub status : PaymentStatus
  pub paid_at : Option ℕ
  pub created_at : ℕ

pub record ProductConfiguration : Type 0 where
  pub id : ℕ
  pub payment_type : BillablePaymentType
  pub price_egp : ℕ
  pub quantity : Option ℕ
  pub validity_days : Option ℕ
  pub duration_days : Option ℕ
  pub enabled : Bool
  pub updated_by_id : ℕ

pub record PlanConfiguration : Type 0 where
  pub id : ℕ
  pub plan_type : Plan
  pub allowances : PlanAllowances
  pub updated_by_id : ℕ

pub data AuditAction : Type 0 where
  product_update : BillablePaymentType → AuditAction
  plan_update : Plan → AuditAction

pub record AuditLogEntry : Type 0 where
  pub actor_id : ℕ
  pub action : AuditAction
  pub subject_id : ℕ

-- `RealtimeService.paymentUpdated`: the user told, the order, the new status, the provider's
-- transaction and the time of payment.
pub record PaymentEvent : Type 0 where
  pub user_id : ℕ
  pub provider_order_id : ℕ
  pub status : PaymentStatus
  pub provider_transaction_id : ℕ
  pub paid_at : Option ℕ

-- The tables, what was pushed to clients, and the supply of new identifiers.
pub record Db : Type 0 where
  pub users : List User
  pub quotas : List UserQuota
  pub grants : List EntitlementGrant
  pub properties : List Property
  pub campaigns : List BoostCampaign
  pub transactions : List PaymentTransaction
  pub product_configurations : List ProductConfiguration
  pub plan_configurations : List PlanConfiguration
  pub audit_log : List AuditLogEntry
  pub payment_events : List PaymentEvent
  pub tenant_offers : List TenantOffer
  pub requests : List TenantRequest
  pub owner_offers : List OwnerOffer
  pub messages : List Message
  pub effects : List Effect
  pub login_attempts : List LoginAttempt
  pub activation_requests : List ActivationRequest
  pub tickets : List SupportTicket
  pub support_messages : List SupportMessage
  pub governorates : List Governorate
  pub cities : List City
  pub property_images : List PropertyImage
  pub user_reviews : List UserReview
  pub connections : List MatchConnection
  pub notices : List Notice
  pub counters : List Counter
  pub contracts : List LeaseContract
  pub verifications : List IdentityVerification
  pub next_id : ℕ

abbrev pub empty_db : Db
empty_db = record {
  users = [];
  quotas = [];
  grants = [];
  properties = [];
  campaigns = [];
  transactions = [];
  product_configurations = [];
  plan_configurations = [];
  audit_log = [];
  payment_events = [];
  tenant_offers = [];
  requests = [];
  owner_offers = [];
  messages = [];
  effects = [];
  login_attempts = [];
  activation_requests = [];
  tickets = [];
  support_messages = [];
  governorates = [];
  cities = [];
  property_images = [];
  user_reviews = [];
  connections = [];
  notices = [];
  counters = [];
  contracts = [];
  verifications = [];
  next_id = 0;
}
