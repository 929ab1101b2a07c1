-- ===== src/Store/Leases.antt =====
-- The rows of prisma/schema.prisma for lease contracts and verified identities. A text is its UTF-16
-- code units; the column `updatedAt` is left out.
use propmatch_backend.Prelude.{ℕ, Option, List}
use propmatch_backend.Text.{Text}

pub data LeaseContractStatus : Type 0 where
  drafting pending_tenant_approval approved : LeaseContractStatus

pub data TenantContractReviewStatus : Type 0 where
  pending_review changes_requested review_confirmed : TenantContractReviewStatus

pub record LeaseContract : Type 0 where
  pub id : ℕ
  pub match_connection_id : ℕ
  pub generated_by_user_id : ℕ
  pub owner_name : Text
  pub owner_national_id : Option Text
  pub tenant_name : Text
  pub tenant_national_id : Option Text
  pub property_address : Text
  pub custom_clauses : List Text
  pub witness1_name : Option Text
  pub witness1_national_id : Option Text
  pub witness2_name : Option Text
  pub witness2_national_id : Option Text
  pub pdf_url : Option ℕ
  pub start_date : ℕ
  pub end_date : ℕ
  pub rent_amount : ℕ
  pub status : LeaseContractStatus
  pub tenant_review_status : TenantContractReviewStatus
  pub tenant_change_request : Option Text
  pub tenant_change_requested_at : Option ℕ
  pub tenant_review_confirmed_at : Option ℕ
  pub draft_revision : ℕ
  pub tenant_reviewed_revision : Option ℕ
  pub change_request_note : Option Text
  pub created_at : ℕ

pub data VerificationStatus : Type 0 where
  pending approved rejected resubmission_required : VerificationStatus

pub record IdentityVerification : Type 0 where
  pub user_id : ℕ
  pub national_id : Option Text
  pub status : VerificationStatus

pub data UserReviewDirection : Type 0 where
  tenant_to_landlord landlord_to_tenant : UserReviewDirection

pub record UserReview : Type 0 where
  pub id : ℕ
  pub lease_contract_id : ℕ
  pub reviewer_id : ℕ
  pub reviewee_id : ℕ
  pub direction : UserReviewDirection
  pub overall_rating : ℕ
  pub communication_rating : ℕ
  pub responsiveness_rating : ℕ
  pub property_accuracy_rating : Option ℕ
  pub commitment_rating : Option ℕ
  pub created_at : ℕ
