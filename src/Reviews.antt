-- ===== src/Reviews.antt =====
-- src/reviews/user-reviews.service.ts: the parties of an approved lease rate each other, once each.
pub mod Once
use propmatch_backend.Prelude.{
  ℕ, ◌+◌, Option, none, some, List, [], ◌∷◌, ◌++◌, Bool, true, false, not, ◌&&◌, ◌||◌, ◌==◌,
  if◌then◌else◌, is_some, find?,
}
use propmatch_backend.Store.{
  LeaseContract, LeaseContractStatus, MatchConnection, UserReview, UserReviewDirection,
  tenant_to_landlord, landlord_to_tenant, NotificationType, Db, Action, pure, gets, throw, or_throw,
  throw_if, modify, ◌>>=◌, ◌>>◌, not_found, forbidden, conflict, bad_request, internal,
}
use propmatch_backend.TenantOffers.{notify_user}
use propmatch_backend.Leases.{contract_code}

-- `CreateUserReviewDto`
pub record CreateUserReview : Type 0 where
  pub overall_rating : ℕ
  pub communication_rating : ℕ
  pub responsiveness_rating : ℕ
  pub property_accuracy_rating : Option ℕ
  pub commitment_rating : Option ℕ

-- What `contractContext` returns, less the name.
pub record ContractContext : Type 0 where
  pub status : LeaseContractStatus
  pub direction : UserReviewDirection
  pub reviewee_id : ℕ

abbrev pub party_context : ℕ → LeaseContract → MatchConnection → Action ContractContext
party_context user contract c =
    let as_tenant : ContractContext = record {
      status = contract.status;
      direction = tenant_to_landlord;
      reviewee_id = c.owner_id;
    } in
    let as_owner : ContractContext = record {
      status = contract.status;
      direction = landlord_to_tenant;
      reviewee_id = c.tenant_id;
    } in
    let other : Action ContractContext = throw (forbidden "NOT_A_PARTY_TO_THIS_CONTRACT") in
    if user == c.tenant_id
    then pure as_tenant
    else if user == c.owner_id
    then pure as_owner
    else other

-- `contractContext`; a contract always has its connection.
unfoldable pub contract_context : ℕ → ℕ → Action ContractContext
contract_context user contract_id = do
  found ← gets (λ db. find? (λ c. c.id == contract_id) db.contracts)
  contract ← or_throw found (not_found "no such contract")
  joined ← gets (λ db. find? (λ c. c.id == contract.match_connection_id) db.connections)
  connection ← or_throw joined (internal "no connection")
  party_context user contract connection

-- The ratings that a direction asks for: the one of its own, and not the other's.
abbrev pub fits_direction : UserReviewDirection → CreateUserReview → Bool
fits_direction tenant_to_landlord dto =
    is_some dto.property_accuracy_rating && not (is_some dto.commitment_rating)
fits_direction landlord_to_tenant dto =
    is_some dto.commitment_rating && not (is_some dto.property_accuracy_rating)

-- `leaseContractId_reviewerId`
abbrev pub is_review_of : ℕ → ℕ → UserReview → Bool
is_review_of contract reviewer r = r.lease_contract_id == contract && r.reviewer_id == reviewer

abbrev pub new_review : ℕ → ℕ → ℕ → ℕ → ContractContext → CreateUserReview → UserReview
new_review id now user contract c dto = record {
  id = id;
  lease_contract_id = contract;
  reviewer_id = user;
  reviewee_id = c.reviewee_id;
  direction = c.direction;
  overall_rating = dto.overall_rating;
  communication_rating = dto.communication_rating;
  responsiveness_rating = dto.responsiveness_rating;
  property_accuracy_rating = dto.property_accuracy_rating;
  commitment_rating = dto.commitment_rating;
  created_at = now;
}

-- The tests of `create`.
unfoldable pub check_review : ℕ → ℕ → CreateUserReview → Action ContractContext
unfolding contract_context
check_review user contract dto = do
  context ← contract_context user contract
  throw_if (not (contract_code context.status == 2))
      (conflict "USER_REVIEW_REQUIRES_APPROVED_CONTRACT")
  throw_if (not (fits_direction context.direction dto)) (bad_request "the ratings do not fit")
  existing ← gets (λ db. find? (is_review_of contract user) db.user_reviews)
  throw_if (is_some existing) (conflict "USER_REVIEW_ALREADY_SUBMITTED")
  pure context

-- The write of `create`: the unique constraint refuses a review that another request has stored
-- since.
unfoldable pub insert_review :
    (Db → Db) → ℕ → ℕ → ℕ → CreateUserReview → ContractContext → Action UserReview
insert_review others now user contract dto c = do
  modify others
  raced ← gets (λ db. find? (is_review_of contract user) db.user_reviews)
  throw_if (is_some raced) (conflict "USER_REVIEW_ALREADY_SUBMITTED")
  id ← gets (λ db. db.next_id)
  let review = new_review id now user contract c dto
  modify
      (λ db. record db { user_reviews = db.user_reviews ++ review ∷ []; next_id = db.next_id + 1 })
  notify_user (record {
    user_id = c.reviewee_id;
    type = NotificationType.user_review_received;
    title = "a new review";
    link = "/contracts";
    price = none;
  })
  pure review

-- `create`; `others` is what other requests commit before the write.
unfoldable pub create_review : (Db → Db) → ℕ → ℕ → ℕ → CreateUserReview → Action UserReview
unfolding check_review insert_review
create_review others now user contract dto = do
  context ← check_review user contract dto
  insert_review others now user contract dto context
