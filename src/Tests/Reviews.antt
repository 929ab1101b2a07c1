-- ===== src/Tests/Reviews.antt =====
-- The tenant of the approved lease rates the landlord.
use propmatch_backend.Prelude.{◌≡◌, refl, none, some, [], ◌∷◌, ◌++◌, find?}
use propmatch_backend.Store.{UserReview, tenant_to_landlord, Db, ok}
use propmatch_backend.TenantOffers.Market.{undisturbed}
use propmatch_backend.Reviews.{CreateUserReview, is_review_of, create_review}
use propmatch_backend.Reviews.Once.{create_review_once}
use propmatch_backend.Tests.Leases.{final, leased}

abbrev praise : CreateUserReview
praise = record {
  overall_rating = 5;
  communication_rating = 4;
  responsiveness_rating = 5;
  property_accuracy_rating = some 3;
  commitment_rating = none;
}

abbrev rating : UserReview
rating = record {
  id = 100;
  lease_contract_id = 201;
  reviewer_id = 9;
  reviewee_id = 7;
  direction = tenant_to_landlord;
  overall_rating = 5;
  communication_rating = 4;
  responsiveness_rating = 5;
  property_accuracy_rating = some 3;
  commitment_rating = none;
  created_at = 8;
}

abbrev rated : Db
rated = (create_review undisturbed 8 9 201 praise (leased final)).1

rates : create_review undisturbed 8 9 201 praise (leased final) ≡ (ok rating, rated)
unfolding create_review
rates = refl

create_review_once_example :
    (find? (is_review_of 201 9) (leased final).user_reviews ≡ none)
    × (find? (is_review_of 201 9) (undisturbed (leased final)).user_reviews ≡ none)
    × (rated.user_reviews ≡ (undisturbed (leased final)).user_reviews ++ rating ∷ [])
    × ¬ (create_review undisturbed 9 9 201 praise rated ≡ (ok rating, rated))
create_review_once_example =
    create_review_once undisturbed undisturbed 8 9 9 201 praise praise (leased final) rated rated
      rating rating rates
