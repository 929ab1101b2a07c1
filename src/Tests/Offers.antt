-- ===== src/Tests/Offers.antt =====
-- The landlord's offer on a tenant request in the small shop.
use propmatch_backend.Prelude.{
  ℕ, ◌≤◌, ◌≡◌, refl, Option, none, some, [], ◌∷◌, String, true, false, arith, find?, count_where,
}
use propmatch_backend.Store.{
  PropertyType, TenantRequest, TenantRequestStatus, OwnerOffer, OwnerOfferStatus, MatchConnection,
  Property, Db, ok, err, conflict,
}
use propmatch_backend.Quota.Period.{ensure_current_period}
use propmatch_backend.Quota.Consumption.{offer}
use propmatch_backend.Quota.Consumption.Totals.{IsKeyed, IsLeft, available}
use propmatch_backend.TenantOffers.Market.{undisturbed}
use propmatch_backend.Offers.{
  CreateOffer, SentOffer, new_offer, create_offer, Acceptance, accept_offer, check_acceptance,
  own_offer, has_id, is_open_offer, set_status, new_connection, reject_offer, view_offer,
}
use propmatch_backend.Offers.Score.{Similarity, within_budget, score_request, score_request_bounds}
use propmatch_backend.Offers.Created.{MaySend, IsSent, create_offer_charged}
use propmatch_backend.Offers.Accepted.{
  IsAccepted, can_claim, accept_offer-IsAccepted, accept_offer_late,
}
use propmatch_backend.Offers.Closing.{closed_offer_final}
use propmatch_backend.Tests.Shop.{now, landlord, free_quota, flat, shop}

abbrev pub wanted : TenantRequest
wanted = record {
  id = 51;
  tenant_id = 9;
  min_budget = 3000;
  max_budget = 5000;
  preferred_locations = 67 ∷ [];
  property_type = PropertyType.apartment;
  required_bedrooms = 2;
  needs_furnished = true;
  flexibility_score = 5;
  lifestyle_requirements = [];
  status = TenantRequestStatus.approved;
  created_at = 0;
}

abbrev pub demand : Db
demand = record shop { requests = wanted ∷ [] }

abbrev dto : CreateOffer
dto = record {
  tenant_request_id = 51;
  property_id = 11;
  pitch_message = "a quiet flat";
  proposed_price = 4000;
}

abbrev pub sent : Db
sent = (create_offer undisturbed now 7 dto demand).1

abbrev told : SentOffer
told = record { id = 100; status = OwnerOfferStatus.sent; free_offers_left = 5 }

sends : create_offer undisturbed now 7 dto demand ≡ (ok told, sent)
unfolding create_offer
sends = refl

ensured : ensure_current_period now 7 demand ≡ (ok free_quota, demand)
unfolding ensure_current_period
ensured = refl

demand-IsKeyed : IsKeyed 7 demand
demand-IsKeyed = record { one_quota = refl; distinct = (((λ e. ground arith), tt), (tt, tt)) }

create_offer_charged_example :
    ((request : TenantRequest) × MaySend 7 dto request demand)
    × IsSent now 7 dto told demand sent
    × (available now 7 offer free_quota demand ≡ 6)
    × IsLeft now 7 offer 5 sent
create_offer_charged_example =
    create_offer_charged undisturbed now 7 dto demand demand sent free_quota told ensured
      demand-IsKeyed refl sends

-- A second offer on the same request.
again :
    create_offer undisturbed now 7 dto sent
    ≡ (err (conflict "there is an offer on this request already"), sent)
unfolding create_offer
again = refl

abbrev pub the_offer : OwnerOffer
the_offer = new_offer 100 now 7 dto

abbrev pub score : TenantRequest → Property → ℕ
score r p = 98

abbrev pub acceptance : Acceptance
acceptance = record { offer = the_offer; property = flat; request = wanted; owner = landlord }

abbrev pub accepted : Db
accepted = (accept_offer score undisturbed 9 100 sent).1

abbrev pub connection : MatchConnection
connection = new_connection 101 9 the_offer 98

accepts : accept_offer score undisturbed 9 100 sent ≡ (ok (connection, acceptance), accepted)
unfolding create_offer accept_offer
accepts = refl

accept_offer-IsAccepted_example :
    (own_offer 9 100 sent ≡ some the_offer) × IsAccepted 9 100 98 the_offer connection sent accepted
accept_offer-IsAccepted_example =
    accept_offer-IsAccepted score undisturbed 9 100 sent accepted connection acceptance accepts

-- The request is fulfilled by another agreement while the acceptance is on its way.
abbrev fulfilled : Db → Db
fulfilled db = record db {
  requests = record wanted { status = TenantRequestStatus.fulfilled } ∷ [];
}

checked : check_acceptance 9 100 sent ≡ (ok acceptance, sent)
unfolding create_offer check_acceptance
checked = refl

too_late : can_claim 100 the_offer (fulfilled sent) ≡ false
unfolding create_offer
too_late = refl

accept_offer_late_example :
    (message : String) × (accept_offer score fulfilled 9 100 sent
      ≡ (err (conflict message), fulfilled sent))
accept_offer_late_example = accept_offer_late score fulfilled 9 100 sent acceptance checked too_late

-- The accepted offer is final.
abbrev final_offer : OwnerOffer
final_offer = set_status OwnerOfferStatus.accepted the_offer

accepted-one : count_where (has_id 100) accepted.owner_offers ≤ 1
unfolding create_offer accept_offer
accepted-one = ground arith

accepted-own : own_offer 9 100 accepted ≡ some final_offer
unfolding create_offer accept_offer
accepted-own = refl

closed_offer_final_example :
    (accept_offer score undisturbed 9 100 accepted
      ≡ (err (conflict "the offer cannot be accepted in its current state"), accepted))
    × (reject_offer undisturbed 9 100 accepted
        ≡ (err (conflict "the offer cannot be rejected in its current state"), accepted))
    × (view_offer undisturbed 9 100 accepted ≡ (ok final_offer, accepted))
closed_offer_final_example =
    closed_offer_final score undisturbed 9 100 accepted final_offer accepted-one accepted-own refl

sent-own : own_offer 9 100 sent ≡ some the_offer
unfolding create_offer
sent-own = refl

sent-one : count_where (is_open_offer 100) sent.owner_offers ≤ 1
unfolding create_offer
sent-one = ground arith

-- The tenant opens the offer in one window and accepts it in another.
abbrev accepting : Db → Db
accepting db = (accept_offer score undisturbed 9 100 db).1

meanwhile : find? (has_id 100) (accepting sent).owner_offers ≡ some final_offer
unfolding create_offer accept_offer
meanwhile = refl

scores : score_request wanted flat ≡ 98
unfolding score_request
scores = refl

score_request_bounds_example :
    (within_budget wanted flat ≡ true
      → (66 ≤ score_request wanted flat) × (score_request wanted flat ≤ 98))
    × (within_budget wanted flat ≡ false
        → (26 ≤ score_request wanted flat) × (score_request wanted flat ≤ 73))
score_request_bounds_example = score_request_bounds wanted flat (omega arith) (omega arith)

-- No embedding has been made yet.
abbrev pub unembedded : TenantRequest → Property → Option Similarity
unembedded r p = none
