-- ===== src/Tests/TenantOffers.antt =====
-- Offers on the flat of the small shop.
use propmatch_backend.Prelude.{
  ◌≡◌, refl, none, some, [], ◌∷◌, Bool, false, find?, count_where, ◌==◌, arith,
}
use propmatch_backend.Store.{
  TenantOffer, TenantOfferStatus, MatchConnection, ConnectionStatus, Db, ok, err,
}
use propmatch_backend.TenantOffers.{
  has_id, is_available, is_open_offer, new_offer, set_status, create, to_tenant, settle_as_match,
  landlord_accept,
}
use propmatch_backend.TenantOffers.Moves.{
  accept_by_owner, decline, is_allowed, perform, refusal, own_offer, perform_refused,
}
use propmatch_backend.TenantOffers.Settled.{Connects, accept_open, settle_as_match-Connects}
use propmatch_backend.TenantOffers.Market.{IsMarketDb, undisturbed}
use propmatch_backend.TenantOffers.Steps.{stays, offers, moves, Reaches-IsMarket}
use propmatch_backend.Tests.Shop.{shop}

abbrev offered : Db
offered = (create 9 11 "may I see it" 4000 shop).1

abbrev the_offer : TenantOffer
the_offer = new_offer 100 9 11 7 "may I see it" 4000

offered-stored : find? (has_id 100) offered.tenant_offers ≡ some the_offer
unfolding create
offered-stored = refl

abbrev matched : Db
matched = (settle_as_match undisturbed 100 4000 to_tenant offered).1

abbrev the_connection : MatchConnection
the_connection = record {
  id = 101;
  tenant_id = 9;
  property_id = 11;
  owner_id = 7;
  tenant_request_id = none;
  match_score = 100;
  agreement_reached_at = none;
  status = ConnectionStatus.connected;
}

accepts : settle_as_match undisturbed 100 4000 to_tenant offered ≡ (ok the_connection, matched)
unfolding settle_as_match create
accepts = refl

settle_as_match-Connects_example :
    (count_where (is_open_offer 100) offered.tenant_offers ≡ 1)
    × (matched.tenant_offers ≡ (accept_open 100 offered).tenant_offers)
    × (count_where (is_open_offer 100) matched.tenant_offers ≡ 0)
    × Connects the_offer the_connection matched
settle_as_match-Connects_example =
    settle_as_match-Connects undisturbed 100 4000 to_tenant offered matched the_offer the_connection
      offered-stored accepts

-- The owner's acceptance, and a withdrawal in between.
abbrev withdrawn : Db → Db
withdrawn db = record db { tenant_offers = set_status TenantOfferStatus.withdrawn the_offer ∷ [] }

offered_available : is_available (find? (λ p. p.id == 11) offered.properties) ≡ Bool.true
unfolding create
offered_available = refl

-- Another landlord's attempt.
not_owner : is_allowed decline (own_offer decline 8 100 offered) ≡ false
unfolding create
not_owner = refl

perform_refused_example :
    perform decline undisturbed undisturbed 8 100 offered
    ≡ (err (refusal decline (own_offer decline 8 100 offered)), offered)
perform_refused_example = perform_refused decline undisturbed undisturbed 8 100 offered not_owner

-- The owner accepts in one window and declines in another.
abbrev accepting : Db → Db
accepting db = (landlord_accept undisturbed undisturbed 7 100 db).1

abbrev accepted_offer : TenantOffer
accepted_offer = set_status TenantOfferStatus.accepted the_offer

own_open : own_offer decline 7 100 offered ≡ some the_offer
unfolding create
own_open = refl

accepted_meanwhile : find? (has_id 100) (accepting offered).tenant_offers ≡ some accepted_offer
unfolding create landlord_accept
accepted_meanwhile = refl

shop-IsMarket : IsMarketDb shop
shop-IsMarket = record {
  keyed = λ id. ground arith;
  used = tt;
  single = λ tenant property. ground arith;
}

Reaches-IsMarket_example :
    IsMarketDb (perform accept_by_owner undisturbed undisturbed 7 100 offered).1
Reaches-IsMarket_example =
    Reaches-IsMarket shop (perform accept_by_owner undisturbed undisturbed 7 100 offered).1
      shop-IsMarket
      (moves accept_by_owner 7 100 offered (offers 9 11 "may I see it" 4000 shop stays))
