-- ===== src/TenantOffers.antt =====
-- src/tenant-offers/tenant-offers.service.ts: a tenant's priced offer on a listing. A handler reads
-- the offer, tests its state and writes later; `others` is what other requests commit in between.
-- Offers are never deleted, so an `update` of an offer that was read finds its row.
pub mod Moves
pub mod Settled
pub mod Market
pub mod Steps
use propmatch_backend.Prelude.{
  ℕ, ◌+◌, String, Option, none, some, List, [], ◌∷◌, ◌++◌, Bool, true, false, not, ◌&&◌, ◌||◌, ◌==◌,
  if◌then◌else◌, is_some, or_else, find?, update_where, count_where,
}
use propmatch_backend.Store.{
  Property, PropertyStatus, property_code, TenantOffer, TenantOfferStatus, MatchConnection,
  ConnectionStatus, NotificationType, Notice, Counter, tenant_offers, matches, Db, Action, pure,
  gets, or_throw, throw_if, modify, transaction, ◌>>=◌, ◌>>◌, not_found, forbidden, conflict,
  internal,
}

abbrev pub offer_code : TenantOfferStatus → ℕ
offer_code TenantOfferStatus.pending = 0
offer_code TenantOfferStatus.countered = 1
offer_code TenantOfferStatus.accepted = 2
offer_code TenantOfferStatus.declined = 3
offer_code TenantOfferStatus.withdrawn = 4

abbrev pub is_pending : TenantOfferStatus → Bool
is_pending s = offer_code s == 0

abbrev pub is_countered : TenantOfferStatus → Bool
is_countered s = offer_code s == 1

-- `{ in: ['PENDING', 'COUNTERED'] }`
abbrev pub is_open : TenantOfferStatus → Bool
is_open s = is_pending s || is_countered s

abbrev pub has_id : ℕ → TenantOffer → Bool
has_id id o = o.id == id

-- The tenant's open offers on a property.
abbrev pub is_active : ℕ → ℕ → TenantOffer → Bool
is_active tenant property o =
    (o.tenant_id == tenant && o.property_id == property) && is_open o.status

-- `RealtimeService.notifyUser`
abbrev pub notify_user : Notice → Action (Unit {0})
notify_user n = modify (λ db. record db { notices = db.notices ++ n ∷ [] })

-- `PropertyAnalyticsService.recordCounter`
abbrev pub record_counter : Counter → Action (Unit {0})
record_counter c = modify (λ db. record db { counters = db.counters ++ c ∷ [] })

abbrev pub new_offer : ℕ → ℕ → ℕ → ℕ → String → ℕ → TenantOffer
new_offer id tenant property_id owner_id message price = record {
  id = id;
  tenant_id = tenant;
  property_id = property_id;
  owner_id = owner_id;
  message = message;
  proposed_price = price;
  counter_price = none;
  counter_message = none;
  status = TenantOfferStatus.pending;
}

-- `tenantOffer.create`
unfoldable pub insert_offer : ℕ → ℕ → ℕ → String → ℕ → Action TenantOffer
insert_offer tenant property_id owner_id message price = do
  id ← gets (λ db. db.next_id)
  let offer = new_offer id tenant property_id owner_id message price
  modify
      (λ db. record db { tenant_offers = db.tenant_offers ++ offer ∷ []; next_id = db.next_id + 1 })
  pure offer

-- `create`
unfoldable pub create : ℕ → ℕ → String → ℕ → Action TenantOffer
unfolding insert_offer
create tenant property_id message price = do
  found ← gets (λ db. find? (λ p. p.id == property_id) db.properties)
  property ← or_throw found (not_found "the property of the offer does not exist")
  throw_if (not (property_code property.status == 1)) (forbidden "the property is not available")
  throw_if (property.owner_id == tenant) (forbidden "an offer on one's own property")
  active ← gets (λ db. find? (is_active tenant property_id) db.tenant_offers)
  throw_if (is_some active) (conflict "there is an open offer on this property")
  offer ← insert_offer tenant property_id property.owner_id message price
  record_counter (tenant_offers property_id)
  notify_user (record {
    user_id = property.owner_id;
    type = NotificationType.new_offer_received;
    title = "a new offer on your property";
    link = "/landlord/offers?tab=received";
    price = some price;
  })
  pure offer

-- The party that a handler acts for, the `scope` of `requireOffer`.
pub data Scope : Type 0 where
  owner tenant : ℕ → Scope

abbrev pub in_scope : Scope → TenantOffer → Bool
in_scope (owner user) o = o.owner_id == user
in_scope (tenant user) o = o.tenant_id == user

-- `requireOffer`
unfoldable pub require_offer : ℕ → Scope → Action TenantOffer
require_offer id scope = do
  found ← gets (λ db. find? (λ o. has_id id o && in_scope scope o) db.tenant_offers)
  or_throw found (not_found "no such offer, or it is another's")

-- `tenantOffer.update({ where: { id } })`
abbrev pub update_offer : ℕ → (TenantOffer → TenantOffer) → Action (Unit {0})
update_offer id f =
    modify (λ db. record db { tenant_offers = update_where (has_id id) f db.tenant_offers })

abbrev pub set_status : TenantOfferStatus → TenantOffer → TenantOffer
set_status s o = record o { status = s }

abbrev pub set_counter : ℕ → Option String → TenantOffer → TenantOffer
set_counter price message o = record o {
  status = TenantOfferStatus.countered;
  counter_price = some price;
  counter_message = message;
}

-- `landlordDecline`
unfoldable pub landlord_decline : (Db → Db) → ℕ → ℕ → Action (Unit {0})
unfolding require_offer
landlord_decline others user id = do
  offer ← require_offer id (owner user)
  throw_if (not (is_open offer.status)) (conflict "the offer cannot be declined in this state")
  modify others
  update_offer id (set_status TenantOfferStatus.declined)
  notify_user (record {
    user_id = offer.tenant_id;
    type = NotificationType.new_offer_received;
    title = "your offer was declined";
    link = "/tenant/offers?tab=sent";
    price = none;
  })

-- `landlordCounter`
unfoldable pub landlord_counter : (Db → Db) → ℕ → ℕ → ℕ → Option String → Action (Unit {0})
unfolding require_offer
landlord_counter others user id price message = do
  offer ← require_offer id (owner user)
  throw_if (not (is_pending offer.status)) (conflict "no counter-offer in this state")
  modify others
  update_offer id (set_counter price message)
  notify_user (record {
    user_id = offer.tenant_id;
    type = NotificationType.new_offer_received;
    title = "the owner made a counter-offer";
    link = "/tenant/offers?tab=sent";
    price = some price;
  })

-- `tenantWithdraw`
unfoldable pub tenant_withdraw : (Db → Db) → ℕ → ℕ → Action (Unit {0})
unfolding require_offer
tenant_withdraw others user id = do
  offer ← require_offer id (tenant user)
  throw_if (not (is_open offer.status)) (conflict "the offer cannot be withdrawn in this state")
  modify others
  update_offer id (set_status TenantOfferStatus.withdrawn)
  notify_user (record {
    user_id = offer.owner_id;
    type = NotificationType.new_offer_received;
    title = "a tenant withdrew an offer";
    link = "/landlord/offers?tab=received";
    price = none;
  })

-- `{ id: offerId, status: { in: ['PENDING', 'COUNTERED'] } }`
abbrev pub is_open_offer : ℕ → TenantOffer → Bool
is_open_offer id o = has_id id o && is_open o.status

-- A connection of the same parties on the same property that no request led to.
abbrev pub is_reusable : TenantOffer → MatchConnection → Bool
is_reusable o c =
    (c.tenant_id == o.tenant_id && c.property_id == o.property_id)
    && (c.owner_id == o.owner_id && not (is_some c.tenant_request_id))

abbrev pub connect : MatchConnection → MatchConnection
connect c = record c { status = ConnectionStatus.connected }

abbrev pub new_connection : ℕ → TenantOffer → MatchConnection
new_connection id o = record {
  id = id;
  tenant_id = o.tenant_id;
  property_id = o.property_id;
  owner_id = o.owner_id;
  tenant_request_id = none;
  match_score = 100;
  status = ConnectionStatus.connected;
  agreement_reached_at = none;
}

-- An existing connection is reused, and one is made where there is none.
unfoldable pub connect_parties : TenantOffer → Option MatchConnection → Action MatchConnection
connect_parties o (some c) = do
  modify (λ db. record db { connections = update_where (λ x. x.id == c.id) connect db.connections })
  pure (connect c)
connect_parties o none = do
  id ← gets (λ db. db.next_id)
  modify (λ db. record db {
    connections = db.connections ++ new_connection id o ∷ [];
    next_id = db.next_id + 1;
  })
  pure (new_connection id o)

-- The callback of the transaction in `settleAsMatch`.
unfoldable pub claim_offer : ℕ → TenantOffer → Action MatchConnection
unfolding connect_parties
claim_offer id o = do
  count ← gets (λ db. count_where (is_open_offer id) db.tenant_offers)
  modify (λ db. record db {
    tenant_offers =
        update_where (is_open_offer id) (set_status TenantOfferStatus.accepted) db.tenant_offers;
  })
  throw_if (not (count == 1)) (conflict "the offer can no longer be accepted")
  existing ← gets (λ db. find? (is_reusable o) db.connections)
  connect_parties o existing

abbrev pub is_available : Option Property → Bool
is_available none = false
is_available (some p) = property_code p.status == 1

-- Whom an acceptance is told: the other party.
pub data Side : Type 0 where
  to_tenant to_owner : Side

abbrev pub accepted_notice : Side → TenantOffer → ℕ → Notice
accepted_notice to_tenant o price = record {
  user_id = o.tenant_id;
  type = NotificationType.new_match;
  title = "the offer was accepted";
  link = "/tenant/offers?tab=sent";
  price = some price;
}
accepted_notice to_owner o price = record {
  user_id = o.owner_id;
  type = NotificationType.new_match;
  title = "the offer was accepted";
  link = "/landlord/offers?tab=received";
  price = some price;
}

-- `settleAsMatch`: the connection that is made; the agreed price is quoted in the notice.
unfoldable pub settle_as_match : (Db → Db) → ℕ → ℕ → Side → Action MatchConnection
unfolding claim_offer
settle_as_match others id price side = do
  found ← gets (λ db. find? (has_id id) db.tenant_offers)
  offer ← or_throw found (internal "no offer")
  property ← gets (λ db. find? (λ p. p.id == offer.property_id) db.properties)
  throw_if (not (is_available property)) (forbidden "the property is no longer available")
  modify others
  connection ← transaction (claim_offer id offer)
  record_counter (matches offer.property_id)
  notify_user (accepted_notice side offer price)
  pure connection

-- `landlordAccept`; `before` is what others commit before the offer is read again.
unfoldable pub landlord_accept : (Db → Db) → (Db → Db) → ℕ → ℕ → Action MatchConnection
unfolding require_offer settle_as_match
landlord_accept before others user id = do
  offer ← require_offer id (owner user)
  throw_if (not (is_pending offer.status)) (conflict "the offer cannot be accepted in this state")
  modify before
  settle_as_match others offer.id offer.proposed_price to_tenant

-- `tenantAccept`
unfoldable pub tenant_accept : (Db → Db) → (Db → Db) → ℕ → ℕ → Action MatchConnection
unfolding require_offer settle_as_match
tenant_accept before others user id = do
  offer ← require_offer id (tenant user)
  throw_if (not (is_countered offer.status)) (conflict "there is no counter-offer to accept")
  modify before
  settle_as_match others offer.id (or_else offer.counter_price offer.proposed_price) to_owner
