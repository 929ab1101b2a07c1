-- ===== src/Offers.antt =====
-- src/offers/offers.service.ts: a landlord's offer on an approved tenant request, paid with one unit
-- of the offer quota. A handler reads the offer, tests its state and writes later; `others` is what
-- other requests commit in between.
pub mod Created
pub mod Accepted
pub mod Closing
pub mod Score
pub mod Inbox
pub mod Listed
use propmatch_backend.Prelude.{
  ℕ, ◌+◌, String, Option, none, some, List, [], ◌∷◌, ◌++◌, Bool, true, false, not, ◌&&◌, ◌||◌, ◌==◌,
  if◌then◌else◌, is_some, find?, update_where, count_where,
}
use propmatch_backend.Store.{
  User, Property, property_code, TenantRequest, TenantRequestStatus, OwnerOffer, OwnerOfferStatus,
  MatchConnection, ConnectionStatus, NotificationType, Notice, owner_offers, matches, Db, Action,
  pure, gets, or_throw, throw_if, modify, transaction, when, ◌>>=◌, ◌>>◌, not_found, forbidden,
  conflict, internal,
}
use propmatch_backend.TenantOffers.{notify_user, record_counter}
use propmatch_backend.Quota.Consumption.{with_consumed_offer}

abbrev pub request_code : TenantRequestStatus → ℕ
request_code TenantRequestStatus.pending = 0
request_code TenantRequestStatus.approved = 1
request_code TenantRequestStatus.rejected = 2
request_code TenantRequestStatus.fulfilled = 3
request_code TenantRequestStatus.closed = 4
request_code TenantRequestStatus.archived = 5

abbrev pub offer_code : OwnerOfferStatus → ℕ
offer_code OwnerOfferStatus.sent = 0
offer_code OwnerOfferStatus.viewed = 1
offer_code OwnerOfferStatus.accepted = 2
offer_code OwnerOfferStatus.rejected = 3

-- `{ in: ['SENT', 'VIEWED'] }`
abbrev pub is_open : OwnerOfferStatus → Bool
is_open s = offer_code s == 0 || offer_code s == 1

abbrev pub is_accepted : OwnerOfferStatus → Bool
is_accepted s = offer_code s == 2

abbrev pub has_id : ℕ → OwnerOffer → Bool
has_id id o = o.id == id

abbrev pub has_request_id : ℕ → TenantRequest → Bool
has_request_id id r = r.id == id

-- `{ id, status: 'APPROVED' }`
abbrev pub is_active_request : ℕ → TenantRequest → Bool
is_active_request id r = has_request_id id r && request_code r.status == 1

-- `CreateOfferDto`
pub record CreateOffer : Type 0 where
  pub tenant_request_id : ℕ
  pub property_id : ℕ
  pub pitch_message : String
  pub proposed_price : ℕ

abbrev pub new_offer : ℕ → ℕ → ℕ → CreateOffer → OwnerOffer
new_offer id now user dto = record {
  id = id;
  owner_id = user;
  tenant_request_id = dto.tenant_request_id;
  property_id = dto.property_id;
  pitch_message = dto.pitch_message;
  proposed_price = dto.proposed_price;
  status = OwnerOfferStatus.sent;
  created_at = now;
}

-- `ownerOffer.create`
unfoldable pub insert_offer : ℕ → ℕ → CreateOffer → Action OwnerOffer
insert_offer now user dto = do
  id ← gets (λ db. db.next_id)
  let offer = new_offer id now user dto
  modify
      (λ db. record db { owner_offers = db.owner_offers ++ offer ∷ []; next_id = db.next_id + 1 })
  pure offer

-- What the landlord is told of a sent offer.
pub record SentOffer : Type 0 where
  pub id : ℕ
  pub status : OwnerOfferStatus
  pub free_offers_left : ℕ

abbrev pub is_sent_by : ℕ → ℕ → OwnerOffer → Bool
is_sent_by user request o = o.tenant_request_id == request && o.owner_id == user

-- The guards of `createOffer`, which return the request.
unfoldable pub check_offer : ℕ → CreateOffer → Action TenantRequest
check_offer user dto = do
  found ← gets (λ db. find? (is_active_request dto.tenant_request_id) db.requests)
  request ← or_throw found (not_found "the request is not available")
  own ← gets (λ db. find? (λ p. p.id == dto.property_id && p.owner_id == user) db.properties)
  property ← or_throw own (not_found "no such property, or it is another's")
  throw_if (not (property_code property.status == 1)) (forbidden "the property is not approved")
  existing ← gets (λ db. find? (is_sent_by user dto.tenant_request_id) db.owner_offers)
  throw_if (is_some existing) (conflict "there is an offer on this request already")
  pure request

-- What follows the commit of the offer.
unfoldable pub announce_offer : TenantRequest → OwnerOffer → ℕ → Action SentOffer
announce_offer request offer left = do
  record_counter (owner_offers offer.property_id)
  notify_user (record {
    user_id = request.tenant_id;
    type = NotificationType.new_offer_received;
    title = "a new offer on your request";
    link = "/tenant/offers";
    price = none;
  })
  pure (record { id = offer.id; status = offer.status; free_offers_left = left })

-- `createOffer`
unfoldable pub create_offer : (Db → Db) → ℕ → ℕ → CreateOffer → Action SentOffer
unfolding check_offer insert_offer with_consumed_offer announce_offer
create_offer others now user dto = do
  request ← check_offer user dto
  modify others
  consumed ← with_consumed_offer now user (insert_offer now user dto)
  announce_offer request consumed.0 consumed.1

-- `{ id: offerId, tenantRequest: { tenantId } }`
abbrev pub is_for_tenant : ℕ → List TenantRequest → OwnerOffer → Bool
is_for_tenant tenant requests o =
    is_some (find? (λ r. has_request_id o.tenant_request_id r && r.tenant_id == tenant) requests)

abbrev pub own_offer : ℕ → ℕ → Db → Option OwnerOffer
own_offer tenant id db =
    find? (λ o. has_id id o && is_for_tenant tenant db.requests o) db.owner_offers

-- `findOwnedOffer`
unfoldable pub find_owned_offer : ℕ → ℕ → Action OwnerOffer
find_owned_offer tenant id = do
  found ← gets (own_offer tenant id)
  or_throw found (not_found "no such offer, or it is not for this tenant")

abbrev pub set_status : OwnerOfferStatus → OwnerOffer → OwnerOffer
set_status s o = record o { status = s }

abbrev pub owner_notice : OwnerOffer → NotificationType → String → Notice
owner_notice o type title = record {
  user_id = o.owner_id;
  type = type;
  title = title;
  link = "/landlord/offers";
  price = none;
}

-- The first view of an offer: an update that does not test the state again.
unfoldable pub mark_viewed : (Db → Db) → ℕ → OwnerOffer → Action (Unit {0})
mark_viewed others id o = do
  modify others
  modify (λ db. record db {
    owner_offers = update_where (has_id id) (set_status OwnerOfferStatus.viewed) db.owner_offers;
  })
  notify_user (owner_notice o NotificationType.new_offer_received "your offer was viewed")

-- `viewOffer` on the tenant's offer.
unfoldable pub view_own : (Db → Db) → ℕ → OwnerOffer → Action OwnerOffer
unfolding mark_viewed
view_own others id offer = do
  when (offer_code offer.status == 0) (mark_viewed others id offer)
  updated ← gets (λ db. find? (has_id id) db.owner_offers)
  or_throw updated (internal "no offer")

-- `viewOffer`, the row that it returns; `Offers.Inbox` has the projection of it.
unfoldable pub view_offer : (Db → Db) → ℕ → ℕ → Action OwnerOffer
unfolding find_owned_offer view_own
view_offer others tenant id = do offer ← find_owned_offer tenant id; view_own others id offer

-- `{ id: offerId, status: { in: ['SENT', 'VIEWED'] } }`
abbrev pub is_open_offer : ℕ → OwnerOffer → Bool
is_open_offer id o = has_id id o && is_open o.status

abbrev pub new_connection : ℕ → ℕ → OwnerOffer → ℕ → MatchConnection
new_connection id tenant o score = record {
  id = id;
  tenant_id = tenant;
  property_id = o.property_id;
  owner_id = o.owner_id;
  tenant_request_id = some o.tenant_request_id;
  match_score = score;
  status = ConnectionStatus.connected;
  agreement_reached_at = none;
}

-- The guarded update of an open offer; whether it changed exactly one row.
unfoldable pub close_offer : ℕ → OwnerOfferStatus → Action Bool
close_offer id status = do
  count ← gets (λ db. count_where (is_open_offer id) db.owner_offers)
  modify (λ db. record db {
    owner_offers = update_where (is_open_offer id) (set_status status) db.owner_offers;
  })
  pure (count == 1)

-- `matchConnection.create`
unfoldable pub insert_connection : ℕ → OwnerOffer → ℕ → Action MatchConnection
insert_connection tenant o score = do
  id ← gets (λ db. db.next_id)
  let connection = new_connection id tenant o score
  modify (λ db. record db {
    connections = db.connections ++ connection ∷ [];
    next_id = db.next_id + 1;
  })
  pure connection

-- The callback of the transaction in `acceptOffer`.
unfoldable pub claim_offer : ℕ → ℕ → OwnerOffer → ℕ → Action MatchConnection
unfolding close_offer insert_connection
claim_offer tenant id o score = do
  active ← gets (λ db. find? (is_active_request o.tenant_request_id) db.requests)
  throw_if (not (is_some active)) (conflict "the request is no longer available")
  closed ← close_offer id OwnerOfferStatus.accepted
  throw_if (not closed) (conflict "the offer cannot be accepted in its current state")
  insert_connection tenant o score

-- What `acceptOffer` reads before it writes.
pub record Acceptance : Type 0 where
  pub offer : OwnerOffer
  pub property : Property
  pub request : TenantRequest
  pub owner : User

abbrev pub is_available : Option Property → Bool
is_available none = false
is_available (some p) = property_code p.status == 1

-- The reads of `acceptOffer` behind the offer.
unfoldable pub check_parties : OwnerOffer → Action Acceptance
check_parties offer = do
  found ← gets (λ db. find? (λ p. p.id == offer.property_id) db.properties)
  throw_if (not (is_available found)) (forbidden "the property is no longer available")
  property ← or_throw found (forbidden "the property is no longer available")
  wanted ← gets (λ db. find? (has_request_id offer.tenant_request_id) db.requests)
  request ← or_throw wanted (internal "no request")
  throw_if (not (request_code request.status == 1)) (conflict "the request is no longer available")
  named ← gets (λ db. find? (λ u. u.id == offer.owner_id) db.users)
  owner ← or_throw named (internal "no owner")
  pure (record { offer = offer; property = property; request = request; owner = owner })

-- The tenant's offer, if it is open.
unfoldable pub find_open_offer : ℕ → ℕ → String → Action OwnerOffer
unfolding find_owned_offer
find_open_offer tenant id refusal = do
  offer ← find_owned_offer tenant id
  throw_if (not (is_open offer.status)) (conflict refusal)
  pure offer

-- The guards of `acceptOffer`.
unfoldable pub check_acceptance : ℕ → ℕ → Action Acceptance
unfolding find_open_offer check_parties
check_acceptance tenant id = do
  offer ← find_open_offer tenant id "the offer cannot be accepted in its current state"
  check_parties offer

-- What follows the commit of the acceptance.
unfoldable pub conclude_acceptance :
    Acceptance → MatchConnection → Action (MatchConnection × Acceptance)
conclude_acceptance a connection = do
  record_counter (matches a.property.id)
  notify_user (owner_notice a.offer NotificationType.new_match "your offer was accepted")
  pure (connection, a)

-- The writes of `acceptOffer`. `score` is `computeHybridMatch`.
unfoldable pub settle_acceptance :
    (TenantRequest → Property → ℕ)
    → (Db → Db)
    → ℕ
    → ℕ
    → Acceptance
    → Action (MatchConnection × Acceptance)
unfolding claim_offer conclude_acceptance
settle_acceptance score others tenant id a = do
  modify others
  connection ← transaction (claim_offer tenant id a.offer (score a.request a.property))
  conclude_acceptance a connection

-- `acceptOffer`: the connection, with the owner and the property whose details are revealed.
unfoldable pub accept_offer :
    (TenantRequest → Property → ℕ) → (Db → Db) → ℕ → ℕ → Action (MatchConnection × Acceptance)
unfolding check_acceptance settle_acceptance
accept_offer score others tenant id = do
  a ← check_acceptance tenant id
  settle_acceptance score others tenant id a

-- The writes of `rejectOffer`.
unfoldable pub settle_rejection : (Db → Db) → ℕ → OwnerOffer → Action (Unit {0})
unfolding close_offer
settle_rejection others id offer = do
  modify others
  closed ← close_offer id OwnerOfferStatus.rejected
  throw_if (not closed) (conflict "the offer cannot be rejected in its current state")
  notify_user (owner_notice offer NotificationType.new_offer_received "your offer was rejected")

-- `rejectOffer`
unfoldable pub reject_offer : (Db → Db) → ℕ → ℕ → Action (Unit {0})
unfolding find_open_offer settle_rejection
reject_offer others tenant id = do
  offer ← find_open_offer tenant id "the offer cannot be rejected in its current state"
  settle_rejection others id offer
