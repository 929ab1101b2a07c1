-- ===== src/Messages.antt =====
-- src/messages/messages.service.ts: the agreement that ends a match. `others` is what other requests
-- commit between the reads of a handler and its transaction.
pub mod Crypto
pub mod Chat
pub mod Sent
pub mod Edited
pub mod Rows
pub mod Agreement
pub mod Confirmed
use propmatch_backend.Prelude.{
  ℕ, Option, none, some, List, [], ◌∷◌, ◌++◌, Bool, true, false, not, ◌&&◌, ◌||◌, ◌==◌,
  if◌then◌else◌, is_some, find?, update_where, count_where,
}
use propmatch_backend.Store.{
  Property, PropertyStatus, property_code, TenantRequest, TenantRequestStatus, OwnerOffer,
  OwnerOfferStatus, TenantOffer, TenantOfferStatus, MatchConnection, NotificationType, Effect,
  vectors_removed, Db, Action, pure, gets, throw, or_throw, throw_if, modify, transaction, when,
  ◌>>=◌, ◌>>◌, not_found, conflict,
}
use propmatch_backend.TenantOffers as TenantOffers
use propmatch_backend.TenantOffers.{notify_user}
use propmatch_backend.Offers as Offers
use propmatch_backend.Offers.{request_code}
use propmatch_backend.Offers.Inbox.{connection_code}

abbrev pub is_party : ℕ → MatchConnection → Bool
is_party user c = c.tenant_id == user || c.owner_id == user

-- `{ id, status: 'CONNECTED', OR: [{ tenantId }, { ownerId }] }`
abbrev pub is_conversation : ℕ → ℕ → MatchConnection → Bool
is_conversation user id c = c.id == id && connection_code c.status == 1 && is_party user c

-- `connectionFor`
unfoldable pub connection_for : ℕ → ℕ → Action MatchConnection
connection_for user id = do
  found ← gets (λ db. find? (is_conversation user id) db.connections)
  or_throw found (not_found "no such conversation")

-- `connection.tenantRequestId ? connection.tenantId : connection.ownerId`
abbrev pub confirmer : MatchConnection → ℕ
confirmer c = if is_some c.tenant_request_id then c.tenant_id else c.owner_id

-- The other party.
abbrev pub recipient_of : MatchConnection → ℕ → ℕ
recipient_of c user = if c.tenant_id == user then c.owner_id else c.tenant_id

-- `{ id, agreementReachedAt: null }`
abbrev pub is_unconfirmed : ℕ → MatchConnection → Bool
is_unconfirmed id c = c.id == id && not (is_some c.agreement_reached_at)

abbrev pub confirm : ℕ → MatchConnection → MatchConnection
confirm now c = record c { agreement_reached_at = some now }

-- `{ id: tenantRequestId, tenantId, status: 'APPROVED' }`
abbrev pub is_wanted : ℕ → ℕ → TenantRequest → Bool
is_wanted request tenant r =
    r.id == request && (r.tenant_id == tenant && request_code r.status == 1)

abbrev pub fulfil : TenantRequest → TenantRequest
fulfil r = record r { status = TenantRequestStatus.fulfilled }

abbrev pub open_on_request : ℕ → OwnerOffer → Bool
open_on_request request o = o.tenant_request_id == request && Offers.is_open o.status

abbrev pub open_on_property : ℕ → OwnerOffer → Bool
open_on_property property o = o.property_id == property && Offers.is_open o.status

abbrev pub reject : OwnerOffer → OwnerOffer
reject = Offers.set_status OwnerOfferStatus.rejected

abbrev pub listing_offer_open : ℕ → TenantOffer → Bool
listing_offer_open property o = o.property_id == property && TenantOffers.is_open o.status

abbrev pub decline : TenantOffer → TenantOffer
decline = TenantOffers.set_status TenantOfferStatus.declined

abbrev pub is_listed : ℕ → Property → Bool
is_listed id p = p.id == id && not (property_code p.status == 3)

abbrev pub archive : Property → Property
archive p = record p { status = PropertyStatus.archived }

-- The request of the match is fulfilled, and the offers on it are rejected.
unfoldable pub fulfil_request : MatchConnection → Option ℕ → Action (Unit {0})
fulfil_request c none = pure tt
fulfil_request c (some request) = do
  count ← gets (λ db. count_where (is_wanted request c.tenant_id) db.requests)
  modify (λ db. record db {
    requests = update_where (is_wanted request c.tenant_id) fulfil db.requests;
  })
  throw_if (not (count == 1)) (conflict "the request is settled already")
  modify (λ db. record db {
    owner_offers = update_where (open_on_request request) reject db.owner_offers;
  })

-- The offers on the property are closed, and the property is archived.
unfoldable pub close_property : ℕ → Action (Unit {0})
close_property property = modify (λ db. record db {
  owner_offers = update_where (open_on_property property) reject db.owner_offers;
  tenant_offers = update_where (listing_offer_open property) decline db.tenant_offers;
  properties = update_where (is_listed property) archive db.properties;
})

-- The date of the agreement, and whether this request made it.
pub record Confirmation : Type 0 where
  pub reached_at : ℕ
  pub notify : Bool

-- The confirmation that another request has made.
abbrev pub earlier_confirmation : Option MatchConnection → Action Confirmation
earlier_confirmation none = throw (conflict "the confirmation is in conflict")
earlier_confirmation (some c) = do
  at ← or_throw c.agreement_reached_at (conflict "the confirmation is in conflict")
  pure (record { reached_at = at; notify = false })

-- What the first confirmation settles.
unfoldable pub settle_match : ℕ → MatchConnection → Action Confirmation
unfolding fulfil_request close_property
settle_match now c = do
  fulfil_request c c.tenant_request_id
  close_property c.property_id
  pure (record { reached_at = now; notify = true })

abbrev pub settle_if : Bool → ℕ → ℕ → MatchConnection → Action Confirmation
settle_if true now id c = settle_match now c
settle_if false now id c = do
  current ← gets (λ db. find? (λ x. x.id == id) db.connections)
  earlier_confirmation current

-- The callback of the transaction in `confirmAgreement`.
unfoldable pub claim_agreement : ℕ → ℕ → MatchConnection → Action Confirmation
unfolding settle_match
claim_agreement now id c = do
  count ← gets (λ db. count_where (is_unconfirmed id) db.connections)
  modify (λ db. record db {
    connections = update_where (is_unconfirmed id) (confirm now) db.connections;
  })
  settle_if (count == 1) now id c

-- What follows the commit of the first confirmation.
unfoldable pub announce_agreement : ℕ → MatchConnection → Action (Unit {0})
announce_agreement user c = do
  modify (λ db. record db { effects = db.effects ++ vectors_removed c.property_id ∷ [] })
  notify_user (record {
    user_id = if user == c.owner_id then c.tenant_id else c.owner_id;
    type = NotificationType.new_match;
    title = "the agreement was confirmed";
    link = "/landlord/messages";
    price = none;
  })

unfoldable pub conclude_agreement : ℕ → MatchConnection → Confirmation → Action ℕ
unfolding announce_agreement
conclude_agreement user c r = do when r.notify (announce_agreement user c); pure r.reached_at

-- `confirmAgreement` from the test of an earlier agreement on.
unfoldable pub reach_agreement : (Db → Db) → ℕ → ℕ → ℕ → MatchConnection → Option ℕ → Action ℕ
unfolding claim_agreement conclude_agreement
reach_agreement others now user id c (some at) = pure at
reach_agreement others now user id c none = do
  modify others
  confirmation ← transaction (claim_agreement now id c)
  conclude_agreement user c confirmation

-- The guards of `confirmAgreement`.
unfoldable pub check_confirmer : ℕ → ℕ → Action MatchConnection
check_confirmer user id = do
  found ← gets (λ db. find? (is_conversation user id) db.connections)
  connection ← or_throw found (not_found "no such match")
  throw_if (not (user == confirmer connection)) (conflict "only the designated party may confirm")
  pure connection

-- `confirmAgreement`: the date of the agreement.
unfoldable pub confirm_agreement : (Db → Db) → ℕ → ℕ → ℕ → Action ℕ
unfolding check_confirmer reach_agreement
confirm_agreement others now user id = do
  connection ← check_confirmer user id
  reach_agreement others now user id connection connection.agreement_reached_at
