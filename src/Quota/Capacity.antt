-- ===== src/Quota/Capacity.antt =====
-- src/quota/quota.service.ts, the capacity for listings, the quota that a client is shown, and the
-- hourly enforcement.
pub mod Enforced
use propmatch_backend.Prelude.{
  ℕ, ◌+◌, ◌-◌, Option, none, some, List, [], ◌∷◌, map, Bool, ◌&&◌, ◌||◌, ltb, leb, ◌==◌,
  if◌then◌else◌, update_where, count_where, filter_where, sort_desc, take,
}
use propmatch_backend.Calendar.{add_days}
use propmatch_backend.Catalog.{
  Plan, Billing, free, owner_plus, premium, active_listing, matched_offer, ai_optimizer_use,
  listing_capacity_grace_days,
}
use propmatch_backend.Store.{
  UserQuota, Property, PropertyStatus, Action, pure, gets, modify, when, ◌>>=◌, ◌>>◌, property_code,
}
use propmatch_backend.Config.{get_plan_allowances}
use propmatch_backend.Quota.Period.{is_of, has_begun, ensure_current_period}
use propmatch_backend.Quota.Consumption.{active_grant_quantity}

-- `{ ownerId, status: { in: ['PENDING', 'APPROVED'] } }`
abbrev pub is_active_unit : ℕ → Property → Bool
is_active_unit user p =
    p.owner_id == user && (property_code p.status == 0 || property_code p.status == 1)

pub record Capacity : Type 0 where
  pub plan_type : Plan
  pub active_unit_limit : ℕ
  pub active_unit_count : ℕ
  pub listing_grace_ends_at : Option ℕ

-- `userQuota.update({ where: { userId }, data: { listingGraceEndsAt } })`
abbrev pub set_grace : ℕ → Option ℕ → Action (Unit {0})
set_grace user grace = modify (λ db. record db {
  quotas = update_where (is_of user) (λ q. record q { listing_grace_ends_at = grace }) db.quotas;
})

-- The grace begins when the owner is found over the limit, and is taken back when not.
unfoldable pub adjust_grace : ℕ → ℕ → ℕ → ℕ → Option ℕ → Action (Option ℕ)
unfolding add_days
adjust_grace now user count limit none =
    let grace = some (add_days now listing_capacity_grace_days) in
    if ltb limit count then (set_grace user grace >> pure grace) else pure none
adjust_grace now user count limit (some ends) =
    if leb count limit then (set_grace user none >> pure none) else pure (some ends)

-- `getListingCapacity`
unfoldable pub get_listing_capacity : ℕ → ℕ → Action Capacity
unfolding ensure_current_period adjust_grace
get_listing_capacity now user = do
  quota ← ensure_current_period now user
  add_on ← gets (active_grant_quantity now user active_listing)
  let limit = quota.max_active_listings + add_on
  count ← gets (λ db. count_where (is_active_unit user) db.properties)
  grace ← adjust_grace now user count limit quota.listing_grace_ends_at
  pure (record {
    plan_type = quota.plan_type;
    active_unit_limit = limit;
    active_unit_count = count;
    listing_grace_ends_at = grace;
  })

-- What `getQuota` returns; dates are numbers here and ISO text there.
pub record QuotaView : Type 0 where
  pub plan_type : Plan
  pub billing_interval : Option Billing
  pub plan_expires_at : Option ℕ
  pub current_period_starts_at : Option ℕ
  pub current_period_ends_at : Option ℕ
  pub max_active_listings : ℕ
  pub active_unit_count : ℕ
  pub listing_grace_ends_at : Option ℕ
  pub free_listings_left : ℕ
  pub optimizer_uses_left : ℕ
  pub free_offers_left : ℕ
  pub boost_credits_left : ℕ
  pub boost_credit_duration_days : ℕ
  pub last_reset_date : ℕ

-- `getQuota`
unfoldable pub get_quota : ℕ → ℕ → Action QuotaView
unfolding get_listing_capacity
get_quota now user = do
  quota ← ensure_current_period now user
  capacity ← get_listing_capacity now user
  offers ← gets (active_grant_quantity now user matched_offer)
  uses ← gets (active_grant_quantity now user ai_optimizer_use)
  allowances ← gets (get_plan_allowances quota.plan_type)
  pure (record {
    plan_type = quota.plan_type;
    billing_interval = quota.billing_interval;
    plan_expires_at = quota.plan_expires_at;
    current_period_starts_at = quota.current_period_starts_at;
    current_period_ends_at = quota.current_period_ends_at;
    max_active_listings = capacity.active_unit_limit;
    active_unit_count = capacity.active_unit_count;
    listing_grace_ends_at = capacity.listing_grace_ends_at;
    free_listings_left = capacity.active_unit_limit - capacity.active_unit_count;
    optimizer_uses_left = quota.optimizer_uses_left + uses;
    free_offers_left = quota.free_offers_left + offers;
    boost_credits_left = quota.boost_credits_left;
    boost_credit_duration_days = allowances.boost_duration_days;
    last_reset_date = quota.last_reset_date;
  })

abbrev pub contains : ℕ → List ℕ → Bool
contains id [] = Bool.false
contains id (x ∷ xs) = x == id || contains id xs

-- The owner's newest active listings, as many as there are too many.
abbrev pub newest_ids : ℕ → ℕ → List Property → List ℕ
newest_ids user excess properties =
    map (λ p. p.id)
      (take excess (sort_desc (λ p. p.created_at) (filter_where (is_active_unit user) properties)))

unfoldable pub archive_newest : ℕ → ℕ → Action (Unit {0})
archive_newest user excess = modify (λ db.
    let ids = newest_ids user excess db.properties in
    record db {
      properties =
          update_where (λ p. contains p.id ids) (λ p. record p { status = PropertyStatus.archived })
            db.properties;
    })

-- `listingGraceEndsAt && listingGraceEndsAt <= now && activeUnitCount > activeUnitLimit`
abbrev pub is_overdue : ℕ → Capacity → Bool
is_overdue now c =
    has_begun now c.listing_grace_ends_at && ltb c.active_unit_limit c.active_unit_count

-- One round of `expireEntitlementsAndEnforceCapacity`.
unfoldable pub enforce_for : ℕ → ℕ → Action (Unit {0})
unfolding get_listing_capacity archive_newest
enforce_for now user = do
  capacity ← get_listing_capacity now user
  when (is_overdue now capacity) (
      archive_newest user (capacity.active_unit_count - capacity.active_unit_limit)
      >> set_grace user none)

enforce_all : ℕ → List UserQuota → Action (Unit {0})
unfolding enforce_for
enforce_all now [] = pure tt
enforce_all now (q ∷ qs) = enforce_for now q.user_id >> enforce_all now qs

-- `expireEntitlementsAndEnforceCapacity`
unfoldable pub expire_entitlements : ℕ → Action (Unit {0})
unfolding enforce_all
expire_entitlements now = do quotas ← gets (λ db. db.quotas); enforce_all now quotas

pub data Tier : Type 0 where
  freemium owner_plus_tier premium_tier : Tier

abbrev pub tier_of : Plan → Tier × ℕ
tier_of premium = (premium_tier, 2)
tier_of owner_plus = (owner_plus_tier, 1)
tier_of free = (freemium, 0)

-- `getCommercialPriority`
unfoldable pub get_commercial_priority : ℕ → ℕ → Action (Tier × ℕ)
unfolding ensure_current_period
get_commercial_priority now user = do
  quota ← ensure_current_period now user
  pure (tier_of quota.plan_type)
