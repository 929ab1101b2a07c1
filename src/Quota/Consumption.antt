-- ===== src/Quota/Consumption.antt =====
-- src/quota/quota.service.ts, the consumption of offers and optimizer uses: one unit at a time, from
-- the plan's counter or from the add-on grant that expires soonest.
pub mod Sums
pub mod Taken
pub mod Totals
pub mod Order
pub mod Atomic
pub mod Frame
use propmatch_backend.Prelude.{
  ℕ, ◌+◌, ◌-◌, Option, none, some, List, Bool, true, false, ◌&&◌, ◌||◌, ltb, leb, ◌==◌,
  if◌then◌else◌, or_else, update_where, count_where, sum_where, first_by,
}
use propmatch_backend.Catalog.{
  EntitlementType, matched_offer, ai_optimizer_use, entitlement_code, offers_10_60d, ai_uses_10_90d,
  BillablePaymentType,
}
use propmatch_backend.Store.{
  UserQuota, EntitlementGrant, Db, Action, pure, gets, throw, modify, transaction, ◌>>=◌, ◌>>◌,
  internal, quota_exhausted, find_quota, or_throw,
}
use propmatch_backend.Config.{get_product}
use propmatch_backend.Quota.Period.{is_of, ensure_current_period}

-- `ConsumableType` with the counter of `UserQuota` that goes with it.
pub data Consumable : Type 0 where
  offer ai_use : Consumable

abbrev pub type_of : Consumable → EntitlementType
type_of offer = matched_offer
type_of ai_use = ai_optimizer_use

-- `quota[quotaField]`
abbrev pub left_of : Consumable → UserQuota → ℕ
left_of offer q = q.free_offers_left
left_of ai_use q = q.optimizer_uses_left

-- `{ [quotaField]: { decrement: 1 } }`
abbrev pub decrement_quota : Consumable → UserQuota → UserQuota
decrement_quota offer q = record q { free_offers_left = q.free_offers_left - 1 }
decrement_quota ai_use q = record q { optimizer_uses_left = q.optimizer_uses_left - 1 }

abbrev pub decrement_grant : EntitlementGrant → EntitlementGrant
decrement_grant g = record g { remaining_quantity = g.remaining_quantity - 1 }

-- A grant of the user and type that has begun, has not expired and is not used up.
abbrev pub is_usable : ℕ → ℕ → EntitlementType → EntitlementGrant → Bool
is_usable now user type g =
    (g.user_id == user && entitlement_code g.type == entitlement_code type)
    && (leb g.starts_at now && (ltb now g.expires_at && ltb 0 g.remaining_quantity))

-- `activeGrantQuantity`
abbrev pub active_grant_quantity : ℕ → ℕ → EntitlementType → Db → ℕ
active_grant_quantity now user type db =
    sum_where (is_usable now user type) (λ g. g.remaining_quantity) db.grants

-- The usable grant that expires soonest.
abbrev pub soonest_grant : ℕ → ℕ → EntitlementType → List EntitlementGrant → Option EntitlementGrant
soonest_grant now user type = first_by (is_usable now user type) (λ g. g.expires_at)

-- `consumeGrantFirst`
abbrev pub takes_grant : ℕ → Consumable → UserQuota → EntitlementGrant → Bool
takes_grant now c q g = left_of c q == 0 || ltb g.expires_at (or_else q.current_period_ends_at now)

-- `{ id: grant.id, remainingQuantity: { gt: 0 } }`
abbrev pub is_open : ℕ → EntitlementGrant → Bool
is_open id g = g.id == id && ltb 0 g.remaining_quantity

-- `{ userId, [quotaField]: { gt: 0 } }`
abbrev pub has_left : ℕ → Consumable → UserQuota → Bool
has_left user c q = is_of user q && ltb 0 (left_of c q)

-- The guarded decrement of a grant; whether it changed exactly one row.
unfoldable pub spend_grant : ℕ → Action Bool
spend_grant id = do
  count ← gets (λ db. count_where (is_open id) db.grants)
  modify (λ db. record db { grants = update_where (is_open id) decrement_grant db.grants })
  pure (count == 1)

-- The guarded decrement of the plan's counter; whether it changed exactly one row.
unfoldable pub spend_quota : ℕ → Consumable → Action Bool
spend_quota user c = do
  count ← gets (λ db. count_where (has_left user c) db.quotas)
  modify (λ db. record db { quotas = update_where (has_left user c) (decrement_quota c) db.quotas })
  pure (count == 1)

abbrev pub spend : ℕ → ℕ → Consumable → UserQuota → Option EntitlementGrant → Action Bool
spend now user c q none = spend_quota user c
spend now user c q (some g) = if takes_grant now c q g then spend_grant g.id else spend_quota user c

-- `userQuota.findUniqueOrThrow`
abbrev pub quota_or_throw : ℕ → Action UserQuota
quota_or_throw user = do
  found ← gets (λ db. find_quota user db.quotas)
  or_throw found (internal "no quota")

-- What is left after a consumption: the counter and the usable grants.
abbrev pub remaining : ℕ → ℕ → Consumable → Bool → Action (Option ℕ)
remaining now user c false = pure none
remaining now user c true = do
  updated ← quota_or_throw user
  grants ← gets (active_grant_quantity now user (type_of c))
  pure (some (left_of c updated + grants))

-- `consumeSoonestExpiringWithClient`; `null` is `none`.
unfoldable pub consume_with_client : ℕ → ℕ → Consumable → Action (Option ℕ)
unfolding spend_grant spend_quota
consume_with_client now user c = do
  quota ← quota_or_throw user
  grant ← gets (λ db. soonest_grant now user (type_of c) db.grants)
  changed ← spend now user c quota grant
  remaining now user c changed

-- `consumeSoonestExpiring`; the -1 of the source is `none`.
unfoldable pub consume_soonest_expiring : ℕ → ℕ → Consumable → Action (Option ℕ)
unfolding consume_with_client ensure_current_period
consume_soonest_expiring now user c = do
  ensure_current_period now user
  transaction (consume_with_client now user c)

-- `quotaExhausted`
abbrev pub throw_exhausted : {A : Type 0} → BillablePaymentType → Action A
throw_exhausted t = do product ← gets (get_product t); throw (quota_exhausted t product.price_egp)

-- The number that is left, or the exception that offers the add-on.
abbrev pub or_exhausted : BillablePaymentType → Option ℕ → Action ℕ
or_exhausted t none = throw_exhausted t
or_exhausted t (some left) = pure left

-- `consumeOptimizer`
unfoldable pub consume_optimizer : ℕ → ℕ → Action ℕ
unfolding consume_soonest_expiring
consume_optimizer now user = do
  left ← consume_soonest_expiring now user ai_use
  or_exhausted ai_uses_10_90d left

-- `consumeOffer`
unfoldable pub consume_offer : ℕ → ℕ → Action ℕ
unfolding consume_soonest_expiring
consume_offer now user = do
  left ← consume_soonest_expiring now user offer
  or_exhausted offers_10_60d left

-- `withConsumedOffer`: an offer and the caller's writes, in one transaction.
unfoldable pub with_consumed_offer : {T : Type 0} → ℕ → ℕ → Action T → Action (T × ℕ)
unfolding consume_with_client ensure_current_period
with_consumed_offer now user operation = do
  ensure_current_period now user
  transaction (do
    left ← consume_with_client now user offer
    remaining ← or_exhausted offers_10_60d left
    value ← operation
    pure (value, remaining))
