-- ===== src/Tests/Quota.antt =====
-- The period, the consumption of offers and the plan's boosts, on the small shop.
use propmatch_backend.Prelude.{
  ℕ, ◌+◌, ◌-◌, ◌⊎◌, ◌*◌, ◌≤◌, ◌<◌, ◌≡◌, refl, some, [], ◌∷◌, count_where, arith,
}
use propmatch_backend.Calendar.{day_ms}
use propmatch_backend.Catalog.{free}
use propmatch_backend.Store.{
  UserQuota, Db, Action, ok, err, pure, throw, conflict, forbidden, find_quota,
}
use propmatch_backend.Config.{get_plan_allowances}
use propmatch_backend.Quota.Period.{ensure_current_period}
use propmatch_backend.Quota.Period.Current.{
  IsCurrent, EndsBy, ensure_current_period_lem, refresh_lem,
}
use propmatch_backend.Quota.Consumption.{offer, consume_with_client, with_consumed_offer}
use propmatch_backend.Quota.Consumption.Totals.{
  IsKeyed, IsLeft, available, taken_from, consume_with_client_lem,
}
use propmatch_backend.Quota.Consumption.Order.{FromGrant, FromPlan, consume_with_client_order}
use propmatch_backend.Quota.Capacity.{Capacity, is_active_unit, get_listing_capacity, enforce_for}
use propmatch_backend.Quota.Capacity.Enforced.{enforce_for_enough}
use propmatch_backend.Quota.Boosts.{activate_plan_boost}
use propmatch_backend.Tests.Shop.{now, shop, free_quota, premium_quota, flat}

shop-IsKeyed : IsKeyed 7 shop
shop-IsKeyed = record { one_quota = refl; distinct = (((λ e. ground arith), tt), (tt, tt)) }

six_offers : available now 7 offer free_quota shop ≡ 6
six_offers = refl

consume_with_client_lem_example :
    ((consume_with_client now 7 offer shop).0
      ≡ ok (taken_from (available now 7 offer free_quota shop)))
    × IsLeft now 7 offer
        (available now 7 offer free_quota shop - 1)
        (consume_with_client now 7 offer shop).1
consume_with_client_lem_example =
    consume_with_client_lem now 7 offer free_quota shop shop-IsKeyed refl

consume_with_client_order_example :
    FromGrant now 7 offer free_quota shop (consume_with_client now 7 offer shop).1
    ⊎ FromPlan now 7 offer free_quota shop (consume_with_client now 7 offer shop).1
consume_with_client_order_example = consume_with_client_order now 7 offer free_quota shop refl

-- A write that is refused.
abbrev refused : Action ℕ
refused = throw (conflict "already offered")

shop-ensured : ensure_current_period now 7 shop ≡ (ok free_quota, shop)
unfolding ensure_current_period
shop-ensured = refl

refused_offer : with_consumed_offer now 7 refused shop ≡ (err (conflict "already offered"), shop)
unfolding with_consumed_offer
refused_offer = refl

abbrev spent_quota : UserQuota
spent_quota = record free_quota { free_offers_left = 0 }

-- The shop with no offer left.
abbrev spent_shop : Db
spent_shop = record shop { quotas = spent_quota ∷ []; grants = [] }

spent_shop-IsKeyed : IsKeyed 7 spent_shop
spent_shop-IsKeyed = record { one_quota = refl; distinct = tt }

spent_shop-ensured : ensure_current_period now 7 spent_shop ≡ (ok spent_quota, spent_shop)
unfolding ensure_current_period
spent_shop-ensured = refl

offers_one :
    with_consumed_offer {T = ℕ} now 7 (pure 9) shop
    ≡ (ok (9, 5), (with_consumed_offer {T = ℕ} now 7 (pure 9) shop).1)
unfolding with_consumed_offer
offers_one = refl

ensure_current_period_lem_example :
    (q : UserQuota) × (db' : Db) × (ensure_current_period (61 * day_ms) 7 shop ≡ (ok q, db'))
    × IsCurrent (61 * day_ms) q
    × (find_quota 7 db'.quotas ≡ some q)
    × (ensure_current_period (61 * day_ms) 7 db' ≡ (ok q, db'))
ensure_current_period_lem_example = ensure_current_period_lem (61 * day_ms) 7 shop

abbrev expired_shop : Db
expired_shop = record shop { quotas = premium_quota ∷ [] }

refresh_lem_example :
    let allowances = get_plan_allowances free expired_shop in
    (q : UserQuota) × (db' : Db) × (ends : ℕ) × (ensure_current_period (50 * day_ms) 7 expired_shop
      ≡ (ok q, db'))
    × (q.plan_type ≡ free)
    × (q.free_offers_left ≡ allowances.offers)
    × (q.optimizer_uses_left ≡ allowances.ai_uses)
    × (q.boost_credits_left ≡ allowances.boost_credits)
    × (q.max_active_listings ≡ allowances.active_listings)
    × (q.current_period_starts_at ≡ some (50 * day_ms))
    × (q.current_period_ends_at ≡ some ends)
    × (50 * day_ms < ends)
    × (ends ≤ 50 * day_ms + 31 * day_ms)
    × EndsBy ends q.plan_type q.plan_expires_at
refresh_lem_example = refresh_lem (50 * day_ms) 7 expired_shop premium_quota refl refl

abbrev boosted : Db
boosted = (activate_plan_boost now 7 11 shop).1

boosts_flat : activate_plan_boost now 7 11 shop ≡ (ok (100, 0), boosted)
unfolding activate_plan_boost get_plan_allowances
boosts_flat = refl

refuses_other :
    activate_plan_boost now 7 12 shop
    ≡ (err (forbidden "property is not eligible for a boost"), shop)
unfolding activate_plan_boost get_plan_allowances
refuses_other = refl

-- Two active listings, of which the free plan allows one, and no grace left.
abbrev crowded : Db
crowded = record shop {
  quotas = record free_quota { listing_grace_ends_at = some 0 } ∷ [];
  properties = flat ∷ record flat { id = 12; created_at = 5 } ∷ [];
}

abbrev crowd : Capacity
crowd = record {
  plan_type = free;
  active_unit_limit = 1;
  active_unit_count = 2;
  listing_grace_ends_at = some 0;
}

crowd-counted : get_listing_capacity now 7 crowded ≡ (ok crowd, crowded)
unfolding get_listing_capacity
crowd-counted = refl

enforce_for_enough_example :
    (db' : Db) × (enforce_for now 7 crowded ≡ (ok tt, db'))
    × (count_where (is_active_unit 7) db'.properties ≤ 1)
enforce_for_enough_example = enforce_for_enough now 7 crowded crowded crowd crowd-counted refl
