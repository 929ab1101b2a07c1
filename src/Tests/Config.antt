-- ===== src/Tests/Config.antt =====
-- An administrator's changes, on the small shop.
use Prim.Native.Nat.{min}
use propmatch_backend.Prelude.{◌+◌, ◌-◌, ◌≡◌, ◌≢◌, refl, none, some, true, arith}
use propmatch_backend.Catalog.{free, premium, PlanAllowances, offers_10_60d, boost_7d}
use propmatch_backend.Store.{UserQuota, find_quota, Db, ResolvedProduct, ok, err, bad_request}
use propmatch_backend.Config.{
  ProductDto, get_product, get_plan_allowances, update_product, update_plan,
}
use propmatch_backend.Config.Products.{get_product-update_product}
use propmatch_backend.Config.Plans.{update_plan-keeps_use}
use propmatch_backend.Tests.Shop.{shop, free_quota}

abbrev dearer_offers : ProductDto
dearer_offers = record {
  price_egp = 59;
  enabled = true;
  quantity = some 12;
  validity_days = some 30;
  duration_days = none;
}

abbrev dearer_shop : Db
dearer_shop = (update_product 1 (some offers_10_60d) dearer_offers shop).1

abbrev dearer : ResolvedProduct
dearer = get_product offers_10_60d dearer_shop

changes_offers : update_product 1 (some offers_10_60d) dearer_offers shop ≡ (ok dearer, dearer_shop)
unfolding update_product
changes_offers = refl

get_product-update_product_example :
    (get_product offers_10_60d dearer_shop ≡ dearer)
    × (dearer.price_egp ≡ 59)
    × (dearer.enabled ≡ true)
    × (dearer.quantity ≡ some 12)
    × (dearer.validity_days ≡ some 30)
    × (dearer.duration_days ≡ none)
get_product-update_product_example =
    get_product-update_product 1 offers_10_60d dearer_offers shop dearer_shop dearer changes_offers

boost_without_duration :
    update_product 1 (some boost_7d) dearer_offers shop
    ≡ (err (bad_request "Duration is required for boost products"), shop)
unfolding update_product
boost_without_duration = refl

abbrev generous : PlanAllowances
generous = record {
  active_listings = 2;
  offers = 8;
  ai_uses = 4;
  boost_credits = 1;
  boost_duration_days = 5;
}

abbrev generous_shop : Db
generous_shop = (update_plan 1 (some free) generous shop).1

-- Four of five offers were used, so four of the eight are left.
update_plan-keeps_use_example :
    let previous = get_plan_allowances free shop in
    (q' : UserQuota) × (find_quota 7 generous_shop.quotas ≡ some q')
    × (get_plan_allowances free generous_shop ≡ generous)
    × (q'.max_active_listings ≡ 2)
    × (q'.free_offers_left + min (previous.offers - 1) 8 ≡ 8)
    × (q'.optimizer_uses_left + min (previous.ai_uses - 5) 4 ≡ 4)
    × (q'.boost_credits_left + min (previous.boost_credits - 1) 1 ≡ 1)
    × (q'.plan_type ≡ free)
    × (q'.plan_expires_at ≡ none)
    × (q'.current_period_ends_at ≡ free_quota.current_period_ends_at)
update_plan-keeps_use_example = update_plan-keeps_use 1 free generous shop 7 free_quota refl refl

free-unpaid : free ≢ premium
free-unpaid e = ground arith
