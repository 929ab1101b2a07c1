-- ===== src/Catalog.antt =====
-- src/payments/pricing.catalog.ts: the products that can be bought and the owner plans. Prices are
-- whole Egyptian pounds, a literal type is a constructor, an absent key of a product is `none`.
use propmatch_backend.Prelude.{ℕ, Option, none, some, Bool, true, false}

-- `OwnerPlanName`
pub data Plan : Type 0 where
  free owner_plus premium : Plan

abbrev pub is_free : Plan → Bool
is_free free = true
is_free owner_plus = false
is_free premium = false

pub data Billing : Type 0 where
  monthly yearly one_time : Billing

pub data Kind : Type 0 where
  subscription entitlement boost : Kind

pub data EntitlementType : Type 0 where
  active_listing matched_offer ai_optimizer_use : EntitlementType

-- `keyof typeof PRICING_CATALOG`
pub data BillablePaymentType : Type 0 where
  owner_plus_monthly owner_plus_yearly premium_monthly premium_yearly : BillablePaymentType
  extra_listing_60d offers_10_60d boost_7d boost_14d boost_30d ai_uses_10_90d : BillablePaymentType

-- An entry of `PRICING_CATALOG`. `allowedRoles` is the list `['LANDLORD']` in each of them.
pub record Product : Type 0 where
  pub price_egp : ℕ
  pub billing : Billing
  pub kind : Kind
  pub plan_type : Option Plan
  pub entitlement_type : Option EntitlementType
  pub quantity : Option ℕ
  pub validity_days : Option ℕ
  pub duration_days : Option ℕ

abbrev subscription_of : ℕ → Billing → Plan → Product
subscription_of price period plan = record {
  price_egp = price;
  billing = period;
  kind = subscription;
  plan_type = some plan;
  entitlement_type = none;
  quantity = none;
  validity_days = none;
  duration_days = none;
}

abbrev add_on_of : ℕ → EntitlementType → ℕ → ℕ → Product
add_on_of price type many days = record {
  price_egp = price;
  billing = one_time;
  kind = entitlement;
  plan_type = none;
  entitlement_type = some type;
  quantity = some many;
  validity_days = some days;
  duration_days = none;
}

abbrev boost_of : ℕ → ℕ → Product
boost_of price days = record {
  price_egp = price;
  billing = one_time;
  kind = boost;
  plan_type = none;
  entitlement_type = none;
  quantity = none;
  validity_days = none;
  duration_days = some days;
}

-- `PRICING_CATALOG`
abbrev pub pricing_catalog : BillablePaymentType → Product
pricing_catalog owner_plus_monthly = subscription_of 299 monthly owner_plus
pricing_catalog owner_plus_yearly = subscription_of 2990 yearly owner_plus
pricing_catalog premium_monthly = subscription_of 699 monthly premium
pricing_catalog premium_yearly = subscription_of 6990 yearly premium
pricing_catalog extra_listing_60d = add_on_of 99 active_listing 1 60
pricing_catalog offers_10_60d = add_on_of 49 matched_offer 10 60
pricing_catalog boost_7d = boost_of 79 7
pricing_catalog boost_14d = boost_of 149 14
pricing_catalog boost_30d = boost_of 249 30
pricing_catalog ai_uses_10_90d = add_on_of 39 ai_optimizer_use 10 90

-- The allowances of a plan in one period. `boostDurationDays` is added by the configuration service.
pub record PlanAllowances : Type 0 where
  pub active_listings : ℕ
  pub offers : ℕ
  pub ai_uses : ℕ
  pub boost_credits : ℕ
  pub boost_duration_days : ℕ

-- `planAllowances`, with the `boostDurationDays: 7` of `getPlanAllowances`.
abbrev pub default_allowances : Plan → PlanAllowances
default_allowances premium = record {
  active_listings = 10;
  offers = 100;
  ai_uses = 30;
  boost_credits = 2;
  boost_duration_days = 7;
}
default_allowances owner_plus = record {
  active_listings = 3;
  offers = 30;
  ai_uses = 10;
  boost_credits = 1;
  boost_duration_days = 7;
}
default_allowances free = record {
  active_listings = 1;
  offers = 5;
  ai_uses = 5;
  boost_credits = 0;
  boost_duration_days = 7;
}

-- `LISTING_CAPACITY_GRACE_DAYS`
abbrev pub listing_capacity_grace_days : ℕ
listing_capacity_grace_days = 7

abbrev pub plan_code : Plan → ℕ
plan_code free = 0
plan_code owner_plus = 1
plan_code premium = 2

abbrev pub entitlement_code : EntitlementType → ℕ
entitlement_code active_listing = 0
entitlement_code matched_offer = 1
entitlement_code ai_optimizer_use = 2

abbrev pub payment_code : BillablePaymentType → ℕ
payment_code owner_plus_monthly = 0
payment_code owner_plus_yearly = 1
payment_code premium_monthly = 2
payment_code premium_yearly = 3
payment_code extra_listing_60d = 4
payment_code offers_10_60d = 5
payment_code boost_7d = 6
payment_code boost_14d = 7
payment_code boost_30d = 8
payment_code ai_uses_10_90d = 9
