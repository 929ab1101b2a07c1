-- ===== src/Payments/Delivery.antt =====
-- src/payments/payments.service.ts, the part of `processSuccessfulPayment` that delivers what was
-- bought: a plan, an add-on grant or a boost campaign.
pub mod Frame
pub mod Queued
pub mod Plans
use propmatch_backend.Prelude.{
  ℕ, ◌+◌, ◌*◌, Option, none, some, [], ◌∷◌, ◌++◌, Bool, true, false, not, ◌&&◌, ◌||◌, ltb, ◌==◌,
  if◌then◌else◌, is_some, or_else, update_where, count_where,
}
use propmatch_backend.Calendar.{day_ms, add_days, add_month, add_year}
use propmatch_backend.Catalog.{
  Plan, free, owner_plus, premium, Billing, monthly, yearly, one_time, Kind, subscription,
  entitlement, boost, EntitlementType, PlanAllowances, BillablePaymentType, premium_monthly,
  owner_plus_monthly, extra_listing_60d, offers_10_60d, boost_30d, ai_uses_10_90d,
}
use propmatch_backend.Store.{
  UserQuota, EntitlementGrant, Property, PaymentType, PaymentTransaction, CatalogSnapshot,
  ResolvedProduct, Db, Action, pure, throw, gets, throw_if, modify, ◌>>=◌, ◌>>◌, bad_request,
  not_found, internal, find_quota,
}
use propmatch_backend.Campaigns.{latest_end, status_at}
use propmatch_backend.Config.{
  get_product, get_plan_allowances, allowances_of, parse_snapshot, is_falsy,
}
use propmatch_backend.Quota.Period.{is_of}
use propmatch_backend.Quota.Boosts.{mark_boosted}

-- `SETTLEMENT_COMPATIBILITY`, and a payment type of the catalogue as itself.
abbrev pub catalog_payment_type : PaymentType → Option BillablePaymentType
catalog_payment_type (PaymentType.billable t) = some t
catalog_payment_type PaymentType.premium_owner = some premium_monthly
catalog_payment_type PaymentType.owner_plus = some owner_plus_monthly
catalog_payment_type PaymentType.single_listing = some extra_listing_60d
catalog_payment_type PaymentType.single_offer = some offers_10_60d
catalog_payment_type PaymentType.boost_listing = some boost_30d
catalog_payment_type PaymentType.ai_addon = some ai_uses_10_90d
catalog_payment_type _ = none

-- The stored snapshot if it can be read, and the present catalogue if not.
abbrev pub snapshot_or_current : Option CatalogSnapshot → BillablePaymentType → Db → CatalogSnapshot
snapshot_or_current (some snapshot) t db = snapshot
snapshot_or_current none t db =
    let product = get_product t db in
    record { product = product; plan_allowances = allowances_of product.plan_type db }

-- `targetRank`
abbrev pub target_rank : Plan → ℕ
target_rank premium = 2
target_rank owner_plus = 1
target_rank free = 1

-- `currentRank`
abbrev pub current_rank : Option UserQuota → ℕ
current_rank none = 0
current_rank (some q) = elim q.plan_type [ premium ↦ 2 | owner_plus ↦ 1 | free ↦ 0 ]

abbrev pub expires_after : ℕ → Option ℕ → Bool
expires_after now none = false
expires_after now (some t) = ltb now t

-- `currentIsActive`
abbrev pub current_is_active : ℕ → Option UserQuota → Bool
current_is_active paid_at none = false
current_is_active paid_at (some q) = expires_after paid_at q.plan_expires_at

-- `durationEnd`
abbrev pub duration_end : Billing → ℕ → ℕ
duration_end yearly start = add_year start
duration_end monthly start = add_month start
duration_end one_time start = add_month start

-- `current.planExpiresAt!`
abbrev pub expiry_of : ℕ → Option UserQuota → ℕ
expiry_of paid_at none = paid_at
expiry_of paid_at (some q) = or_else q.plan_expires_at paid_at

-- A lower plan is bought while a higher one runs: it is put off until that ends.
unfoldable pub schedule_plan : Plan → Billing → ℕ → UserQuota → UserQuota
unfolding add_month add_year
schedule_plan target billing starts q = record q {
  pending_plan_type = some target;
  pending_billing_interval = some billing;
  pending_plan_starts_at = some starts;
  pending_plan_expires_at = some (duration_end billing starts);
}

-- The running plan is bought again: it lasts longer.
unfoldable pub extend_plan : Billing → ℕ → UserQuota → UserQuota
unfolding add_month add_year
extend_plan billing starts q = record q {
  plan_expires_at = some (duration_end billing starts);
  billing_interval = some billing;
}

-- A new or a higher plan: it begins at once, with its allowances.
unfoldable pub start_plan : ℕ → Plan → Billing → PlanAllowances → UserQuota → UserQuota
unfolding add_month add_year
start_plan paid_at target billing allowances q = record q {
  plan_type = target;
  billing_interval = some billing;
  plan_expires_at = some (duration_end billing paid_at);
  current_period_starts_at = some paid_at;
  current_period_ends_at = some (add_month paid_at);
  last_reset_date = paid_at;
  max_active_listings = allowances.active_listings;
  optimizer_uses_left = allowances.ai_uses;
  free_offers_left = allowances.offers;
  boost_credits_left = allowances.boost_credits;
  pending_plan_type = none;
  pending_billing_interval = none;
  pending_plan_starts_at = none;
  pending_plan_expires_at = none;
}

-- The `create` of the upsert, over the column defaults.
abbrev pub blank_quota : ℕ → UserQuota
blank_quota user = record {
  user_id = user;
  plan_type = free;
  plan_expires_at = none;
  max_active_listings = 1;
  optimizer_uses_left = 0;
  free_offers_left = 5;
  boost_credits_left = 0;
  billing_interval = none;
  current_period_starts_at = none;
  current_period_ends_at = none;
  listing_grace_ends_at = none;
  pending_plan_type = none;
  pending_billing_interval = none;
  pending_plan_starts_at = none;
  pending_plan_expires_at = none;
  last_reset_date = 0;
}

abbrev pub upsert_quota : ℕ → Option UserQuota → (UserQuota → UserQuota) → Db → Db
upsert_quota user none f db = record db { quotas = db.quotas ++ f (blank_quota user) ∷ [] }
upsert_quota user (some q) f db = record db { quotas = update_where (is_of user) f db.quotas }

-- The three branches of a subscription.
unfoldable pub subscribe : ℕ → ℕ → Plan → Billing → PlanAllowances → Option UserQuota → Db → Db
unfolding schedule_plan extend_plan start_plan
subscribe paid_at user target billing allowances current db =
    if current_is_active paid_at current && ltb (target_rank target) (current_rank current)
    then record db {
      quotas =
          update_where (is_of user) (schedule_plan target billing (expiry_of paid_at current))
            db.quotas;
    }
    else if current_is_active paid_at current && target_rank target == current_rank current
    then record db {
      quotas =
          update_where (is_of user) (extend_plan billing (expiry_of paid_at current)) db.quotas;
    }
    else upsert_quota user current (start_plan paid_at target billing allowances) db

abbrev pub is_one_time : Billing → Bool
is_one_time one_time = true
is_one_time monthly = false
is_one_time yearly = false

-- The `SUBSCRIPTION` branch.
unfoldable pub deliver_subscription : ℕ → ℕ → CatalogSnapshot → Action (Unit {0})
unfolding subscribe
deliver_subscription paid_at user snapshot = elim snapshot.product.plan_type [
  | none ↦ throw (bad_request "Invalid subscription configuration")
  | some target ↦ do
    throw_if (is_one_time snapshot.product.billing)
        (bad_request "Invalid subscription configuration")
    current ← gets (λ db. find_quota user db.quotas)
    allowances ← gets (λ db. or_else snapshot.plan_allowances (get_plan_allowances target db))
    modify (subscribe paid_at user target snapshot.product.billing allowances current)
]

-- `paymentType === 'SINGLE_OFFER' ? 1 : product.quantity`
abbrev pub granted : PaymentType → ℕ → ℕ
granted PaymentType.single_offer quantity = 1
granted _ quantity = quantity

-- The grant that an add-on creates.
unfoldable pub new_grant :
    ℕ → ℕ → ℕ → PaymentTransaction → EntitlementType → ℕ → ℕ → EntitlementGrant
unfolding add_days
new_grant id paid_at user t type quantity days = record {
  id = id;
  user_id = user;
  payment_transaction_id = some t.id;
  type = type;
  granted_quantity = quantity;
  remaining_quantity = quantity;
  starts_at = paid_at;
  expires_at = add_days paid_at days;
}

-- The `ENTITLEMENT` branch.
unfoldable pub deliver_entitlement :
    ℕ → ℕ → PaymentType → PaymentTransaction → ResolvedProduct → Action (Unit {0})
unfolding new_grant
deliver_entitlement paid_at user bought t product = elim product.entitlement_type [
  | none ↦ throw (bad_request "Invalid entitlement configuration")
  | some type ↦ do
    throw_if (is_falsy product.validity_days || is_falsy product.quantity)
        (bad_request "Invalid entitlement configuration")
    modify (λ db. record db {
      grants =
          db.grants
          ++ new_grant db.next_id paid_at user t type (granted bought (or_else product.quantity 0))
              (or_else product.validity_days 0)
            ∷ [];
      next_id = db.next_id + 1;
    })
]

abbrev pub is_own : ℕ → ℕ → Property → Bool
is_own user id p = p.id == id && p.owner_id == user

-- The campaign queued behind the live ones, if exactly one property of the buyer is marked.
unfoldable pub queue_boost : ℕ → ℕ → PaymentTransaction → ℕ → ℕ → Action (Unit {0})
unfolding add_days latest_end
queue_boost paid_at user t property days = do
  starts ← gets (λ db. latest_end paid_at property db.campaigns)
  let ends = add_days starts days
  count ← gets (λ db. count_where (is_own user property) db.properties)
  modify (λ db. record db {
    properties = update_where (is_own user property) (mark_boosted ends) db.properties;
  })
  throw_if (not (count == 1)) (not_found "the property to boost is gone or is another owner's")
  modify (λ db. record db {
    campaigns =
        db.campaigns
        ++ record {
          id = db.next_id;
          property_id = property;
          user_id = user;
          payment_transaction_id = some t.id;
          duration_days = days;
          starts_at = starts;
          ends_at = ends;
          status = status_at paid_at starts;
        }
          ∷ [];
    next_id = db.next_id + 1;
  })

-- The `BOOST` branch. A product with no duration gives an invalid date, which the database refuses.
unfoldable pub deliver_boost : ℕ → ℕ → PaymentTransaction → ResolvedProduct → Action (Unit {0})
unfolding queue_boost
deliver_boost paid_at user t product = elim t.target_property_id [
  | none ↦ throw (bad_request "Boost payment has no target property")
  | some property ↦ elim product.duration_days [
    | none ↦ throw (internal "invalid date")
    | some days ↦ queue_boost paid_at user t property days
  ]
]

-- What the kind of product calls for.
unfoldable pub deliver :
    ℕ → ℕ → PaymentType → PaymentTransaction → CatalogSnapshot → Action (Unit {0})
unfolding deliver_subscription deliver_entitlement deliver_boost
deliver paid_at user bought t snapshot = elim snapshot.product.kind [
  | subscription ↦ deliver_subscription paid_at user snapshot
  | entitlement ↦ deliver_entitlement paid_at user bought t snapshot.product
  | boost ↦ deliver_boost paid_at user t snapshot.product
]
