-- ===== src/Config.antt =====
-- src/commercial-config/commercial-config.service.ts: the prices and allowances that an administrator
-- may change, over the defaults of the catalogue. A `findUnique` is the first row with the key.
pub mod Products
pub mod Plans
use propmatch_backend.Prelude.{
  ℕ, suc, ◌+◌, ◌-◌, Option, none, some, List, [], ◌∷◌, ◌++◌, map, Bool, true, false, not, ◌&&◌,
  ◌||◌, ◌==◌, if◌then◌else◌, is_some, or_else, find?, update_where,
}
use propmatch_backend.Catalog.{
  Plan, Kind, subscription, entitlement, boost, BillablePaymentType, pricing_catalog,
  PlanAllowances, default_allowances, plan_code, payment_code, owner_plus_monthly,
  owner_plus_yearly, premium_monthly, premium_yearly, extra_listing_60d, offers_10_60d, boost_7d,
  boost_14d, boost_30d, ai_uses_10_90d,
}
use propmatch_backend.Store.{
  UserQuota, ResolvedProduct, CatalogSnapshot, ProductConfiguration, PlanConfiguration,
  AuditLogEntry, product_update, plan_update, Db, Action, pure, gets, throw_if, modify, transaction,
  ◌>>=◌, ◌>>◌, Error, bad_request, not_found, or_throw,
}

abbrev pub kind_code : Kind → ℕ
kind_code subscription = 0
kind_code entitlement = 1
kind_code boost = 2

abbrev pub is_entitlement : Kind → Bool
is_entitlement k = kind_code k == 1

abbrev pub is_boost : Kind → Bool
is_boost k = kind_code k == 2

-- `defaultProduct`
unfoldable pub default_product : BillablePaymentType → ResolvedProduct
default_product t =
    let product = pricing_catalog t in
    record {
      payment_type = t;
      price_egp = product.price_egp;
      enabled = true;
      billing = product.billing;
      kind = product.kind;
      plan_type = product.plan_type;
      entitlement_type = product.entitlement_type;
      quantity = product.quantity;
      validity_days = product.validity_days;
      duration_days = product.duration_days;
    }

abbrev pub find_product :
    BillablePaymentType → List ProductConfiguration → Option ProductConfiguration
find_product t = find? (λ row. payment_code row.payment_type == payment_code t)

abbrev pub find_plan : Plan → List PlanConfiguration → Option PlanConfiguration
find_plan p = find? (λ row. plan_code row.plan_type == plan_code p)

-- `a ?? b` on two nullable values
abbrev first_of_two : Option ℕ → Option ℕ → Option ℕ
first_of_two none b = b
first_of_two (some a) b = some a

-- The saved values laid over the defaults; only those that the kind of product has.
unfoldable pub resolve : ResolvedProduct → Option ProductConfiguration → ResolvedProduct
resolve defaults none = defaults
resolve defaults (some saved) = record defaults {
  price_egp = saved.price_egp;
  enabled = saved.enabled;
  quantity =
      if is_entitlement defaults.kind then first_of_two saved.quantity defaults.quantity else none;
  validity_days =
      if is_entitlement defaults.kind
      then first_of_two saved.validity_days defaults.validity_days
      else none;
  duration_days =
      if is_boost defaults.kind
      then first_of_two saved.duration_days defaults.duration_days
      else none;
}

-- `getProduct`
unfoldable pub get_product : BillablePaymentType → Db → ResolvedProduct
unfolding resolve default_product
get_product t db = resolve (default_product t) (find_product t db.product_configurations)

abbrev saved_allowances : Plan → Option PlanConfiguration → PlanAllowances
saved_allowances plan none = default_allowances plan
saved_allowances plan (some saved) = saved.allowances

-- `getPlanAllowances`
unfoldable pub get_plan_allowances : Plan → Db → PlanAllowances
get_plan_allowances plan db = saved_allowances plan (find_plan plan db.plan_configurations)

-- `BILLABLE_PAYMENT_TYPES`
abbrev pub billable_payment_types : List BillablePaymentType
billable_payment_types =
    owner_plus_monthly ∷ owner_plus_yearly ∷ premium_monthly ∷ premium_yearly ∷ extra_listing_60d
    ∷ offers_10_60d ∷ boost_7d ∷ boost_14d ∷ boost_30d ∷ ai_uses_10_90d ∷ []

-- `product.planType ? await getPlanAllowances(product.planType) : undefined`
abbrev pub allowances_of : Option Plan → Db → Option PlanAllowances
allowances_of none db = none
allowances_of (some plan) db = some (get_plan_allowances plan db)

-- `checkoutSnapshot`
unfoldable pub checkout_snapshot : BillablePaymentType → Action CatalogSnapshot
unfolding get_product
checkout_snapshot t = do
  product ← gets (get_product t)
  throw_if (not product.enabled) (bad_request "This product is currently unavailable")
  allowances ← gets (allowances_of product.plan_type)
  pure (record { product = product; plan_allowances = allowances })

-- `parseSnapshot`, on a stored value that has the fields of a snapshot: it must name the kind that
-- its payment type has in the catalogue.
unfoldable pub parse_snapshot : Option CatalogSnapshot → Option CatalogSnapshot
unfolding default_product
parse_snapshot none = none
parse_snapshot (some value) =
    if kind_code value.product.kind == kind_code (default_product value.product.payment_type).kind
    then some value
    else none

-- `UpdateProductConfigurationDto`
pub record ProductDto : Type 0 where
  pub price_egp : ℕ
  pub enabled : Bool
  pub quantity : Option ℕ
  pub validity_days : Option ℕ
  pub duration_days : Option ℕ

-- `!value` on a number or undefined
abbrev pub is_falsy : Option ℕ → Bool
is_falsy none = true
is_falsy (some n) = n == 0

-- The row that `updateProduct` writes.
unfoldable pub product_row : ℕ → ℕ → BillablePaymentType → ProductDto → ProductConfiguration
unfolding default_product
product_row id actor t dto =
    let kind = (default_product t).kind in
    record {
      id = id;
      payment_type = t;
      price_egp = dto.price_egp;
      quantity = if is_entitlement kind then dto.quantity else none;
      validity_days = if is_entitlement kind then dto.validity_days else none;
      duration_days = if is_boost kind then dto.duration_days else none;
      enabled = dto.enabled;
      updated_by_id = actor;
    }

-- `productConfiguration.upsert` and the audit entry, in one transaction.
unfoldable pub save_product : ℕ → BillablePaymentType → ProductDto → Db → Db
unfolding product_row
save_product actor t dto db = elim (find_product t db.product_configurations) [
  | none ↦ record db {
    product_configurations = db.product_configurations ++ product_row db.next_id actor t dto ∷ [];
    audit_log =
        db.audit_log
        ++ record { actor_id = actor; action = product_update t; subject_id = db.next_id } ∷ [];
    next_id = db.next_id + 1;
  }
  | some old ↦ record db {
    product_configurations =
        update_where (λ row. payment_code row.payment_type == payment_code t)
          (λ row. product_row row.id actor t dto) db.product_configurations;
    audit_log =
        db.audit_log
        ++ record { actor_id = actor; action = product_update t; subject_id = old.id } ∷ [];
  }
]

-- `updateProduct`; a name that is no payment type is `none`.
unfoldable pub update_product : ℕ → Option BillablePaymentType → ProductDto → Action ResolvedProduct
unfolding get_product save_product
update_product actor value dto = do
  t ← or_throw value (not_found "unknown commercial product")
  let kind = (default_product t).kind
  throw_if (is_entitlement kind && (is_falsy dto.quantity || is_falsy dto.validity_days))
      (bad_request "Quantity and validity are required for add-ons")
  throw_if (is_boost kind && is_falsy dto.duration_days)
      (bad_request "Duration is required for boost products")
  modify (save_product actor t dto)
  gets (get_product t)

-- What a running period keeps when the allowances of its plan change: what was used stays used.
-- Subtraction on ℕ stops at 0, as each `Math.max(0, …)` does.
unfoldable pub rebase_quota : PlanAllowances → PlanAllowances → UserQuota → UserQuota
rebase_quota previous next quota = record quota {
  max_active_listings = next.active_listings;
  free_offers_left = next.offers - (previous.offers - quota.free_offers_left);
  optimizer_uses_left = next.ai_uses - (previous.ai_uses - quota.optimizer_uses_left);
  boost_credits_left = next.boost_credits - (previous.boost_credits - quota.boost_credits_left);
}

-- `planConfiguration.upsert`: the row's identifier, and the tables.
unfoldable pub save_plan : ℕ → Plan → PlanAllowances → Db → ℕ × Db
save_plan actor plan next db = elim (find_plan plan db.plan_configurations) [
  | none ↦ (
    db.next_id,
    record db {
      plan_configurations =
          db.plan_configurations
          ++ record { id = db.next_id; plan_type = plan; allowances = next; updated_by_id = actor }
            ∷ [];
      next_id = db.next_id + 1;
    },
  )
  | some old ↦ (
    old.id,
    record db {
      plan_configurations =
          update_where (λ row. plan_code row.plan_type == plan_code plan)
            (λ row. record row { allowances = next; updated_by_id = actor }) db.plan_configurations;
    },
  )
]

-- `updatePlan`; a name that is no plan is `none`. The loop rewrites each quota of the plan once.
unfoldable pub update_plan : ℕ → Option Plan → PlanAllowances → Action PlanAllowances
unfolding get_plan_allowances rebase_quota save_plan
update_plan actor value next = do
  plan ← or_throw value (not_found "unknown commercial plan")
  previous ← gets (get_plan_allowances plan)
  modify (λ db.
      let (row_id, saved) = save_plan actor plan next db in
      record saved {
        quotas =
            update_where (λ quota. plan_code quota.plan_type == plan_code plan)
              (rebase_quota previous next) saved.quotas;
        audit_log =
            saved.audit_log
            ++ record { actor_id = actor; action = plan_update plan; subject_id = row_id } ∷ [];
      })
  pure next
