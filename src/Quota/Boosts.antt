-- ===== src/Quota/Boosts.antt =====
-- src/quota/quota.service.ts, the boost credits that a plan includes.
pub mod Queued
use propmatch_backend.Prelude.{
  ℕ, ◌+◌, ◌-◌, Option, none, some, [], ◌∷◌, ◌++◌, Bool, ◌&&◌, not, ltb, leb, ◌==◌, if◌then◌else◌,
  is_some, update_where, count_where, find?,
}
use propmatch_backend.Calendar.{add_days}
use propmatch_backend.Catalog.{boost_7d}
use propmatch_backend.Store.{
  UserQuota, BoostCampaign, CampaignStatus, Property, Db, Action, pure, gets, throw_if, modify,
  transaction, ◌>>=◌, ◌>>◌, forbidden, quota_exhausted, property_code,
}
use propmatch_backend.Campaigns.{latest_end}
use propmatch_backend.Config.{get_plan_allowances, get_product}
use propmatch_backend.Quota.Period.{is_of, ensure_current_period}
use propmatch_backend.Quota.Consumption.{quota_or_throw}

abbrev pub has_credit : ℕ → UserQuota → Bool
has_credit user q = is_of user q && ltb 0 q.boost_credits_left

-- The guarded decrement of the boost credits; whether it changed exactly one row.
unfoldable pub spend_credit : ℕ → Action Bool
spend_credit user = do
  count ← gets (λ db. count_where (has_credit user) db.quotas)
  modify (λ db. record db {
    quotas =
        update_where (has_credit user)
          (λ q. record q { boost_credits_left = q.boost_credits_left - 1 }) db.quotas;
  })
  pure (count == 1)

-- `consumeBoostCredit`
unfoldable pub consume_boost_credit : ℕ → ℕ → Action ℕ
unfolding ensure_current_period spend_credit
consume_boost_credit now user = do
  ensure_current_period now user
  product ← gets (get_product boost_7d)
  spent ← spend_credit user
  throw_if (not spent) (quota_exhausted boost_7d product.price_egp)
  quota ← quota_or_throw user
  pure quota.boost_credits_left

-- `{ id: propertyId, ownerId: userId, status: 'APPROVED' }`
abbrev pub is_own_approved : ℕ → ℕ → Property → Bool
is_own_approved user id p = p.id == id && (p.owner_id == user && property_code p.status == 1)

abbrev pub mark_boosted : ℕ → Property → Property
mark_boosted until p = record p { is_boosted = Bool.true; boosted_until = some until }

-- The campaign queued behind those that are live, and the property marked as boosted.
unfoldable pub queue_plan_boost : ℕ → ℕ → ℕ → ℕ → Db → Db
unfolding add_days
queue_plan_boost now user property days db =
    let starts = latest_end now property db.campaigns in
    let ends = add_days starts days in
    record db {
      campaigns =
          db.campaigns
          ++ record {
            id = db.next_id;
            property_id = property;
            user_id = user;
            payment_transaction_id = none;
            duration_days = days;
            starts_at = starts;
            ends_at = ends;
            status = if leb starts now then CampaignStatus.active else CampaignStatus.scheduled;
          }
            ∷ [];
      properties = update_where (λ p. p.id == property) (mark_boosted ends) db.properties;
      next_id = db.next_id + 1;
    }

-- The callback of the transaction in `activatePlanBoost`.
unfoldable pub boost_property : ℕ → ℕ → ℕ → ℕ → ℕ → Action (ℕ × ℕ)
unfolding spend_credit queue_plan_boost
boost_property now user property days price = do
  eligible ← gets (λ db. find? (is_own_approved user property) db.properties)
  throw_if (not (is_some eligible)) (forbidden "property is not eligible for a boost")
  spent ← spend_credit user
  throw_if (not spent) (quota_exhausted boost_7d price)
  campaign ← gets (λ db. db.next_id)
  modify (queue_plan_boost now user property days)
  quota ← quota_or_throw user
  pure (campaign, quota.boost_credits_left)

-- `activatePlanBoost`: the new campaign's identifier and the credits left.
unfoldable pub activate_plan_boost : ℕ → ℕ → ℕ → Action (ℕ × ℕ)
unfolding ensure_current_period boost_property
activate_plan_boost now user property = do
  current ← ensure_current_period now user
  plan ← gets (get_plan_allowances current.plan_type)
  product ← gets (get_product boost_7d)
  transaction (boost_property now user property plan.boost_duration_days product.price_egp)
