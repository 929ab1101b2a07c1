-- ===== src/Tests/Payments.antt =====
-- The settlement of an order, its delivery and the hourly pass, on the small shop.
use propmatch_backend.Prelude.{
  ℕ, ◌+◌, ◌*◌, ◌≤◌, ◌≡◌, ◌≢◌, refl, inl, none, some, [], ◌∷◌, true, false, update_where, arith,
}
use propmatch_backend.Text.{egp}
use propmatch_backend.Calendar.{day_ms}
use propmatch_backend.Catalog.{
  free, owner_plus, premium, monthly, premium_monthly, boost_7d, default_allowances,
}
use propmatch_backend.Store.{
  UserQuota, find_quota, Db, ok, err, not_found, PaymentType, BoostCampaign, CampaignStatus,
}
use propmatch_backend.Config.{default_product, parse_snapshot, get_product}
use propmatch_backend.Campaigns.Queue.{IsQueue}
use propmatch_backend.Quota.Period.{activates_pending}
use propmatch_backend.Payments.Delivery.{deliver_boost, subscribe, current_rank}
use propmatch_backend.Payments.Delivery.Queued.{deliver_boost-IsQueue}
use propmatch_backend.Payments.Delivery.Plans.{
  HasPlan, term_begins, running_rank, RunsPremium, bought_quota, subscribe_serves, downgrade_twice,
  renewal_drops_pending,
}
use propmatch_backend.Payments.Settlement.{
  cents, WebhookResult, process_order, handle_webhook, is_open_order, fail_with,
}
use propmatch_backend.Payments.Settlement.Once.{process_order_once, process_order_mismatch}
use propmatch_backend.Payments.Settlement.Claims.{callback_outcome, handle_webhook-claims}
use propmatch_backend.Payments.Reconcile.{advance_campaigns}
use propmatch_backend.Tests.Shop.{now, shop, plan_order, boost_order, free_quota, premium_quota}

abbrev plan_type : PaymentType
plan_type = PaymentType.billable premium_monthly

abbrev boost_type : PaymentType
boost_type = PaymentType.billable boost_7d

-- The shop after the premium plan is paid.
abbrev paid_shop : Db
paid_shop = (process_order now 7 plan_type 900 500 (some (cents 69900)) (some egp) shop).1

pays_plan :
    process_order now 7 plan_type 900 500 (some (cents 69900)) (some egp) shop ≡ (ok tt, paid_shop)
unfolding process_order get_product parse_snapshot
pays_plan = refl

process_order_once_example :
    process_order (now + 5) 8 boost_type 901 500 none none paid_shop ≡ (ok tt, paid_shop)
process_order_once_example =
    process_order_once now (now + 5) 7 8 plan_type boost_type 900 901 500 (some (cents 69900)) none
      (some egp) none shop paid_shop pays_plan

-- The flat to boost is gone.
abbrev empty_shop : Db
empty_shop = record shop { properties = [] }

boost_fails :
    process_order now 7 boost_type 900 501 none none empty_shop
    ≡ (err (not_found "the property to boost is gone or is another owner's"), empty_shop)
unfolding process_order get_product parse_snapshot
boost_fails = refl

process_order_mismatch_example :
    process_order now 7 plan_type 900 500 (some (cents 69800)) (some egp) shop ≡ (
      ok tt,
      record shop {
        transactions = update_where (is_open_order 500) (fail_with 900) shop.transactions;
      },
    )
process_order_mismatch_example =
    process_order_mismatch now 7 plan_type 900 500 (some (cents 69800)) (some egp) shop plan_order
      refl refl (inl (λ e. ground arith))

abbrev callback : WebhookResult
callback = record {
  is_valid = true;
  success = true;
  is_final = true;
  transaction_id = 900;
  provider_order_id = some 500;
  payment_type = some plan_type;
  user_id = some 7;
  amount_cents = some (cents 69900);
  currency = some egp;
}

handle_webhook-claims_example :
    (handle_webhook now (record callback { user_id = some 9; payment_type = some boost_type }) shop
      ≡ handle_webhook now callback shop)
    × (handle_webhook now callback shop ≡ callback_outcome now callback shop)
handle_webhook-claims_example = handle_webhook-claims now callback (some 9) (some boost_type) shop

abbrev boosted_shop : Db
boosted_shop = (deliver_boost now 7 boost_order (default_product boost_7d) shop).1

boosts : deliver_boost now 7 boost_order (default_product boost_7d) shop ≡ (ok tt, boosted_shop)
unfolding deliver_boost default_product
boosts = refl

deliver_boost-IsQueue_example : IsQueue now 11 boosted_shop.campaigns
deliver_boost-IsQueue_example =
    deliver_boost-IsQueue now 7 11 boost_order (default_product boost_7d) shop boosted_shop refl tt
      boosts

owner_plus-paid : owner_plus ≢ free
owner_plus-paid e = ground arith

subscribe_serves_example :
    (q' : UserQuota) × (until : ℕ) × (find_quota 7
        (subscribe now 7 owner_plus monthly
          (default_allowances owner_plus)
          (some free_quota)
          shop).quotas
      ≡ some q')
    × HasPlan owner_plus until q'
    × (term_begins now owner_plus free_quota + 28 * day_ms ≤ until)
    × (running_rank now free_quota ≤ current_rank (some q'))
subscribe_serves_example =
    subscribe_serves now 7 owner_plus monthly (default_allowances owner_plus) free_quota shop
      owner_plus-paid refl

abbrev premium_shop : Db
premium_shop = record shop { quotas = premium_quota ∷ [] }

premium_runs : RunsPremium now (40 * day_ms) premium_quota
premium_runs = record { is_premium = refl; expiry = refl; running = ground arith }

premium_runs_later : RunsPremium (now + 9) (40 * day_ms) premium_quota
premium_runs_later = record { is_premium = refl; expiry = refl; running = ground arith }

abbrev lowered_shop : Db
lowered_shop =
    subscribe now 7 owner_plus monthly (default_allowances owner_plus) (some premium_quota)
      premium_shop

downgrade_twice_example :
    subscribe
      (now + 9)
      7
      owner_plus
      monthly
      (default_allowances owner_plus)
      (some premium_quota)
      lowered_shop
    ≡ lowered_shop
downgrade_twice_example =
    downgrade_twice now (now + 9) (40 * day_ms) 7 monthly (default_allowances owner_plus)
      (default_allowances owner_plus) premium_quota premium_quota premium_shop premium_runs
      premium_runs_later

abbrev planned_quota : UserQuota
planned_quota = bought_quota now owner_plus monthly (default_allowances owner_plus) premium_quota

renewal_drops_pending_example :
    (q'' : UserQuota) × (find_quota 7 lowered_shop.quotas ≡ some planned_quota)
    × (find_quota 7
          (subscribe
            (now + 9)
            7
            premium
            monthly
            (default_allowances premium)
            (some planned_quota)
            lowered_shop).quotas
        ≡ some q'')
    × (q''.pending_plan_type ≡ some owner_plus)
    × (activates_pending (80 * day_ms) q'' ≡ false)
renewal_drops_pending_example =
    renewal_drops_pending (80 * day_ms) now (now + 9) (40 * day_ms) 7
      (default_allowances owner_plus) (default_allowances premium) premium_quota premium_shop refl
      premium_runs (ground arith)

abbrev finished : BoostCampaign
finished = record {
  id = 41;
  property_id = 11;
  user_id = 7;
  payment_transaction_id = none;
  duration_days = 7;
  starts_at = 0;
  ends_at = 7 * day_ms;
  status = CampaignStatus.active;
}

abbrev due : BoostCampaign
due = record finished { starts_at = now; ends_at = now + 5; status = CampaignStatus.scheduled }

advances :
    advance_campaigns now (finished ∷ due ∷ [])
    ≡ record finished { status = CampaignStatus.expired }
      ∷ record due { status = CampaignStatus.active }
      ∷ []
unfolding advance_campaigns
advances = refl
