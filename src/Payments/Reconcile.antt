-- ===== src/Payments/Reconcile.antt =====
-- src/payments/payments.service.ts, `reconcilePendingTransactions`: the hourly pass over boosts,
-- campaigns and payments that were left open.
pub mod Timely
use propmatch_backend.Prelude.{
  ℕ, ◌+◌, ◌*◌, Option, none, some, List, [], ◌∷◌, Bool, true, false, ◌&&◌, ◌||◌, ltb, leb, ◌==◌,
  if◌then◌else◌, update_where, filter_where, sort_asc, take,
}
use propmatch_backend.Store.{
  Property, BoostCampaign, CampaignStatus, PaymentTransaction, Db, Action, pure, gets, modify,
  ◌>>=◌, ◌>>◌,
}
use propmatch_backend.Campaigns.{campaign_code}
use propmatch_backend.Payments.Settlement.{is_pending, process_order}

abbrev pub is_due : ℕ → Option ℕ → Bool
is_due now none = false
is_due now (some t) = leb t now

-- `{ isBoosted: true, boostedUntil: { lte: now } }`
abbrev pub is_boost_over : ℕ → Property → Bool
is_boost_over now p = p.is_boosted && is_due now p.boosted_until

abbrev pub end_boost : Property → Property
end_boost p = record p { is_boosted = false; boosted_until = none }

-- `{ status: { in: ['ACTIVE', 'SCHEDULED'] }, endsAt: { lte: now } }`
abbrev pub is_over : ℕ → BoostCampaign → Bool
is_over now c = (campaign_code c.status == 1 || campaign_code c.status == 0) && leb c.ends_at now

-- `{ status: 'SCHEDULED', startsAt: { lte: now }, endsAt: { gt: now } }`
abbrev pub is_beginning : ℕ → BoostCampaign → Bool
is_beginning now c = campaign_code c.status == 0 && (leb c.starts_at now && ltb now c.ends_at)

-- The two updates of the campaigns, in order.
unfoldable pub advance_campaigns : ℕ → List BoostCampaign → List BoostCampaign
advance_campaigns now cs =
    update_where (is_beginning now) (λ c. record c { status = CampaignStatus.active })
      (update_where (is_over now) (λ c. record c { status = CampaignStatus.expired }) cs)

-- Open for half an hour: `{ status: 'PENDING', createdAt: { lte: now - 30 * 60_000 } }`.
abbrev pub is_stale : ℕ → PaymentTransaction → Bool
is_stale now t = is_pending t.status && leb (t.created_at + 30 * 60000) now

-- The provider's answer for each order: the transaction that paid it, if there is one.
reconcile_each : ℕ → (ℕ → Option ℕ) → List PaymentTransaction → Action (Unit {0})
unfolding process_order
reconcile_each now lookup [] = pure tt
reconcile_each now lookup (t ∷ ts) = do
  elim (lookup t.provider_order_id) [
    | none ↦ pure tt
    | some provider_id ↦
        process_order now t.user_id t.payment_type provider_id t.provider_order_id none none
  ]
  reconcile_each now lookup ts

-- `reconcilePendingTransactions`
unfoldable pub reconcile_pending_transactions : ℕ → (ℕ → Option ℕ) → Action (Unit {0})
unfolding advance_campaigns reconcile_each
reconcile_pending_transactions now lookup = do
  modify (λ db. record db { properties = update_where (is_boost_over now) end_boost db.properties })
  modify (λ db. record db { campaigns = advance_campaigns now db.campaigns })
  stale ←
      gets (λ db.
        take 100 (sort_asc (λ t. t.created_at) (filter_where (is_stale now) db.transactions)))
  reconcile_each now lookup stale
