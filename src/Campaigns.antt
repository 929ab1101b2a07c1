-- ===== src/Campaigns.antt =====
-- The queue of boost campaigns of a property, as src/quota/quota.service.ts (`activatePlanBoost`) and
-- src/payments/payments.service.ts (`processSuccessfulPayment`) both keep it: a new campaign starts
-- when the last live one ends.
pub mod Queue
use propmatch_backend.Prelude.{
  ℕ, Option, none, some, List, Bool, ◌&&◌, ◌||◌, ◌==◌, ltb, leb, if◌then◌else◌, last_by,
}
use propmatch_backend.Store.{BoostCampaign, CampaignStatus}

abbrev pub campaign_code : CampaignStatus → ℕ
campaign_code CampaignStatus.scheduled = 0
campaign_code CampaignStatus.active = 1
campaign_code CampaignStatus.expired = 2
campaign_code CampaignStatus.cancelled = 3

-- `{ propertyId, status: { in: ['ACTIVE', 'SCHEDULED'] }, endsAt: { gt: now } }`
abbrev pub is_live : ℕ → ℕ → BoostCampaign → Bool
is_live now property c =
    c.property_id == property
    && ((campaign_code c.status == 1 || campaign_code c.status == 0) && ltb now c.ends_at)

abbrev pub starts_after : ℕ → Option BoostCampaign → ℕ
starts_after now none = now
starts_after now (some c) = c.ends_at

-- `latestCampaign?.endsAt ?? now`
unfoldable pub latest_end : ℕ → ℕ → List BoostCampaign → ℕ
latest_end now property campaigns =
    starts_after now (last_by (is_live now property) (λ c. c.ends_at) campaigns)

-- `startsAt <= now ? 'ACTIVE' : 'SCHEDULED'`
abbrev pub status_at : ℕ → ℕ → CampaignStatus
status_at now starts = if leb starts now then CampaignStatus.active else CampaignStatus.scheduled
