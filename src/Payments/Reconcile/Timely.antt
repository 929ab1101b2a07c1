-- ===== src/Payments/Reconcile/Timely.antt =====
-- After the hourly pass the state of every campaign fits the time.
use propmatch_backend.Prelude.{ℕ, ◌≡◌, refl, List, [], ◌∷◌, false, arith, All, map}
use propmatch_backend.Store.{BoostCampaign}
use propmatch_backend.Payments.Reconcile.{is_over, is_beginning, advance_campaigns}

-- A campaign that is planned has not begun, and one that runs has not ended.
abbrev pub IsTimely : ℕ → BoostCampaign → Type 0
IsTimely now c = (is_over now c ≡ false) × (is_beginning now c ≡ false)

-- After the two updates no campaign that has ended is still planned or running, and none that has
-- begun is still planned.
pub advance_campaigns-IsTimely :
    (now : ℕ) (cs : List BoostCampaign) → All (IsTimely now) (advance_campaigns now cs)
unfolding advance_campaigns
advance_campaigns-IsTimely now [] = tt
advance_campaigns-IsTimely now (c ∷ cs) = (ground arith, advance_campaigns-IsTimely now cs)

-- The terms of the campaigns are not moved.
advance_campaigns-terms :
    (now : ℕ) (cs : List BoostCampaign)
    → map {B = ℕ × ℕ} (λ c. (c.starts_at, c.ends_at)) (advance_campaigns now cs)
      ≡ map {B = ℕ × ℕ} (λ c. (c.starts_at, c.ends_at)) cs
unfolding advance_campaigns
advance_campaigns-terms now [] = refl
advance_campaigns-terms now (c ∷ cs) = ground (arith, advance_campaigns-terms now cs)
