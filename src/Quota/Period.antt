-- ===== src/Quota/Period.antt =====
-- src/quota/quota.service.ts, `ensureCurrentPeriod`: a plan or a period that is over is replaced
-- before anything else is done. `now` is the clock reading of one request.
pub mod Current
use propmatch_backend.Prelude.{
  ℕ, Option, none, some, [], ◌∷◌, ◌++◌, Bool, true, false, not, ◌&&◌, ◌||◌, ltb, leb, ◌==◌,
  if◌then◌else◌, is_some, or_else, update_where,
}
use propmatch_backend.Calendar.{add_month}
use propmatch_backend.Catalog.{Plan, free, is_free, PlanAllowances}
use propmatch_backend.Store.{UserQuota, Action, ok, find_quota}
use propmatch_backend.Config.{get_plan_allowances}

-- `!date || date <= now`
abbrev pub has_ended : ℕ → Option ℕ → Bool
has_ended now none = true
has_ended now (some t) = leb t now

-- `date !== null && date <= now`
abbrev pub has_begun : ℕ → Option ℕ → Bool
has_begun now none = false
has_begun now (some t) = leb t now

-- `planExpired`
abbrev pub plan_expired : ℕ → UserQuota → Bool
plan_expired now q = not (is_free q.plan_type) && has_ended now q.plan_expires_at

-- `activatePendingPlan`
abbrev pub activates_pending : ℕ → UserQuota → Bool
activates_pending now q =
    plan_expired now q
    && (is_some q.pending_plan_type
        && (has_begun now q.pending_plan_starts_at
            && not (has_ended now q.pending_plan_expires_at)))

-- `effectivePlan`
abbrev pub effective_plan : ℕ → UserQuota → Plan
effective_plan now q =
    if activates_pending now q
    then or_else q.pending_plan_type free
    else if plan_expired now q
    then free
    else q.plan_type

-- `effectivePlanExpiresAt`
abbrev pub effective_expiry : ℕ → UserQuota → Option ℕ
effective_expiry now q =
    if activates_pending now q
    then q.pending_plan_expires_at
    else if plan_expired now q
    then none
    else q.plan_expires_at

-- `planExpired || periodExpired || !quota.currentPeriodStartsAt`
abbrev pub needs_refresh : ℕ → UserQuota → Bool
needs_refresh now q =
    plan_expired now q
    || (has_ended now q.current_period_ends_at || not (is_some q.current_period_starts_at))

-- A month from now, or the end of a paid plan if that is sooner.
abbrev pub period_end : ℕ → Plan → Option ℕ → ℕ
period_end now plan none = add_month now
period_end now plan (some expiry) =
    if not (is_free plan) && ltb expiry (add_month now) then expiry else add_month now

-- The columns that `ensureCurrentPeriod` writes when the period or the plan is over.
unfoldable pub refresh : ℕ → PlanAllowances → UserQuota → UserQuota
refresh now allowances q =
    let taken = activates_pending now q in
    record q {
      plan_type = effective_plan now q;
      plan_expires_at = effective_expiry now q;
      billing_interval =
          if taken
          then q.pending_billing_interval
          else if plan_expired now q
          then none
          else q.billing_interval;
      pending_plan_type = if taken then none else q.pending_plan_type;
      pending_billing_interval = if taken then none else q.pending_billing_interval;
      pending_plan_starts_at = if taken then none else q.pending_plan_starts_at;
      pending_plan_expires_at = if taken then none else q.pending_plan_expires_at;
      max_active_listings = allowances.active_listings;
      free_offers_left = allowances.offers;
      optimizer_uses_left = allowances.ai_uses;
      boost_credits_left = allowances.boost_credits;
      current_period_starts_at = some now;
      current_period_ends_at =
          some (period_end now (effective_plan now q) (effective_expiry now q));
      last_reset_date = now;
    }

-- The quota of a user that has none yet.
unfoldable pub first_quota : ℕ → ℕ → PlanAllowances → UserQuota
first_quota now user allowances = record {
  user_id = user;
  plan_type = free;
  plan_expires_at = none;
  max_active_listings = allowances.active_listings;
  optimizer_uses_left = allowances.ai_uses;
  free_offers_left = allowances.offers;
  boost_credits_left = allowances.boost_credits;
  billing_interval = none;
  current_period_starts_at = some now;
  current_period_ends_at = some (add_month now);
  listing_grace_ends_at = none;
  pending_plan_type = none;
  pending_billing_interval = none;
  pending_plan_starts_at = none;
  pending_plan_expires_at = none;
  last_reset_date = now;
}

abbrev pub is_of : ℕ → UserQuota → Bool
is_of user q = q.user_id == user

abbrev pub ensure_from : ℕ → ℕ → Option UserQuota → Action UserQuota
ensure_from now user none db =
    let q = first_quota now user (get_plan_allowances free db) in
    (ok q, record db { quotas = db.quotas ++ q ∷ [] })
ensure_from now user (some q) db =
    let q' = refresh now (get_plan_allowances (effective_plan now q) db) q in
    if needs_refresh now q
    then (ok q', record db { quotas = update_where (is_of user) (λ _. q') db.quotas })
    else (ok q, db)

-- `ensureCurrentPeriod`
unfoldable pub ensure_current_period : ℕ → ℕ → Action UserQuota
unfolding refresh first_quota
ensure_current_period now user db = ensure_from now user (find_quota user db.quotas) db
