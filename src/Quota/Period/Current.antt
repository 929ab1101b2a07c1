-- ===== src/Quota/Period/Current.antt =====
-- The current period: it is running, and it is stable.
use propmatch_backend.Prelude.{
  ℕ, ◌+◌, ◌*◌, ◌<◌, ◌≤◌, ◌≡◌, refl, Option, none, some, inl, inr, true, false, ◌&&◌, not, ==-refl,
  Bool-cases, arith, is_some, update_where, [], ◌∷◌, ◌++◌, find?-append_new, find?-update_where,
  find?-fits,
}
use propmatch_backend.Calendar.{day_ms, add_month}
use propmatch_backend.Calendar.Bounds.{add_month_bounds}
use propmatch_backend.Catalog.{Plan, free, is_free, PlanAllowances}
use propmatch_backend.Store.{UserQuota, Db, ok, find_quota}
use propmatch_backend.Config.{get_plan_allowances}
use propmatch_backend.Quota.Period.{
  has_ended, plan_expired, effective_plan, effective_expiry, needs_refresh, refresh, first_quota,
  period_end, ensure_from, is_of, ensure_current_period,
}

-- A quota whose period has begun and not ended, and whose paid plan has not expired.
pub record IsCurrent (now : ℕ) (q : UserQuota) : Type 0 where
  pub begun : is_some q.current_period_starts_at ≡ true
  pub running : has_ended now q.current_period_ends_at ≡ false
  pub paid : plan_expired now q ≡ false

add_month_later : (t : ℕ) → t < add_month t
add_month_later t = omega (arith, add_month_bounds t)

first_quota-IsCurrent : (now user : ℕ) (a : PlanAllowances) → IsCurrent now (first_quota now user a)
unfolding first_quota
first_quota-IsCurrent now user a = ground (arith, add_month_later now)

first_quota-is_of : (now user : ℕ) (a : PlanAllowances) → is_of user (first_quota now user a) ≡ true
unfolding first_quota
first_quota-is_of now user a = ==-refl user

refresh-IsCurrent : (now : ℕ) (a : PlanAllowances) (q : UserQuota) → IsCurrent now (refresh now a q)
unfolding refresh
refresh-IsCurrent now a q = ground (arith, add_month_later now)

-- What needs no refresh is current.
kept-IsCurrent : (now : ℕ) (q : UserQuota) → needs_refresh now q ≡ false → IsCurrent now q
kept-IsCurrent now q h = ground arith

-- What is current needs no refresh.
IsCurrent-kept : (now : ℕ) (q : UserQuota) → IsCurrent now q → needs_refresh now q ≡ false
IsCurrent-kept now q h = ground arith

again :
    (now user : ℕ) (q : UserQuota) (db : Db)
    → IsCurrent now q
    → find_quota user db.quotas ≡ some q
    → ensure_current_period now user db ≡ (ok q, db)
unfolding ensure_current_period
again now user q db current stored = rw (stored, ensure_from) (rw (IsCurrent-kept now q current))

abbrev Ensured : ℕ → ℕ → UserQuota → Db → Type 0
Ensured now user q db = IsCurrent now q × (find_quota user db.quotas ≡ some q)

stored_refresh :
    (now user : ℕ) (a : PlanAllowances) (q : UserQuota) (db : Db)
    → find_quota user db.quotas ≡ some q
    → find_quota user (update_where (is_of user) (λ _. refresh now a q) db.quotas)
      ≡ some (refresh now a q)
unfolding refresh
stored_refresh now user a q db found =
    rw
      (find?-update_where (is_of user) (λ _. refresh now a q) db.quotas
        (λ x h. find?-fits (is_of user) db.quotas q found))
      (rw found)

ensure_from-Ensured :
    (now user : ℕ) (found : Option UserQuota) (db : Db)
    → find_quota user db.quotas ≡ found
    → (q : UserQuota) × (db' : Db) × (ensure_from now user found db ≡ (ok q, db'))
      × Ensured now user q db'
ensure_from-Ensured now user none db e =
    let q = first_quota now user (get_plan_allowances free db) in
    (
      q,
      record db { quotas = db.quotas ++ q ∷ [] },
      refl,
      (
        first_quota-IsCurrent now user (get_plan_allowances free db),
        find?-append_new (is_of user) db.quotas q e (first_quota-is_of now user _),
      ),
    )
ensure_from-Ensured now user (some old) db e = elim (Bool-cases (needs_refresh now old)) [
  | inl stale ↦
      let a = get_plan_allowances (effective_plan now old) db in
      (
        refresh now a old,
        record db { quotas = update_where (is_of user) (λ _. refresh now a old) db.quotas },
        rw stale,
        (refresh-IsCurrent now a old, stored_refresh now user a old db e),
      )
  | inr kept ↦ (old, db, rw kept, (kept-IsCurrent now old kept, e))
]

-- `ensureCurrentPeriod` never throws. The quota that it returns has a running period and, if its
-- plan is a paid one, a plan that has not expired; it is the one that is stored; and a second call
-- at the same time returns it again and writes nothing.
pub ensure_current_period_lem :
    (now user : ℕ) (db : Db)
    → (q : UserQuota) × (db' : Db) × (ensure_current_period now user db ≡ (ok q, db'))
      × IsCurrent now q
      × (find_quota user db'.quotas ≡ some q)
      × (ensure_current_period now user db' ≡ (ok q, db'))
ensure_current_period_lem now user db =
    let (q, db', e, (current, stored)) =
      ensure_from-Ensured now user (find_quota user db.quotas) db refl in
    (
      q,
      db',
      unfold ensure_current_period in e,
      current,
      stored,
      again now user q db' current stored,
    )

refresh_paid :
    (now : ℕ) (a : PlanAllowances) (q : UserQuota)
    → (not (is_free (effective_plan now q)) && has_ended now (effective_expiry now q)) ≡ false
unfolding refresh
refresh_paid now a q = (refresh-IsCurrent now a q).paid

-- The plan is free, or it has an expiry that is not before the date.
abbrev pub EndsBy : ℕ → Plan → Option ℕ → Type 0
EndsBy ends free expiry = Unit
EndsBy ends plan none = ⊥
EndsBy ends plan (some t) = ends ≤ t

period_end_bounds :
    (now : ℕ) (plan : Plan) (expiry : Option ℕ)
    → (not (is_free plan) && has_ended now expiry) ≡ false
    → let ends = period_end now plan expiry in
      (now < ends) × (ends ≤ now + 31 * day_ms) × EndsBy ends plan expiry
period_end_bounds now free none h = ground (arith, add_month_bounds now)
period_end_bounds now free (some t) h = ground (arith, add_month_bounds now)
period_end_bounds now plan none h = cc
period_end_bounds now plan (some t) h = ground (arith, add_month_bounds now)

-- A period that is over is replaced by one that begins now, with exactly the allowances of the plan
-- then in force: nothing of the old counters carries over, and the period ends 31 days on at the
-- latest and never after the paid plan.
pub refresh_lem :
    (now user : ℕ) (db : Db) (old : UserQuota)
    → find_quota user db.quotas ≡ some old
    → needs_refresh now old ≡ true
    → let plan = effective_plan now old in
      let allowances = get_plan_allowances plan db in
      (q : UserQuota) × (db' : Db) × (ends : ℕ) × (ensure_current_period now user db ≡ (ok q, db'))
      × (q.plan_type ≡ plan)
      × (q.free_offers_left ≡ allowances.offers)
      × (q.optimizer_uses_left ≡ allowances.ai_uses)
      × (q.boost_credits_left ≡ allowances.boost_credits)
      × (q.max_active_listings ≡ allowances.active_listings)
      × (q.current_period_starts_at ≡ some now)
      × (q.current_period_ends_at ≡ some ends)
      × (now < ends)
      × (ends ≤ now + 31 * day_ms)
      × EndsBy ends q.plan_type q.plan_expires_at
unfolding ensure_current_period refresh
refresh_lem now user db old found stale =
    let plan = effective_plan now old in
    let a = get_plan_allowances plan db in
    let ends = period_end now plan (effective_expiry now old) in
    let (later, soon, inside) =
      period_end_bounds now plan (effective_expiry now old) (refresh_paid now a old) in
    (
      refresh now a old,
      record db { quotas = update_where (is_of user) (λ _. refresh now a old) db.quotas },
      ends,
      rw (found, ensure_from) (rw stale),
      refl,
      refl,
      refl,
      refl,
      refl,
      refl,
      refl,
      later,
      soon,
      inside,
    )
