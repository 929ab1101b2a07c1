-- ===== src/Quota/Boosts/Queued.antt =====
-- A boost of the plan is queued behind the live campaigns, and costs a credit only if it is queued.
use propmatch_backend.Prelude.{ℕ, ◌≡◌, ◌∙◌, sym, refl, inl, inr, Option-cases, arith}
use propmatch_backend.Catalog.{boost_7d}
use propmatch_backend.Store.{
  UserQuota, Db, Error, ok, err, transaction, transaction-err, find_quota,
}
use propmatch_backend.Campaigns.Queue.{IsQueue, snoc-IsQueue}
use propmatch_backend.Config.{get_plan_allowances, get_product}
use propmatch_backend.Quota.Period.{ensure_current_period}
use propmatch_backend.Quota.Period.Current.{ensure_current_period_lem}
use propmatch_backend.Quota.Boosts.{
  spend_credit, queue_plan_boost, boost_property, activate_plan_boost,
}

ensure-campaigns :
    (now user : ℕ) (db : Db) → (ensure_current_period now user db).1.campaigns ≡ db.campaigns
unfolding ensure_current_period
ensure-campaigns now user db = elim (Option-cases (find_quota user db.quotas)) [
  | inl missing ↦ ground arith
  | inr (q, found) ↦ ground arith
]

spend_credit-campaigns : (user : ℕ) (db : Db) → (spend_credit user db).1.campaigns ≡ db.campaigns
unfolding spend_credit
spend_credit-campaigns user db = refl

queue_plan_boost-IsQueue :
    (now user property days : ℕ) (db : Db)
    → IsQueue now property db.campaigns
    → IsQueue now property (queue_plan_boost now user property days db).campaigns
unfolding queue_plan_boost
queue_plan_boost-IsQueue now user property days db h =
    snoc-IsQueue now property db.campaigns _ refl h

module _ (now user property days price : ℕ) where
  boost_property-IsQueue :
      (db db' : Db) (r : ℕ × ℕ)
      → IsQueue now property db.campaigns
      → transaction (boost_property now user property days price) db ≡ (ok r, db')
      → IsQueue now property db'.campaigns
  unfolding boost_property
  boost_property-IsQueue db db' r h e =
      let spent = spend_credit-campaigns user db in
      let queued =
        queue_plan_boost-IsQueue now user property days (spend_credit user db).1 (rw spent h) in
      let same : db'.campaigns
          ≡ (queue_plan_boost now user property days (spend_credit user db).1).campaigns =
        ground arith in
      rw same queued

activate-eq :
    (now user property : ℕ) (db mid : Db) (q : UserQuota)
    → ensure_current_period now user db ≡ (ok q, mid)
    → activate_plan_boost now user property db
      ≡ transaction
          (boost_property now user property
            (get_plan_allowances q.plan_type mid).boost_duration_days
            (get_product boost_7d mid).price_egp)
          mid
unfolding activate_plan_boost
activate-eq now user property db mid q e = ground arith

-- A boost from the plan's credits keeps the live campaigns of the property free of overlaps.
pub activate_plan_boost-IsQueue :
    (now user property : ℕ) (db db' : Db) (r : ℕ × ℕ)
    → IsQueue now property db.campaigns
    → activate_plan_boost now user property db ≡ (ok r, db')
    → IsQueue now property db'.campaigns
activate_plan_boost-IsQueue now user property db db' r h e =
    let (q, mid, ensured, _, _, _) = ensure_current_period_lem now user db in
    let same : mid.campaigns ≡ db.campaigns = rw ensured at (ensure-campaigns now user db) in
    let step = activate-eq now user property db mid q ensured in
    boost_property-IsQueue now user property
      (get_plan_allowances q.plan_type mid).boost_duration_days (get_product boost_7d mid).price_egp
      mid db' r (rw same h) (sym step ∙ e)

-- A boost that is refused, for whatever reason, costs no credit and queues nothing.
pub activate_plan_boost_refused :
    (now user property : ℕ) (db db' : Db) (e : Error)
    → activate_plan_boost now user property db ≡ (err e, db')
    → db' ≡ (ensure_current_period now user db).1
activate_plan_boost_refused now user property db db' e h =
    let (q, mid, ensured, _, _, _) = ensure_current_period_lem now user db in
    let step = activate-eq now user property db mid q ensured in
    transaction-err
      (boost_property now user property (get_plan_allowances q.plan_type mid).boost_duration_days
        (get_product boost_7d mid).price_egp)
      mid db' e (sym step ∙ h)
    ∙ rw ensured
