-- ===== src/Payments/Delivery/Plans.antt =====
-- What a payment for a plan does to the buyer's quota.
use mathlib.Core.Path.{ap₂}
use propmatch_backend.Prelude.{
  ℕ, ◌+◌, ◌*◌, ◌≤◌, ◌<◌, ◌≡◌, ◌≢◌, ◌⊎◌, refl, some, inl, inr, List, [], ◌∷◌, true, false, ◌&&◌, ltb,
  leb, ◌==◌, if◌then◌else◌, Bool-cases, arith, update_where, find?-update_where,
}
use propmatch_backend.Calendar.{day_ms}
use propmatch_backend.Calendar.Bounds.{add_month_bounds, add_year_bounds}
use propmatch_backend.Catalog.{
  Plan, free, owner_plus, premium, Billing, monthly, yearly, one_time, PlanAllowances,
}
use propmatch_backend.Store.{UserQuota, Db, find_quota}
use propmatch_backend.Quota.Period.{is_of, activates_pending}
use propmatch_backend.Payments.Delivery.{
  target_rank, current_rank, current_is_active, duration_end, expiry_of, schedule_plan, extend_plan,
  start_plan, subscribe,
}

-- A term lasts at least 28 days.
duration_end_bound : (b : Billing) (t : ℕ) → t + 28 * day_ms ≤ duration_end b t
duration_end_bound monthly t = omega (arith, add_month_bounds t)
duration_end_bound yearly t = omega (arith, add_year_bounds t)
duration_end_bound one_time t = omega (arith, add_month_bounds t)

-- The buyer's quota after a payment, by the case that applies.
pub bought_quota : ℕ → Plan → Billing → PlanAllowances → UserQuota → UserQuota
bought_quota paid_at target billing a q =
    if current_is_active paid_at (some q) && ltb (target_rank target) (current_rank (some q))
    then schedule_plan target billing (expiry_of paid_at (some q)) q
    else if current_is_active paid_at (some q) && target_rank target == current_rank (some q)
    then extend_plan billing (expiry_of paid_at (some q)) q
    else start_plan paid_at target billing a q

schedule_plan-user_id :
    (p : Plan) (b : Billing) (t : ℕ) (q : UserQuota) → (schedule_plan p b t q).user_id ≡ q.user_id
unfolding schedule_plan
schedule_plan-user_id p b t q = refl

extend_plan-user_id :
    (b : Billing) (t : ℕ) (q : UserQuota) → (extend_plan b t q).user_id ≡ q.user_id
unfolding extend_plan
extend_plan-user_id b t q = refl

start_plan-user_id :
    (t : ℕ) (p : Plan) (b : Billing) (a : PlanAllowances) (q : UserQuota)
    → (start_plan t p b a q).user_id ≡ q.user_id
unfolding start_plan
start_plan-user_id t p b a q = refl

find-update :
    (user : ℕ) (f : UserQuota → UserQuota) (rows : List UserQuota) (q : UserQuota)
    → ((x : UserQuota) → (f x).user_id ≡ x.user_id)
    → find_quota user rows ≡ some q
    → find_quota user (update_where (is_of user) f rows) ≡ some (f q)
find-update user f rows q keep found =
    rw (find?-update_where (is_of user) f rows (λ x h. rw (keep x) h)) (rw found)

find-subscribe :
    (paid_at user : ℕ) (target : Plan) (billing : Billing) (a : PlanAllowances) (q : UserQuota)
    (db : Db)
    → find_quota user db.quotas ≡ some q
    → find_quota user (subscribe paid_at user target billing a (some q) db).quotas
      ≡ some (bought_quota paid_at target billing a q)
unfolding subscribe bought_quota
find-subscribe paid_at user target billing a q db found = ground (
  arith,
  find-update user (schedule_plan target billing (expiry_of paid_at (some q))) db.quotas q
      (schedule_plan-user_id target billing (expiry_of paid_at (some q))) found,
  find-update user (extend_plan billing (expiry_of paid_at (some q))) db.quotas q
      (extend_plan-user_id billing (expiry_of paid_at (some q))) found,
  find-update user (start_plan paid_at target billing a) db.quotas q
      (start_plan-user_id paid_at target billing a) found,
)

-- The buyer has a plan until a date: as the plan of the row, or, below a higher one, as the plan that
-- follows when that one ends.
abbrev pub HasPlan : Plan → ℕ → UserQuota → Type 0
HasPlan target until q =
    ((q.plan_type ≡ target) × (q.plan_expires_at ≡ some until))
    ⊎ ((target_rank target < current_rank (some q))
        × (q.pending_plan_type ≡ some target)
        × (q.pending_plan_starts_at ≡ q.plan_expires_at)
        × (q.pending_plan_expires_at ≡ some until))

ltb-false : (a b : ℕ) → ltb a b ≡ false → b ≤ a
ltb-false a b h = ground arith

-- Where the new term begins: at the end of a running plan that is not lower, or at the payment.
abbrev pub term_begins : ℕ → Plan → UserQuota → ℕ
term_begins paid_at target q =
    if current_is_active paid_at (some q) && leb (target_rank target) (current_rank (some q))
    then expiry_of paid_at (some q)
    else paid_at

-- The rank of the plan that is running.
abbrev pub running_rank : ℕ → UserQuota → ℕ
running_rank paid_at q = if current_is_active paid_at (some q) then current_rank (some q) else 0

module _ (paid_at : ℕ) (target : Plan) (billing : Billing) (a : PlanAllowances)
    (q : UserQuota) where
  -- A payment for a plan from which the buyer is served, and until when.
  serves : ℕ
  serves = duration_end billing (
      if current_is_active paid_at (some q) && leb (target_rank target) (current_rank (some q))
      then expiry_of paid_at (some q)
      else paid_at)

  scheduled-HasPlan :
      current_is_active paid_at (some q) ≡ true
      → ltb (target_rank target) (current_rank (some q)) ≡ true
      → HasPlan target serves (schedule_plan target billing (expiry_of paid_at (some q)) q)
  unfolding schedule_plan serves
  scheduled-HasPlan active lower = inr (ground arith, refl, ground arith, ground arith)

  extended-HasPlan :
      target ≢ free
      → current_is_active paid_at (some q) ≡ true
      → (target_rank target == current_rank (some q)) ≡ true
      → HasPlan target serves (extend_plan billing (expiry_of paid_at (some q)) q)
  unfolding extend_plan serves
  extended-HasPlan h active same = inl (ground arith, ground arith)

  started-HasPlan :
      (current_is_active paid_at (some q) && leb (target_rank target) (current_rank (some q)))
        ≡ false
      → HasPlan target serves (start_plan paid_at target billing a q)
  unfolding start_plan serves
  started-HasPlan h = inl (refl, ground arith)

  bought_quota-HasPlan :
      target ≢ free → HasPlan target serves (bought_quota paid_at target billing a q)
  unfolding bought_quota
  bought_quota-HasPlan h = elim (Bool-cases (current_is_active paid_at (some q))) [
    | inr idle ↦ rw idle (started-HasPlan (rw idle refl))
    | inl active ↦ elim (Bool-cases (ltb (target_rank target) (current_rank (some q)))) [
      | inl lower ↦ rw (active, lower) (scheduled-HasPlan active lower)
      | inr not_lower ↦ elim (Bool-cases (target_rank target == current_rank (some q))) [
        | inl same ↦ rw (active, not_lower, same) (extended-HasPlan h active same)
        | inr higher ↦ rw (active, not_lower, higher) (started-HasPlan (ground arith))
      ]
    ]
  ]

  serves-bound : term_begins paid_at target q + 28 * day_ms ≤ serves
  unfolding serves
  serves-bound = duration_end_bound billing (term_begins paid_at target q)

  running_rank-le : running_rank paid_at q ≤ current_rank (some q)
  running_rank-le = elim (Bool-cases (current_is_active paid_at (some q))) [
    | inl active ↦ rw active (omega arith)
    | inr not_active ↦ rw not_active (omega arith)
  ]

  started-rank :
      target ≢ free
      → current_rank (some (start_plan paid_at target billing a q)) ≡ target_rank target
  unfolding start_plan
  started-rank h = ground arith

  scheduled-rank :
      (t : ℕ) → current_rank (some (schedule_plan target billing t q)) ≡ current_rank (some q)
  unfolding schedule_plan
  scheduled-rank t = refl

  extended-rank : (t : ℕ) → current_rank (some (extend_plan billing t q)) ≡ current_rank (some q)
  unfolding extend_plan
  extended-rank t = refl

  -- A plan that begins now is not below the one that runs.
  not_below :
      (current_is_active paid_at (some q) && ltb (target_rank target) (current_rank (some q)))
        ≡ false
      → running_rank paid_at q ≤ target_rank target
  not_below h = elim (Bool-cases (current_is_active paid_at (some q))) [
    | inl active ↦
        rw active (ltb-false (target_rank target) (current_rank (some q)) (rw active at h))
    | inr not_active ↦ rw not_active (omega arith)
  ]

  bought_quota-rank :
      target ≢ free
      → running_rank paid_at q ≤ current_rank (some (bought_quota paid_at target billing a q))
  unfolding bought_quota
  bought_quota-rank h =
      let lower =
        current_is_active paid_at (some q) && ltb (target_rank target) (current_rank (some q)) in
      let same =
        current_is_active paid_at (some q) && target_rank target == current_rank (some q) in
      elim (Bool-cases lower) [
        | inl later ↦ rw later (rw (scheduled-rank (expiry_of paid_at (some q))) running_rank-le)
        | inr now ↦ rw now (elim (Bool-cases same) [
          | inl again ↦ rw again (rw (extended-rank (expiry_of paid_at (some q))) running_rank-le)
          | inr fresh ↦ rw fresh (rw (started-rank h) (not_below now))
        ])
      ]

-- After a payment for a plan the buyer has that plan, or a higher one and then that plan from its
-- end, for at least 28 days more, counted from the end of a running plan that is not lower, and
-- else from the payment; and a running plan is not replaced by a lower one.
pub subscribe_serves :
    (paid_at user : ℕ) (target : Plan) (billing : Billing) (a : PlanAllowances) (q : UserQuota)
    (db : Db)
    → target ≢ free
    → find_quota user db.quotas ≡ some q
    → (q' : UserQuota) × (until : ℕ) × (find_quota user
          (subscribe paid_at user target billing a (some q) db).quotas
        ≡ some q')
      × HasPlan target until q'
      × (term_begins paid_at target q + 28 * day_ms ≤ until)
      × (running_rank paid_at q ≤ current_rank (some q'))
subscribe_serves paid_at user target billing a q db paid found = (
  bought_quota paid_at target billing a q,
  serves paid_at target billing a q,
  find-subscribe paid_at user target billing a q db found,
  bought_quota-HasPlan paid_at target billing a q paid,
  serves-bound paid_at target billing a q,
  bought_quota-rank paid_at target billing a q paid,
)

update_twice :
    (user : ℕ) (f : UserQuota → UserQuota) (rows : List UserQuota)
    → ((x : UserQuota) → (f x).user_id ≡ x.user_id)
    → ((x : UserQuota) → f (f x) ≡ f x)
    → update_where (is_of user) f (update_where (is_of user) f rows)
      ≡ update_where (is_of user) f rows
update_twice user f [] keep twice = refl
update_twice user f (r ∷ rows) keep twice = elim (Bool-cases (is_of user r)) [
  | inl here ↦
      let kept : is_of user (f r) ≡ true = rw (keep r) here in
      rw here (rw kept (ap₂ ◌∷◌ (twice r) (update_twice user f rows keep twice)))
  | inr there ↦ rw there (rw there (rw (update_twice user f rows keep twice)))
]

-- A premium quota whose plan runs beyond a date.
pub record RunsPremium (at ends : ℕ) (q : UserQuota) : Type 0 where
  pub is_premium : q.plan_type ≡ premium
  pub expiry : q.plan_expires_at ≡ some ends
  pub running : at < ends

module _ (at ends user : ℕ) (billing : Billing) (a : PlanAllowances) (q : UserQuota) (db : Db)
    (runs : RunsPremium at ends q) where
  lower_scheduled : subscribe at user owner_plus billing a (some q) db ≡ record db {
    quotas = update_where (is_of user) (schedule_plan owner_plus billing ends) db.quotas;
  }
  unfolding subscribe
  lower_scheduled = ground arith

schedule_again :
    (b : Billing) (t : ℕ) (q : UserQuota)
    → schedule_plan owner_plus b t (schedule_plan owner_plus b t q) ≡ schedule_plan owner_plus b t q
unfolding schedule_plan
schedule_again b t q = refl

-- A second payment for the lower plan, with the same billing and made before the running premium plan
-- ends, changes nothing: the plan that was put off by the first is put off to the same dates.
pub downgrade_twice :
    (paid_at later ends user : ℕ) (billing : Billing) (a a' : PlanAllowances) (q q' : UserQuota)
    (db : Db)
    → RunsPremium paid_at ends q
    → RunsPremium later ends q'
    → let db' = subscribe paid_at user owner_plus billing a (some q) db in
      subscribe later user owner_plus billing a' (some q') db' ≡ db'
downgrade_twice paid_at later ends user billing a a' q q' db runs runs' = rw (
  lower_scheduled paid_at ends user billing a q db runs,
  lower_scheduled later ends user billing a' q' _ runs',
  update_twice user (schedule_plan owner_plus billing ends) db.quotas
      (schedule_plan-user_id owner_plus billing ends) (schedule_again billing ends),
)

module _ (at ends : ℕ) (a : PlanAllowances) (q : UserQuota) (runs : RunsPremium at ends q) where
  bought_lower : bought_quota at owner_plus monthly a q ≡ schedule_plan owner_plus monthly ends q
  unfolding bought_quota
  bought_lower = ground arith

  bought_again : bought_quota at premium monthly a q ≡ extend_plan monthly ends q
  unfolding bought_quota
  bought_again = ground arith

scheduled-RunsPremium :
    (at later ends : ℕ) (q : UserQuota)
    → RunsPremium at ends q
    → later < ends
    → RunsPremium later ends (schedule_plan owner_plus monthly ends q)
unfolding schedule_plan
scheduled-RunsPremium at later ends q runs early = record {
  is_premium = runs.is_premium;
  expiry = runs.expiry;
  running = early;
}

extended_pending :
    (now ends : ℕ) (q : UserQuota)
    → let q'' = extend_plan monthly ends (schedule_plan owner_plus monthly ends q) in
      (q''.pending_plan_type ≡ some owner_plus) × (activates_pending now q'' ≡ false)
unfolding extend_plan schedule_plan
extended_pending now ends q = ground arith

renewed_pending :
    (now paid_at later ends : ℕ) (a a' : PlanAllowances) (q : UserQuota)
    → RunsPremium paid_at ends q
    → later < ends
    → let q'' =
        bought_quota later premium monthly a' (bought_quota paid_at owner_plus monthly a q) in
      (q''.pending_plan_type ≡ some owner_plus) × (activates_pending now q'' ≡ false)
renewed_pending now paid_at later ends a a' q runs early = rw (bought_lower paid_at ends a q runs) (
    rw
      (bought_again later ends a' (schedule_plan owner_plus monthly ends q)
        (scheduled-RunsPremium paid_at later ends q runs early))
      (extended_pending now ends q))

-- A month of the lower plan that was put off is lost if the running premium plan is renewed for a
-- month before it ends: at no time does the plan that was put off become the current one.
pub renewal_drops_pending :
    (now paid_at later ends user : ℕ) (a a' : PlanAllowances) (q : UserQuota) (db : Db)
    → find_quota user db.quotas ≡ some q
    → RunsPremium paid_at ends q
    → later < ends
    → let db' = subscribe paid_at user owner_plus monthly a (some q) db in
      let q' = bought_quota paid_at owner_plus monthly a q in
      let db'' = subscribe later user premium monthly a' (some q') db' in
      (q'' : UserQuota) × (find_quota user db'.quotas ≡ some q')
      × (find_quota user db''.quotas ≡ some q'')
      × (q''.pending_plan_type ≡ some owner_plus)
      × (activates_pending now q'' ≡ false)
renewal_drops_pending now paid_at later ends user a a' q db found runs early =
    let found' = find-subscribe paid_at user owner_plus monthly a q db found in
    let q' = bought_quota paid_at owner_plus monthly a q in
    let db' = subscribe paid_at user owner_plus monthly a (some q) db in
    (
      bought_quota later premium monthly a' q',
      found',
      find-subscribe later user premium monthly a' q' db' found',
      (renewed_pending now paid_at later ends a a' q runs early).0,
      (renewed_pending now paid_at later ends a a' q runs early).1,
    )
