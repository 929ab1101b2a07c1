-- ===== src/Config/Plans.antt =====
-- What an administrator's change of a plan does to the quotas in use.
use Prim.Native.Nat.{min}
use mathlib.Core.Option
use propmatch_backend.Prelude.{
  ℕ, ◌+◌, ◌-◌, ◌≡◌, ◌≢◌, refl, some, inl, inr, List, [], ◌∷◌, Bool, true, false, ◌==◌, ==-refl,
  if◌then◌else◌, Option-cases, arith, find?, find?-append_new, find?-update_where,
  find?-update_other, find?-fits,
}
use propmatch_backend.Catalog.{Plan, PlanAllowances, plan_code}
use propmatch_backend.Store.{UserQuota, find_quota, Db}
use propmatch_backend.Config.{find_plan, get_plan_allowances, rebase_quota, save_plan, update_plan}

get_plan_allowances-save_plan :
    (actor : ℕ) (plan : Plan) (next : PlanAllowances) (db : Db)
    → get_plan_allowances plan (save_plan actor plan next db).1 ≡ next
unfolding get_plan_allowances save_plan
get_plan_allowances-save_plan actor plan next db =
    elim (Option-cases (find_plan plan db.plan_configurations)) [
      | inl new ↦
          rw (new, save_plan)
            (rw (
              find?-append_new (λ row. plan_code row.plan_type == plan_code plan)
                db.plan_configurations
                (record {
                  id = db.next_id;
                  plan_type = plan;
                  allowances = next;
                  updated_by_id = actor;
                })
                new (==-refl (plan_code plan))))
      | inr (old, e) ↦
          rw (e, save_plan)
            (rw (
              find?-update_where (λ row. plan_code row.plan_type == plan_code plan)
                  (λ row. record row { allowances = next; updated_by_id = actor })
                  db.plan_configurations (λ x h. h),
              e,
            ))
    ]

save_plan-quotas :
    (actor : ℕ) (plan : Plan) (next : PlanAllowances) (db : Db)
    → (save_plan actor plan next db).1.quotas ≡ db.quotas
unfolding save_plan
save_plan-quotas actor plan next db = ground arith

plan_code_ne : (a b : Plan) → a ≢ b → (plan_code a == plan_code b) ≡ false
plan_code_ne a b h = ground arith

update_plan-reads :
    (actor : ℕ) (plan : Plan) (next : PlanAllowances) (db : Db)
    → get_plan_allowances plan (update_plan actor (some plan) next db).1 ≡ next
unfolding update_plan get_plan_allowances
update_plan-reads actor plan next db =
    unfold get_plan_allowances in get_plan_allowances-save_plan actor plan next db

find_quota-rebase :
    (user : ℕ) (plan : Plan) (previous next : PlanAllowances) (rows : List UserQuota)
    → find_quota user (
        propmatch_backend.Prelude.update_where
          (λ q. plan_code q.plan_type == plan_code plan)
          (rebase_quota previous next)
          rows)
      ≡ Option.map
          (λ q. if plan_code q.plan_type == plan_code plan then rebase_quota previous next q else q)
          (find_quota user rows)
unfolding rebase_quota
find_quota-rebase user plan previous next [] = refl
find_quota-rebase user plan previous next (q ∷ rows) =
    ground (arith, find_quota-rebase user plan previous next rows)

-- After an accepted change of a plan, later readers get the new allowances; each counter of a quota
-- of that plan then falls short of its new allowance by what the user had used of the old one, or
-- is 0 if that was more; the plan, its expiry and the period stay as they were.
pub update_plan-keeps_use :
    (actor : ℕ) (plan : Plan) (next : PlanAllowances) (db : Db) (user : ℕ) (q : UserQuota)
    → find_quota user db.quotas ≡ some q
    → q.plan_type ≡ plan
    → let previous = get_plan_allowances plan db in
      let db' = (update_plan actor (some plan) next db).1 in
      (q' : UserQuota) × (find_quota user db'.quotas ≡ some q')
      × (get_plan_allowances plan db' ≡ next)
      × (q'.max_active_listings ≡ next.active_listings)
      × (q'.free_offers_left + min (previous.offers - q.free_offers_left) next.offers ≡ next.offers)
      × (q'.optimizer_uses_left + min (previous.ai_uses - q.optimizer_uses_left) next.ai_uses
          ≡ next.ai_uses)
      × (q'.boost_credits_left
            + min (previous.boost_credits - q.boost_credits_left) next.boost_credits
          ≡ next.boost_credits)
      × (q'.plan_type ≡ plan)
      × (q'.plan_expires_at ≡ q.plan_expires_at)
      × (q'.current_period_ends_at ≡ q.current_period_ends_at)
unfolding update_plan
update_plan-keeps_use actor plan next db user q found same =
    let previous = get_plan_allowances plan db in
    let moved = find_quota-rebase user plan previous next db.quotas in
    let kept = save_plan-quotas actor plan next db in
    let read = get_plan_allowances-save_plan actor plan next db in
    (
      rebase_quota previous next q,
      rw (kept, moved, found, same, ==-refl (plan_code plan)),
      update_plan-reads actor plan next db,
      refl,
      omega arith,
      omega arith,
      omega arith,
      same,
      refl,
      refl,
    )

-- A change of one plan leaves the quotas of the users on another plan alone.
pub update_plan-others :
    (actor : ℕ) (plan : Plan) (next : PlanAllowances) (db : Db) (user : ℕ) (q : UserQuota)
    → find_quota user db.quotas ≡ some q
    → q.plan_type ≢ plan
    → find_quota user (update_plan actor (some plan) next db).1.quotas ≡ some q
unfolding update_plan
update_plan-others actor plan next db user q found other =
    let moved = find_quota-rebase user plan (get_plan_allowances plan db) next db.quotas in
    rw (save_plan-quotas actor plan next db, moved, found)
      (ground (arith, plan_code_ne q.plan_type plan other))
