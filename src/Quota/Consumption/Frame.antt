-- ===== src/Quota/Consumption/Frame.antt =====
-- The columns that a consumption leaves alone.
use propmatch_backend.Prelude.{
  ℕ, zero, suc, ◌-◌, ◌≡◌, ◌∙◌, refl, sym, ap, Option, none, some, inl, inr, Bool, true, false,
  Bool-cases, arith,
}
use propmatch_backend.Store.{
  UserQuota, EntitlementGrant, Db, Action, gets, ◌>>=◌, Result, ok, err, transaction, find_quota,
}
use propmatch_backend.Quota.Period.{ensure_from, needs_refresh, ensure_current_period}
use propmatch_backend.Quota.Period.Current.{ensure_current_period_lem}
use propmatch_backend.Quota.Consumption.{
  Consumable, offer, type_of, soonest_grant, takes_grant, spend, spend_grant, spend_quota,
  remaining, quota_or_throw, consume_with_client, with_consumed_offer,
}
use propmatch_backend.Quota.Consumption.Totals.{
  IsKeyed, IsLeft, available, taken_from, consume_with_client_lem,
}
use propmatch_backend.Quota.Consumption.Atomic.{consumption, with_consumed_offer-eq}

-- Two databases that differ in quotas and grants at most.
abbrev pub SameButQuota : Db → Db → Type 0
SameButQuota db db' = db' ≡ record db { quotas = db'.quotas; grants = db'.grants }

ensure_from_frame :
    (now user : ℕ) (o : Option UserQuota) (db : Db) → SameButQuota db (ensure_from now user o db).1
ensure_from_frame now user none db = refl
ensure_from_frame now user (some q) db = elim (Bool-cases (needs_refresh now q)) [
  | inl e ↦ rw e refl
  | inr e ↦ rw e refl
]

pub ensure_current_period_frame :
    (now user : ℕ) (db : Db) → SameButQuota db (ensure_current_period now user db).1
unfolding ensure_current_period
ensure_current_period_frame now user db = ensure_from_frame now user (find_quota user db.quotas) db

spend_frame :
    (now user : ℕ) (c : Consumable) (q : UserQuota) (g : Option EntitlementGrant) (db : Db)
    → SameButQuota db (spend now user c q g db).1
unfolding spend_quota spend_grant
spend_frame now user c q none db = refl
spend_frame now user c q (some g) db = elim (Bool-cases (takes_grant now c q g)) [
  | inl e ↦ rw e refl
  | inr e ↦ rw e refl
]

remaining_frame :
    (now user : ℕ) (c : Consumable) (b : Bool) (db : Db) → (remaining now user c b db).1 ≡ db
remaining_frame now user c false db = refl
remaining_frame now user c true db = ground arith

same_trans : (a b c : Db) → SameButQuota a b → SameButQuota b c → SameButQuota a c
same_trans a b c h k = ground (arith, h, k)

bind_frame :
    {A B : Type 0} (m : Action A) (k : A → Action B) (db : Db)
    → SameButQuota db (m db).1
    → ((a : A) (d : Db) → SameButQuota d (k a d).1)
    → SameButQuota db ((m >>= k) db).1
bind_frame {A} {B} m k db first rest = go (m db) first
  where
    go : (r : Result A × Db) → SameButQuota db r.1 → SameButQuota db (((λ _. r) >>= k) db).1
    go (ok a, d) h = same_trans db d (k a d).1 h (rest a d)
    go (err x, d) h = h

quota_or_throw_frame : (user : ℕ) (db : Db) → SameButQuota db (quota_or_throw user db).1
quota_or_throw_frame user db = ground arith

pub consume_with_client_frame :
    (now user : ℕ) (c : Consumable) (db : Db)
    → SameButQuota db (consume_with_client now user c db).1
unfolding consume_with_client
consume_with_client_frame now user c db =
    bind_frame (quota_or_throw user)
      (λ quota. do
        grant ← gets (λ x. soonest_grant now user (type_of c) x.grants)
        changed ← spend now user c quota grant
        remaining now user c changed)
      db (quota_or_throw_frame user db)
      (λ quota d.
        let g = soonest_grant now user (type_of c) d.grants in
        bind_frame (spend now user c quota g) (remaining now user c) d
          (spend_frame now user c quota g d)
          (λ changed x. rw (remaining_frame now user c changed x) refl))

-- A consumption that goes through has run the caller's writes on a database that differs from the one
-- before in quotas and grants at most.
consumption_runs :
    {T : Type 0} (now user : ℕ) (operation : Action T) (mid db' : Db) (value : T) (n : ℕ)
    → transaction (consumption now user operation) mid ≡ (ok (value, n), db')
    → (spent : Db) × SameButQuota mid spent × (operation spent ≡ (ok value, db'))
unfolding consumption
consumption_runs {T} now user operation mid db' value n h =
    go (consume_with_client now user offer mid) refl
  where
    go :
        (r : Result (Option ℕ) × Db)
        → consume_with_client now user offer mid ≡ r
        → (spent : Db) × SameButQuota mid spent × (operation spent ≡ (ok value, db'))
    go (ok none, d) e = absurd (ground arith)
    go (err x, d) e = absurd (ground arith)
    go (ok (some left), d) e =
        (d, rw e at (consume_with_client_frame now user offer mid), ground arith)

pub with_consumed_offer_runs :
    {T : Type 0} (now user : ℕ) (operation : Action T) (db db' : Db) (value : T) (n : ℕ)
    → with_consumed_offer now user operation db ≡ (ok (value, n), db')
    → (spent : Db) × SameButQuota db spent × (operation spent ≡ (ok value, db'))
with_consumed_offer_runs now user operation db db' value n h =
    let (q, mid, ensured, _, _, _) = ensure_current_period_lem now user db in
    let step = with_consumed_offer-eq now user operation db mid q ensured in
    let (spent, same, runs) = consumption_runs now user operation mid db' value n (sym step ∙ h) in
    let begun : SameButQuota db mid = rw ensured at (ensure_current_period_frame now user db) in
    (spent, same_trans db mid spent begun same, runs)

taken_left : (m left : ℕ) → taken_from m ≡ some left → m - 1 ≡ left
taken_left zero left h = cc
taken_left (suc m) left h = ground arith

-- The caller's writes find the rows of the user with what is left after the consumption.
consumption-IsLeft :
    {T : Type 0} (now user : ℕ) (operation : Action T) (mid db' : Db) (q : UserQuota) (value : T)
    (n : ℕ)
    → IsKeyed user mid
    → find_quota user mid.quotas ≡ some q
    → transaction (consumption now user operation) mid ≡ (ok (value, n), db')
    → (spent : Db) × IsLeft now user offer n spent × (operation spent ≡ (ok value, db'))
unfolding consumption
consumption-IsLeft {T} now user operation mid db' q value n keyed found h =
    go (consume_with_client now user offer mid) refl
  where
    go :
        (r : Result (Option ℕ) × Db)
        → consume_with_client now user offer mid ≡ r
        → (spent : Db) × IsLeft now user offer n spent × (operation spent ≡ (ok value, db'))
    go (ok none, d) e = absurd (ground arith)
    go (err x, d) e = absurd (ground arith)
    go (ok (some left), d) e =
        let (taken, held) = consume_with_client_lem now user offer q mid keyed found in
        let state : (consume_with_client now user offer mid).1 ≡ d = ap (λ r. r.1) e in
        let told : taken_from (available now user offer q mid) ≡ some left = ground arith in
        let same : left ≡ n = ground arith in
        let count : available now user offer q mid - 1 ≡ n =
          taken_left (available now user offer q mid) left told ∙ same in
        (d, rw (count, state) at held, ground arith)

pub with_consumed_offer-IsLeft :
    {T : Type 0} (now user : ℕ) (operation : Action T) (db mid db' : Db) (q : UserQuota) (value : T)
    (n : ℕ)
    → ensure_current_period now user db ≡ (ok q, mid)
    → IsKeyed user mid
    → find_quota user mid.quotas ≡ some q
    → with_consumed_offer now user operation db ≡ (ok (value, n), db')
    → (spent : Db) × IsLeft now user offer n spent × (operation spent ≡ (ok value, db'))
with_consumed_offer-IsLeft now user operation db mid db' q value n ensured keyed found h =
    consumption-IsLeft now user operation mid db' q value n keyed found
      (sym (with_consumed_offer-eq now user operation db mid q ensured) ∙ h)
