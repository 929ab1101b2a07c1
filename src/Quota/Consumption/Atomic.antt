-- ===== src/Quota/Consumption/Atomic.antt =====
-- An offer is used up only together with what it was used for.
use propmatch_backend.Prelude.{ℕ, ◌+◌, ◌≡◌, ◌∙◌, sym, some, arith}
use propmatch_backend.Catalog.{offers_10_60d}
use propmatch_backend.Store.{
  UserQuota, Db, Error, Action, ok, err, quota_exhausted, pure, transaction, ◌>>=◌, transaction-err,
  bind-ok, find_quota,
}
use propmatch_backend.Config.{get_product}
use propmatch_backend.Quota.Period.{ensure_current_period}
use propmatch_backend.Quota.Period.Current.{ensure_current_period_lem}
use propmatch_backend.Quota.Consumption.{
  offer, consume_with_client, or_exhausted, with_consumed_offer,
}
use propmatch_backend.Quota.Consumption.Totals.{
  IsKeyed, available, consume_with_client_exhausted, consume_with_client_lem,
}

module _ {T : Type 0} (now user : ℕ) (operation : Action T) where
  -- The callback of the transaction.
  unfoldable pub consumption : Action (T × ℕ)
  consumption = do
    left ← consume_with_client now user offer
    remaining ← or_exhausted offers_10_60d left
    value ← operation
    pure (value, remaining)

  pub with_consumed_offer-eq :
      (db mid : Db) (q : UserQuota)
      → ensure_current_period now user db ≡ (ok q, mid)
      → with_consumed_offer now user operation db ≡ transaction consumption mid
  unfolding with_consumed_offer consumption
  with_consumed_offer-eq db mid q e =
      bind-ok (ensure_current_period now user) (λ _. transaction consumption) db mid q e

consumption_remaining :
    {T : Type 0} (now user : ℕ) (operation : Action T) (mid db' : Db) (q : UserQuota) (value : T)
    (n : ℕ)
    → IsKeyed user mid
    → find_quota user mid.quotas ≡ some q
    → transaction (consumption now user operation) mid ≡ (ok (value, n), db')
    → available now user offer q mid ≡ n + 1
unfolding consumption
consumption_remaining now user operation mid db' q value n keyed found h =
    ground (arith, consume_with_client_lem now user offer q mid keyed found)

-- If the caller's writes, or the consumption, throw, then nothing is used up and nothing is written
-- but the refresh of the period.
pub with_consumed_offer_failed :
    {T : Type 0} (now user : ℕ) (operation : Action T) (db db' : Db) (e : Error)
    → with_consumed_offer now user operation db ≡ (err e, db')
    → db' ≡ (ensure_current_period now user db).1
with_consumed_offer_failed {T} now user operation db db' e h =
    let (q, mid, ensured, _, _, _) = ensure_current_period_lem now user db in
    let step = with_consumed_offer-eq now user operation db mid q ensured in
    let back = transaction-err (consumption now user operation) mid db' e (sym step ∙ h) in
    back ∙ rw ensured

-- With no offer left the caller's writes are not made at all: the request is refused with the add-on
-- that is on sale and its current price.
pub with_consumed_offer_exhausted :
    {T : Type 0} (now user : ℕ) (operation : Action T) (db mid : Db) (q : UserQuota)
    → ensure_current_period now user db ≡ (ok q, mid)
    → IsKeyed user mid
    → find_quota user mid.quotas ≡ some q
    → available now user offer q mid ≡ 0
    → with_consumed_offer now user operation db
      ≡ (err (quota_exhausted offers_10_60d (get_product offers_10_60d mid).price_egp), mid)
unfolding consumption
with_consumed_offer_exhausted now user operation db mid q ensured keyed found empty =
    rw (with_consumed_offer-eq now user operation db mid q ensured)
      (ground (arith, consume_with_client_exhausted now user offer q mid keyed found empty))

-- When it goes through, the number reported is one below what the user had.
pub with_consumed_offer_remaining :
    {T : Type 0} (now user : ℕ) (operation : Action T) (db mid db' : Db) (q : UserQuota) (value : T)
    (n : ℕ)
    → ensure_current_period now user db ≡ (ok q, mid)
    → IsKeyed user mid
    → find_quota user mid.quotas ≡ some q
    → with_consumed_offer now user operation db ≡ (ok (value, n), db')
    → available now user offer q mid ≡ n + 1
with_consumed_offer_remaining now user operation db mid db' q value n ensured keyed found h =
    let step = with_consumed_offer-eq now user operation db mid q ensured in
    consumption_remaining now user operation mid db' q value n keyed found (sym step ∙ h)
