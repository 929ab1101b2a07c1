-- ===== src/Quota/Consumption/Taken.antt =====
-- The row that a consumption takes its unit from.
use propmatch_backend.Prelude.{
  ℕ, ◌≡◌, refl, none, some, inl, inr, Bool, true, false, ◌==◌, Option-cases, arith, update_where,
  count_where,
}
use propmatch_backend.Store.{UserQuota, EntitlementGrant, Db, find_quota}
use propmatch_backend.Quota.Consumption.{
  Consumable, type_of, decrement_quota, decrement_grant, soonest_grant, takes_grant, is_open,
  has_left, remaining, consume_with_client,
}

remaining-state :
    (now user : ℕ) (c : Consumable) (b : Bool) (db : Db) → (remaining now user c b db).1 ≡ db
remaining-state now user c false db = refl
remaining-state now user c true db = elim (Option-cases (find_quota user db.quotas)) [
  | inl missing ↦ ground arith
  | inr (q, found) ↦ ground arith
]

-- The database with one unit less in a grant, and with one less in the plan's counter.
abbrev pub less_grant : ℕ → Db → Db
less_grant id db = record db { grants = update_where (is_open id) decrement_grant db.grants }

abbrev pub less_plan : ℕ → Consumable → Db → Db
less_plan user c db = record db {
  quotas = update_where (has_left user c) (decrement_quota c) db.quotas;
}

module _ (now user : ℕ) (c : Consumable) (q : UserQuota) (db : Db)
    (found : find_quota user db.quotas ≡ some q) where
  pub took_grant :
      (g : EntitlementGrant)
      → soonest_grant now user (type_of c) db.grants ≡ some g
      → takes_grant now c q g ≡ true
      → (consume_with_client now user c db).1 ≡ less_grant g.id db
  unfolding consume_with_client
  took_grant g least first = ground (
    arith,
    remaining-state now user c (count_where (is_open g.id) db.grants == 1) (less_grant g.id db),
  )

  pub took_plan :
      (g : EntitlementGrant)
      → soonest_grant now user (type_of c) db.grants ≡ some g
      → takes_grant now c q g ≡ false
      → (consume_with_client now user c db).1 ≡ less_plan user c db
  unfolding consume_with_client
  took_plan g least first = ground (
    arith,
    remaining-state now user c (count_where (has_left user c) db.quotas == 1) (less_plan user c db),
  )

  pub took_only_plan :
      soonest_grant now user (type_of c) db.grants ≡ none
      → (consume_with_client now user c db).1 ≡ less_plan user c db
  unfolding consume_with_client
  took_only_plan empty = ground (
    arith,
    remaining-state now user c (count_where (has_left user c) db.quotas == 1) (less_plan user c db),
  )
