-- ===== src/Quota/Consumption/Totals.antt =====
-- A consumption takes exactly one unit of what the user has.
use propmatch_backend.Prelude.{
  ℕ, zero, suc, ◌+◌, ◌-◌, ◌≡◌, Option, none, some, inl, inr, ltb, ◌==◌, if◌then◌else◌, Bool-cases,
  Option-cases, arith, update_where, count_where, first_by-Occurs, first_by-none, update_where-none,
}
use propmatch_backend.Store.{UserQuota, EntitlementGrant, Db, ok, find_quota}
use propmatch_backend.Quota.Period.{is_of}
use propmatch_backend.Quota.Consumption.{
  Consumable, type_of, left_of, decrement_quota, decrement_grant, is_usable, active_grant_quantity,
  soonest_grant, takes_grant, is_open, has_left, remaining, consume_with_client,
}
use propmatch_backend.Quota.Consumption.Sums.{
  HasDistinctIds, spend_grant_sum, left_of-decrement_quota, has_left-count, spend_quota-find,
}
use propmatch_backend.Quota.Consumption.Taken.{
  less_grant, less_plan, took_grant, took_plan, took_only_plan,
}

-- What a user has of a consumable: the plan's counter and the usable grants.
abbrev pub available : ℕ → ℕ → Consumable → UserQuota → Db → ℕ
available now user c q db = left_of c q + active_grant_quantity now user (type_of c) db

-- What is reported when one unit of n is taken: nothing was taken, or one less is left.
abbrev pub taken_from : ℕ → Option ℕ
taken_from zero = none
taken_from (suc n) = some n

-- The tables are keyed: one quota row for the user, and no two grants with one identifier.
pub record IsKeyed (user : ℕ) (db : Db) : Type 0 where
  pub one_quota : count_where (is_of user) db.quotas ≡ 1
  pub distinct : HasDistinctIds db.grants

module _ (now user : ℕ) (c : Consumable) (q : UserQuota) (db : Db) (keyed : IsKeyed user db)
    (found : find_quota user db.quotas ≡ some q) where
  spend_quota_lem :
      (remaining now user c
        (count_where (has_left user c) db.quotas == 1)
        (record db { quotas = update_where (has_left user c) (decrement_quota c) db.quotas })).0
      ≡ ok (
          if ltb 0 (left_of c q)
          then some (left_of c q - 1 + active_grant_quantity now user (type_of c) db)
          else none)
  spend_quota_lem =
      rw (has_left-count user c db.quotas q found keyed.one_quota)
        (ground (arith, spend_quota-find user c db.quotas q found, left_of-decrement_quota c q))

  spend_grant_lem :
      (g : EntitlementGrant)
      → soonest_grant now user (type_of c) db.grants ≡ some g
      → (remaining now user c
          (count_where (is_open g.id) db.grants == 1)
          (record db { grants = update_where (is_open g.id) decrement_grant db.grants })).0
        ≡ ok (some (left_of c q + active_grant_quantity now user (type_of c) db - 1))
  spend_grant_lem g least =
      let (o, fits) =
        first_by-Occurs (is_usable now user (type_of c)) (λ x. x.expires_at) db.grants g least in
      let (one, fall) = spend_grant_sum now user (type_of c) db.grants g keyed.distinct o fits in
      rw one (ground (arith, fall))

-- The rows hold a number of units that the user has.
abbrev pub IsLeft : ℕ → ℕ → Consumable → ℕ → Db → Type 0
IsLeft now user c n db =
    (q : UserQuota) × (find_quota user db.quotas ≡ some q) × (available now user c q db ≡ n)

module _ (now user : ℕ) (c : Consumable) (q : UserQuota) (db : Db) (keyed : IsKeyed user db)
    (found : find_quota user db.quotas ≡ some q) where
  less_plan-IsLeft :
      (left_of c q ≡ 0 → active_grant_quantity now user (type_of c) db ≡ 0)
      → IsLeft now user c (available now user c q db - 1) (less_plan user c db)
  less_plan-IsLeft spent = elim (Bool-cases (ltb 0 (left_of c q))) [
    | inl some_left ↦ (
      decrement_quota c q,
      rw some_left at (spend_quota-find user c db.quotas q found),
      ground (arith, left_of-decrement_quota c q),
    )
    | inr none_left ↦
        let empty : left_of c q ≡ 0 = ground arith in
        (
          q,
          rw none_left at (spend_quota-find user c db.quotas q found),
          omega (arith, empty, spent empty),
        )
  ]

  less_grant-IsLeft :
      (g : EntitlementGrant)
      → soonest_grant now user (type_of c) db.grants ≡ some g
      → IsLeft now user c (available now user c q db - 1) (less_grant g.id db)
  less_grant-IsLeft g least =
      let (o, fits) =
        first_by-Occurs (is_usable now user (type_of c)) (λ x. x.expires_at) db.grants g least in
      let (one, fall) = spend_grant_sum now user (type_of c) db.grants g keyed.distinct o fits in
      (q, found, omega (arith, fall))

  consume_with_client-IsLeft :
      IsLeft now user c (available now user c q db - 1) (consume_with_client now user c db).1
  consume_with_client-IsLeft = elim (Option-cases (soonest_grant now user (type_of c) db.grants)) [
    | inl empty ↦
        let zero_sum =
          first_by-none (is_usable now user (type_of c)) (λ g. g.expires_at)
            (λ g. g.remaining_quantity) db.grants empty in
        rw (took_only_plan now user c q db found empty) (less_plan-IsLeft (λ e. zero_sum))
    | inr (g, least) ↦ elim (Bool-cases (takes_grant now c q g)) [
      | inl first ↦ rw (took_grant now user c q db found g least first) (less_grant-IsLeft g least)
      | inr plan ↦
          rw (took_plan now user c q db found g least plan)
            (less_plan-IsLeft (λ e. absurd (ground arith)))
    ]
  ]

  consume_with_client-taken :
      (consume_with_client now user c db).0 ≡ ok (taken_from (available now user c q db))
  unfolding consume_with_client
  consume_with_client-taken =
      let by_plan = spend_quota_lem now user c q db keyed found in
      elim (Option-cases (soonest_grant now user (type_of c) db.grants)) [
        | inl empty ↦
            let zero_sum =
              first_by-none (is_usable now user (type_of c)) (λ g. g.expires_at)
                (λ g. g.remaining_quantity) db.grants empty in
            ground arith
        | inr (g, least) ↦
            let (o, fits) =
              first_by-Occurs (is_usable now user (type_of c)) (λ x. x.expires_at) db.grants g
                least in
            let (one, fall) =
              spend_grant_sum now user (type_of c) db.grants g keyed.distinct o fits in
            let by_grant = spend_grant_lem now user c q db keyed found g least in
            elim (Bool-cases (takes_grant now c q g)) [
              | inl first ↦ ground arith
              | inr plan ↦ ground arith
            ]
      ]

-- Whatever the user has of a consumable, in the plan's counter and in usable grants together, one
-- unit is taken if there is one: the rows that are stored afterwards hold exactly one less, and the
-- number that is reported is what they hold; with nothing left `null` is returned and they still
-- hold nothing.
pub consume_with_client_lem :
    (now user : ℕ) (c : Consumable) (q : UserQuota) (db : Db)
    → IsKeyed user db
    → find_quota user db.quotas ≡ some q
    → ((consume_with_client now user c db).0 ≡ ok (taken_from (available now user c q db)))
      × IsLeft now user c (available now user c q db - 1) (consume_with_client now user c db).1
consume_with_client_lem now user c q db keyed found = (
  consume_with_client-taken now user c q db keyed found,
  consume_with_client-IsLeft now user c q db keyed found,
)

-- With nothing left, nothing is written.
pub consume_with_client_exhausted :
    (now user : ℕ) (c : Consumable) (q : UserQuota) (db : Db)
    → IsKeyed user db
    → find_quota user db.quotas ≡ some q
    → available now user c q db ≡ 0
    → consume_with_client now user c db ≡ (ok none, db)
unfolding consume_with_client
consume_with_client_exhausted now user c q db keyed found empty =
    elim (Option-cases (soonest_grant now user (type_of c) db.grants)) [
      | inl no_grant ↦
          let uncounted : count_where (has_left user c) db.quotas ≡ 0 =
            ground (arith, has_left-count user c db.quotas q found keyed.one_quota) in
          let same = update_where-none (has_left user c) (decrement_quota c) db.quotas uncounted in
          ground arith
      | inr (g, least) ↦
          let (o, fits) =
            first_by-Occurs (is_usable now user (type_of c)) (λ x. x.expires_at) db.grants g
              least in
          absurd
            (omega (arith, spend_grant_sum now user (type_of c) db.grants g keyed.distinct o fits))
    ]
