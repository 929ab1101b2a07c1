-- ===== src/Quota/Consumption/Order.antt =====
-- Where a consumption takes its unit from.
use propmatch_backend.Prelude.{
  ℕ, ◌≤◌, ◌<◌, ◌≡◌, ◌⊎◌, or_else, filter_where, refl, none, some, inl, inr, List, [], ◌∷◌, Bool,
  true, false, ◌==◌, Bool-cases, Option-cases, arith, All, Occurs, first_by-Occurs, first_by-least,
}
use propmatch_backend.Catalog.{EntitlementType}
use propmatch_backend.Store.{UserQuota, EntitlementGrant, Db, find_quota}
use propmatch_backend.Quota.Consumption.{
  Consumable, type_of, left_of, is_usable, soonest_grant, takes_grant, consume_with_client,
}
use propmatch_backend.Quota.Consumption.Taken.{
  less_grant, less_plan, took_grant, took_plan, took_only_plan,
}

-- The end of the period, and the time of the request where none is stored.
abbrev pub period_ends : ℕ → UserQuota → ℕ
period_ends now q = or_else q.current_period_ends_at now

-- A consumption from a grant: the usable grant that expires first, where the counter is used up or
-- the grant expires before the period ends.
abbrev pub FromGrant : ℕ → ℕ → Consumable → UserQuota → Db → Db → Type 0
FromGrant now user c q db db' =
    (g : EntitlementGrant) × Occurs g db.grants
    × (is_usable now user (type_of c) g ≡ true)
    × ((left_of c q ≡ 0) ⊎ (g.expires_at < period_ends now q))
    × All (λ h. g.expires_at ≤ h.expires_at)
        (filter_where (is_usable now user (type_of c)) db.grants)
    × (db' ≡ less_grant g.id db)

-- A consumption from the counter: if any grant is usable, something is left in the counter and no
-- usable grant expires before the period ends.
abbrev pub FromPlan : ℕ → ℕ → Consumable → UserQuota → Db → Db → Type 0
FromPlan now user c q db db' =
    All (λ h. (0 < left_of c q) × (period_ends now q ≤ h.expires_at))
      (filter_where (is_usable now user (type_of c)) db.grants)
    × (db' ≡ less_plan user c db)

filter_where-All :
    {A : Type 0} (P : A → Type 0) (p : A → Bool) (xs : List A)
    → ((x : A) → Occurs x xs → p x ≡ true → P x)
    → All P (filter_where p xs)
filter_where-All P p [] h = tt
filter_where-All P p (x ∷ xs) h = elim (Bool-cases (p x)) [
  | inl fits ↦ rw fits (h x (inl refl) fits, filter_where-All P p xs (λ y o. h y (inr o)))
  | inr skipped ↦ rw skipped (filter_where-All P p xs (λ y o. h y (inr o)))
]

no_usable :
    (now user : ℕ) (type : EntitlementType) (gs : List EntitlementGrant)
    → soonest_grant now user type gs ≡ none
    → filter_where (is_usable now user type) gs ≡ []
no_usable now user type [] h = refl
no_usable now user type (g ∷ gs) h = elim (Bool-cases (is_usable now user type g)) [
  | inl fits ↦ absurd (ground arith)
  | inr skipped ↦ rw skipped (no_usable now user type gs (ground arith))
]

by_grant :
    (now : ℕ) (c : Consumable) (q : UserQuota) (g : EntitlementGrant)
    → takes_grant now c q g ≡ true
    → (left_of c q ≡ 0) ⊎ (g.expires_at < period_ends now q)
by_grant now c q g first = elim (Bool-cases (left_of c q == 0)) [
  | inl spent ↦ inl (ground arith)
  | inr some_left ↦ inr (ground arith)
]

by_plan :
    (now : ℕ) (c : Consumable) (q : UserQuota) (g : EntitlementGrant)
    → takes_grant now c q g ≡ false
    → (0 < left_of c q) × (period_ends now q ≤ g.expires_at)
by_plan now c q g plan = (ground arith, ground arith)

-- The unit comes from the usable grant that expires first if the plan's counter is used up or that
-- grant expires before the period ends, and no row of another grant changes; else, and where no
-- grant is usable, it comes from the counter, if anything is left in it.
pub consume_with_client_order :
    (now user : ℕ) (c : Consumable) (q : UserQuota) (db : Db)
    → find_quota user db.quotas ≡ some q
    → FromGrant now user c q db (consume_with_client now user c db).1
      ⊎ FromPlan now user c q db (consume_with_client now user c db).1
consume_with_client_order now user c q db found =
    let usable = is_usable now user (type_of c) in
    elim (Option-cases (soonest_grant now user (type_of c) db.grants)) [
      | inl empty ↦ inr (
        rw (no_usable now user (type_of c) db.grants empty) tt,
        took_only_plan now user c q db found empty,
      )
      | inr (g, least) ↦
          let (o, fits) = first_by-Occurs usable (λ x. x.expires_at) db.grants g least in
          let soonest =
            λ (h : EntitlementGrant) (stored : Occurs h db.grants) (e : usable h ≡ true).
              first_by-least usable (λ x. x.expires_at) db.grants g h least stored e in
          elim (Bool-cases (takes_grant now c q g)) [
            | inl first ↦ inl (
              g,
              o,
              fits,
              by_grant now c q g first,
              filter_where-All (λ h. g.expires_at ≤ h.expires_at) usable db.grants soonest,
              took_grant now user c q db found g least first,
            )
            | inr plan ↦
                let (some_left, later) = by_plan now c q g plan in
                inr (
                  filter_where-All (λ h. (0 < left_of c q) × (period_ends now q ≤ h.expires_at))
                      usable db.grants
                      (λ h stored e. (some_left, omega (arith, later, soonest h stored e))),
                  took_plan now user c q db found g least plan,
                )
          ]
    ]
