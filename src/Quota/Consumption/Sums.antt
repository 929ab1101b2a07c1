-- ===== src/Quota/Consumption/Sums.antt =====
-- What a guarded decrement does to the rows of a user.
use propmatch_backend.Prelude.{
  ℕ, ◌+◌, ◌-◌, ◌≡◌, ◌≢◌, refl, some, inl, inr, List, [], ◌∷◌, true, ltb, if◌then◌else◌, Bool-cases,
  arith, All, All-Occurs, Occurs, find?, update_where, count_where, sum_where, update_where-none,
}
use propmatch_backend.Catalog.{EntitlementType}
use propmatch_backend.Store.{UserQuota, EntitlementGrant, find_quota}
use propmatch_backend.Quota.Period.{is_of}
use propmatch_backend.Quota.Consumption.{
  Consumable, offer, ai_use, left_of, decrement_quota, decrement_grant, is_usable, is_open,
  has_left,
}

-- No two grants have one identifier.
abbrev pub HasDistinctIds : List EntitlementGrant → Type 0
HasDistinctIds [] = Unit
HasDistinctIds (g ∷ gs) = All (λ h. h.id ≢ g.id) gs × HasDistinctIds gs

absent_open :
    (id : ℕ) (gs : List EntitlementGrant)
    → All (λ h. h.id ≢ id) gs
    → count_where (is_open id) gs ≡ 0
absent_open id [] h = refl
absent_open id (g ∷ gs) (ne, h) = ground (arith, absent_open id gs h)

-- The guarded decrement of a usable grant changes one row, and the usable total by one.
pub spend_grant_sum :
    (now user : ℕ) (type : EntitlementType) (gs : List EntitlementGrant) (g : EntitlementGrant)
    → HasDistinctIds gs
    → Occurs g gs
    → is_usable now user type g ≡ true
    → (count_where (is_open g.id) gs ≡ 1)
      × (sum_where (is_usable now user type) (λ x. x.remaining_quantity) gs
          ≡ sum_where
              (is_usable now user type)
              (λ x. x.remaining_quantity)
              (update_where (is_open g.id) decrement_grant gs)
            + 1)
spend_grant_sum now user type [] g d o fits = elim o [ ]
spend_grant_sum now user type (x ∷ xs) g (apart, d) (inl e) fits =
    let far : All (λ h. h.id ≢ g.id) xs = rw (← e) apart in
    let none_open = absent_open g.id xs far in
    let same = update_where-none (is_open g.id) decrement_grant xs none_open in
    rw (same, none_open) (rw e (ground arith))
spend_grant_sum now user type (x ∷ xs) g (apart, d) (inr o) fits =
    let other : g.id ≢ x.id = All-Occurs (λ h. h.id ≢ x.id) xs g apart o in
    ground (arith, spend_grant_sum now user type xs g d o fits)

decrement_quota-user_id :
    (c : Consumable) (q : UserQuota) → (decrement_quota c q).user_id ≡ q.user_id
decrement_quota-user_id offer q = refl
decrement_quota-user_id ai_use q = refl

pub left_of-decrement_quota :
    (c : Consumable) (q : UserQuota) → left_of c (decrement_quota c q) ≡ left_of c q - 1
left_of-decrement_quota offer q = refl
left_of-decrement_quota ai_use q = refl

module _ (user : ℕ) (c : Consumable) where
  has_left-le :
      (qs : List UserQuota) → count_where (is_of user) qs ≡ 0 → count_where (has_left user c) qs ≡ 0
  has_left-le [] h = refl
  has_left-le (q ∷ qs) h = ground (arith, has_left-le qs)

  -- With one row for the user, the guard counts that row if something is left in it.
  pub has_left-count :
      (qs : List UserQuota) (q : UserQuota)
      → find_quota user qs ≡ some q
      → count_where (is_of user) qs ≡ 1
      → count_where (has_left user c) qs ≡ (if ltb 0 (left_of c q) then 1 else 0)
  has_left-count [] q h one = cc
  has_left-count (r ∷ qs) q h one = elim (Bool-cases (is_of user r)) [
    | inl here ↦ let e : r ≡ q = ground arith in rw here (rw e (ground (arith, has_left-le qs)))
    | inr there ↦
        rw there (omega (arith, has_left-count qs q (rw (there, find?) at h) (ground arith)))
  ]

  pub spend_quota-find :
      (qs : List UserQuota) (q : UserQuota)
      → find_quota user qs ≡ some q
      → find_quota user (update_where (has_left user c) (decrement_quota c) qs)
        ≡ some (if ltb 0 (left_of c q) then decrement_quota c q else q)
  spend_quota-find [] q h = cc
  spend_quota-find (r ∷ qs) q h = elim (Bool-cases (is_of user r)) [
    | inl here ↦
        let e : r ≡ q = ground arith in
        rw here (rw (← e) (ground (arith, decrement_quota-user_id c r)))
    | inr there ↦ rw there (rw there (spend_quota-find qs q (rw (there, find?) at h)))
  ]
