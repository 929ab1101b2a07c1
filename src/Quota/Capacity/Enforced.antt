-- ===== src/Quota/Capacity/Enforced.antt =====
-- The hourly enforcement of src/quota/quota.service.ts: what it leaves of an owner's listings.
use propmatch_backend.Prelude.{
  ℕ, zero, suc, ◌+◌, ◌-◌, ◌≤◌, ◌≡◌, ◌∙◌, refl, Option, none, some, List, [], ◌∷◌, map, Bool, true,
  false, ◌&&◌, ltb, leb, ◌==◌, ==-refl, update_where, count_where, filter_where, sort_desc, take,
  All, sort_desc-count, filter_where-count, Bool-cases, inl, inr, arith,
}
use propmatch_backend.Store.{
  UserQuota, Property, PropertyStatus, Db, Action, pure, gets, ok, bind-steps, ◌>>=◌,
}
use propmatch_backend.Catalog.{active_listing}
use propmatch_backend.Quota.Consumption.{active_grant_quantity}
use propmatch_backend.Quota.Period.{ensure_current_period}
use propmatch_backend.Quota.Capacity.{
  Capacity, is_active_unit, set_grace, adjust_grace, get_listing_capacity, contains, newest_ids,
  archive_newest, is_overdue, enforce_for,
}

take-counted :
    {A : Type 0} (p q : A → Bool) (n : ℕ) (xs : List A)
    → All (λ y. q y ≡ true) (take n xs)
    → n ≤ count_where p xs
    → n ≤ count_where q xs
take-counted p q zero xs taken many = omega arith
take-counted p q (suc n) [] taken many = omega (arith, many)
take-counted p q (suc n) (x ∷ xs) (here, rest) many =
    let fewer : n ≤ count_where p xs = ground arith in
    ground (arith, take-counted p q n xs rest fewer)

contains-widen :
    (z : ℕ) (ids : List ℕ) (ys : List Property)
    → All (λ y. contains y.id ids ≡ true) ys
    → All (λ y. contains y.id (z ∷ ids) ≡ true) ys
contains-widen z ids [] all = tt
contains-widen z ids (y ∷ ys) (here, rest) = (ground arith, contains-widen z ids ys rest)

contains-All : (ys : List Property) → All (λ y. contains y.id (map (λ p. p.id) ys) ≡ true) ys
contains-All [] = tt
contains-All (y ∷ ys) =
    let own : (y.id == y.id) ≡ true = ==-refl y.id in
    (ground arith, contains-widen y.id (map (λ p. p.id) ys) ys (contains-All ys))

count_where-update_out :
    {A : Type 0} (a q : A → Bool) (f : A → A) (rows : List A)
    → ((y : A) → a (f y) ≡ false)
    → count_where a (update_where q f rows) + count_where (λ y. a y && q y) rows
      ≡ count_where a rows
count_where-update_out a q f [] out = refl
count_where-update_out a q f (r ∷ rows) out =
    ground (arith, out r, count_where-update_out a q f rows out)

-- The newest active listings, as many as are asked for, are active rows.
newest_counted :
    (user n : ℕ) (rows : List Property)
    → n ≤ count_where (is_active_unit user) rows
    → n ≤ count_where (λ y. is_active_unit user y && contains y.id (newest_ids user n rows)) rows
newest_counted user n rows many =
    let active = is_active_unit user in
    let sorted = sort_desc (λ (p : Property). p.created_at) (filter_where active rows) in
    let named = λ (y : Property). contains y.id (newest_ids user n rows) in
    let all : count_where active sorted ≡ count_where active rows =
      sort_desc-count (λ p. p.created_at) active (filter_where active rows)
      ∙ filter_where-count active active active rows (λ x e. refl) (λ x e. e) in
    let found : count_where named sorted ≡ count_where (λ y. active y && named y) rows =
      sort_desc-count (λ p. p.created_at) named (filter_where active rows)
      ∙ filter_where-count active named (λ y. active y && named y) rows (λ x e. ground arith)
          (λ x e. ground arith) in
    let some_named : n ≤ count_where named sorted =
      take-counted active named n sorted (contains-All (take n sorted)) (rw all many) in
    rw (← found) some_named

archive_newest_lem :
    (user n : ℕ) (db : Db)
    → n ≤ count_where (is_active_unit user) db.properties
    → count_where (is_active_unit user) (archive_newest user n db).1.properties + n
      ≤ count_where (is_active_unit user) db.properties
unfolding archive_newest
archive_newest_lem user n db many =
    let out =
      count_where-update_out (is_active_unit user)
        (λ p. contains p.id (newest_ids user n db.properties))
        (λ p. record p { status = PropertyStatus.archived }) db.properties (λ y. ground arith) in
    let enough = newest_counted user n db.properties many in omega (arith, out, enough)

-- What follows the quota row in the capacity.
abbrev capacity_from : ℕ → ℕ → UserQuota → Action Capacity
capacity_from now user quota = do
  add_on ← gets (active_grant_quantity now user active_listing)
  let limit = quota.max_active_listings + add_on
  count ← gets (λ db. count_where (is_active_unit user) db.properties)
  grace ← adjust_grace now user count limit quota.listing_grace_ends_at
  pure (record {
    plan_type = quota.plan_type;
    active_unit_limit = limit;
    active_unit_count = count;
    listing_grace_ends_at = grace;
  })

adjust_grace-properties :
    (now user count limit : ℕ) (grace : Option ℕ) (db : Db)
    → (o : Option ℕ) × (d : Db) × (adjust_grace now user count limit grace db ≡ (ok o, d))
      × (d.properties ≡ db.properties)
unfolding adjust_grace
adjust_grace-properties now user count limit none db = elim (Bool-cases (ltb limit count)) [
  | inl over ↦ rw over (_, _, refl, refl)
  | inr within ↦ rw within (none, db, refl, refl)
]
adjust_grace-properties now user count limit (some ends) db = elim (Bool-cases (leb count limit)) [
  | inl within ↦ rw within (_, _, refl, refl)
  | inr over ↦ rw over (some ends, db, refl, refl)
]

capacity_from-counted :
    (now user : ℕ) (q : UserQuota) (db mid : Db) (c : Capacity)
    → capacity_from now user q db ≡ (ok c, mid)
    → c.active_unit_count ≡ count_where (is_active_unit user) mid.properties
capacity_from-counted now user q db mid c h =
    let count = count_where (is_active_unit user) db.properties in
    let limit = q.max_active_listings + active_grant_quantity now user active_listing db in
    let (o, d, ran, kept) =
      adjust_grace-properties now user count limit q.listing_grace_ends_at db in
    ground arith

get_listing_capacity-counted :
    (now user : ℕ) (db mid : Db) (c : Capacity)
    → get_listing_capacity now user db ≡ (ok c, mid)
    → c.active_unit_count ≡ count_where (is_active_unit user) mid.properties
unfolding get_listing_capacity
get_listing_capacity-counted now user db mid c h =
    let (q, d, ensured, rest) =
      bind-steps (ensure_current_period now user) (capacity_from now user) db mid c h in
    capacity_from-counted now user q d mid c rest

enforced :
    (now user : ℕ) (db mid : Db) (c : Capacity)
    → get_listing_capacity now user db ≡ (ok c, mid)
    → is_overdue now c ≡ true
    → (db' : Db) × (enforce_for now user db ≡ (ok tt, db'))
      × (db'.properties
          ≡ (archive_newest user (c.active_unit_count - c.active_unit_limit) mid).1.properties)
unfolding enforce_for archive_newest
enforced now user db mid c counted overdue = (
  (set_grace user none (archive_newest user (c.active_unit_count - c.active_unit_limit) mid).1).1,
  ground arith,
  refl,
)

-- A round of the hourly job for an owner whose time of grace is over while there are too many active
-- listings ends well, and leaves no more of them than the capacity that it read allows.
pub enforce_for_enough :
    (now user : ℕ) (db mid : Db) (c : Capacity)
    → get_listing_capacity now user db ≡ (ok c, mid)
    → is_overdue now c ≡ true
    → (db' : Db) × (enforce_for now user db ≡ (ok tt, db'))
      × (count_where (is_active_unit user) db'.properties ≤ c.active_unit_limit)
enforce_for_enough now user db mid c counted overdue =
    let (db', ran, rows) = enforced now user db mid c counted overdue in
    let count = get_listing_capacity-counted now user db mid c counted in
    let excess = c.active_unit_count - c.active_unit_limit in
    let less = archive_newest_lem user excess mid (omega (arith, count)) in
    (db', ran, rw rows (omega (arith, less, count)))
