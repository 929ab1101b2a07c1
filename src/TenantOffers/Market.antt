-- ===== src/TenantOffers/Market.antt =====
-- What every request keeps: at most one open offer of a tenant on a property.
use propmatch_backend.Prelude.{
  ℕ, ◌+◌, ◌≤◌, ◌<◌, ◌≡◌, refl, String, List, [], ◌∷◌, ◌++◌, Option, none, some, ◌⊎◌, inl, inr, Bool,
  true, false, not, is_some, ◌&&◌, ◌==◌, Bool-cases, Option-cases, arith, find?, update_where,
  count_where, count_where-append_new, count_where-none, count_where-update_le,
  count_where-update_one, All, All-append, All-update_where,
}
use propmatch_backend.Store.{
  Property, TenantOffer, TenantOfferStatus, MatchConnection, property_code, transaction, Db, Result,
  ok, err,
}
use propmatch_backend.TenantOffers.{
  has_id, is_active, is_open, is_open_offer, set_status, set_counter, create, Side, settle_as_match,
  new_offer, claim_offer, is_reusable, is_available,
}
use propmatch_backend.TenantOffers.Settled.{accept_open}

-- Identifiers are unique and used up to the next one, and a tenant has at most one open offer on a
-- property.
pub record IsMarket (offers : List TenantOffer) (next : ℕ) : Type 0 where
  pub keyed : (id : ℕ) → count_where (has_id id) offers ≤ 1
  pub used : All (λ o. o.id < next) offers
  pub single : (tenant property : ℕ) → count_where (is_active tenant property) offers ≤ 1

unused_id :
    (next : ℕ) (offers : List TenantOffer)
    → All (λ o. o.id < next) offers
    → count_where (has_id next) offers ≡ 0
unused_id next [] h = refl
unused_id next (o ∷ offers) (less, h) = ground (arith, unused_id next offers h)

later_id :
    (next next' : ℕ) (offers : List TenantOffer)
    → next ≤ next'
    → All (λ o. o.id < next) offers
    → All (λ o. o.id < next') offers
later_id next next' [] le h = tt
later_id next next' (o ∷ offers) le (less, h) = (omega arith, later_id next next' offers le h)

-- A new pending offer, where the tenant had no open one on the property.
append-IsMarket :
    (o : TenantOffer) (offers : List TenantOffer) (next : ℕ)
    → o.id ≡ next
    → find? (is_active o.tenant_id o.property_id) offers ≡ none
    → IsMarket offers next
    → IsMarket (offers ++ o ∷ []) (next + 1)
append-IsMarket o offers next e free market = record {
  keyed = λ id.
      rw (count_where-append_new (has_id id) offers o)
        (ground (arith, unused_id next offers market.used, market.keyed id));
  used =
      All-append (λ x. x.id < next + 1) offers (o ∷ [])
        (later_id next (next + 1) offers (omega arith) market.used) (omega arith, tt);
  single = λ tenant property. rw (count_where-append_new (is_active tenant property) offers o) (
      ground (
        arith,
        count_where-none (is_active o.tenant_id o.property_id) offers free,
        market.single tenant property,
      ));
}

-- A rewrite of offers that keeps their identifiers and opens none.
pub update-IsMarket :
    (q : TenantOffer → Bool) (f : TenantOffer → TenantOffer) (offers : List TenantOffer)
    (next next' : ℕ)
    → next ≤ next'
    → ((x : TenantOffer) → (f x).id ≡ x.id)
    → ((tenant property : ℕ)
        → count_where (is_active tenant property) (update_where q f offers)
          ≤ count_where (is_active tenant property) offers)
    → IsMarket offers next
    → IsMarket (update_where q f offers) next'
update-IsMarket q f offers next next' le same fewer market = record {
  keyed = λ id.
      let less = count_where-update_le (has_id id) q f offers (λ x h k. rw (same x) at k) in
      omega (arith, less, market.keyed id);
  used =
      All-update_where (λ x. x.id < next) (λ x. x.id < next') q f offers (λ x h. omega arith)
        (λ x h. rw (same x) (omega arith)) market.used;
  single = λ tenant property. omega (arith, fewer tenant property, market.single tenant property);
}

-- The offers of a database that keeps the invariant.
abbrev pub IsMarketDb : Db → Type 0
IsMarketDb db = IsMarket db.tenant_offers db.next_id

-- No other request commits in between.
abbrev pub undisturbed : Db → Db
undisturbed db = db

created :
    (tenant property : ℕ) (message : String) (price : ℕ) (db : Db) (p : Property)
    → find? (λ x. x.id == property) db.properties ≡ some p
    → (property_code p.status == 1) ≡ true
    → (p.owner_id == tenant) ≡ false
    → find? (is_active tenant property) db.tenant_offers ≡ none
    → let db' = (create tenant property message price db).1 in
      (db'.tenant_offers
        ≡ db.tenant_offers ++ new_offer db.next_id tenant property p.owner_id message price ∷ [])
      × (db'.next_id ≡ db.next_id + 1)
unfolding create
created tenant property message price db p found approved other free = (ground arith, ground arith)

-- The listing can have an offer of the tenant.
abbrev is_offerable : ℕ → Option Property → Bool
is_offerable tenant none = false
is_offerable tenant (some p) = property_code p.status == 1 && not (p.owner_id == tenant)

create_refused :
    (tenant property : ℕ) (message : String) (price : ℕ) (db : Db)
    → (is_offerable tenant (find? (λ x. x.id == property) db.properties)
        && not (is_some (find? (is_active tenant property) db.tenant_offers)))
      ≡ false
    → (create tenant property message price db).1 ≡ db
unfolding create
create_refused tenant property message price db h =
    elim (Option-cases (find? (λ p. p.id == property) db.properties)) [
      | inl gone ↦ ground arith
      | inr (p, found) ↦ ground arith
    ]

pub create-IsMarket :
    (tenant property : ℕ) (message : String) (price : ℕ) (db : Db)
    → IsMarketDb db
    → IsMarketDb (create tenant property message price db).1
create-IsMarket tenant property message price db market =
    elim (Option-cases (find? (λ p. p.id == property) db.properties)) [
      | inl gone ↦ rw (create_refused tenant property message price db (rw gone)) market
      | inr (p, found) ↦ elim (Option-cases (find? (is_active tenant property) db.tenant_offers)) [
        | inr (o, active) ↦
            rw (create_refused tenant property message price db (ground arith)) market
        | inl free ↦ elim (Bool-cases (property_code p.status == 1 && not (p.owner_id == tenant))) [
          | inr bad ↦ rw (create_refused tenant property message price db (rw (found, bad))) market
          | inl good ↦
              let (offers, next) =
                created tenant property message price db p found (ground arith) (ground arith)
                  free in
              rw (offers, next)
                (append-IsMarket (new_offer db.next_id tenant property p.owner_id message price)
                  db.tenant_offers db.next_id refl free market)
        ]
      ]
    ]

-- An acceptance leaves the offers, or closes the open one.
abbrev pub Leaves : ℕ → Db → Db → Type 0
Leaves id db db' =
    (db.next_id ≤ db'.next_id)
    × ((db'.tenant_offers ≡ db.tenant_offers)
        ⊎ (db'.tenant_offers ≡ (accept_open id db).tenant_offers))

claim-Leaves :
    (id : ℕ) (o : TenantOffer) (db : Db) → Leaves id db (transaction (claim_offer id o) db).1
unfolding claim_offer
claim-Leaves id o db = elim (Bool-cases (count_where (is_open_offer id) db.tenant_offers == 1)) [
  | inl one ↦ elim (Option-cases (find? (is_reusable o) db.connections)) [
    | inl new ↦ (ground arith, inr (ground arith))
    | inr (e, used) ↦ (ground arith, inr (ground arith))
  ]
  | inr other ↦ (ground arith, inl (ground arith))
]

pub settle-Leaves :
    (id price : ℕ) (side : Side) (db : Db)
    → Leaves id db (settle_as_match undisturbed id price side db).1
unfolding settle_as_match
settle-Leaves id price side db = elim (Option-cases (find? (has_id id) db.tenant_offers)) [
  | inl gone ↦ (ground arith, inl (ground arith))
  | inr (o, found) ↦
      elim (Bool-cases (is_available (find? (λ p. p.id == o.property_id) db.properties))) [
        | inl available ↦ go o found available (transaction (claim_offer id o) db) refl
        | inr hidden ↦ (ground arith, inl (ground arith))
      ]
]
  where
    go :
        (o : TenantOffer)
        → find? (has_id id) db.tenant_offers ≡ some o
        → is_available (find? (λ p. p.id == o.property_id) db.properties) ≡ true
        → (r : Result MatchConnection × Db) → transaction (claim_offer id o) db ≡ r
        → Leaves id db (settle_as_match undisturbed id price side db).1
    go o found available (ok c, d) e =
        let (next, offers) = claim-Leaves id o db in (ground arith, ground arith)
    go o found available (err x, d) e =
        let (next, offers) = claim-Leaves id o db in (ground arith, ground arith)

pub closing-fewer :
    (q : TenantOffer → Bool) (s : TenantOfferStatus) (offers : List TenantOffer)
    → is_open s ≡ false
    → (tenant property : ℕ)
    → count_where (is_active tenant property) (update_where q (set_status s) offers)
      ≤ count_where (is_active tenant property) offers
closing-fewer q s offers shut tenant property =
    count_where-update_le (is_active tenant property) q (set_status s) offers
      (λ x h k. absurd (ground arith))

pub counter-fewer :
    (id price : ℕ) (message : Option String) (offers : List TenantOffer) (o : TenantOffer)
    → find? (has_id id) offers ≡ some o
    → count_where (has_id id) offers ≤ 1
    → is_open o.status ≡ true
    → (tenant property : ℕ)
    → count_where
        (is_active tenant property)
        (update_where (has_id id) (set_counter price message) offers)
      ≤ count_where (is_active tenant property) offers
counter-fewer id price message offers o found one open_now tenant property =
    count_where-update_one (is_active tenant property) (has_id id) (set_counter price message)
      offers o found one (λ k. ground arith)

pub Leaves-IsMarket : (id : ℕ) (db db' : Db) → Leaves id db db' → IsMarketDb db → IsMarketDb db'
Leaves-IsMarket id db db' (le, inl same) market = rw same (record {
  keyed = market.keyed;
  used = later_id db.next_id db'.next_id db.tenant_offers le market.used;
  single = market.single;
})
Leaves-IsMarket id db db' (le, inr closed) market = rw closed (
    update-IsMarket (is_open_offer id) (set_status TenantOfferStatus.accepted) db.tenant_offers
      db.next_id db'.next_id le (λ x. refl)
      (closing-fewer (is_open_offer id) TenantOfferStatus.accepted db.tenant_offers refl) market)
