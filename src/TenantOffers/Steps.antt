-- ===== src/TenantOffers/Steps.antt =====
-- What requests one after the other keep: at most one open offer of a tenant on a property.
use propmatch_backend.Prelude.{
  ℕ, ◌≡◌, refl, String, Option, none, some, inl, inr, true, or_else, Bool-cases, Option-cases,
  arith, update_where, find?-narrower,
}
use propmatch_backend.Store.{TenantOffer, TenantOfferStatus, MatchConnection, Db, Result, ok, err}
use propmatch_backend.TenantOffers.{
  has_id, is_pending, is_countered, to_tenant, to_owner, set_status, set_counter, create,
  settle_as_match, landlord_accept, landlord_decline, landlord_counter, tenant_accept,
  tenant_withdraw,
}
use propmatch_backend.TenantOffers.Moves.{
  Move, accept_by_owner, decline, accept_by_tenant, withdraw, counter, own_offer, is_allowed,
  fits_state, perform, perform_refused,
}
use propmatch_backend.TenantOffers.Market.{
  IsMarketDb, undisturbed, create-IsMarket, settle-Leaves, closing-fewer, counter-fewer,
  Leaves-IsMarket, update-IsMarket,
}

-- A move without a disturbance: its offers by cases.
accepted_by_owner :
    (user id : ℕ) (db : Db) (o : TenantOffer)
    → own_offer accept_by_owner user id db ≡ some o
    → is_pending o.status ≡ true
    → (perform accept_by_owner undisturbed undisturbed user id db).1
      ≡ (settle_as_match undisturbed o.id o.proposed_price to_tenant db).1
unfolding landlord_accept
accepted_by_owner user id db o found open_now =
    go (settle_as_match undisturbed o.id o.proposed_price to_tenant db) refl
  where
    go :
        (r : Result MatchConnection × Db)
        → settle_as_match undisturbed o.id o.proposed_price to_tenant db ≡ r
        → (perform accept_by_owner undisturbed undisturbed user id db).1
          ≡ (settle_as_match undisturbed o.id o.proposed_price to_tenant db).1
    go (ok c, d) e = ground arith
    go (err x, d) e = ground arith

accepted_by_tenant :
    (user id : ℕ) (db : Db) (o : TenantOffer)
    → own_offer accept_by_tenant user id db ≡ some o
    → is_countered o.status ≡ true
    → (perform accept_by_tenant undisturbed undisturbed user id db).1
      ≡ (settle_as_match undisturbed o.id (or_else o.counter_price o.proposed_price) to_owner db).1
unfolding tenant_accept
accepted_by_tenant user id db o found open_now =
    go (settle_as_match undisturbed o.id (or_else o.counter_price o.proposed_price) to_owner db)
      refl
  where
    go :
        (r : Result MatchConnection × Db)
        → settle_as_match undisturbed o.id (or_else o.counter_price o.proposed_price) to_owner db
          ≡ r
        → (perform accept_by_tenant undisturbed undisturbed user id db).1
          ≡ (settle_as_match undisturbed o.id
              (or_else o.counter_price o.proposed_price)
              to_owner
              db).1
    go (ok c, d) e = ground arith
    go (err x, d) e = ground arith

-- The rewrite of an offer by the moves that are no acceptance.
abbrev rewrites : Move → Option (TenantOffer → TenantOffer)
rewrites decline = some (set_status TenantOfferStatus.declined)
rewrites withdraw = some (set_status TenantOfferStatus.withdrawn)
rewrites (counter price message) = some (set_counter price message)
rewrites accept_by_owner = none
rewrites accept_by_tenant = none

rewritten :
    (m : Move) (user id : ℕ) (db : Db) (o : TenantOffer) (f : TenantOffer → TenantOffer)
    → rewrites m ≡ some f
    → own_offer m user id db ≡ some o
    → fits_state m o.status ≡ true
    → let db' = (perform m undisturbed undisturbed user id db).1 in
      (db'.tenant_offers ≡ update_where (has_id id) f db.tenant_offers) × (db'.next_id ≡ db.next_id)
unfolding landlord_decline landlord_counter tenant_withdraw
rewritten decline user id db o f e found fits = (ground arith, ground arith)
rewritten withdraw user id db o f e found fits = (ground arith, ground arith)
rewritten (counter price message) user id db o f e found fits = (ground arith, ground arith)
rewritten accept_by_owner user id db o f e found fits = cc
rewritten accept_by_tenant user id db o f e found fits = cc

allowed-IsMarket :
    (m : Move) (user id : ℕ) (db : Db) (o : TenantOffer)
    → own_offer m user id db ≡ some o
    → fits_state m o.status ≡ true
    → IsMarketDb db
    → IsMarketDb (perform m undisturbed undisturbed user id db).1
allowed-IsMarket decline user id db o found fits market =
    let (offers, next) =
      rewritten decline user id db o (set_status TenantOfferStatus.declined) refl found fits in
    rw (offers, next)
      (update-IsMarket (has_id id) (set_status TenantOfferStatus.declined) db.tenant_offers
        db.next_id db.next_id (omega arith) (λ x. refl)
        (closing-fewer (has_id id) TenantOfferStatus.declined db.tenant_offers refl) market)
allowed-IsMarket withdraw user id db o found fits market =
    let (offers, next) =
      rewritten withdraw user id db o (set_status TenantOfferStatus.withdrawn) refl found fits in
    rw (offers, next)
      (update-IsMarket (has_id id) (set_status TenantOfferStatus.withdrawn) db.tenant_offers
        db.next_id db.next_id (omega arith) (λ x. refl)
        (closing-fewer (has_id id) TenantOfferStatus.withdrawn db.tenant_offers refl) market)
allowed-IsMarket (counter price message) user id db o found fits market =
    let (offers, next) =
      rewritten (counter price message) user id db o (set_counter price message) refl found fits in
    let the_offer = find?-narrower (has_id id) _ db.tenant_offers o found (market.keyed id) in
    rw (offers, next)
      (update-IsMarket (has_id id) (set_counter price message) db.tenant_offers db.next_id
        db.next_id (omega arith) (λ x. refl)
        (counter-fewer id price message db.tenant_offers o the_offer (market.keyed id)
          (rw fits refl))
        market)
allowed-IsMarket accept_by_owner user id db o found fits market =
    rw (accepted_by_owner user id db o found fits) (
      Leaves-IsMarket o.id db (settle_as_match undisturbed o.id o.proposed_price to_tenant db).1
        (settle-Leaves o.id o.proposed_price to_tenant db) market)
allowed-IsMarket accept_by_tenant user id db o found fits market =
    rw (accepted_by_tenant user id db o found fits) (
      Leaves-IsMarket o.id db
        (settle_as_match undisturbed o.id (or_else o.counter_price o.proposed_price) to_owner db).1
        (settle-Leaves o.id (or_else o.counter_price o.proposed_price) to_owner db) market)

perform-IsMarket :
    (m : Move) (user id : ℕ) (db : Db)
    → IsMarketDb db
    → IsMarketDb (perform m undisturbed undisturbed user id db).1
perform-IsMarket m user id db market = elim (Bool-cases (is_allowed m (own_offer m user id db))) [
  | inr bad ↦ rw (perform_refused m undisturbed undisturbed user id db bad) market
  | inl good ↦ elim (Option-cases (own_offer m user id db)) [
    | inl unknown ↦ absurd (ground arith)
    | inr (o, found) ↦ allowed-IsMarket m user id db o found (rw found at good) market
  ]
]

-- The databases that requests on offers lead to, one request after the other, whether a request
-- succeeds or is refused.
pub data Reaches (start : Db) : Db → Type 0 where
  stays : Reaches start start
  offers :
      (tenant property : ℕ) (message : String) (price : ℕ) (db : Db)
      → Reaches start db
      → Reaches start (create tenant property message price db).1
  moves :
      (m : Move) (user id : ℕ) (db : Db)
      → Reaches start db
      → Reaches start (perform m undisturbed undisturbed user id db).1

-- Whatever offers are made, answered and taken back, one request after the other: identifiers stay
-- unique, and no tenant ever has two open offers on one property.
pub Reaches-IsMarket : (start db : Db) → IsMarketDb start → Reaches start db → IsMarketDb db
Reaches-IsMarket start db market stays = market
Reaches-IsMarket start _ market (offers tenant property message price db reached) =
    create-IsMarket tenant property message price db (Reaches-IsMarket start db market reached)
Reaches-IsMarket start _ market (moves m user id db reached) =
    perform-IsMarket m user id db (Reaches-IsMarket start db market reached)
