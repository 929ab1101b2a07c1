-- ===== src/Offers/Closing.antt =====
-- The tenant's other answers to an offer, and offers that are closed.
use propmatch_backend.Prelude.{
  ℕ, ◌≤◌, ◌≡◌, ◌∙◌, String, some, ◌⊎◌, inl, inr, true, false, ◌==◌, Bool-cases, arith, find?,
  count_where, update_where, find?-update_where, find?-narrower, update_where-none,
}
use propmatch_backend.Store.{
  Property, TenantRequest, OwnerOffer, OwnerOfferStatus, Db, Result, ok, err, conflict, bind-ok,
  bind-err,
}
use propmatch_backend.Offers.{
  is_open, is_open_offer, has_id, is_for_tenant, own_offer, set_status, find_open_offer,
  check_parties, settle_acceptance, check_acceptance, accept_offer, reject_offer, view_own,
  settle_rejection, find_owned_offer, view_offer,
}

-- What a rejection returns and leaves of the offers: closed by it, or as others left them.
abbrev pub Rejection : (Db → Db) → ℕ → Db → Result (Unit {0}) × Db → Type 0
Rejection others id db (r, db') =
    ((r ≡ ok tt)
      × (count_where (is_open_offer id) (others db).owner_offers ≡ 1)
      × (db'.owner_offers
          ≡ update_where (is_open_offer id) (set_status OwnerOfferStatus.rejected)
              (others db).owner_offers))
    ⊎ ((r ≡ err (conflict "the offer cannot be rejected in its current state"))
        × (db'.owner_offers ≡ (others db).owner_offers))

find_open_offer_closed :
    (tenant id : ℕ) (refusal : String) (db : Db) (o : OwnerOffer)
    → own_offer tenant id db ≡ some o
    → is_open o.status ≡ false
    → find_open_offer tenant id refusal db ≡ (err (conflict refusal), db)
unfolding find_open_offer
find_open_offer_closed tenant id refusal db o found closed = ground arith

find_open_offer_open :
    (tenant id : ℕ) (refusal : String) (db : Db) (o : OwnerOffer)
    → own_offer tenant id db ≡ some o
    → is_open o.status ≡ true
    → find_open_offer tenant id refusal db ≡ (ok o, db)
unfolding find_open_offer
find_open_offer_open tenant id refusal db o found open_now = ground arith

find_owned_offer_lem :
    (tenant id : ℕ) (db : Db) (o : OwnerOffer)
    → own_offer tenant id db ≡ some o
    → find_owned_offer tenant id db ≡ (ok o, db)
unfolding find_owned_offer
find_owned_offer_lem tenant id db o found = ground arith

view_closed :
    (others : Db → Db) (id : ℕ) (db : Db) (o : OwnerOffer)
    → is_open o.status ≡ false
    → find? (has_id id) db.owner_offers ≡ some o
    → view_own others id o db ≡ (ok o, db)
unfolding view_own
view_closed others id db o closed stored = ground arith

settle_rejection_lem :
    (others : Db → Db) (id : ℕ) (db : Db) (o : OwnerOffer)
    → count_where (is_open_offer id) (others db).owner_offers ≤ 1
    → Rejection others id db (settle_rejection others id o db)
unfolding settle_rejection
settle_rejection_lem others id db o one =
    elim (Bool-cases (count_where (is_open_offer id) (others db).owner_offers == 1)) [
      | inl there ↦ inl (ground arith, ground arith, ground arith)
      | inr gone ↦
          let empty : count_where (is_open_offer id) (others db).owner_offers ≡ 0 = ground arith in
          inr (
            ground arith,
            ground (
              arith,
              update_where-none (is_open_offer id) (set_status OwnerOfferStatus.rejected)
                  (others db).owner_offers empty,
            ),
          )
    ]

view_fresh :
    (others : Db → Db) (id : ℕ) (db : Db) (o o' : OwnerOffer)
    → o.status ≡ OwnerOfferStatus.sent
    → find? (has_id id) (others db).owner_offers ≡ some o'
    → let db' = (view_own others id o db).1 in
      (find? (has_id id) db'.owner_offers ≡ some (set_status OwnerOfferStatus.viewed o'))
      × (db'.connections ≡ (others db).connections)
unfolding view_own
view_fresh others id db o o' fresh meanwhile = ground (
  arith,
  find?-update_where (has_id id) (set_status OwnerOfferStatus.viewed) (others db).owner_offers
      (λ x h. h),
)

-- An accepted or rejected offer is final for the tenant: it can be neither accepted nor rejected,
-- both with a conflict that writes nothing, and viewing it changes nothing and returns it as it is.
pub closed_offer_final :
    (score : TenantRequest → Property → ℕ) (others : Db → Db) (tenant id : ℕ) (db : Db)
    (o : OwnerOffer)
    → count_where (has_id id) db.owner_offers ≤ 1
    → own_offer tenant id db ≡ some o
    → is_open o.status ≡ false
    → (accept_offer score others tenant id db
        ≡ (err (conflict "the offer cannot be accepted in its current state"), db))
      × (reject_offer others tenant id db
          ≡ (err (conflict "the offer cannot be rejected in its current state"), db))
      × (view_offer others tenant id db ≡ (ok o, db))
unfolding accept_offer check_acceptance reject_offer view_offer
closed_offer_final score others tenant id db o one found closed =
    let accept_refusal : String = "the offer cannot be accepted in its current state" in
    let reject_refusal : String = "the offer cannot be rejected in its current state" in
    let stored =
      find?-narrower (has_id id) (is_for_tenant tenant db.requests) db.owner_offers o found one in
    (
      bind-err (check_acceptance tenant id) (settle_acceptance score others tenant id) db db
          (conflict accept_refusal)
          (bind-err (find_open_offer tenant id accept_refusal) check_parties db db
            (conflict accept_refusal)
            (find_open_offer_closed tenant id accept_refusal db o found closed)),
      bind-err (find_open_offer tenant id reject_refusal) (settle_rejection others id) db db
          (conflict reject_refusal)
          (find_open_offer_closed tenant id reject_refusal db o found closed),
      bind-ok (find_owned_offer tenant id) (view_own others id) db db o
            (find_owned_offer_lem tenant id db o found)
          ∙ view_closed others id db o closed stored,
    )

-- A rejection that passed its guards takes effect exactly when the offer is still open among what
-- others had left: then the offer is closed; else the tenant is told of a conflict, and what the
-- others left stays as it is.
pub reject_offer_lem :
    (others : Db → Db) (tenant id : ℕ) (db : Db) (o : OwnerOffer)
    → own_offer tenant id db ≡ some o
    → is_open o.status ≡ true
    → count_where (is_open_offer id) (others db).owner_offers ≤ 1
    → Rejection others id db (reject_offer others tenant id db)
unfolding reject_offer
reject_offer_lem others tenant id db o found open_now one =
    let refusal : String = "the offer cannot be rejected in its current state" in
    let step =
      bind-ok (find_open_offer tenant id refusal) (settle_rejection others id) db db o
        (find_open_offer_open tenant id refusal db o found open_now) in
    rw step (settle_rejection_lem others id db o one)

-- Marking an offer as viewed does not test its state again: whatever others made of the offer since
-- it was read, an acceptance with its connection too, the offer is left as viewed and so open
-- again.
pub view_offer_overwrites :
    (others : Db → Db) (tenant id : ℕ) (db : Db) (o o' : OwnerOffer)
    → own_offer tenant id db ≡ some o
    → o.status ≡ OwnerOfferStatus.sent
    → find? (has_id id) (others db).owner_offers ≡ some o'
    → let db' = (view_offer others tenant id db).1 in
      (find? (has_id id) db'.owner_offers ≡ some (set_status OwnerOfferStatus.viewed o'))
      × (db'.connections ≡ (others db).connections)
unfolding view_offer
view_offer_overwrites others tenant id db o o' found fresh meanwhile =
    let step =
      bind-ok (find_owned_offer tenant id) (view_own others id) db db o
        (find_owned_offer_lem tenant id db o found) in
    rw step (view_fresh others id db o o' fresh meanwhile)
