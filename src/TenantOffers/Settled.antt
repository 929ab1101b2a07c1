-- ===== src/TenantOffers/Settled.antt =====
-- The acceptance of an offer: one claim, one connection.
use propmatch_backend.Prelude.{
  ℕ, ◌≡◌, ◌∙◌, refl, [], ◌∷◌, ◌++◌, some, inl, inr, true, false, ◌==◌, Bool-cases, Option-cases,
  arith, find?, find?-fits, update_where, count_where, count_where-update_done, Occurs,
  find?-Occurs, Occurs-update_where, Occurs-append_new, ==-refl,
}
use propmatch_backend.Store.{
  TenantOffer, TenantOfferStatus, MatchConnection, ConnectionStatus, Db, Result, ok, err, conflict,
}
use propmatch_backend.TenantOffers.{
  has_id, is_open_offer, set_status, is_reusable, connect, new_connection, connect_parties,
  claim_offer, Side, settle_as_match, is_available,
}

-- A connection of the offer's parties on its property that is open to both.
pub record Connects (o : TenantOffer) (c : MatchConnection) (db : Db) : Type 0 where
  pub stored : Occurs c db.connections
  pub connected : c.status ≡ ConnectionStatus.connected
  pub same_tenant : c.tenant_id ≡ o.tenant_id
  pub same_property : c.property_id ≡ o.property_id
  pub same_owner : c.owner_id ≡ o.owner_id

connect_parties_lem :
    (o : TenantOffer) (db db' : Db) (c : MatchConnection)
    → connect_parties o (find? (is_reusable o) db.connections) db ≡ (ok c, db')
    → Connects o c db' × (db'.tenant_offers ≡ db.tenant_offers)
unfolding connect_parties
connect_parties_lem o db db' c h = elim (Option-cases (find? (is_reusable o) db.connections)) [
  | inl new ↦
      let same : new_connection db.next_id o ≡ c = ground arith in
      let state : db'.connections ≡ db.connections ++ c ∷ [] = ground arith in
      (
        record {
          stored = rw state (Occurs-append_new db.connections c);
          connected = ground arith;
          same_tenant = ground arith;
          same_property = ground arith;
          same_owner = ground arith;
        },
        ground arith,
      )
  | inr (e, found) ↦
      let fits = find?-fits (is_reusable o) db.connections e found in
      let same : connect e ≡ c = ground arith in
      let state : db'.connections ≡ update_where (λ x. x.id == e.id) connect db.connections =
        ground arith in
      let there = find?-Occurs (is_reusable o) db.connections e found in
      (
        record {
          stored =
              rw (state, ← same)
                (Occurs-update_where (λ x. x.id == e.id) connect db.connections e there
                  (==-refl e.id));
          connected = ground arith;
          same_tenant = ground arith;
          same_property = ground arith;
          same_owner = ground arith;
        },
        ground arith,
      )
]

-- The offers after an acceptance.
abbrev pub accept_open : ℕ → Db → Db
accept_open id db = record db {
  tenant_offers =
      update_where (is_open_offer id) (set_status TenantOfferStatus.accepted) db.tenant_offers;
}

set_status-closed :
    (id : ℕ) (o : TenantOffer) → is_open_offer id (set_status TenantOfferStatus.accepted o) ≡ false
set_status-closed id o = ground arith

claim_offer_lem :
    (id : ℕ) (o : TenantOffer) (db db' : Db) (c : MatchConnection)
    → claim_offer id o db ≡ (ok c, db')
    → (count_where (is_open_offer id) db.tenant_offers ≡ 1)
      × (connect_parties o (find? (is_reusable o) db.connections) (accept_open id db) ≡ (ok c, db'))
unfolding claim_offer
claim_offer_lem id o db db' c h =
    elim (Bool-cases (count_where (is_open_offer id) db.tenant_offers == 1)) [
      | inl one ↦ (ground arith, ground arith)
      | inr other ↦ absurd (ground arith)
    ]

module _ (others : Db → Db) (id price : ℕ) (side : Side) (db db' : Db) (o : TenantOffer)
    (found : find? (has_id id) db.tenant_offers ≡ some o) where
  settle-claim :
      (c : MatchConnection)
      → settle_as_match others id price side db ≡ (ok c, db')
      → (mid : Db) × (claim_offer id o (others db) ≡ (ok c, mid))
        × (db'.tenant_offers ≡ mid.tenant_offers)
        × (db'.connections ≡ mid.connections)
  unfolding settle_as_match
  settle-claim c h = go (claim_offer id o (others db)) refl
    where
      go :
          (r : Result MatchConnection × Db)
          → claim_offer id o (others db) ≡ r
          → (mid : Db) × (claim_offer id o (others db) ≡ (ok c, mid))
            × (db'.tenant_offers ≡ mid.tenant_offers)
            × (db'.connections ≡ mid.connections)
      go (ok x, d) e = (d, ground arith, ground arith, ground arith)
      go (err x, d) e = absurd (ground arith)

-- An acceptance that succeeds had exactly one open offer to claim among what others had left, closes
-- it as accepted and changes no other offer, and leaves an open connection of the offer's tenant,
-- property and owner.
pub settle_as_match-Connects :
    (others : Db → Db) (id price : ℕ) (side : Side) (db db' : Db) (o : TenantOffer)
    (c : MatchConnection)
    → find? (has_id id) db.tenant_offers ≡ some o
    → settle_as_match others id price side db ≡ (ok c, db')
    → (count_where (is_open_offer id) (others db).tenant_offers ≡ 1)
      × (db'.tenant_offers ≡ (accept_open id (others db)).tenant_offers)
      × (count_where (is_open_offer id) db'.tenant_offers ≡ 0)
      × Connects o c db'
settle_as_match-Connects others id price side db db' o c found h =
    let (mid, claimed, offers, connections) =
      settle-claim others id price side db db' o found c h in
    let (one, made) = claim_offer_lem id o (others db) mid c claimed in
    let (connects, kept) = connect_parties_lem o (accept_open id (others db)) mid c made in
    (
      one,
      offers ∙ kept,
      rw (offers, kept)
          (count_where-update_done (is_open_offer id) (set_status TenantOfferStatus.accepted)
            (others db).tenant_offers (set_status-closed id)),
      record {
        stored = rw connections connects.stored;
        connected = connects.connected;
        same_tenant = connects.same_tenant;
        same_property = connects.same_property;
        same_owner = connects.same_owner;
      },
    )

-- An acceptance that comes too late, after others have closed the offer, is refused, and what the
-- others left stays as it is.
pub settle_as_match_late :
    (others : Db → Db) (id price : ℕ) (side : Side) (db : Db) (o : TenantOffer)
    → find? (has_id id) db.tenant_offers ≡ some o
    → is_available (find? (λ p. p.id == o.property_id) db.properties) ≡ true
    → count_where (is_open_offer id) (others db).tenant_offers ≡ 0
    → settle_as_match others id price side db
      ≡ (err (conflict "the offer can no longer be accepted"), others db)
unfolding settle_as_match claim_offer
settle_as_match_late others id price side db o found available closed = ground arith
