-- ===== src/Messages/Agreement.antt =====
-- An agreement: the first confirmation settles everything about the match, and later ones report it.
use propmatch_backend.Prelude.{
  ℕ, ◌≡◌, ◌∙◌, refl, ap, Option, none, some, inl, inr, true, false, ◌==◌, Bool-cases, arith,
  update_where, count_where, count_where-update_done, count_where-update_le,
}
use propmatch_backend.Store.{
  Property, TenantRequest, OwnerOffer, TenantOffer, MatchConnection, Db, ◌>>◌, pure, ok, bind-steps,
}
use propmatch_backend.Messages.{
  is_unconfirmed, confirm, is_wanted, fulfil, open_on_request, open_on_property, reject,
  listing_offer_open, decline, is_listed, archive, fulfil_request, close_property, Confirmation,
  settle_match, claim_agreement,
}
use propmatch_backend.Messages.Rows.{
  IsAsked, HasRows, fulfilled_db, closed_db, settled_db, settle_match-rows,
}

-- Nothing is left open on the property or on the request of a match.
pub record IsSettled (c : MatchConnection) (db : Db) : Type 0 where
  pub owner_offers : count_where (open_on_property c.property_id) db.owner_offers ≡ 0
  pub tenant_offers : count_where (listing_offer_open c.property_id) db.tenant_offers ≡ 0
  pub unlisted : count_where (is_listed c.property_id) db.properties ≡ 0
  pub fulfilled :
      (request : ℕ)
      → c.tenant_request_id ≡ some request
      → (count_where (is_wanted request c.tenant_id) db.requests ≡ 0)
        × (count_where (open_on_request request) db.owner_offers ≡ 0)

reject-closed : (p : ℕ) (o : OwnerOffer) → open_on_property p (reject o) ≡ false
reject-closed p o = ground arith

reject-off_request : (r : ℕ) (o : OwnerOffer) → open_on_request r (reject o) ≡ false
reject-off_request r o = ground arith

decline-closed : (p : ℕ) (o : TenantOffer) → listing_offer_open p (decline o) ≡ false
decline-closed p o = ground arith

archive-unlisted : (id : ℕ) (p : Property) → is_listed id (archive p) ≡ false
archive-unlisted id p = ground arith

fulfil-settled : (r t : ℕ) (x : TenantRequest) → is_wanted r t (fulfil x) ≡ false
fulfil-settled r t x = ground arith

-- The request of the match is settled, and its connections are left alone.
record Fulfilled (c : MatchConnection) (o : Option ℕ) (before after : Db) : Type 0 where
  connections : after.connections ≡ before.connections
  request :
      (request : ℕ)
      → o ≡ some request
      → (count_where (is_wanted request c.tenant_id) after.requests ≡ 0)
        × (count_where (open_on_request request) after.owner_offers ≡ 0)

fulfil_request-Fulfilled :
    (c : MatchConnection) (o : Option ℕ) (db d : Db)
    → fulfil_request c o db ≡ (ok tt, d)
    → Fulfilled c o db d
unfolding fulfil_request
fulfil_request-Fulfilled c none db d h = record { connections = ground arith; request = λ r e. cc }
fulfil_request-Fulfilled c (some r) db d h =
    elim (Bool-cases (count_where (is_wanted r c.tenant_id) db.requests == 1)) [
      | inr other ↦ absurd (ground arith)
      | inl one ↦
          let requests : d.requests ≡ update_where (is_wanted r c.tenant_id) fulfil db.requests =
            ground arith in
          let offers : d.owner_offers ≡ update_where (open_on_request r) reject db.owner_offers =
            ground arith in
          record {
            connections = ground arith;
            request = λ r' e.
                let same : r ≡ r' = ground arith in
                rw (← same) (
                  rw requests (
                      count_where-update_done (is_wanted r c.tenant_id) fulfil db.requests
                        (fulfil-settled r c.tenant_id)),
                  rw offers (
                      count_where-update_done (open_on_request r) reject db.owner_offers
                        (reject-off_request r)),
                );
          }
    ]

closed_again : (r : ℕ) (o : OwnerOffer) → open_on_request r (reject o) ≡ true → ⊥
closed_again r o h = ground arith

-- What closing a property leaves.
record Closed (property : ℕ) (before after : Db) : Type 0 where
  connections : after.connections ≡ before.connections
  requests : after.requests ≡ before.requests
  rejected :
      after.owner_offers ≡ update_where (open_on_property property) reject before.owner_offers
  declined :
      after.tenant_offers ≡ update_where (listing_offer_open property) decline before.tenant_offers
  archived : after.properties ≡ update_where (is_listed property) archive before.properties

close_property-Closed : (property : ℕ) (db : Db) → Closed property db (close_property property db).1
unfolding close_property
close_property-Closed property db = record {
  connections = refl;
  requests = refl;
  rejected = refl;
  declined = refl;
  archived = refl;
}

Closed-IsSettled :
    (c : MatchConnection) (db mid after : Db)
    → Fulfilled c c.tenant_request_id db mid
    → Closed c.property_id mid after
    → IsSettled c after
Closed-IsSettled c db mid after f k = record {
  owner_offers = rw k.rejected (
      count_where-update_done (open_on_property c.property_id) reject mid.owner_offers
        (reject-closed c.property_id));
  tenant_offers = rw k.declined (
      count_where-update_done (listing_offer_open c.property_id) decline mid.tenant_offers
        (decline-closed c.property_id));
  unlisted = rw k.archived (
      count_where-update_done (is_listed c.property_id) archive mid.properties
        (archive-unlisted c.property_id));
  fulfilled = λ r e.
      let (requests, offers) = f.request r e in
      (
        rw k.requests requests,
        rw k.rejected (
            omega (
              arith,
              offers,
              count_where-update_le (open_on_request r) (open_on_property c.property_id) reject
                  mid.owner_offers (λ o h e. absurd (closed_again r o e)),
            )),
      );
}

closing_steps :
    (now property : ℕ) (mid d : Db) (r : Confirmation)
    → (close_property property >> pure (record { reached_at = now; notify = true })) mid ≡ (ok r, d)
    → ((close_property property mid).1 ≡ d) × (record { reached_at = now; notify = true } ≡ r)
unfolding close_property
closing_steps now property mid d r h = (ground arith, ground arith)

settle_match-IsSettled :
    (now : ℕ) (c : MatchConnection) (db d : Db) (r : Confirmation)
    → settle_match now c db ≡ (ok r, d)
    → IsSettled c d
      × (d.connections ≡ db.connections)
      × (record { reached_at = now; notify = true } ≡ r)
unfolding settle_match
settle_match-IsSettled now c db d r h =
    let (_, mid, ran, rest) =
      bind-steps (fulfil_request c c.tenant_request_id)
        (λ _. close_property c.property_id >> pure (record { reached_at = now; notify = true })) db
        d r h in
    let f = fulfil_request-Fulfilled c c.tenant_request_id db mid ran in
    let k = close_property-Closed c.property_id mid in
    let (same, told) = closing_steps now c.property_id mid d r rest in
    (
      rw (← same) (Closed-IsSettled c db mid (close_property c.property_id mid).1 f k),
      rw (← same) (k.connections ∙ f.connections),
      told,
    )

-- The confirmations that a transaction can end with: its own, or another request's.
pub record First (now id : ℕ) (c : MatchConnection) (mid after : Db) : Type 0 where
  pub settled : IsSettled c after
  pub dated : after.connections ≡ update_where (is_unconfirmed id) (confirm now) mid.connections
  pub rows : HasRows c mid after

-- The connections with the date of the agreement.
abbrev pub confirmed_db : ℕ → ℕ → Db → Db
confirmed_db now id db = record db {
  connections = update_where (is_unconfirmed id) (confirm now) db.connections;
}

claim_first :
    (now id : ℕ) (c : MatchConnection) (mid after : Db) (r : Confirmation)
    → count_where (is_unconfirmed id) mid.connections ≡ 1
    → claim_agreement now id c mid ≡ (ok r, after)
    → settle_match now c (confirmed_db now id mid) ≡ (ok r, after)
unfolding claim_agreement
claim_first now id c mid after r one h = ground arith

IsAsked-before :
    (now id : ℕ) (c : MatchConnection) (o : Option ℕ) (mid : Db)
    → IsAsked c o (confirmed_db now id mid)
    → IsAsked c o mid
IsAsked-before now id c none mid asked = tt
IsAsked-before now id c (some r) mid asked = asked

-- The date of the agreement is in none of the rows.
same_rows :
    (now id : ℕ) (c : MatchConnection) (o : Option ℕ) (mid : Db)
    → let d = closed_db c.property_id (fulfilled_db c o (confirmed_db now id mid)) in
      let d' = closed_db c.property_id (fulfilled_db c o mid) in
      (d.requests ≡ d'.requests)
      × (d.owner_offers ≡ d'.owner_offers)
      × (d.tenant_offers ≡ d'.tenant_offers)
      × (d.properties ≡ d'.properties)
same_rows now id c none mid = (refl, refl, refl, refl)
same_rows now id c (some r) mid = (refl, refl, refl, refl)

settled-HasRows :
    (now id : ℕ) (c : MatchConnection) (mid after : Db)
    → IsAsked c c.tenant_request_id (confirmed_db now id mid)
    → after ≡ settled_db c (confirmed_db now id mid)
    → HasRows c mid after
settled-HasRows now id c mid after asked state =
    let request = c.tenant_request_id in
    let (requests, owner_offers, tenant_offers, properties) = same_rows now id c request mid in
    record {
      asked = IsAsked-before now id c request mid asked;
      requests = ap (λ d. d.requests) state ∙ requests;
      owner_offers = ap (λ d. d.owner_offers) state ∙ owner_offers;
      tenant_offers = ap (λ d. d.tenant_offers) state ∙ tenant_offers;
      properties = ap (λ d. d.properties) state ∙ properties;
    }

pub claim_agreement-First :
    (now id : ℕ) (c : MatchConnection) (mid after : Db) (r : Confirmation)
    → count_where (is_unconfirmed id) mid.connections ≡ 1
    → claim_agreement now id c mid ≡ (ok r, after)
    → First now id c mid after × (record { reached_at = now; notify = true } ≡ r)
unfolding claim_agreement
claim_agreement-First now id c mid after r one h =
    let db' = confirmed_db now id mid in
    let ran : settle_match now c db' ≡ (ok r, after) = claim_first now id c mid after r one h in
    let (settled, dated, told) = settle_match-IsSettled now c db' after r ran in
    let (asked, state) = settle_match-rows now c db' after r ran in
    (
      record {
        settled = settled;
        dated = dated;
        rows = settled-HasRows now id c mid after asked state;
      },
      told,
    )
