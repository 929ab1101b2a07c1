-- ===== src/Messages/Rows.antt =====
-- The rows that an agreement writes.
use propmatch_backend.Prelude.{
  ℕ, ◌≡◌, ◌∙◌, ap, Option, none, some, true, ◌==◌, Bool-cases, inl, inr, arith, update_where,
  count_where,
}
use propmatch_backend.Store.{
  PropertyStatus, TenantRequestStatus, OwnerOfferStatus, TenantOfferStatus, MatchConnection, Db,
  ◌>>◌, pure, ok, bind-steps,
}
use propmatch_backend.Messages.{
  is_wanted, open_on_request, open_on_property, listing_offer_open, is_listed, fulfil_request,
  close_property, Confirmation, settle_match,
}

-- The request of the match, where there is one, is fulfilled, and the open offers on it are rejected.
abbrev pub fulfilled_db : MatchConnection → Option ℕ → Db → Db
fulfilled_db c none db = db
fulfilled_db c (some request) db = record db {
  requests =
      update_where (is_wanted request c.tenant_id)
        (λ r. record r { status = TenantRequestStatus.fulfilled }) db.requests;
  owner_offers =
      update_where (open_on_request request) (λ o. record o { status = OwnerOfferStatus.rejected })
        db.owner_offers;
}

-- The open offers on the property are closed, and the property is archived.
abbrev pub closed_db : ℕ → Db → Db
closed_db property db = record db {
  owner_offers =
      update_where (open_on_property property)
        (λ o. record o { status = OwnerOfferStatus.rejected }) db.owner_offers;
  tenant_offers =
      update_where (listing_offer_open property)
        (λ o. record o { status = TenantOfferStatus.declined }) db.tenant_offers;
  properties =
      update_where (is_listed property) (λ p. record p { status = PropertyStatus.archived })
        db.properties;
}

abbrev pub settled_db : MatchConnection → Db → Db
settled_db c db = closed_db c.property_id (fulfilled_db c c.tenant_request_id db)

-- The request of the match was approved, and is one row.
abbrev pub IsAsked : MatchConnection → Option ℕ → Db → Type 0
IsAsked c none db = Unit
IsAsked c (some request) db = count_where (is_wanted request c.tenant_id) db.requests ≡ 1

fulfil_request-rows :
    (c : MatchConnection) (o : Option ℕ) (db d : Db)
    → fulfil_request c o db ≡ (ok tt, d)
    → IsAsked c o db × (d ≡ fulfilled_db c o db)
unfolding fulfil_request
fulfil_request-rows c none db d h = (tt, ground arith)
fulfil_request-rows c (some r) db d h =
    elim (Bool-cases (count_where (is_wanted r c.tenant_id) db.requests == 1)) [
      | inr other ↦ absurd (ground arith)
      | inl one ↦ (ground arith, ground arith)
    ]

close_property-rows :
    (now property : ℕ) (mid d : Db) (r : Confirmation)
    → (close_property property >> pure (record { reached_at = now; notify = true })) mid ≡ (ok r, d)
    → d ≡ closed_db property mid
unfolding close_property
close_property-rows now property mid d r h = ground arith

pub settle_match-rows :
    (now : ℕ) (c : MatchConnection) (db d : Db) (r : Confirmation)
    → settle_match now c db ≡ (ok r, d)
    → IsAsked c c.tenant_request_id db × (d ≡ settled_db c db)
unfolding settle_match
settle_match-rows now c db d r h =
    let (_, mid, ran, rest) =
      bind-steps (fulfil_request c c.tenant_request_id)
        (λ _. close_property c.property_id >> pure (record { reached_at = now; notify = true })) db
        d r h in
    let (asked, fulfilled) = fulfil_request-rows c c.tenant_request_id db mid ran in
    (
      asked,
      close_property-rows now c.property_id mid d r rest ∙ ap (closed_db c.property_id) fulfilled,
    )

-- The tables of offers, requests and properties after an agreement, and the request before it.
pub record HasRows (c : MatchConnection) (before after : Db) : Type 0 where
  pub asked : IsAsked c c.tenant_request_id before
  pub requests : after.requests ≡ (settled_db c before).requests
  pub owner_offers : after.owner_offers ≡ (settled_db c before).owner_offers
  pub tenant_offers : after.tenant_offers ≡ (settled_db c before).tenant_offers
  pub properties : after.properties ≡ (settled_db c before).properties
