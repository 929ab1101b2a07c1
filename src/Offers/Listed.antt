-- ===== src/Offers/Listed.antt =====
-- The listings of offers and requests: what they contain, in which order, and what they keep private.
use propmatch_backend.Prelude.{
  some, List, [], ◌∷◌, is_some, find?, ℕ, ◌≡◌, ◌∙◌, refl, Option, map, true, false, ◌==◌, none,
  or_else, count_where, filter_where, IsFalling, sort_desc-IsFalling, sort_desc-count, map-count,
  filter_where-count, arith,
}
use propmatch_backend.Store.{OwnerOffer, Property, TenantRequest, Db}
use propmatch_backend.Offers.{is_accepted, is_active_request}
use propmatch_backend.Offers.Score.{Similarity}
use propmatch_backend.Offers.Inbox.{
  ReceivedOffer, SentRow, is_approved_request, browsed, browse_requests,
}

-- Until the tenant has accepted, nothing of the owner is told, nor the address, nor the conversation.
abbrev pub IsDiscreet : ReceivedOffer → Type 0
IsDiscreet x =
    is_accepted x.status ≡ false
    → (x.owner_name ≡ none)
      × (x.owner_phone_number ≡ none)
      × (x.manual_address ≡ none)
      × (x.match_connection_id ≡ none)

-- Until the tenant has accepted, nothing of the tenant is told, nor the conversation.
abbrev pub IsDiscreetRow : SentRow → Type 0
IsDiscreetRow x =
    is_accepted x.status ≡ false
    → (x.tenant_name ≡ none) × (x.tenant_phone_number ≡ none) × (x.match_connection_id ≡ none)

abbrev or_skip : {B : Type 0} → Option B → List B → List B
or_skip none ys = ys
or_skip (some y) ys = y ∷ ys

-- The elements that are there.
abbrev gather : {A B : Type 0} → (A → Option B) → List A → List B
gather f [] = []
gather f (x ∷ xs) = or_skip (f x) (gather f xs)

-- Every offer's property is stored.
abbrev pub IsOfStored : Db → OwnerOffer → Type 0
IsOfStored db o = is_some (find? (λ p. p.id == o.property_id) db.properties) ≡ true

module _ (similarity : TenantRequest → Property → Option Similarity) (least : Similarity) where
  browsed-request :
      (user : ℕ) (db : Db) (r : TenantRequest) → (browsed similarity least user db r).request ≡ r
  browsed-request user db r = ground arith

-- A landlord who browses sees every approved request as often as it is stored, and no other one, by
-- falling score.
pub browse_requests-IsFalling :
    (similarity : TenantRequest → Property → Option Similarity) (least : Similarity) (user : ℕ)
    (db : Db)
    → IsFalling (λ x. or_else x.match_score 0) (browse_requests similarity least user db)
      × ((id : ℕ)
          → count_where (λ x. x.request.id == id) (browse_requests similarity least user db)
            ≡ count_where (is_active_request id) db.requests)
unfolding browse_requests
browse_requests-IsFalling similarity least user db =
    let approved = filter_where is_approved_request db.requests in
    let items = map (browsed similarity least user db) approved in
    (
      sort_desc-IsFalling (λ x. or_else x.match_score 0) items,
      λ id.
          sort_desc-count (λ x. or_else x.match_score 0) (λ x. x.request.id == id) items
          ∙ map-count (λ x. x.request.id == id) (λ r. r.id == id) (browsed similarity least user db)
              approved (λ r. rw (browsed-request similarity least user db r) refl)
          ∙ filter_where-count is_approved_request (λ r. r.id == id) (is_active_request id)
              db.requests (λ r h. ground arith) (λ r h. ground arith),
    )
