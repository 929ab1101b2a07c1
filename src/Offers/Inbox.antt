-- ===== src/Offers/Inbox.antt =====
-- src/offers/offers.service.ts, the listings: what each party is shown of a request and of an
-- offer. A listing is a function of the database. `similarity` is `cosineSimilarity` on the
-- embeddings of a request and a property; `least` is the configured `minSimilarity`. The queries of
-- this service include neither the governorate nor the city of a property, so its summary has
-- neither.
use propmatch_backend.Prelude.{
  ℕ, String, Option, none, some, List, [], ◌∷◌, map, Bool, true, false, ◌&&◌, ◌==◌, is_some,
  or_else, find?, last_by, filter_where, sort_desc,
}
use propmatch_backend.Text.{Text}
use propmatch_backend.Store.{
  Property, property_code, TenantRequest, OwnerOffer, OwnerOfferStatus, MatchConnection,
  ConnectionStatus, Db, Action, gets, or_throw, pure, ◌>>=◌, not_found,
}
use propmatch_backend.Summaries.{PropertySummary, to_summary}
use propmatch_backend.Offers.{request_code, is_accepted, has_request_id, is_for_tenant}
use propmatch_backend.Offers.Score.{
  Similarity, MatchReason, score_request, combine_score, match_reasons,
}

-- `computeHybridMatch`
pub record Match : Type 0 where
  pub score : ℕ
  pub reasons : List MatchReason

abbrev pub connection_code : ConnectionStatus → ℕ
connection_code ConnectionStatus.interested = 0
connection_code ConnectionStatus.connected = 1
connection_code ConnectionStatus.rejected = 2

-- The connection that an accepted offer opened, while it is connected.
abbrev pub offer_connection : ℕ → OwnerOffer → MatchConnection → Bool
offer_connection tenant o c =
    (c.tenant_id == tenant && (c.owner_id == o.owner_id && c.property_id == o.property_id))
    && (or_else c.tenant_request_id 0 == o.tenant_request_id
        && is_some c.tenant_request_id
        && connection_code c.status == 1)

abbrev pub own_approved : ℕ → Property → Bool
own_approved user p = p.owner_id == user && property_code p.status == 1

abbrev pub is_approved_request : TenantRequest → Bool
is_approved_request r = request_code r.status == 1

-- A request as a landlord sees it; the columns that are copied stand in `request`.
pub record BrowsedRequest : Type 0 where
  pub request : TenantRequest
  pub match_score : Option ℕ
  pub match_reasons : List MatchReason
  pub already_offered : Bool
  pub best_matching_property : Option (ℕ × Text)

-- An offer as its tenant sees it.
pub record ReceivedOffer : Type 0 where
  pub id : ℕ
  pub tenant_request_id : ℕ
  pub property : PropertySummary
  pub pitch_message : String
  pub proposed_price : ℕ
  pub status : OwnerOfferStatus
  pub match_score : Option ℕ
  pub match_reasons : List MatchReason
  pub owner_name : Option Text
  pub owner_phone_number : Option Text
  pub manual_address : Option Text
  pub match_connection_id : Option ℕ
  pub created_at : ℕ

-- An offer as its landlord sees it.
pub record SentRow : Type 0 where
  pub id : ℕ
  pub tenant_request_id : ℕ
  pub property : PropertySummary
  pub pitch_message : String
  pub proposed_price : ℕ
  pub status : OwnerOfferStatus
  pub tenant_name : Option Text
  pub tenant_phone_number : Option Text
  pub match_connection_id : Option ℕ
  pub created_at : ℕ

-- A column of a row that may be missing, shown only where it may be.
abbrev pub shown : {A B : Type 0} → Bool → (A → B) → Option A → Option B
shown false f o = none
shown true f none = none
shown true f (some a) = some (f a)

-- `Promise.all`: an element that throws leaves nothing.
abbrev pub push_shown : {B : Type 0} → Option B → Option (List B) → Option (List B)
push_shown none rest = none
push_shown (some b) none = none
push_shown (some b) (some bs) = some (b ∷ bs)

abbrev pub all_or_none : {A B : Type 0} → (A → Option B) → List A → Option (List B)
all_or_none f [] = some []
all_or_none f (x ∷ xs) = push_shown (f x) (all_or_none f xs)

module _ (similarity : TenantRequest → Property → Option Similarity) (least : Similarity) where
  unfoldable pub hybrid_match : TenantRequest → Property → Match
  hybrid_match r p = record {
    score = combine_score (score_request r p) (similarity r p);
    reasons = match_reasons least r p (similarity r p);
  }

  -- The landlord's property with the highest score, the first of them on a tie.
  abbrev pub best_property : TenantRequest → List Property → Option Property
  best_property r = last_by (λ _. true) (λ p. (hybrid_match r p).score)

  abbrev pub best_shown : TenantRequest → Bool → Option Property → BrowsedRequest
  best_shown r offered none = record {
    request = r;
    match_score = none;
    match_reasons = [];
    already_offered = offered;
    best_matching_property = none;
  }
  best_shown r offered (some p) = record {
    request = r;
    match_score = some (hybrid_match r p).score;
    match_reasons = (hybrid_match r p).reasons;
    already_offered = offered;
    best_matching_property = some (p.id, p.title);
  }

  abbrev pub browsed : ℕ → Db → TenantRequest → BrowsedRequest
  browsed user db r =
      best_shown r
        (is_some (find? (λ o. o.owner_id == user && o.tenant_request_id == r.id) db.owner_offers))
        (best_property r (filter_where (own_approved user) db.properties))

  -- `browseRequests`
  unfoldable pub browse_requests : ℕ → Db → List BrowsedRequest
  browse_requests user db =
      sort_desc (λ x. or_else x.match_score 0)
        (map (browsed user db) (filter_where is_approved_request db.requests))

  -- `getPropertyScoresForRequest`
  unfoldable pub property_scores : ℕ → ℕ → Action (List (ℕ × Match))
  property_scores user id = do
    found ← gets (λ db. find? (has_request_id id) db.requests)
    request ← or_throw found (not_found "no such request")
    properties ← gets (λ db. filter_where (own_approved user) db.properties)
    pure (map (λ p. (p.id, hybrid_match request p)) properties)

  -- The score and the reasons of an offer, where its request is there.
  abbrev pub match_of : Option TenantRequest → Property → Option Match
  match_of none p = none
  match_of (some r) p = some (hybrid_match r p)

  -- What `toReceivedOffer` makes of an offer and its property.
  unfoldable pub received_row : Bool → Db → OwnerOffer → Property → ReceivedOffer
  unfolding to_summary
  received_row arabic db o p =
      let request = find? (has_request_id o.tenant_request_id) db.requests in
      let owner = find? (λ u. u.id == o.owner_id) db.users in
      let accepted = is_accepted o.status in
      let tenant = or_else (shown true (λ r. r.tenant_id) request) 0 in
      let hybrid = match_of request p in
      record {
        id = o.id;
        tenant_request_id = o.tenant_request_id;
        property = to_summary arabic none none db p;
        pitch_message = o.pitch_message;
        proposed_price = o.proposed_price;
        status = o.status;
        match_score = shown true (λ m. m.score) hybrid;
        match_reasons = or_else (shown true (λ m. m.reasons) hybrid) [];
        owner_name = shown accepted (λ u. u.full_name) owner;
        owner_phone_number = shown accepted (λ u. u.phone_number) owner;
        manual_address = shown accepted (λ x. x.manual_address) (some p);
        match_connection_id =
            shown accepted (λ c. c.id) (find? (offer_connection tenant o) db.connections);
        created_at = o.created_at;
      }

  -- `toReceivedOffer`; none where the property is missing, since the summary of none throws.
  unfoldable pub to_received_offer : Bool → Db → OwnerOffer → Option ReceivedOffer
  unfolding received_row
  to_received_offer arabic db o =
      shown true (received_row arabic db o) (find? (λ p. p.id == o.property_id) db.properties)

  -- `getReceivedOffers`; none where it throws.
  unfoldable pub received_offers : Bool → ℕ → Db → Option (List ReceivedOffer)
  unfolding to_received_offer
  received_offers arabic tenant db = shown true (sort_desc (λ x. or_else x.match_score 0)) (
      all_or_none (to_received_offer arabic db) (
        sort_desc (λ o. o.created_at)
          (filter_where (is_for_tenant tenant db.requests) db.owner_offers)))

-- A row of `getSentOffers`, of an offer and its property.
unfoldable pub sent_row : Bool → Db → OwnerOffer → Property → SentRow
unfolding to_summary
sent_row arabic db o p =
    let accepted = is_accepted o.status in
    let request = find? (has_request_id o.tenant_request_id) db.requests in
    let tenant_id = or_else (shown true (λ r. r.tenant_id) request) 0 in
    let tenant = find? (λ u. u.id == tenant_id) db.users in
    record {
      id = o.id;
      tenant_request_id = o.tenant_request_id;
      property = to_summary arabic none none db p;
      pitch_message = o.pitch_message;
      proposed_price = o.proposed_price;
      status = o.status;
      tenant_name = shown accepted (λ u. u.full_name) tenant;
      tenant_phone_number = shown accepted (λ u. u.phone_number) tenant;
      match_connection_id =
          shown accepted (λ c. c.id) (find? (offer_connection tenant_id o) db.connections);
      created_at = o.created_at;
    }

-- None where the property is missing, since the summary of none throws.
unfoldable pub to_sent_row : Bool → Db → OwnerOffer → Option SentRow
unfolding sent_row
to_sent_row arabic db o =
    shown true (sent_row arabic db o) (find? (λ p. p.id == o.property_id) db.properties)

-- `getSentOffers`; none where it throws.
unfoldable pub sent_offers : Bool → ℕ → Db → Option (List SentRow)
unfolding to_sent_row
sent_offers arabic user db =
    all_or_none (to_sent_row arabic db)
      (sort_desc (λ o. o.created_at) (filter_where (λ o. o.owner_id == user) db.owner_offers))
