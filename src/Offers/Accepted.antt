-- ===== src/Offers/Accepted.antt =====
-- The acceptance of a landlord's offer: one claim, while the request is active, and one connection.
use propmatch_backend.Prelude.{
  ℕ, String, ◌≡◌, ◌∙◌, sym, ap, [], ◌∷◌, ◌++◌, Bool, ◌&&◌, some, inl, inr, true, false, ◌==◌,
  is_some, Bool-cases, Option-cases, arith, find?, update_where, count_where,
  count_where-update_done,
}
use propmatch_backend.Store.{
  Property, TenantRequest, OwnerOffer, OwnerOfferStatus, MatchConnection, Db, ok, err, conflict,
  transaction, bind-ok, bind-err, bind-steps, transaction-ok,
}
use propmatch_backend.Offers.{
  is_open, is_open_offer, is_active_request, own_offer, set_status, new_connection, claim_offer,
  Acceptance, check_acceptance, conclude_acceptance, settle_acceptance, accept_offer,
  find_open_offer, check_parties,
}

-- What an acceptance finds and leaves: the tenant's own offer, its request active and the offer open
-- among what others had left, the offer closed and one more connection.
pub record IsAccepted (tenant id score : ℕ) (o : OwnerOffer) (c : MatchConnection) (mid after : Db)
    : Type 0 where
  pub active : is_some (find? (is_active_request o.tenant_request_id) mid.requests) ≡ true
  pub one : count_where (is_open_offer id) mid.owner_offers ≡ 1
  pub accepted :
      after.owner_offers
      ≡ update_where (is_open_offer id) (set_status OwnerOfferStatus.accepted) mid.owner_offers
  pub closed : count_where (is_open_offer id) after.owner_offers ≡ 0
  pub made : c ≡ new_connection mid.next_id tenant o score
  pub connected : after.connections ≡ mid.connections ++ c ∷ []

set_status-closed :
    (id : ℕ) (o : OwnerOffer) → is_open_offer id (set_status OwnerOfferStatus.accepted o) ≡ false
set_status-closed id o = ground arith

claim_offer-IsAccepted :
    (tenant id score : ℕ) (o : OwnerOffer) (c : MatchConnection) (mid after : Db)
    → claim_offer tenant id o score mid ≡ (ok c, after)
    → IsAccepted tenant id score o c mid after
unfolding claim_offer
claim_offer-IsAccepted tenant id score o c mid after h =
    elim (Option-cases (find? (is_active_request o.tenant_request_id) mid.requests)) [
      | inl gone ↦ absurd (ground arith)
      | inr (r, there) ↦ elim (Bool-cases (count_where (is_open_offer id) mid.owner_offers == 1)) [
        | inr other ↦ absurd (ground arith)
        | inl one ↦
            let rows : after.owner_offers
                ≡ update_where (is_open_offer id) (set_status OwnerOfferStatus.accepted)
                    mid.owner_offers =
              ground arith in
            record {
              active = rw there;
              one = ground arith;
              accepted = rows;
              closed = rw rows (
                  count_where-update_done (is_open_offer id) (set_status OwnerOfferStatus.accepted)
                    mid.owner_offers (set_status-closed id));
              made = ground arith;
              connected = ground arith;
            }
      ]
    ]

find_open_offer_lem :
    (tenant id : ℕ) (refusal : String) (db d : Db) (o : OwnerOffer)
    → find_open_offer tenant id refusal db ≡ (ok o, d)
    → (own_offer tenant id db ≡ some o) × (is_open o.status ≡ true) × (d ≡ db)
unfolding find_open_offer
find_open_offer_lem tenant id refusal db d o h = elim (Option-cases (own_offer tenant id db)) [
  | inl unknown ↦ absurd (ground arith)
  | inr (x, found) ↦ elim (Bool-cases (is_open x.status)) [
    | inr closed ↦ absurd (ground arith)
    | inl open_now ↦
        let same : x ≡ o = ground arith in (rw (← same) found, rw (← same) open_now, ground arith)
  ]
]

check_parties_quiet : (o : OwnerOffer) (db : Db) → (check_parties o db).1 ≡ db
unfolding check_parties
check_parties_quiet o db = ground arith

check_parties_lem :
    (o : OwnerOffer) (db d : Db) (a : Acceptance) → check_parties o db ≡ (ok a, d) → a.offer ≡ o
unfolding check_parties
check_parties_lem o db d a h = ground arith

check_acceptance_lem :
    (tenant id : ℕ) (db d : Db) (a : Acceptance)
    → check_acceptance tenant id db ≡ (ok a, d)
    → (own_offer tenant id db ≡ some a.offer) × (is_open a.offer.status ≡ true) × (d ≡ db)
unfolding check_acceptance
check_acceptance_lem tenant id db d a h =
    let refusal : String = "the offer cannot be accepted in its current state" in
    let (o, mid, opened, parties) =
      bind-steps (find_open_offer tenant id refusal) check_parties db d a h in
    let (found, open_now, same) = find_open_offer_lem tenant id refusal db mid o opened in
    let own = check_parties_lem o mid d a parties in
    let kept : d ≡ mid = rw parties at (check_parties_quiet o mid) in
    (rw own found, rw own open_now, kept ∙ same)

-- The rows and the connections that the transaction of a successful acceptance left.
record Claimed (score : TenantRequest → Property → ℕ) (others : Db → Db) (tenant id : ℕ)
    (c : MatchConnection) (a : Acceptance) (db db' : Db) : Type 0 where
  found : own_offer tenant id db ≡ some a.offer
  after : Db
  claimed : claim_offer tenant id a.offer (score a.request a.property) (others db) ≡ (ok c, after)
  offers : db'.owner_offers ≡ after.owner_offers
  connections : db'.connections ≡ after.connections

conclude_acceptance_lem :
    (x a : Acceptance) (y c : MatchConnection) (after db' : Db)
    → conclude_acceptance x y after ≡ (ok (c, a), db')
    → (x ≡ a)
      × (y ≡ c)
      × (db'.owner_offers ≡ after.owner_offers)
      × (db'.connections ≡ after.connections)
unfolding conclude_acceptance
conclude_acceptance_lem x a y c after db' h =
    (ground arith, ground arith, ground arith, ground arith)

module _ (score : TenantRequest → Property → ℕ) (others : Db → Db) (tenant id : ℕ) (db db' : Db)
    (c : MatchConnection) (a : Acceptance) where
  accept_offer-Claimed :
      accept_offer score others tenant id db ≡ (ok (c, a), db')
      → Claimed score others tenant id c a db db'
  unfolding accept_offer settle_acceptance
  accept_offer-Claimed h =
      let (x, d, checked, settled) =
        bind-steps (check_acceptance tenant id) (settle_acceptance score others tenant id) db db'
          (c, a) h in
      let (found, open_now, same) = check_acceptance_lem tenant id db d x checked in
      let (y, after, claimed, told) =
        bind-steps (transaction (claim_offer tenant id x.offer (score x.request x.property)))
          (conclude_acceptance x) (others d) db' (c, a) settled in
      let (same_a, same_c, rows, connections) = conclude_acceptance_lem x a y c after db' told in
      let ran =
        transaction-ok (claim_offer tenant id x.offer (score x.request x.property)) (others d) after
          y claimed in
      record {
        found = found ∙ ap (λ z. some z.offer) same_a;
        after = after;
        claimed =
            ap (λ z. claim_offer tenant id z.offer (score z.request z.property) (others db))
              (sym same_a)
            ∙ ap (λ e. claim_offer tenant id x.offer (score x.request x.property) (others e))
                (sym same)
            ∙ ran
            ∙ ap (λ z. (ok z, after)) same_c;
        offers = rows;
        connections = connections;
      }

-- An acceptance that succeeds is of the tenant's own offer, found its request still active and
-- exactly one such open offer among what other requests had left, closes it as accepted and no
-- other, and adds exactly one connection, of the tenant, the offer's property and owner, for the
-- request.
pub accept_offer-IsAccepted :
    (score : TenantRequest → Property → ℕ) (others : Db → Db) (tenant id : ℕ) (db db' : Db)
    (c : MatchConnection) (a : Acceptance)
    → accept_offer score others tenant id db ≡ (ok (c, a), db')
    → (own_offer tenant id db ≡ some a.offer)
      × IsAccepted tenant id (score a.request a.property) a.offer c (others db) db'
accept_offer-IsAccepted score others tenant id db db' c a h =
    let run = accept_offer-Claimed score others tenant id db db' c a h in
    let done =
      claim_offer-IsAccepted tenant id (score a.request a.property) a.offer c (others db) run.after
        run.claimed in
    (
      run.found,
      record {
        active = done.active;
        one = done.one;
        accepted = run.offers ∙ done.accepted;
        closed = rw run.offers done.closed;
        made = done.made;
        connected = run.connections ∙ done.connected;
      },
    )

-- Whether an acceptance can still claim the offer.
abbrev pub can_claim : ℕ → OwnerOffer → Db → Bool
can_claim id o db =
    is_some (find? (is_active_request o.tenant_request_id) db.requests)
    && count_where (is_open_offer id) db.owner_offers == 1

claim_offer_late :
    (tenant id score : ℕ) (o : OwnerOffer) (mid : Db)
    → can_claim id o mid ≡ false
    → (message : String) × (transaction (claim_offer tenant id o score) mid
        ≡ (err (conflict message), mid))
unfolding claim_offer
claim_offer_late tenant id score o mid late =
    elim (Option-cases (find? (is_active_request o.tenant_request_id) mid.requests)) [
      | inl gone ↦ ("the request is no longer available", ground arith)
      | inr (r, there) ↦ ("the offer cannot be accepted in its current state", ground arith)
    ]

-- An acceptance that passed its guards but comes too late, after others have settled the request or
-- closed the offer, is refused with a conflict, and what the others left stays as it is.
pub accept_offer_late :
    (score : TenantRequest → Property → ℕ) (others : Db → Db) (tenant id : ℕ) (db : Db)
    (a : Acceptance)
    → check_acceptance tenant id db ≡ (ok a, db)
    → can_claim id a.offer (others db) ≡ false
    → (message : String) × (accept_offer score others tenant id db
        ≡ (err (conflict message), others db))
unfolding accept_offer settle_acceptance
accept_offer_late score others tenant id db a checked late =
    let value = score a.request a.property in
    let (message, refused) = claim_offer_late tenant id value a.offer (others db) late in
    let step =
      bind-ok (check_acceptance tenant id) (settle_acceptance score others tenant id) db db a
        checked in
    (
      message,
      step
          ∙ bind-err (transaction (claim_offer tenant id a.offer value)) (conclude_acceptance a)
              (others db) (others db) (conflict message) refused,
    )
