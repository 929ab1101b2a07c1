-- ===== src/Offers/Created.antt =====
-- A new offer and the unit of quota that pays for it.
use propmatch_backend.Prelude.{
  ℕ, ◌+◌, ◌≡◌, ◌≢◌, ◌∙◌, refl, sym, ap, [], ◌∷◌, ◌++◌, some, ◌⊎◌, inl, inr, ◌&&◌, ◌==◌,
  Option-cases, arith, find?, count_where, count_where-none,
}
use propmatch_backend.Store.{
  Property, property_code, TenantRequest, OwnerOffer, UserQuota, Db, Result, Error, ok, err,
  find_quota,
}
use propmatch_backend.Quota.Period.{ensure_current_period}
use propmatch_backend.Quota.Consumption.{offer, with_consumed_offer}
use propmatch_backend.Quota.Consumption.Totals.{IsKeyed, IsLeft, available}
use propmatch_backend.Quota.Consumption.Atomic.{
  with_consumed_offer_failed, with_consumed_offer_remaining,
}
use propmatch_backend.Quota.Consumption.Frame.{with_consumed_offer_runs, with_consumed_offer-IsLeft}
use propmatch_backend.Offers.{
  CreateOffer, SentOffer, is_active_request, is_sent_by, new_offer, insert_offer, check_offer,
  announce_offer, create_offer,
}

-- The request is approved, the property is the landlord's own and approved, and the landlord has no
-- offer on the request.
pub record MaySend (user : ℕ) (dto : CreateOffer) (request : TenantRequest) (db : Db) : Type 0 where
  pub property : Property
  pub active : find? (is_active_request dto.tenant_request_id) db.requests ≡ some request
  pub own : find? (λ p. p.id == dto.property_id && p.owner_id == user) db.properties ≡ some property
  pub approved : property_code property.status ≡ 1
  pub first : count_where (is_sent_by user dto.tenant_request_id) db.owner_offers ≡ 0

check_offer_quiet : (user : ℕ) (dto : CreateOffer) (db : Db) → (check_offer user dto db).1 ≡ db
unfolding check_offer
check_offer_quiet user dto db = ground arith

check_offer-MaySend :
    (user : ℕ) (dto : CreateOffer) (request : TenantRequest) (db d : Db)
    → check_offer user dto db ≡ (ok request, d)
    → MaySend user dto request db
unfolding check_offer
check_offer-MaySend user dto request db d h =
    elim (Option-cases (find? (λ p. p.id == dto.property_id && p.owner_id == user) db.properties)) [
      | inl unknown ↦ absurd (ground arith)
      | inr (p, own) ↦
          elim (Option-cases (find? (is_sent_by user dto.tenant_request_id) db.owner_offers)) [
            | inr (o, sent) ↦ absurd (ground arith)
            | inl first ↦ record {
              property = p;
              active = ground arith;
              own = own;
              approved = ground arith;
              first =
                  count_where-none (is_sent_by user dto.tenant_request_id) db.owner_offers first;
            }
          ]
    ]

insert_offer_quota :
    (now user : ℕ) (dto : CreateOffer) (db db' : Db) (o : OwnerOffer)
    → insert_offer now user dto db ≡ (ok o, db')
    → (db'.quotas ≡ db.quotas) × (db'.grants ≡ db.grants)
unfolding insert_offer
insert_offer_quota now user dto db db' o h = (ground arith, ground arith)

announce_offer_quota :
    (request : TenantRequest) (o : OwnerOffer) (left : ℕ) (db db' : Db) (r : SentOffer)
    → announce_offer request o left db ≡ (ok r, db')
    → (db'.quotas ≡ db.quotas) × (db'.grants ≡ db.grants)
unfolding announce_offer
announce_offer_quota request o left db db' r h = (ground arith, ground arith)

IsLeft-kept :
    (now user n : ℕ) (db db' : Db)
    → IsLeft now user offer n db
    → db'.quotas ≡ db.quotas
    → db'.grants ≡ db.grants
    → IsLeft now user offer n db'
IsLeft-kept now user n db db' (q, found, holds) quotas grants =
    (q, rw quotas found, rw grants holds)

insert_offer_lem :
    (now user : ℕ) (dto : CreateOffer) (db db' : Db) (o : OwnerOffer)
    → insert_offer now user dto db ≡ (ok o, db')
    → (o ≡ new_offer db.next_id now user dto) × (db'.owner_offers ≡ db.owner_offers ++ o ∷ [])
unfolding insert_offer
insert_offer_lem now user dto db db' o h = (ground arith, ground arith)

announce_offer_lem :
    (request : TenantRequest) (o : OwnerOffer) (left : ℕ) (db db' : Db) (r : SentOffer)
    → announce_offer request o left db ≡ (ok r, db')
    → (r.id ≡ o.id) × (r.free_offers_left ≡ left) × (db'.owner_offers ≡ db.owner_offers)
unfolding announce_offer
announce_offer_lem request o left db db' r h = (ground arith, ground arith, ground arith)

-- What the steps of a handler that succeeds returned.
record Run (others : Db → Db) (now user : ℕ) (dto : CreateOffer) (db db' : Db) (r : SentOffer)
    : Type 0 where
  request : TenantRequest
  checked : check_offer user dto db ≡ (ok request, db)
  paid : OwnerOffer × ℕ
  after : Db
  consumed : with_consumed_offer now user (insert_offer now user dto) (others db) ≡ (ok paid, after)
  announced : announce_offer request paid.0 paid.1 after ≡ (ok r, db')

module _ (others : Db → Db) (now user : ℕ) (dto : CreateOffer) (db db' : Db) where
  create_offer-Run :
      (r : SentOffer)
      → create_offer others now user dto db ≡ (ok r, db')
      → Run others now user dto db db' r
  unfolding create_offer
  create_offer-Run r h = go (check_offer user dto db) refl
    where
      next :
          (request : TenantRequest) (x : Result (OwnerOffer × ℕ) × Db)
          → check_offer user dto db ≡ (ok request, db)
          → with_consumed_offer now user (insert_offer now user dto) (others db) ≡ x
          → Run others now user dto db db' r
      next request (ok paid, after) checked e = record {
        request = request;
        checked = checked;
        paid = paid;
        after = after;
        consumed = e;
        announced = ground arith;
      }
      next request (err _, after) checked e = absurd (ground arith)

      go :
          (x : Result TenantRequest × Db)
          → check_offer user dto db ≡ x
          → Run others now user dto db db' r
      go (ok request, d) e =
          let same : d ≡ db = rw e at (check_offer_quiet user dto db) in
          next request (with_consumed_offer now user (insert_offer now user dto) (others db))
            (rw same at e) refl
      go (err _, d) e = absurd (ground arith)

-- One offer row more than before, with the fields that were sent, and the identifier that is told.
pub record IsSent (now user : ℕ) (dto : CreateOffer) (r : SentOffer) (before after : Db)
    : Type 0 where
  pub told : r.id ≡ before.next_id
  pub added : after.owner_offers ≡ before.owner_offers ++ new_offer before.next_id now user dto ∷ []

sent_lem :
    (others : Db → Db) (now user : ℕ) (dto : CreateOffer) (db db' : Db) (r : SentOffer)
    → Run others now user dto db db' r
    → IsSent now user dto r (others db) db'
sent_lem others now user dto db db' r run =
    let (spent, same, runs) =
      with_consumed_offer_runs now user (insert_offer now user dto) (others db) run.after run.paid.0
        run.paid.1 run.consumed in
    let (row, added) = insert_offer_lem now user dto spent run.after run.paid.0 runs in
    let (told, _, kept) =
      announce_offer_lem run.request run.paid.0 run.paid.1 run.after db' r run.announced in
    let id : spent.next_id ≡ (others db).next_id = ap (λ x. x.next_id) same in
    let rows : spent.owner_offers ≡ (others db).owner_offers = ap (λ x. x.owner_offers) same in
    record { told = told ∙ ap (λ x. x.id) row ∙ id; added = kept ∙ added ∙ rw (row, id, rows) refl }

-- The rows hold what is reported when the offer is sent.
charged_lem :
    (others : Db → Db) (now user : ℕ) (dto : CreateOffer) (db mid db' : Db) (q : UserQuota)
    (r : SentOffer)
    → ensure_current_period now user (others db) ≡ (ok q, mid)
    → IsKeyed user mid
    → find_quota user mid.quotas ≡ some q
    → Run others now user dto db db' r
    → IsLeft now user offer r.free_offers_left db'
charged_lem others now user dto db mid db' q r ensured keyed found run =
    let (spent, holds, runs) =
      with_consumed_offer-IsLeft now user (insert_offer now user dto) (others db) mid run.after q
        run.paid.0 run.paid.1 ensured keyed found run.consumed in
    let (quotas, grants) = insert_offer_quota now user dto spent run.after run.paid.0 runs in
    let (quotas', grants') =
      announce_offer_quota run.request run.paid.0 run.paid.1 run.after db' r run.announced in
    let (_, left, _) =
      announce_offer_lem run.request run.paid.0 run.paid.1 run.after db' r run.announced in
    IsLeft-kept now user r.free_offers_left spent db' (rw left holds) (quotas' ∙ quotas)
      (grants' ∙ grants)

-- An offer that is sent was allowed (the request approved, the property the landlord's own and
-- approved, no earlier offer of the landlord on the request), adds exactly its own row to what
-- other requests had left, and costs exactly one unit: the rows that are stored afterwards hold one
-- unit less than the plan and the add-ons held, and that is the number that is reported.
pub create_offer_charged :
    (others : Db → Db) (now user : ℕ) (dto : CreateOffer) (db mid db' : Db) (q : UserQuota)
    (r : SentOffer)
    → ensure_current_period now user (others db) ≡ (ok q, mid)
    → IsKeyed user mid
    → find_quota user mid.quotas ≡ some q
    → create_offer others now user dto db ≡ (ok r, db')
    → ((request : TenantRequest) × MaySend user dto request db)
      × IsSent now user dto r (others db) db'
      × (available now user offer q mid ≡ r.free_offers_left + 1)
      × IsLeft now user offer r.free_offers_left db'
create_offer_charged others now user dto db mid db' q r ensured keyed found h =
    let run = create_offer-Run others now user dto db db' r h in
    let (_, left, _) =
      announce_offer_lem run.request run.paid.0 run.paid.1 run.after db' r run.announced in
    (
      (run.request, check_offer-MaySend user dto run.request db db run.checked),
      sent_lem others now user dto db db' r run,
      with_consumed_offer_remaining now user (insert_offer now user dto) (others db) mid run.after q
            run.paid.0 run.paid.1 ensured keyed found run.consumed
          ∙ ap (λ n. n + 1) (sym left),
      charged_lem others now user dto db mid db' q r ensured keyed found run,
    )

announce_offer-ok :
    (request : TenantRequest) (o : OwnerOffer) (left : ℕ) (db db' : Db) (e : Error)
    → announce_offer request o left db ≢ (err e, db')
unfolding announce_offer
announce_offer-ok request o left db db' e = λ h. ground arith

-- An offer that is refused, by its guards or for want of quota, leaves no row, no notice and no
-- charge: the database is as it was, or as other requests left it but for the refresh of the quota
-- period.
pub create_offer_failed :
    (others : Db → Db) (now user : ℕ) (dto : CreateOffer) (db db' : Db) (e : Error)
    → create_offer others now user dto db ≡ (err e, db')
    → (db' ≡ db) ⊎ (db' ≡ (ensure_current_period now user (others db)).1)
unfolding create_offer
create_offer_failed others now user dto db db' e h = go (check_offer user dto db) refl
  where
    next :
        (request : TenantRequest) (d : Db) (x : Result (OwnerOffer × ℕ) × Db)
        → check_offer user dto db ≡ (ok request, d)
        → d ≡ db
        → with_consumed_offer now user (insert_offer now user dto) (others db) ≡ x
        → (db' ≡ db) ⊎ (db' ≡ (ensure_current_period now user (others db)).1)
    next request d (ok paid, after) checked same done =
        absurd (announce_offer-ok request paid.0 paid.1 after db' e (ground arith))
    next request d (err y, after) checked same failed =
        let e' : after ≡ db' = ground arith in
        inr (
          sym e'
          ∙ with_consumed_offer_failed now user (insert_offer now user dto) (others db) after y
              failed)

    go :
        (x : Result TenantRequest × Db)
        → check_offer user dto db ≡ x
        → (db' ≡ db) ⊎ (db' ≡ (ensure_current_period now user (others db)).1)
    go (ok request, d) e =
        let same : d ≡ db = rw e at (check_offer_quiet user dto db) in
        next request d (with_consumed_offer now user (insert_offer now user dto) (others db)) e same
          refl
    go (err y, d) e =
        let same : d ≡ db = rw e at (check_offer_quiet user dto db) in
        let there : d ≡ db' = ground arith in inl (sym there ∙ same)
