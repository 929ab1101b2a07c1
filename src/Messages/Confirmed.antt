-- ===== src/Messages/Confirmed.antt =====
-- `confirmAgreement` as a whole.
use propmatch_backend.Prelude.{
  ℕ, String, ◌≡◌, ◌∙◌, refl, sym, ap, Option, none, some, inl, inr, false, ◌==◌, Bool-cases, arith,
  find?, update_where, update_where-none, count_where,
}
use propmatch_backend.Store.{
  MatchConnection, Db, ◌>>=◌, ok, err, conflict, transaction, bind-ok, bind-err, bind-steps,
  transaction-ok, transaction-returns,
}
use propmatch_backend.Messages.{
  is_conversation, confirmer, is_unconfirmed, confirm, is_wanted, Confirmation, fulfil_request,
  settle_match, settle_if, claim_agreement, conclude_agreement, reach_agreement, check_confirmer,
  confirm_agreement,
}
use propmatch_backend.Messages.Rows.{HasRows}
use propmatch_backend.Messages.Agreement.{IsSettled, confirmed_db, claim_agreement-First}

check_confirmer_lem :
    (user id : ℕ) (db d : Db) (c x : MatchConnection)
    → find? (is_conversation user id) db.connections ≡ some c
    → check_confirmer user id db ≡ (ok x, d)
    → (x ≡ c) × (d ≡ db) × (user ≡ confirmer c)
unfolding check_confirmer
check_confirmer_lem user id db d c x found h = elim (Bool-cases (user == confirmer c)) [
  | inl own ↦ (ground arith, ground arith, ground arith)
  | inr other ↦ absurd (ground arith)
]

check_confirmer-ok :
    (user id : ℕ) (db : Db) (c : MatchConnection)
    → find? (is_conversation user id) db.connections ≡ some c
    → user ≡ confirmer c
    → check_confirmer user id db ≡ (ok c, db)
unfolding check_confirmer
check_confirmer-ok user id db c found own = ground arith

conclude_agreement_lem :
    (user : ℕ) (c : MatchConnection) (r : Confirmation) (db db' : Db) (at : ℕ)
    → conclude_agreement user c r db ≡ (ok at, db')
    → (at ≡ r.reached_at) × (db' ≡ (conclude_agreement user c r db).1)
unfolding conclude_agreement
conclude_agreement_lem user c r db db' at h = (ground arith, ground arith)

conclude_agreement_frame :
    (user : ℕ) (c : MatchConnection) (r : Confirmation) (db : Db)
    → let db' = (conclude_agreement user c r db).1 in
      (db'.owner_offers ≡ db.owner_offers)
      × (db'.tenant_offers ≡ db.tenant_offers)
      × (db'.properties ≡ db.properties)
      × (db'.requests ≡ db.requests)
      × (db'.connections ≡ db.connections)
unfolding conclude_agreement
conclude_agreement_frame user c r db =
    (ground arith, ground arith, ground arith, ground arith, ground arith)

conclude_agreement_keeps :
    (user : ℕ) (c x : MatchConnection) (r : Confirmation) (db : Db)
    → IsSettled x db
    → IsSettled x (conclude_agreement user c r db).1
      × ((conclude_agreement user c r db).1.connections ≡ db.connections)
conclude_agreement_keeps user c x r db h =
    let (owner_offers, tenant_offers, properties, requests, connections) =
      conclude_agreement_frame user c r db in
    (
      record {
        owner_offers = rw owner_offers h.owner_offers;
        tenant_offers = rw tenant_offers h.tenant_offers;
        unlisted = rw properties h.unlisted;
        fulfilled = λ request e. rw (requests, owner_offers) (h.fulfilled request e);
      },
      connections,
    )

conclude_agreement-HasRows :
    (user : ℕ) (c : MatchConnection) (r : Confirmation) (before db : Db)
    → HasRows c before db
    → HasRows c before (conclude_agreement user c r db).1
conclude_agreement-HasRows user c r before db h =
    let (owner_offers, tenant_offers, properties, requests, _) =
      conclude_agreement_frame user c r db in
    record {
      asked = h.asked;
      requests = requests ∙ h.requests;
      owner_offers = owner_offers ∙ h.owner_offers;
      tenant_offers = tenant_offers ∙ h.tenant_offers;
      properties = properties ∙ h.properties;
    }

confirm-dated : (now id : ℕ) (c : MatchConnection) → is_unconfirmed id (confirm now c) ≡ false
confirm-dated now id c = ground arith

reach_none :
    (others : Db → Db) (now user id : ℕ) (c : MatchConnection) (o : Option ℕ) (db db' : Db) (at : ℕ)
    → o ≡ none
    → reach_agreement others now user id c o db ≡ (ok at, db')
    → (transaction (claim_agreement now id c) >>= conclude_agreement user c) (others db)
      ≡ (ok at, db')
unfolding reach_agreement
reach_none others now user id c none db db' at e h = h
reach_none others now user id c (some t) db db' at e h = cc

-- The first confirmation of an agreement is by the designated party (the tenant where a request led
-- to the match, else the owner), returns the time of the request, and settles the match: the
-- connection has that date; the request, where there is one, was approved and is now fulfilled, and
-- the open offers on it are rejected; the open offers of landlords on the property are rejected,
-- those of tenants declined, and the property is archived; no other row of these tables changes. So
-- nothing is left open on the property or the request.
pub confirm_agreement-IsSettled :
    (others : Db → Db) (now user id : ℕ) (db db' : Db) (c : MatchConnection) (at : ℕ)
    → find? (is_conversation user id) db.connections ≡ some c
    → c.agreement_reached_at ≡ none
    → count_where (is_unconfirmed id) (others db).connections ≡ 1
    → confirm_agreement others now user id db ≡ (ok at, db')
    → (user ≡ confirmer c)
      × (at ≡ now)
      × (db'.connections ≡ update_where (is_unconfirmed id) (confirm now) (others db).connections)
      × HasRows c (others db) db'
      × IsSettled c db'
unfolding confirm_agreement
confirm_agreement-IsSettled others now user id db db' c at found open_yet one h =
    let (x, d, checked, rest) =
      bind-steps (check_confirmer user id)
        (λ x. reach_agreement others now user id x x.agreement_reached_at) db db' at h in
    let (same, quiet, own) = check_confirmer_lem user id db d c x found checked in
    let reached : reach_agreement others now user id c c.agreement_reached_at db ≡ (ok at, db') =
      rw (same, quiet) at rest in
    let (r, after, claimed, told) =
      bind-steps (transaction (claim_agreement now id c)) (conclude_agreement user c) (others db)
        db' at
        (reach_none others now user id c c.agreement_reached_at db db' at open_yet reached) in
    let (first, made) =
      claim_agreement-First now id c (others db) after r one
        (transaction-ok (claim_agreement now id c) (others db) after r claimed) in
    let (date, state) = conclude_agreement_lem user c r after db' at told in
    let (settled, kept) = conclude_agreement_keeps user c c r after first.settled in
    (
      own,
      date ∙ ap (λ x. x.reached_at) (sym made),
      rw state (kept ∙ first.dated),
      rw state (conclude_agreement-HasRows user c r (others db) after first.rows),
      rw state settled,
    )

reach_open :
    (others : Db → Db) (now user id : ℕ) (c : MatchConnection) (o : Option ℕ) (db : Db)
    → o ≡ none
    → reach_agreement others now user id c o db
      ≡ (transaction (claim_agreement now id c) >>= conclude_agreement user c) (others db)
unfolding reach_agreement
reach_open others now user id c none db e = refl
reach_open others now user id c (some t) db e = cc

-- A confirmation by the designated party that is not made yet comes to its transaction.
confirm_agreement-claims :
    (others : Db → Db) (now user id : ℕ) (db : Db) (c : MatchConnection)
    → find? (is_conversation user id) db.connections ≡ some c
    → user ≡ confirmer c
    → c.agreement_reached_at ≡ none
    → confirm_agreement others now user id db
      ≡ (transaction (claim_agreement now id c) >>= conclude_agreement user c) (others db)
unfolding confirm_agreement
confirm_agreement-claims others now user id db c found own open_yet =
    bind-ok (check_confirmer user id)
      (λ x. reach_agreement others now user id x x.agreement_reached_at) db db c
      (check_confirmer-ok user id db c found own)
    ∙ reach_open others now user id c c.agreement_reached_at db open_yet

claim_second :
    (now id : ℕ) (mid : Db) (c : MatchConnection)
    → count_where (is_unconfirmed id) mid.connections ≡ 0
    → claim_agreement now id c mid ≡ settle_if false now id c (confirmed_db now id mid)
unfolding claim_agreement
claim_second now id mid c none_left = ground arith

reported :
    (now id : ℕ) (mid : Db) (c c' : MatchConnection) (at : ℕ)
    → find? (λ x. x.id == id) mid.connections ≡ some c'
    → c'.agreement_reached_at ≡ some at
    → settle_if false now id c mid ≡ (ok (record { reached_at = at; notify = false }), mid)
reported now id mid c c' at stored dated = ground arith

claim_late :
    (now id : ℕ) (mid : Db) (c c' : MatchConnection) (at : ℕ)
    → count_where (is_unconfirmed id) mid.connections ≡ 0
    → find? (λ x. x.id == id) mid.connections ≡ some c'
    → c'.agreement_reached_at ≡ some at
    → transaction (claim_agreement now id c) mid
      ≡ (ok (record { reached_at = at; notify = false }), mid)
claim_late now id mid c c' at none_left stored dated =
    let same : confirmed_db now id mid ≡ mid =
      ap (λ x. record mid { connections = x })
        (update_where-none (is_unconfirmed id) (confirm now) mid.connections none_left) in
    let claimed : claim_agreement now id c mid ≡ settle_if false now id c mid =
      claim_second now id mid c none_left ∙ ap (settle_if false now id c) same in
    transaction-returns (claim_agreement now id c) mid mid
      (record { reached_at = at; notify = false })
      (claimed ∙ reported now id mid c c' at stored dated)

claim_refused :
    (now id request : ℕ) (mid : Db) (c : MatchConnection)
    → c.tenant_request_id ≡ some request
    → count_where (is_unconfirmed id) mid.connections ≡ 1
    → count_where (is_wanted request c.tenant_id) mid.requests ≡ 0
    → transaction (claim_agreement now id c) mid
      ≡ (err (conflict "the request is settled already"), mid)
unfolding claim_agreement settle_match fulfil_request
claim_refused now id request mid c asked one gone = ground arith

-- A confirmation that comes after another one, made while this request was on its way, reports the
-- date of that one and changes nothing: nothing is settled twice and no one is told twice.
pub confirm_agreement_late :
    (others : Db → Db) (now user id : ℕ) (db : Db) (c c' : MatchConnection) (at : ℕ)
    → find? (is_conversation user id) db.connections ≡ some c
    → user ≡ confirmer c
    → count_where (is_unconfirmed id) (others db).connections ≡ 0
    → find? (λ x. x.id == id) (others db).connections ≡ some c'
    → c'.agreement_reached_at ≡ some at
    → c.agreement_reached_at ≡ none
    → confirm_agreement others now user id db ≡ (ok at, others db)
unfolding conclude_agreement
confirm_agreement_late others now user id db c c' at found own none_left stored dated open_yet =
    confirm_agreement-claims others now user id db c found own open_yet
    ∙ bind-ok (transaction (claim_agreement now id c)) (conclude_agreement user c) (others db)
        (others db) (record { reached_at = at; notify = false })
        (claim_late now id (others db) c c' at none_left stored dated)

-- Where the request of the match has been settled otherwise, the confirmation is refused, and all
-- that its transaction had written, the date of the agreement too, is taken back.
pub confirm_agreement_settled :
    (others : Db → Db) (now user id request : ℕ) (db : Db) (c : MatchConnection)
    → find? (is_conversation user id) db.connections ≡ some c
    → user ≡ confirmer c
    → c.agreement_reached_at ≡ none
    → c.tenant_request_id ≡ some request
    → count_where (is_unconfirmed id) (others db).connections ≡ 1
    → count_where (is_wanted request c.tenant_id) (others db).requests ≡ 0
    → confirm_agreement others now user id db
      ≡ (err (conflict "the request is settled already"), others db)
confirm_agreement_settled others now user id request db c found own open_yet asked one gone =
    let refusal : String = "the request is settled already" in
    confirm_agreement-claims others now user id db c found own open_yet
    ∙ bind-err (transaction (claim_agreement now id c)) (conclude_agreement user c) (others db)
        (others db) (conflict refusal) (claim_refused now id request (others db) c asked one gone)
