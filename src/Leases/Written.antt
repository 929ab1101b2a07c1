-- ===== src/Leases/Written.antt =====
-- What an approval and a later save write, whatever others commit in between.
use propmatch_backend.Prelude.{
  ℕ, ◌≤◌, ◌≡◌, refl, some, inl, inr, List, [], ◌∷◌, true, Bool-cases, arith, find?, count_where,
  find?-update_where, update_where-none,
}
use propmatch_backend.Store.{MatchConnection, LeaseContract, Db, ok, err, conflict}
use propmatch_backend.Leases.{is_for, is_awaiting, is_approved, is_confirmed, Draft, DraftData}
use propmatch_backend.Leases.Handlers.{
  approve_with, is_verified, national_id_of, find_identity, approve_contract, store_draft,
  is_unlocked, redraft,
}

-- An approval marks whatever contract is stored by then: the stored text is that of `stored`, while
-- the revision that counts as reviewed, like the PDF, is that of the contract that was read.
pub approve_contract_overwrites :
    (others : Db → Db) (now user : ℕ) (x : MatchConnection) (id key : ℕ)
    (seen stored : LeaseContract) (db : Db)
    → is_awaiting seen ≡ true
    → is_verified (find_identity x.owner_id db) ≡ true
    → is_verified (find_identity x.tenant_id db) ≡ true
    → find? (is_for id) (others db).contracts ≡ some stored
    → let (result, db') = approve_contract others now user x id (ok key) seen db in
      (c : LeaseContract) × (result ≡ ok tt)
      × (find? (is_for id) db'.contracts ≡ some c)
      × (is_approved c ≡ true)
      × (c.pdf_url ≡ some key)
      × (c.tenant_reviewed_revision ≡ some seen.draft_revision)
      × (c.draft_revision ≡ stored.draft_revision)
      × (c.custom_clauses ≡ stored.custom_clauses)
      × (c.rent_amount ≡ stored.rent_amount)
unfolding approve_contract
approve_contract_overwrites others now user x id key seen stored db awaiting owner tenant
      meanwhile =
    let f =
      approve_with now user seen (national_id_of (find_identity x.owner_id db))
        (national_id_of (find_identity x.tenant_id db)) key in
    let kept = find?-update_where (is_for id) f (others db).contracts (λ c h. h) in
    (f stored, ground arith, ground arith, refl, refl, refl, refl, refl, refl)

none_unlocked :
    (id : ℕ) (c : LeaseContract) (cs : List LeaseContract)
    → find? (is_for id) cs ≡ some c
    → count_where (is_for id) cs ≤ 1
    → is_confirmed c ≡ true
    → count_where (is_unlocked id) cs ≡ 0
none_unlocked id c [] found one confirmed = cc
none_unlocked id c (x ∷ cs) found one confirmed = elim (Bool-cases (is_for id x)) [
  | inl here ↦
      let same : x ≡ c = ground arith in
      let shut : is_confirmed x ≡ true = rw same confirmed in
      let rest : count_where (is_for id) cs ≡ 0 = ground arith in
      ground (arith, absent_unlocked id cs rest)
  | inr other ↦ ground (arith, none_unlocked id c cs (ground arith) (ground arith) confirmed)
]
  where
    absent_unlocked :
        (id : ℕ) (cs : List LeaseContract)
        → count_where (is_for id) cs ≡ 0
        → count_where (is_unlocked id) cs ≡ 0
    absent_unlocked id [] h = refl
    absent_unlocked id (y ∷ ys) h = ground (arith, absent_unlocked id ys)

-- A save that comes after the tenant has confirmed the review, however late, is refused, and what
-- others left stays as it is.
pub store_draft_locked :
    (others : Db → Db) (now user : ℕ) (x : MatchConnection) (dto : Draft) (existing : LeaseContract)
    (d : DraftData) (db : Db) (c : LeaseContract)
    → find? (is_for x.id) (others db).contracts ≡ some c
    → count_where (is_for x.id) (others db).contracts ≤ 1
    → is_confirmed c ≡ true
    → store_draft others now user x dto (some existing) d db
      ≡ (err (conflict "CONTRACT_DRAFT_LOCKED"), others db)
unfolding store_draft
store_draft_locked others now user x dto existing d db c found one confirmed =
    let locked = none_unlocked x.id c (others db).contracts found one confirmed in
    ground (
      arith,
      update_where-none (is_unlocked x.id) (redraft user d dto) (others db).contracts locked,
    )
