-- ===== src/Leases/Drafts.antt =====
-- The save of a draft.
use propmatch_backend.Prelude.{
  ℕ, ◌≡◌, refl, String, Option, none, some, inl, inr, List, [], ◌∷◌, ◌++◌, length, true, ◌||◌, ltb,
  ◌==◌, Bool-cases, Option-cases, arith, find?, update_where,
}
use propmatch_backend.Text.{Text, trim}
use propmatch_backend.Store.{
  MatchConnection, LeaseContract, Db, Action, Result, ok, err, pure, ◌>>=◌,
}
use propmatch_backend.Leases.{
  is_confirmed, is_for, Draft, DraftData, draft_data, require_trusted, normalize_clauses,
  normalize_each, Parties, parties_of, texts_of, terms_of, dates_of, collect, is_own_match,
}
use propmatch_backend.Leases.Handlers.{
  check_lock, new_contract, redraft, is_unlocked, create_draft, rewrite_draft, store_draft,
  edit_draft, save_draft,
}
use propmatch_backend.Leases.Final.{IsContract, found_kept, bind_kept}

-- An action that writes nothing.
abbrev pub IsQuiet : {A : Type 0} → Action A → Type 0
IsQuiet m = (db : Db) → (m db).1 ≡ db

bind-IsQuiet :
    {A B : Type 0} (r : Action A) (k : A → Action B)
    → IsQuiet r
    → ((a : A) → IsQuiet (k a))
    → IsQuiet (r >>= k)
bind-IsQuiet {A} {B} r k same next db = go (r db) (same db)
  where
    go :
        (x : Result A × Db)
        → x.1 ≡ db
        → let after : Result B × Db = elim x.0 [ ok a ↦ k a x.1 | err e ↦ (err e, x.1) ] in
          after.1 ≡ db
    go (ok a, d) e = rw e (next a db)
    go (err y, d) e = e

require_trusted-IsQuiet :
    (value : Text) (maximum : ℕ) (error : String) → IsQuiet (require_trusted value maximum error)
unfolding require_trusted
require_trusted-IsQuiet value maximum error db = ground arith

normalize_each-IsQuiet : (clauses : List Text) → IsQuiet (normalize_each clauses)
unfolding normalize_each
normalize_each-IsQuiet [] db = refl
normalize_each-IsQuiet (x ∷ clauses) db =
    elim (Bool-cases (length (trim x) == 0 || ltb 2000 (length (trim x)))) [
      | inl bad ↦ rw bad
      | inr good ↦ rw good (
          bind-IsQuiet (normalize_each clauses) (λ rest. pure (trim x ∷ rest))
            (normalize_each-IsQuiet clauses) (λ rest d. refl) db)
    ]

normalize_clauses-IsQuiet : (clauses : List Text) → IsQuiet (normalize_clauses clauses)
unfolding normalize_clauses
normalize_clauses-IsQuiet clauses db = ground (arith, normalize_each-IsQuiet clauses db)

parties_of-IsQuiet : (x : MatchConnection) → IsQuiet (parties_of x)
unfolding parties_of
parties_of-IsQuiet x db = elim (Option-cases (find? (λ u. u.id == x.owner_id) db.users)) [
  | inl no_owner ↦ ground arith
  | inr (owner, e) ↦ elim (Option-cases (find? (λ u. u.id == x.tenant_id) db.users)) [
    | inl no_tenant ↦ ground arith
    | inr (tenant, f) ↦ ground arith
  ]
]

texts_of-IsQuiet : (p : Parties) → IsQuiet (texts_of p)
unfolding texts_of
texts_of-IsQuiet p db =
    let one = require_trusted-IsQuiet p.owner.full_name 200 "TRUSTED_OWNER_NAME_IS_INVALID" db in
    let two = require_trusted-IsQuiet p.tenant.full_name 200 "TRUSTED_TENANT_NAME_IS_INVALID" db in
    let three =
      require_trusted-IsQuiet (p.property.district ++ 1548 ∷ 32 ∷ p.property.manual_address) 500
        "TRUSTED_PROPERTY_ADDRESS_IS_INVALID" db in
    ground arith

terms_of-IsQuiet : (p : Parties) (dto : Draft) → IsQuiet (terms_of p dto)
unfolding terms_of
terms_of-IsQuiet p dto db = ground (arith, normalize_clauses-IsQuiet dto.custom_clauses db)

dates_of-IsQuiet : (dto : Draft) → IsQuiet (dates_of dto)
unfolding dates_of
dates_of-IsQuiet dto db = elim (Option-cases dto.start_date) [
  | inl none_given ↦ ground arith
  | inr (starts, e) ↦ elim (Option-cases dto.end_date) [
    | inl none_given ↦ ground arith
    | inr (ends, f) ↦ ground arith
  ]
]

collect-IsQuiet : (dto : Draft) (dates : ℕ × ℕ) (p : Parties) → IsQuiet (collect dto dates p)
unfolding collect
collect-IsQuiet dto dates p db =
    let one = texts_of-IsQuiet p db in let two = terms_of-IsQuiet p dto db in ground arith

pub draft_data-IsQuiet : (x : MatchConnection) (dto : Draft) → IsQuiet (draft_data x dto)
unfolding draft_data
draft_data-IsQuiet x dto =
    bind-IsQuiet (dates_of dto) (λ dates. parties_of x >>= collect dto dates) (dates_of-IsQuiet dto)
      (λ dates.
        bind-IsQuiet (parties_of x) (collect dto dates) (parties_of-IsQuiet x)
          (λ p. collect-IsQuiet dto dates p))

check_lock-IsQuiet : (existing : Option LeaseContract) → IsQuiet (check_lock existing)
check_lock-IsQuiet none db = refl
check_lock-IsQuiet (some c) db = ground arith

found_first :
    (m : ℕ) (c n : LeaseContract) (cs : List LeaseContract)
    → find? (is_for m) cs ≡ some c
    → find? (is_for m) (cs ++ n ∷ []) ≡ some c
found_first m c n [] h = cc
found_first m c n (x ∷ cs) h = ground (arith, found_first m c n cs)

module _ (others : Db → Db) (m : ℕ) (c : LeaseContract) (confirmed : is_confirmed c ≡ true)
    (calm : (db : Db) → IsContract m c db → IsContract m c (others db)) where
  create_draft-kept :
      (now user : ℕ) (x : MatchConnection) (d : DraftData) (dto : Draft) (db : Db)
      → IsContract m c db
      → IsContract m c (create_draft now user x d dto db).1
  unfolding create_draft
  create_draft-kept now user x d dto db h =
      ground (arith, found_first m c (new_contract db.next_id now user x.id d dto) db.contracts h)

  rewrite_draft-kept :
      (user : ℕ) (x : MatchConnection) (d : DraftData) (dto : Draft) (e : LeaseContract) (db : Db)
      → IsContract m c db
      → IsContract m c (rewrite_draft user x d dto e db).1
  unfolding rewrite_draft
  rewrite_draft-kept user x d dto e db h =
      let kept =
        found_kept m c (is_unlocked x.id) (redraft user d dto) db.contracts h (ground arith)
          (λ y. refl) in
      elim (Option-cases
        (find? (is_for x.id) (update_where (is_unlocked x.id) (redraft user d dto) db.contracts))) [
          | inl missing ↦ ground arith
          | inr (y, there) ↦ ground arith
        ]

  store_draft-kept :
      (now user : ℕ) (x : MatchConnection) (dto : Draft) (existing : Option LeaseContract)
      (d : DraftData) (db : Db)
      → IsContract m c db
      → IsContract m c (store_draft others now user x dto existing d db).1
  unfolding store_draft
  store_draft-kept now user x dto none d db h =
      create_draft-kept now user x d dto (others db) (calm db h)
  store_draft-kept now user x dto (some e) d db h =
      rewrite_draft-kept user x d dto e (others db) (calm db h)

  edit_draft-kept :
      (now user : ℕ) (x : MatchConnection) (dto : Draft) (existing : Option LeaseContract) (db : Db)
      → IsContract m c db
      → IsContract m c (edit_draft others now user x dto existing db).1
  unfolding edit_draft
  edit_draft-kept now user x dto existing db h =
      bind_kept (IsContract m c) (check_lock existing)
        (λ _. draft_data x dto >>= store_draft others now user x dto existing) db
        (check_lock-IsQuiet existing db)
        (λ _.
          bind_kept (IsContract m c) (draft_data x dto) (store_draft others now user x dto existing)
            db (draft_data-IsQuiet x dto db) (λ d. store_draft-kept now user x dto existing d db h)
            h)
        h

  pub save_draft-kept :
      (now user id : ℕ) (dto : Draft) (db : Db)
      → IsContract m c db
      → IsContract m c (save_draft others now user id dto db).1
  unfolding save_draft
  save_draft-kept now user id dto db h =
      elim (Option-cases (find? (is_own_match user id) db.connections)) [
        | inl missing ↦ ground arith
        | inr (x, found) ↦
            let next = edit_draft-kept now user x dto (find? (is_for id) db.contracts) db h in
            ground arith
      ]
