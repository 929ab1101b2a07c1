-- ===== src/Leases/Final.antt =====
-- An approved contract is final.
use propmatch_backend.Prelude.{
  ℕ, ◌≡◌, refl, Option, some, inl, inr, List, [], ◌∷◌, Bool, true, false, ◌==◌, Bool-cases,
  Option-cases, arith, find?, find?-fits, update_where, count_where,
}
use propmatch_backend.Store.{MatchConnection, LeaseContract, Db, Action, Result, ok, err, ◌>>=◌}
use propmatch_backend.Text.{Text, trim}
use propmatch_backend.Leases.{is_approved, is_confirmed, is_for, is_own_match}
use propmatch_backend.Leases.Handlers.{
  send, send_for_review, reject, send_back, note_of, approve, approve_contract, approve_with,
  national_id_of, find_identity, has_contract_id, authorized_contract, request_changes,
  changes_refused, report_changes, ask_for_changes, is_reviewable, ask_changes,
}

pub found_kept :
    (m : ℕ) (c : LeaseContract) (q : LeaseContract → Bool) (f : LeaseContract → LeaseContract)
    (cs : List LeaseContract)
    → find? (is_for m) cs ≡ some c
    → q c ≡ false
    → ((x : LeaseContract) → (f x).match_connection_id ≡ x.match_connection_id)
    → find? (is_for m) (update_where q f cs) ≡ some c
found_kept m c q f [] found miss same = cc
found_kept m c q f (x ∷ cs) found miss same = elim (Bool-cases (is_for m x)) [
  | inl here ↦ let e : x ≡ c = ground arith in rw (e, miss) (ground arith)
  | inr skipped ↦ ground (arith, same x, found_kept m c q f cs (ground arith) miss same)
]

-- The contract of a connection is the given one.
abbrev pub IsContract : ℕ → LeaseContract → Db → Type 0
IsContract m c db = find? (is_for m) db.contracts ≡ some c

-- A read followed by an action that keeps a predicate.
pub bind_kept :
    (P : Db → Type 0) {A B : Type 0} (r : Action A) (k : A → Action B) (db : Db)
    → (r db).1 ≡ db
    → ((a : A) → P (k a db).1)
    → P db
    → P ((r >>= k) db).1
bind_kept P {A} {B} r k db same next h = go (r db) same
  where
    go :
        (x : Result A × Db)
        → x.1 ≡ db
        → let after : Result B × Db = elim x.0 [ ok a ↦ k a x.1 | err e ↦ (err e, x.1) ] in
          P after.1
    go (ok a, d) e = rw e (next a)
    go (err y, d) e = rw e h

pub same_match :
    (m id : ℕ) (c : LeaseContract) (db : Db) → IsContract m c db → is_for id c ≡ true → id ≡ m
same_match m id c db h same = let own = find?-fits (is_for m) db.contracts c h in ground arith

module _ (others : Db → Db) (m : ℕ) (c : LeaseContract) (approved : is_approved c ≡ true)
    (confirmed : is_confirmed c ≡ true)
    (calm : (db : Db) → IsContract m c db → IsContract m c (others db)) where
  pub send_for_review-kept :
      (user id : ℕ) (db : Db)
      → IsContract m c db
      → IsContract m c (send_for_review others user id db).1
  unfolding send_for_review
  send_for_review-kept user id db h = elim (Bool-cases (is_for id c)) [
    | inl same ↦
        let e = same_match m id c db h same in
        elim (Option-cases (find? (is_own_match user id) db.connections)) [
          | inl missing ↦ ground arith
          | inr (x, found) ↦ ground arith
        ]
    | inr other ↦
        let kept =
          found_kept m c (is_for id) send (others db).contracts (calm db h) other (λ x. refl) in
        elim (Option-cases (find? (is_own_match user id) db.connections)) [
          | inl missing ↦ ground arith
          | inr (x, found) ↦ elim (Option-cases (find? (is_for id) db.contracts)) [
            | inl none_yet ↦ ground arith
            | inr (a, there) ↦ ground arith
          ]
        ]
  ]

  pub reject-kept :
      (user id : ℕ) (note : Option Text) (db : Db)
      → IsContract m c db
      → IsContract m c (reject others user id note db).1
  unfolding reject
  reject-kept user id note db h = elim (Bool-cases (is_for id c)) [
    | inl same ↦
        let e = same_match m id c db h same in
        elim (Option-cases (find? (is_own_match user id) db.connections)) [
          | inl missing ↦ ground arith
          | inr (x, found) ↦ ground arith
        ]
    | inr other ↦
        let kept =
          found_kept m c (is_for id) (send_back (note_of note)) (others db).contracts (calm db h)
            other (λ x. refl) in
        elim (Option-cases (find? (is_own_match user id) db.connections)) [
          | inl missing ↦ ground arith
          | inr (x, found) ↦ elim (Option-cases (find? (is_for id) db.contracts)) [
            | inl none_yet ↦ ground arith
            | inr (a, there) ↦ ground arith
          ]
        ]
  ]

  approve_contract-kept :
      (now user : ℕ) (x : MatchConnection) (id : ℕ) (pdf : Result ℕ) (a : LeaseContract) (db : Db)
      → is_for id c ≡ false
      → IsContract m c db
      → IsContract m c (approve_contract others now user x id pdf a db).1
  unfolding approve_contract
  approve_contract-kept now user x id (err e) a db other h = ground arith
  approve_contract-kept now user x id (ok key) a db other h =
      let kept =
        found_kept m c (is_for id)
          (approve_with now user a (national_id_of (find_identity x.owner_id db))
            (national_id_of (find_identity x.tenant_id db)) key)
          (others db).contracts (calm db h) other (λ x. refl) in
      ground arith

  pub approve-kept :
      (now user id : ℕ) (pdf : Result ℕ) (db : Db)
      → IsContract m c db
      → IsContract m c (approve others now user id pdf db).1
  unfolding approve
  approve-kept now user id pdf db h =
      elim (Option-cases (find? (is_own_match user id) db.connections)) [
        | inl missing ↦ ground arith
        | inr (x, found) ↦ elim (Bool-cases (is_for id c)) [
          | inl same ↦ let e = same_match m id c db h same in ground arith
          | inr other ↦ elim (Option-cases (find? (is_for id) db.contracts)) [
            | inl none_yet ↦ ground arith
            | inr (a, there) ↦ ground (arith, approve_contract-kept now user x id pdf a db other h)
          ]
        ]
      ]

  changes_refused-state : (user id : ℕ) (db : Db) → (changes_refused user id db).1 ≡ db
  unfolding changes_refused authorized_contract
  changes_refused-state user id db = elim (Option-cases (find? (has_contract_id id) db.contracts)) [
    | inl missing ↦ ground arith
    | inr (a, found) ↦
        elim (Option-cases (find? (λ x. x.id == a.match_connection_id) db.connections)) [
          | inl alone ↦ ground arith
          | inr (x, there) ↦ ground arith
        ]
  ]

  pub authorized_contract-state : (user id : ℕ) (db : Db) → (authorized_contract user id db).1 ≡ db
  unfolding authorized_contract
  authorized_contract-state user id db =
      elim (Option-cases (find? (has_contract_id id) db.contracts)) [
        | inl missing ↦ ground arith
        | inr (a, found) ↦
            elim (Option-cases (find? (λ x. x.id == a.match_connection_id) db.connections)) [
              | inl alone ↦ ground arith
              | inr (x, there) ↦ ground arith
            ]
      ]

  report_changes-contracts :
      (user id owner count : ℕ) (db : Db)
      → (report_changes user id owner count db).1.contracts ≡ db.contracts
  unfolding report_changes
  report_changes-contracts user id owner count db = go (authorized_contract user id db) refl
    where
      go :
          (r : Result (LeaseContract × MatchConnection) × Db)
          → authorized_contract user id db ≡ r
          → (report_changes user id owner count db).1.contracts ≡ db.contracts
      go (err e, d) step =
          ground (arith, authorized_contract-state user id db, changes_refused-state user id db)
      go (ok (a, x), d) step =
          ground (arith, authorized_contract-state user id db, changes_refused-state user id db)

  ask_for_changes-kept :
      (now user id : ℕ) (message : Text) (seen : LeaseContract × MatchConnection) (db : Db)
      → IsContract m c db
      → IsContract m c (ask_for_changes others now user id message seen db).1
  unfolding ask_for_changes
  ask_for_changes-kept now user id message seen db h =
      let kept =
        found_kept m c (is_reviewable id) (ask_changes now (trim message)) (others db).contracts
          (calm db h) (ground arith) (λ x. refl) in
      let mid : Db = record (others db) {
        contracts =
            update_where (is_reviewable id) (ask_changes now (trim message)) (others db).contracts;
      } in
      let last =
        report_changes-contracts user id seen.1.owner_id
          (count_where (is_reviewable id) (others db).contracts) mid in
      ground arith

  pub request_changes-kept :
      (now user id : ℕ) (message : Text) (db : Db)
      → IsContract m c db
      → IsContract m c (request_changes others now user id message db).1
  unfolding request_changes
  request_changes-kept now user id message db h =
      bind_kept (IsContract m c) (authorized_contract user id)
        (ask_for_changes others now user id message) db (authorized_contract-state user id db)
        (λ seen. ask_for_changes-kept now user id message seen db h) h
