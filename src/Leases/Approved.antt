-- ===== src/Leases/Approved.antt =====
-- What no request on any lease can change.
use propmatch_backend.Prelude.{
  ℕ, ◌≡◌, refl, Option, inl, inr, true, ◌==◌, Bool-cases, arith, update_where, count_where,
}
use propmatch_backend.Text.{Text}
use propmatch_backend.Store.{MatchConnection, LeaseContract, Db, Result}
use propmatch_backend.Leases.{is_approved, is_confirmed, wants_changes, Draft}
use propmatch_backend.Leases.Handlers.{
  save_draft, send_for_review, reject, approve, request_changes, authorized_contract,
  is_at_revision, confirm, is_unapproved, await_approval, confirm_current, confirm_late,
  confirm_pending, recover, confirm_seen, confirm_review,
}
use propmatch_backend.Leases.Drafts.{save_draft-kept}
use propmatch_backend.Leases.Final.{
  IsContract, found_kept, bind_kept, send_for_review-kept, reject-kept, approve-kept,
  request_changes-kept, authorized_contract-state,
}

module _ (others later : Db → Db) (m : ℕ) (c : LeaseContract) (approved : is_approved c ≡ true)
    (confirmed : is_confirmed c ≡ true)
    (calm : (db : Db) → IsContract m c db → IsContract m c (others db))
    (calm_later : (db : Db) → IsContract m c db → IsContract m c (later db)) where
  confirm_current-kept :
      (now user : ℕ) (pdf : Result ℕ) (a : LeaseContract) (db : Db)
      → IsContract m c db
      → IsContract m c (confirm_current later now user pdf a db).1
  confirm_current-kept now user pdf a db h =
      let last =
        approve-kept later m c approved confirmed calm_later now user a.match_connection_id pdf db
          h in
      elim (Bool-cases (is_confirmed a)) [
        | inl seen ↦ elim (Bool-cases (is_approved a)) [
          | inl done ↦ rw (seen, done) h
          | inr waiting ↦ rw (seen, waiting) last
        ]
        | inr unseen ↦ elim (Bool-cases (wants_changes a)) [
          | inl wants ↦ rw (unseen, wants) h
          | inr moved ↦ rw (unseen, moved) h
        ]
      ]

  confirm_late-kept :
      (now user id : ℕ) (pdf : Result ℕ) (db : Db)
      → IsContract m c db
      → IsContract m c (confirm_late later now user id pdf db).1
  unfolding confirm_late
  confirm_late-kept now user id pdf db h =
      bind_kept (IsContract m c) (authorized_contract user id)
        (λ current. confirm_current later now user pdf current.0) db
        (authorized_contract-state others m c approved confirmed calm user id db)
        (λ current. confirm_current-kept now user pdf current.0 db h) h

  recover-kept :
      (now user id : ℕ) (pdf : Result ℕ) (a : LeaseContract) (db : Db)
      → IsContract m c db
      → IsContract m c (recover others later now user id pdf a db).1
  unfolding recover
  recover-kept now user id pdf a db h =
      approve-kept later m c approved confirmed calm_later now user a.match_connection_id pdf
        (record (others db) {
          contracts = update_where (is_unapproved id) await_approval (others db).contracts;
        })
        (found_kept m c (is_unapproved id) await_approval (others db).contracts (calm db h)
          (ground arith) (λ x. refl))

  confirm_pending-kept :
      (now user id expected : ℕ) (pdf : Result ℕ) (a : LeaseContract) (db : Db)
      → IsContract m c db
      → IsContract m c (confirm_pending others later now user id expected pdf a db).1
  unfolding confirm_pending
  confirm_pending-kept now user id expected pdf a db h =
      let mid : Db = record (others db) {
        contracts =
            update_where (is_at_revision id expected) (confirm now expected) (others db).contracts;
      } in
      let kept : IsContract m c mid =
        found_kept m c (is_at_revision id expected) (confirm now expected) (others db).contracts
          (calm db h) (ground arith) (λ x. refl) in
      let late = confirm_late-kept now user id pdf mid kept in
      let next =
        approve-kept later m c approved confirmed calm_later now user a.match_connection_id pdf mid
          kept in
      elim (Bool-cases (wants_changes a)) [
        | inl wants ↦ rw wants h
        | inr waits ↦ elim (Bool-cases (expected == a.draft_revision)) [
          | inr moved ↦ rw (waits, moved) h
          | inl same ↦
              elim (Bool-cases
                (count_where (is_at_revision id expected) (others db).contracts == 1)) [
                  | inl one ↦ rw (waits, same, one) next
                  | inr other ↦ rw (waits, same, other) late
                ]
        ]
      ]

  confirm_seen-kept :
      (now user id expected : ℕ) (pdf : Result ℕ) (seen : LeaseContract × MatchConnection) (db : Db)
      → IsContract m c db
      → IsContract m c (confirm_seen others later now user id expected pdf seen db).1
  unfolding confirm_seen
  confirm_seen-kept now user id expected pdf (a, x) db h = elim (Bool-cases (is_approved a)) [
    | inl done ↦ rw done h
    | inr waiting ↦ elim (Bool-cases (is_confirmed a)) [
      | inl seen ↦ rw (waiting, seen) (recover-kept now user id pdf a db h)
      | inr unseen ↦ rw (waiting, unseen) (confirm_pending-kept now user id expected pdf a db h)
    ]
  ]

  confirm_review-kept :
      (now user id expected : ℕ) (pdf : Result ℕ) (db : Db)
      → IsContract m c db
      → IsContract m c (confirm_review others later now user id expected pdf db).1
  unfolding confirm_review
  confirm_review-kept now user id expected pdf db h =
      bind_kept (IsContract m c) (authorized_contract user id)
        (confirm_seen others later now user id expected pdf) db
        (authorized_contract-state others m c approved confirmed calm user id db)
        (λ seen. confirm_seen-kept now user id expected pdf seen db h) h

-- The requests that a party may make on a lease, with what the client sends along.
pub data LeaseRequest : Type 0 where
  save : Draft → LeaseRequest
  submit : LeaseRequest
  agree : Result ℕ → LeaseRequest
  refuse : Option Text → LeaseRequest
  ask : Text → LeaseRequest
  confirm_revision : ℕ → Result ℕ → LeaseRequest

-- The database after a request; `id` is the identifier of the connection or of the contract, as the
-- handler takes it.
abbrev pub after_request : (Db → Db) → (Db → Db) → ℕ → ℕ → ℕ → LeaseRequest → Db → Db
after_request others later now user id (save dto) db = (save_draft others now user id dto db).1
after_request others later now user id submit db = (send_for_review others user id db).1
after_request others later now user id (agree pdf) db = (approve others now user id pdf db).1
after_request others later now user id (refuse note) db = (reject others user id note db).1
after_request others later now user id (ask message) db =
    (request_changes others now user id message db).1
after_request others later now user id (confirm_revision expected pdf) db =
    (confirm_review others later now user id expected pdf db).1

-- An approved contract whose review is confirmed is final: no request, by anyone, at any time and
-- whether it succeeds or is refused, changes it, as long as what other requests commit in between
-- does not change it either.
pub after_request-IsContract :
    (others later : Db → Db) (m : ℕ) (c : LeaseContract) (now user id : ℕ) (r : LeaseRequest)
    (db : Db)
    → is_approved c ≡ true
    → is_confirmed c ≡ true
    → ((db : Db) → IsContract m c db → IsContract m c (others db))
    → ((db : Db) → IsContract m c db → IsContract m c (later db))
    → IsContract m c db
    → IsContract m c (after_request others later now user id r db)
after_request-IsContract others later m c now user id (save dto) db approved confirmed calm
      calm_later h =
    save_draft-kept others m c confirmed calm now user id dto db h
after_request-IsContract others later m c now user id submit db approved confirmed calm calm_later
      h =
    send_for_review-kept others m c approved confirmed calm user id db h
after_request-IsContract others later m c now user id (agree pdf) db approved confirmed calm
      calm_later h =
    approve-kept others m c approved confirmed calm now user id pdf db h
after_request-IsContract others later m c now user id (refuse note) db approved confirmed calm
      calm_later h =
    reject-kept others m c approved confirmed calm user id note db h
after_request-IsContract others later m c now user id (ask message) db approved confirmed calm
      calm_later h =
    request_changes-kept others m c approved confirmed calm now user id message db h
after_request-IsContract others later m c now user id (confirm_revision expected pdf) db approved
      confirmed calm calm_later h =
    confirm_review-kept others later m c approved confirmed calm calm_later now user id expected pdf
      db h
