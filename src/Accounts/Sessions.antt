-- ===== src/Accounts/Sessions.antt =====
-- Who is let in, and when a session ends.
use propmatch_backend.Prelude.{
  ℕ, ◌≡◌, ◌∙◌, refl, sym, ap, none, some, inl, inr, Bool, true, false, not, ◌==◌, is_some,
  Bool-cases, Option-cases, arith, find?, find?-fits, find?-update_found, ◌≤◌, ◌↔◌,
}
use propmatch_backend.Text.{Text}
use propmatch_backend.Store.{
  User, Db, Error, ok, err, Result, bind-steps, unauthorized, throw_if, when, pure, ◌>>◌,
}
use propmatch_backend.Accounts.{
  has_email, is_suspended, has_user_id, TokenPayload, payload_of, record_attempt, check_account,
  sign_in_as, sign_in, validate, refresh, mark_deleted, remove_account, delete_account, role_code,
}

-- An account that is active, not deleted, not suspended, and has a verified address.
pub record IsOpen (now : ℕ) (u : User) : Type 0 where
  pub active : u.is_active ≡ true
  pub kept : is_some u.deleted_at ≡ false
  pub free : is_suspended now u ≡ false
  pub verified : is_some u.email_verified_at ≡ true

check_account-IsOpen :
    (now : ℕ) (u : User) (db d : Db) → check_account now u db ≡ (ok tt, d) → IsOpen now u
unfolding check_account
check_account-IsOpen now u db d h = record {
  active = ground arith;
  kept = ground arith;
  free = ground arith;
  verified = ground arith;
}

throw_if-passed : (b : Bool) (e : Error) (db d : Db) → throw_if (not b) e db ≡ (ok tt, d) → b ≡ true
throw_if-passed b e db d h = ground arith

-- The last step of a sign-in.
check_then_pay :
    (now : ℕ) (u : User) (db d : Db) (p : TokenPayload)
    → (check_account now u >> pure (payload_of u)) db ≡ (ok p, d)
    → IsOpen now u × (p ≡ payload_of u)
check_then_pay now u db d p h =
    let (_, mid, checked, paid) =
      bind-steps (check_account now u) (λ _. pure (payload_of u)) db d p h in
    (check_account-IsOpen now u db mid checked, ground arith)

sign_in_as-IsOpen :
    (now : ℕ) (ip : Text) (u : User) (matched : Bool) (db d : Db) (p : TokenPayload)
    → sign_in_as now ip u matched db ≡ (ok p, d)
    → (matched ≡ true) × IsOpen now u × (p ≡ payload_of u)
unfolding sign_in_as
sign_in_as-IsOpen now ip u matched db d p h =
    let attempt = when (role_code u.role == 2) (record_attempt now u.id ip matched) in
    let refusal : Error = unauthorized "INVALID_CREDENTIALS" in
    let (_, mid, recorded, rest) =
      bind-steps attempt
        (λ _. throw_if (not matched) refusal >> (check_account now u >> pure (payload_of u))) db d p
        h in
    let (_, mid', right, last) =
      bind-steps (throw_if (not matched) refusal) (λ _. check_account now u >> pure (payload_of u))
        mid d p rest in
    let (open_account, paid) = check_then_pay now u mid' d p last in
    (throw_if-passed matched refusal mid mid' right, open_account, paid)

sign_in_as-payload :
    (now : ℕ) (ip : Text) (u : User) (db : Db)
    → IsOpen now u
    → (d : Db) × (sign_in_as now ip u true db ≡ (ok (payload_of u), d))
unfolding sign_in_as check_account
sign_in_as-payload now ip u db open_account =
    let active = open_account.active in
    let kept = open_account.kept in
    let free = open_account.free in
    let verified = open_account.verified in
    elim (Bool-cases (role_code u.role == 2)) [
      | inl admin ↦ ((record_attempt now u.id ip true db).1, ground arith)
      | inr other ↦ (db, ground arith)
    ]

module _ (compare : Text → Text → Bool) (now : ℕ) (ip email password : Text) (db : Db) where
  sign_in-known :
      (u : User)
      → find? (has_email email) db.users ≡ some u
      → sign_in compare now ip email password db
        ≡ sign_in_as now ip u (compare password u.password_hash) db
  unfolding sign_in
  sign_in-known u found = ground arith

  sign_in-unknown :
      find? (has_email email) db.users ≡ none
      → sign_in compare now ip email password db ≡ (err (unauthorized "INVALID_CREDENTIALS"), db)
  unfolding sign_in
  sign_in-unknown unknown = ground arith

  -- The account that a sign-in is for.
  record Entered (p : TokenPayload) : Type 0 where
    account : User
    found : find? (has_email email) db.users ≡ some account
    right : compare password account.password_hash ≡ true
    open_account : IsOpen now account
    paid : p ≡ payload_of account

  sign_in-Entered :
      (p : TokenPayload) (d : Db) → sign_in compare now ip email password db ≡ (ok p, d) → Entered p
  sign_in-Entered p d h = elim (Option-cases (find? (has_email email) db.users)) [
    | inl unknown ↦
        let e : Path (Result TokenPayload × Db) (ok p, d)
            (err (unauthorized "INVALID_CREDENTIALS"), db) =
          sym h ∙ sign_in-unknown unknown in
        absurd (cc)
    | inr (u, found) ↦
        let (right, open_account, paid) =
          sign_in_as-IsOpen now ip u (compare password u.password_hash) db d p
            (sym (sign_in-known u found) ∙ h) in
        record {
          account = u;
          found = found;
          right = right;
          open_account = open_account;
          paid = paid;
        }
  ]

  Entered-sign_in :
      (p : TokenPayload) (e : Entered p)
      → (d : Db) × (sign_in compare now ip email password db ≡ (ok p, d))
  Entered-sign_in p e =
      let (d, entered) = sign_in_as-payload now ip e.account db e.open_account in
      (
        d,
        sign_in-known e.account e.found
            ∙ ap (λ b. sign_in_as now ip e.account b db) e.right
            ∙ entered
            ∙ ap (λ x. (ok x, d)) (sym e.paid),
      )

-- A sign-in returns tokens exactly for the account of the address, with the right password, while the
-- account is active, not deleted, not suspended, and has a verified address; and the tokens are that
-- account's, with its current version.
pub sign_in-IsOpen :
    (compare : Text → Text → Bool) (now : ℕ) (ip email password : Text) (db : Db) (p : TokenPayload)
    → ((d : Db) × (sign_in compare now ip email password db ≡ (ok p, d))) ↔ (
        (u : User) × (find? (has_email email) db.users ≡ some u)
        × (compare password u.password_hash ≡ true)
        × IsOpen now u
        × (p ≡ payload_of u))
sign_in-IsOpen compare now ip email password db p = (
  (λ (d, h).
      let e = sign_in-Entered compare now ip email password db p d h in
      (e.account, e.found, e.right, e.open_account, e.paid)),
  (λ (u, found, right, open_account, paid).
      Entered-sign_in compare now ip email password db p (record {
        account = u;
        found = found;
        right = right;
        open_account = open_account;
        paid = paid;
      })),
)

mark_deleted-id : (now id : ℕ) (y : User) → has_user_id id (mark_deleted now y) ≡ has_user_id id y
mark_deleted-id now id y = refl

-- A token of another version is refused.
stale_refused :
    (later : ℕ) (d : Db) (v : User) (p : TokenPayload)
    → find? (has_user_id p.sub) d.users ≡ some v
    → (p.token_version == v.token_version) ≡ false
    → (validate later p d ≡ (err (unauthorized ""), d))
      × (refresh later (some p) d ≡ (err (unauthorized "INVALID_REFRESH_TOKEN"), d))
unfolding validate refresh
stale_refused later d v p found other = (
  ground arith,
  rw found (elim (Bool-cases (is_some v.deleted_at)) [
    | inl e ↦ ground arith
    | inr e ↦ elim (Bool-cases (is_suspended later v)) [
      | inl e' ↦ ground arith
      | inr e' ↦ ground arith
    ]
  ]),
)

removed :
    (now id : ℕ) (db : Db) (u : User)
    → find? (has_user_id id) db.users ≡ some u
    → (delete_account now id db).1 ≡ (remove_account now id db).1
unfolding delete_account
removed now id db u found = ground arith

-- Deleting an account ends its sessions at once: a token of the account, of this version or an
-- earlier one, is good neither for a request nor for new tokens any more.
pub delete_account_revokes :
    (now later id : ℕ) (db : Db) (u : User) (p : TokenPayload)
    → find? (has_user_id id) db.users ≡ some u
    → p.sub ≡ id
    → p.token_version ≤ u.token_version
    → let db' = (delete_account now id db).1 in
      (validate later p db' ≡ (err (unauthorized ""), db'))
      × (refresh later (some p) db' ≡ (err (unauthorized "INVALID_REFRESH_TOKEN"), db'))
delete_account_revokes now later id db u p found sub old =
    let gone : find? (has_user_id id) (remove_account now id db).1.users
        ≡ some (mark_deleted now u) =
      find?-update_found (has_user_id id) (has_user_id id) (mark_deleted now) db.users u
        (mark_deleted-id now id) found (find?-fits (has_user_id id) db.users u found) in
    let gone' : find? (has_user_id id) (delete_account now id db).1.users
        ≡ some (mark_deleted now u) =
      rw (removed now id db u found) gone in
    stale_refused later (delete_account now id db).1 (mark_deleted now u) p (rw sub gone')
      (ground arith)
