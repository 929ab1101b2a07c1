-- ===== src/Accounts/Guesses.antt =====
-- Guessing: a code allows five wrong attempts, a reset token one use.
use propmatch_backend.Prelude.{
  ℕ, ◌+◌, ◌≤◌, ◌≡◌, refl, none, some, List, [], ◌∷◌, inl, inr, true, false, leb, length, All,
  Bool-cases, Option-cases, arith, find?, find?-fits, find?-update_found, update_where, count_where,
  count_where-update_found, ==-refl, is_some,
}
use propmatch_backend.Text.{Text}
use propmatch_backend.Store.{User, Db, Error, ok, err, bad_request}
use propmatch_backend.Accounts.{has_email, has_user_id}
use propmatch_backend.Accounts.Codes.{
  Hashes, OtpConfig, is_code_over, has_code, count_attempt, compare_code, check_code, verify_user,
  verify_email, may_reset, is_token, set_password, reset_password,
}

-- A guess: its time and the code.
abbrev pub Guess : Type 0
Guess = ℕ × Text

-- A wrong code, while the right one has not run out.
abbrev pub IsWrong : Hashes → User → Guess → Type 0
IsWrong h u (now, code) = (is_code_over now u ≡ false) × (has_code (h.code code) u ≡ false)

-- The database after a row of guesses for an address.
abbrev pub guess_all : Hashes → OtpConfig → Text → List Guess → Db → Db
guess_all h c email [] db = db
guess_all h c email ((now, code) ∷ guesses) db =
    guess_all h c email guesses (verify_email h c now email code db).1

-- The account with a number of attempts.
abbrev pub with_attempts : ℕ → User → User
with_attempts n u = record u { email_otp_attempts = n }

-- What an account of the address with wrong guesses behind it looks like.
record IsTried (email : Text) (u : User) (n : ℕ) (db : Db) : Type 0 where
  found : find? (has_email email) db.users ≡ some (with_attempts n u)
  unverified : is_some u.email_verified_at ≡ false

module _ (h : Hashes) (c : OtpConfig) (email : Text) (u : User) (strict : c.bypass ≡ false) where
  -- At the limit any code is refused, the right one too, and nothing is written.
  at_limit :
      (now : ℕ) (code : Text) (n : ℕ) (db : Db)
      → IsTried email u n db
      → 5 ≤ n
      → (e : Error) × (verify_email h c now email code db ≡ (err e, db))
  unfolding verify_email verify_user check_code
  at_limit now code n db tried most =
      let found = tried.found in
      let unverified = tried.unverified in
      elim (Bool-cases (is_code_over now u)) [
        | inl over ↦ (bad_request "INVALID_OR_EXPIRED_OTP", ground arith)
        | inr live ↦ (bad_request "TOO_MANY_OTP_ATTEMPTS", ground arith)
      ]

  counted :
      (now : ℕ) (code : Text) (n : ℕ) (db : Db)
      → IsTried email u n db
      → IsWrong h u (now, code)
      → leb 5 n ≡ false
      → (verify_email h c now email code db).1.users
        ≡ update_where (has_user_id u.id) count_attempt db.users
  unfolding verify_email verify_user check_code compare_code
  counted now code n db tried (live, wrong) few =
      let found = tried.found in let unverified = tried.unverified in ground arith

  -- Below it a wrong code is counted.
  below_limit :
      (now : ℕ) (code : Text) (n : ℕ) (db : Db)
      → IsTried email u n db
      → IsWrong h u (now, code)
      → leb 5 n ≡ false
      → IsTried email u (n + 1) (verify_email h c now email code db).1
  below_limit now code n db tried wrong few = record {
    found = rw (counted now code n db tried wrong few) (
        find?-update_found (has_user_id u.id) (has_email email) count_attempt db.users
          (with_attempts n u) (λ y. refl) tried.found (==-refl u.id));
    unverified = tried.unverified;
  }

  guess_all-IsTried :
      (guesses : List Guess) (n : ℕ) (db : Db)
      → IsTried email u n db
      → All (IsWrong h u) guesses
      → (m : ℕ) × IsTried email u m (guess_all h c email guesses db)
        × (5 ≤ n + length guesses → 5 ≤ m)
  guess_all-IsTried [] n db tried wrong = (n, tried, λ most. omega (arith, most))
  guess_all-IsTried ((now, code) ∷ guesses) n db tried (wrong, rest) = elim (Bool-cases (leb 5 n)) [
    | inr few ↦
        let (m, after, most) =
          guess_all-IsTried guesses (n + 1) (verify_email h c now email code db).1
            (below_limit now code n db tried wrong few) rest in
        (m, after, λ enough. most (omega (arith, enough)))
    | inl full ↦
        let reached : 5 ≤ n = ground arith in
        let (e, refused) = at_limit now code n db tried reached in
        let (m, after, most) = guess_all-IsTried guesses n db tried rest in
        (m, rw refused after, λ enough. most (omega (arith, reached)))
  ]

-- Five wrong guesses lock a code: after any row of at least five wrong codes, each of them tried
-- while the code had not run out, every further code is refused at any time, the right one too, and
-- nothing is written. The development code is switched off.
pub guess_all_locked :
    (h : Hashes) (c : OtpConfig) (email : Text) (guesses : List Guess) (now : ℕ) (code : Text)
    (db : Db) (u : User)
    → c.bypass ≡ false
    → find? (has_email email) db.users ≡ some u
    → is_some u.email_verified_at ≡ false
    → All (IsWrong h u) guesses
    → 5 ≤ length guesses
    → let db' = guess_all h c email guesses db in
      (e : Error) × (verify_email h c now email code db' ≡ (err e, db'))
guess_all_locked h c email guesses now code db u strict found unverified wrong many =
    let (m, tried, most) =
      guess_all-IsTried h c email u strict guesses u.email_otp_attempts db
        (record { found = found; unverified = unverified }) wrong in
    at_limit h c email u strict now code m (guess_all h c email guesses db) tried
      (most (omega (arith, many)))

reset_password-spent :
    (h : Hashes) (now : ℕ) (raw password : Text) (db d : Db)
    → reset_password h now raw password db ≡ (ok tt, d)
    → count_where (λ u. is_token (h.token raw) u.reset_token) db.users ≤ 1
    → count_where (λ u. is_token (h.token raw) u.reset_token) d.users ≡ 0
unfolding reset_password
reset_password-spent h now raw password db d done one =
    elim (Option-cases (find? (may_reset (h.token raw) now) db.users)) [
      | inl unknown ↦ absurd (ground arith)
      | inr (u, found) ↦
          let fits = find?-fits (may_reset (h.token raw) now) db.users u found in
          let token : is_token (h.token raw) u.reset_token ≡ true = ground arith in
          let users : d.users
              ≡ update_where (has_user_id u.id) (set_password (h.password password)) db.users =
            ground arith in
          rw users (
            count_where-update_found (λ x. is_token (h.token raw) x.reset_token) (has_user_id u.id)
              (may_reset (h.token raw) now) (set_password (h.password password)) db.users u
              (λ y. refl) found token (==-refl u.id) one)
    ]

unknown_token :
    (hash : Text) (now : ℕ) (users : List User)
    → count_where (λ u. is_token hash u.reset_token) users ≡ 0
    → find? (may_reset hash now) users ≡ none
unknown_token hash now [] h = refl
unknown_token hash now (u ∷ users) h = ground (arith, unknown_token hash now users)

-- A reset token that one account at most has stored is good once: after a reset it is refused at
-- any time, for any new password, and nothing is written.
pub reset_password_once :
    (h : Hashes) (now later : ℕ) (raw password other : Text) (db d : Db)
    → reset_password h now raw password db ≡ (ok tt, d)
    → count_where (λ u. is_token (h.token raw) u.reset_token) db.users ≤ 1
    → reset_password h later raw other d ≡ (err (bad_request "INVALID_RESET_TOKEN"), d)
unfolding reset_password
reset_password_once h now later raw password other db d done one =
    let gone =
      unknown_token (h.token raw) later d.users
        (reset_password-spent h now raw password db d done one) in
    ground arith
