-- ===== src/Tests/Accounts.antt =====
-- The account of the landlord in the small shop: a password is its own hash.
use propmatch_backend.Prelude.{
  ◌+◌, ◌≡◌, ◌↔◌, refl, none, some, List, [], ◌∷◌, true, false, arith, find?,
}
use propmatch_backend.Text.{Text, text_eq}
use propmatch_backend.Store.{User, Db, Error, ok, err, unauthorized, bad_request}
use propmatch_backend.Accounts.{
  normalize_email, has_email, payload_of, sign_in, validate, refresh, delete_account,
}
use propmatch_backend.Accounts.Sessions.{IsOpen, sign_in-IsOpen, delete_account_revokes}
use propmatch_backend.Accounts.Codes.{Hashes, OtpConfig, verify_email, set_reset, reset_password}
use propmatch_backend.Accounts.Guesses.{Guess, guess_all, guess_all_locked, reset_password_once}
use propmatch_backend.Tests.Shop.{now, landlord, shop}

abbrev address : Text
address = 97 ∷ 64 ∷ 98 ∷ []

sign_in-IsOpen_example :
    ((d : Db) × (sign_in text_eq now [] address (112 ∷ []) shop ≡ (ok (payload_of landlord), d)))
    ↔ ((u : User) × (find? (has_email address) shop.users ≡ some u)
        × (text_eq (112 ∷ []) u.password_hash ≡ true)
        × IsOpen now u
        × (payload_of landlord ≡ payload_of u))
sign_in-IsOpen_example = sign_in-IsOpen text_eq now [] address (112 ∷ []) shop (payload_of landlord)

delete_account_revokes_example :
    let db' = (delete_account now 7 shop).1 in
    (validate (now + 1) (payload_of landlord) db' ≡ (err (unauthorized ""), db'))
    × (refresh (now + 1) (some (payload_of landlord)) db'
        ≡ (err (unauthorized "INVALID_REFRESH_TOKEN"), db'))
delete_account_revokes_example =
    delete_account_revokes now (now + 1) 7 shop landlord (payload_of landlord) refl refl
      (omega arith)

-- A code that is its own hash, and is good for a while.
abbrev plain : Hashes
plain = record { password = λ t. t; code = λ t. t; token = λ t. t }

abbrev otp : OtpConfig
otp = record { bypass = false; ttl_minutes = 10; cooldown_seconds = 60 }

abbrev newcomer : User
newcomer = record landlord {
  email_verified_at = none;
  email_otp_hash = some (55 ∷ []);
  email_otp_expires_at = some (now + 600000);
}

abbrev guessed : Db
guessed = record shop { users = newcomer ∷ [] }

abbrev guesses : List Guess
guesses =
    (now, 49 ∷ []) ∷ (now, 50 ∷ []) ∷ (now, 51 ∷ []) ∷ (now, 52 ∷ []) ∷ (now + 1, 53 ∷ []) ∷ []

newcomer-found : find? (has_email address) guessed.users ≡ some newcomer
unfolding normalize_email
newcomer-found = refl

guess_all_locked_example :
    let db' = guess_all plain otp address guesses guessed in
    (e : Error) × (verify_email plain otp (now + 2) address (55 ∷ []) db' ≡ (err e, db'))
guess_all_locked_example =
    guess_all_locked plain otp address guesses (now + 2) (55 ∷ []) guessed newcomer refl
      newcomer-found refl
      ((refl, refl), ((refl, refl), ((refl, refl), ((refl, refl), ((refl, refl), tt)))))
      (omega arith)

abbrev forgetful : Db
forgetful = record shop { users = set_reset plain now (77 ∷ []) landlord ∷ [] }

abbrev renewed : Db
renewed = (reset_password plain (now + 5) (77 ∷ []) (113 ∷ []) forgetful).1

resets : reset_password plain (now + 5) (77 ∷ []) (113 ∷ []) forgetful ≡ (ok tt, renewed)
unfolding reset_password
resets = refl

reset_password_once_example :
    reset_password plain (now + 6) (77 ∷ []) (114 ∷ []) renewed
    ≡ (err (bad_request "INVALID_RESET_TOKEN"), renewed)
reset_password_once_example =
    reset_password_once plain (now + 5) (now + 6) (77 ∷ []) (113 ∷ []) (114 ∷ []) forgetful renewed
      resets (omega arith)
