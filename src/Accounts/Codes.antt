-- ===== src/Accounts/Codes.antt =====
-- src/auth/auth.service.ts: registration, the code that verifies an address, and the token that
-- resets a password. Hashes are parameters: bcrypt for passwords, an HMAC for codes, SHA-256 for
-- tokens. The code and the token that a handler draws at random are arguments.
use propmatch_backend.Prelude.{
  ℕ, ◌+◌, ◌-◌, ◌*◌, ◌/◌, Option, none, some, [], ◌∷◌, ◌++◌, Bool, true, false, not, ◌&&◌, ◌||◌, ltb,
  leb, is_some, find?, if◌then◌else◌,
}
use propmatch_backend.Text.{Text, text_eq}
use propmatch_backend.Catalog.{free}
use propmatch_backend.Store.{
  UserRole, User, UserQuota, Action, code_mailed, token_mailed, pure, gets, throw, or_throw,
  throw_if, modify, when, ◌>>=◌, ◌>>◌, bad_request, unauthorized, conflict, too_many_requests,
}
use propmatch_backend.Accounts.{normalize_email, has_email, update_user, TokenPayload, payload_of}
use propmatch_backend.Messages.Chat.{emit}

-- The hashes: of a password, of a code, and of a reset token.
pub record Hashes : Type 0 where
  pub password : Text → Text
  pub code : Text → Text
  pub token : Text → Text

-- The configuration: whether '123456' is good (`EMAIL_OTP_DEV_BYPASS_ENABLED` outside production),
-- the life of a code in minutes, and the seconds between two codes.
pub record OtpConfig : Type 0 where
  pub bypass : Bool
  pub ttl_minutes : ℕ
  pub cooldown_seconds : ℕ

-- `OTP_MAX_ATTEMPTS`
abbrev pub otp_max_attempts : ℕ
otp_max_attempts = 5

-- `DEVELOPMENT_EMAIL_OTP`
abbrev pub development_otp : Text
development_otp = b'1' ∷ b'2' ∷ b'3' ∷ b'4' ∷ b'5' ∷ b'6' ∷ []

-- `isDevelopmentEmailOtp`
abbrev pub is_development_otp : OtpConfig → Text → Bool
is_development_otp c code = c.bypass && text_eq code development_otp

-- `otpExpiry`
abbrev pub otp_expiry : OtpConfig → ℕ → ℕ
otp_expiry c now = now + c.ttl_minutes * 60 * 1000

-- The form of `signup`.
pub record SignupForm : Type 0 where
  pub full_name : Text
  pub password : Text
  pub email : Text
  pub phone_number : Text
  pub is_landlord : Bool

abbrev pub new_user : Hashes → OtpConfig → ℕ → ℕ → Text → SignupForm → User
new_user h c id now otp f = record {
  id = id;
  role = if f.is_landlord then UserRole.landlord else UserRole.tenant;
  full_name = f.full_name;
  phone_number = f.phone_number;
  email = normalize_email f.email;
  password_hash = h.password f.password;
  is_active = true;
  deleted_at = none;
  token_version = 0;
  suspended_at = none;
  suspended_until = none;
  reset_token = none;
  reset_token_expiry = none;
  email_verified_at = none;
  email_otp_hash = some (h.code otp);
  email_otp_expires_at = some (otp_expiry c now);
  email_otp_attempts = 0;
  email_otp_sent_at = some now;
}

-- The quota row that a landlord begins with; the other columns have their defaults.
abbrev pub signup_quota : ℕ → ℕ → UserQuota
signup_quota now user = record {
  user_id = user;
  plan_type = free;
  plan_expires_at = none;
  max_active_listings = 1;
  optimizer_uses_left = 5;
  free_offers_left = 5;
  boost_credits_left = 0;
  billing_interval = none;
  current_period_starts_at = none;
  current_period_ends_at = none;
  listing_grace_ends_at = none;
  pending_plan_type = none;
  pending_billing_interval = none;
  pending_plan_starts_at = none;
  pending_plan_expires_at = none;
  last_reset_date = now;
}

abbrev pub add_quota : ℕ → ℕ → Action (Unit {0})
add_quota now user = modify (λ db. record db { quotas = db.quotas ++ signup_quota now user ∷ [] })

-- `signup`: when a new code may be asked for.
unfoldable pub signup : Hashes → OtpConfig → ℕ → Text → SignupForm → Action ℕ
unfolding normalize_email
signup h c now otp f = do
  existing ← gets (λ db. find? (has_email f.email) db.users)
  throw_if (is_some existing) (conflict "EMAIL_EXISTS")
  id ← gets (λ db. db.next_id)
  let user = new_user h c id now otp f
  modify (λ db. record db { users = db.users ++ user ∷ []; next_id = db.next_id + 1 })
  when f.is_landlord (add_quota now id)
  emit (code_mailed user.email otp)
  pure (now + c.cooldown_seconds * 1000)

abbrev pub is_past : ℕ → Option ℕ → Bool
is_past now none = true
is_past now (some end) = leb end now

-- `!user.emailOtpHash || !user.emailOtpExpiresAt || user.emailOtpExpiresAt <= new Date()`
abbrev pub is_code_over : ℕ → User → Bool
is_code_over now u = not (is_some u.email_otp_hash) || is_past now u.email_otp_expires_at

abbrev pub is_hash : Text → Option Text → Bool
is_hash hash none = false
is_hash hash (some stored) = text_eq hash stored

abbrev pub has_code : Text → User → Bool
has_code hash u = is_hash hash u.email_otp_hash

abbrev pub count_attempt : User → User
count_attempt u = record u { email_otp_attempts = u.email_otp_attempts + 1 }

abbrev pub mark_verified : ℕ → User → User
mark_verified now u = record u {
  email_verified_at = some now;
  email_otp_hash = none;
  email_otp_expires_at = none;
  email_otp_attempts = 0;
}

-- The comparison of a code: a wrong one is counted.
unfoldable pub compare_code : Hashes → Text → User → Action (Unit {0})
compare_code h code u =
    let wrong = update_user u.id count_attempt >> throw (bad_request "INVALID_OR_EXPIRED_OTP") in
    if has_code (h.code code) u then pure tt else wrong

-- The tests of a code.
unfoldable pub check_code : Hashes → ℕ → Text → User → Action (Unit {0})
unfolding compare_code
check_code h now code u = do
  throw_if (is_code_over now u) (bad_request "INVALID_OR_EXPIRED_OTP")
  throw_if (leb otp_max_attempts u.email_otp_attempts) (bad_request "TOO_MANY_OTP_ATTEMPTS")
  compare_code h code u

abbrev pub is_unverified : Option User → Bool
is_unverified none = false
is_unverified (some u) = not (is_some u.email_verified_at)

-- `verifyEmail` on the account of the address.
unfoldable pub verify_user : Hashes → OtpConfig → ℕ → Text → User → Action TokenPayload
unfolding check_code
verify_user h c now code u = do
  when (not (is_development_otp c code)) (check_code h now code u)
  update_user u.id (mark_verified now)
  pure (payload_of u)

-- `verifyEmail`
unfoldable pub verify_email : Hashes → OtpConfig → ℕ → Text → Text → Action TokenPayload
unfolding verify_user
verify_email h c now email code = do
  found ← gets (λ db. find? (has_email email) db.users)
  throw_if (not (is_unverified found)) (bad_request "INVALID_OR_EXPIRED_OTP")
  user ← or_throw found (bad_request "INVALID_OR_EXPIRED_OTP")
  verify_user h c now code user

-- The end of the pause before a next code.
abbrev pub pause_end : OtpConfig → Option ℕ → ℕ
pause_end c none = 0
pause_end c (some sent) = sent + c.cooldown_seconds * 1000

abbrev pub renew_code : Hashes → OtpConfig → ℕ → Text → User → User
renew_code h c now otp u = record u {
  email_otp_hash = some (h.code otp);
  email_otp_expires_at = some (otp_expiry c now);
  email_otp_attempts = 0;
  email_otp_sent_at = some now;
}

-- `resendEmailVerification` for an account whose address is not verified; the wait is rounded up to
-- seconds.
unfoldable pub resend_to : Hashes → OtpConfig → ℕ → Text → User → Action (Unit {0})
resend_to h c now otp u = do
  let pause = pause_end c u.email_otp_sent_at
  throw_if (ltb now pause) (too_many_requests ((pause - now + 999) / 1000))
  update_user u.id (renew_code h c now otp)
  emit (code_mailed u.email otp)

abbrev pub resend_if : Hashes → OtpConfig → ℕ → Text → Option User → Action (Unit {0})
resend_if h c now otp none = pure tt
resend_if h c now otp (some u) = when (not (is_some u.email_verified_at)) (resend_to h c now otp u)

-- `resendEmailVerification`: the same answer whether the address is known or not.
unfoldable pub resend_email_verification : Hashes → OtpConfig → ℕ → Text → Text → Action (Unit {0})
unfolding resend_to
resend_email_verification h c now otp email = do
  found ← gets (λ db. find? (has_email email) db.users)
  resend_if h c now otp found

abbrev pub set_reset : Hashes → ℕ → Text → User → User
set_reset h now raw u = record u {
  reset_token = some (h.token raw);
  reset_token_expiry = some (now + 60 * 60 * 1000);
}

-- `forgetPassword`
unfoldable pub forget_password : Hashes → ℕ → Text → Text → Action (Unit {0})
forget_password h now raw email = do
  found ← gets (λ db. find? (has_email email) db.users)
  user ← or_throw found (unauthorized "USER_NOT_FOUND")
  update_user user.id (set_reset h now raw)
  emit (token_mailed user.email raw)

abbrev pub is_token : Text → Option Text → Bool
is_token hash none = false
is_token hash (some stored) = text_eq stored hash

abbrev pub is_later : ℕ → Option ℕ → Bool
is_later now none = false
is_later now (some end) = ltb now end

-- `{ resetToken: hashedToken, resetTokenExpiry: { gt: new Date() } }`
abbrev pub may_reset : Text → ℕ → User → Bool
may_reset hash now u = is_token hash u.reset_token && is_later now u.reset_token_expiry

abbrev pub set_password : Text → User → User
set_password hash u = record u {
  password_hash = hash;
  reset_token = none;
  reset_token_expiry = none;
}

-- `resetPassword`
unfoldable pub reset_password : Hashes → ℕ → Text → Text → Action (Unit {0})
reset_password h now raw password = do
  found ← gets (λ db. find? (may_reset (h.token raw) now) db.users)
  user ← or_throw found (bad_request "INVALID_RESET_TOKEN")
  update_user user.id (set_password (h.password password))
