-- ===== src/Accounts.antt =====
-- src/auth/auth.service.ts, src/auth/strategies/jwt.strategy.ts, src/users/users.service.ts and
-- src/common/suspension.ts: who may sign in, and which tokens are good. A token is its payload, since
-- only the service can sign one; its expiry is the library's.
pub mod Codes
pub mod Sessions
pub mod Guesses
pub mod Reactivation
use propmatch_backend.Prelude.{
  ℕ, ◌+◌, String, Option, none, some, List, [], ◌∷◌, ◌++◌, Bool, true, false, not, ◌&&◌, ◌||◌, ltb,
  ◌==◌, if◌then◌else◌, is_some, or_else, find?, update_where,
}
use propmatch_backend.Text.{Text, trim, to_lower_case, text_eq}
use propmatch_backend.Store.{
  UserRole, User, Property, PropertyStatus, property_code, TenantRequest, TenantRequestStatus,
  LoginAttempt, IdentityVerification, VerificationStatus, Db, Action, pure, gets, or_throw,
  throw_if, modify, when, ◌>>=◌, ◌>>◌, unauthorized, forbidden, internal,
}
use propmatch_backend.Offers.{request_code}

-- `normalizeEmail`
unfoldable pub normalize_email : Text → Text
unfolding trim to_lower_case
normalize_email value = to_lower_case (trim value)

-- `isSuspensionActive`
abbrev pub is_until : ℕ → Option ℕ → Bool
is_until now none = true
is_until now (some end) = ltb now end

abbrev pub is_suspended : ℕ → User → Bool
is_suspended now u = is_some u.suspended_at && is_until now u.suspended_until

-- `findByEmail`
abbrev pub has_email : Text → User → Bool
has_email email u = text_eq u.email (normalize_email email)

abbrev pub has_user_id : ℕ → User → Bool
has_user_id id u = u.id == id

-- `user.update({ where: { id } })`
abbrev pub update_user : ℕ → (User → User) → Action (Unit {0})
update_user id f = modify (λ db. record db { users = update_where (has_user_id id) f db.users })

abbrev pub role_code : UserRole → ℕ
role_code UserRole.tenant = 0
role_code UserRole.landlord = 1
role_code UserRole.admin = 2

-- `TokenPayload`
pub record TokenPayload : Type 0 where
  pub sub : ℕ
  pub email : Text
  pub role : UserRole
  pub token_version : ℕ

abbrev pub payload_of : User → TokenPayload
payload_of u = record {
  sub = u.id;
  email = u.email;
  role = u.role;
  token_version = u.token_version;
}

-- `recordAdminLoginAttempt`
abbrev pub record_attempt : ℕ → ℕ → Text → Bool → Action (Unit {0})
record_attempt now user ip success = modify (λ db. record db {
  login_attempts =
      db.login_attempts
      ++ record { user_id = user; ip = ip; success = success; created_at = now } ∷ [];
})

-- The account tests of `signIn` behind the password, in their order.
unfoldable pub check_account : ℕ → User → Action (Unit {0})
check_account now u = do
  throw_if (not u.is_active) (forbidden "the account is disabled")
  throw_if (is_some u.deleted_at) (forbidden "ACCOUNT_DELETED")
  throw_if (is_suspended now u) (forbidden "ACCOUNT_SUSPENDED")
  throw_if (not (is_some u.email_verified_at)) (forbidden "EMAIL_NOT_VERIFIED")

-- `signIn` on an account: `matched` is the answer of bcrypt.
unfoldable pub sign_in_as : ℕ → Text → User → Bool → Action TokenPayload
unfolding check_account
sign_in_as now ip u matched = do
  when (role_code u.role == 2) (record_attempt now u.id ip matched)
  throw_if (not matched) (unauthorized "INVALID_CREDENTIALS")
  check_account now u
  pure (payload_of u)

-- `signIn`: the payload of the tokens. `compare` is `bcrypt.compare`.
unfoldable pub sign_in : (Text → Text → Bool) → ℕ → Text → Text → Text → Action TokenPayload
unfolding sign_in_as
sign_in compare now ip email password = do
  found ← gets (λ db. find? (has_email email) db.users)
  user ← or_throw found (unauthorized "INVALID_CREDENTIALS")
  sign_in_as now ip user (compare password user.password_hash)

-- Who a request acts for.
pub record RequestUser : Type 0 where
  pub user_id : ℕ
  pub email : Text
  pub role : UserRole

-- `JwtStrategy.validate` on the account of a token, where there is one.
abbrev pub has_version : ℕ → Option User → Bool
has_version version none = false
has_version version (some u) = version == u.token_version

-- `JwtStrategy.validate`
unfoldable pub validate : ℕ → TokenPayload → Action RequestUser
validate now p = do
  found ← gets (λ db. find? (has_user_id p.sub) db.users)
  throw_if (not (has_version p.token_version found)) (unauthorized "")
  user ← or_throw found (unauthorized "")
  throw_if (not user.is_active) (forbidden "the account is disabled")
  throw_if (is_some user.deleted_at) (forbidden "ACCOUNT_DELETED")
  throw_if (is_suspended now user) (forbidden "ACCOUNT_SUSPENDED")
  pure (record { user_id = p.sub; email = p.email; role = p.role })

-- What `refresh` refuses.
abbrev pub is_revoked : ℕ → ℕ → User → Bool
is_revoked now version u =
    is_some u.deleted_at || (is_suspended now u || not (version == u.token_version))

-- `refresh`; the argument is what `verifyAsync` returned, none where it threw or the token is not a
-- refresh token.
unfoldable pub refresh : ℕ → Option TokenPayload → Action TokenPayload
refresh now token = do
  payload ← or_throw token (unauthorized "INVALID_REFRESH_TOKEN")
  found ← gets (λ db. find? (has_user_id payload.sub) db.users)
  user ← or_throw found (unauthorized "INVALID_REFRESH_TOKEN")
  throw_if (is_revoked now payload.token_version user) (unauthorized "INVALID_REFRESH_TOKEN")
  pure (payload_of user)

-- `getMe`: the row that the answer shows.
unfoldable pub get_me : ℕ → Action User
get_me id = do
  found ← gets (λ db. find? (has_user_id id) db.users)
  or_throw found (unauthorized "USER_NOT_FOUND")

-- The profile columns that a user may change; `undefined` is none.
pub record ProfileUpdate : Type 0 where
  pub full_name : Option Text
  pub phone_number : Option Text

-- `updateProfile`; an update of no row throws.
unfoldable pub update_profile : ℕ → ProfileUpdate → Action (Unit {0})
update_profile id dto = do
  found ← gets (λ db. find? (has_user_id id) db.users)
  or_throw found (internal "no user")
  update_user id (λ u. record u {
    full_name = or_else dto.full_name u.full_name;
    phone_number = or_else dto.phone_number u.phone_number;
  })

abbrev pub mark_deleted : ℕ → User → User
mark_deleted now u = record u { deleted_at = some now; token_version = u.token_version + 1 }

abbrev pub owns_live : ℕ → Property → Bool
owns_live user p = p.owner_id == user && not (property_code p.status == 3)

abbrev pub wants_live : ℕ → TenantRequest → Bool
wants_live user r = r.tenant_id == user && not (request_code r.status == 5)

-- The three updates of `deleteAccount`.
abbrev pub remove_account : ℕ → ℕ → Action (Unit {0})
remove_account now id = modify (λ db. record db {
  users = update_where (has_user_id id) (mark_deleted now) db.users;
  requests =
      update_where (wants_live id) (λ r. record r { status = TenantRequestStatus.archived })
        db.requests;
  properties =
      update_where (owns_live id) (λ p. record p { status = PropertyStatus.archived })
        db.properties;
})

-- `deleteAccount`: one transaction, which the update of no user rolls back.
unfoldable pub delete_account : ℕ → ℕ → Action (Unit {0})
delete_account now id = do
  found ← gets (λ db. find? (has_user_id id) db.users)
  or_throw found (internal "no user")
  remove_account now id

abbrev pub verification_code : VerificationStatus → ℕ
verification_code VerificationStatus.pending = 0
verification_code VerificationStatus.approved = 1
verification_code VerificationStatus.rejected = 2
verification_code VerificationStatus.resubmission_required = 3

abbrev pub is_trusted : Option IdentityVerification → Bool
is_trusted none = false
is_trusted (some v) = verification_code v.status == 1

-- `VerifiedGuard.canActivate`
unfoldable pub require_verified : ℕ → Action (Unit {0})
require_verified user = do
  found ← gets (λ db. find? (λ v. v.user_id == user) db.verifications)
  throw_if (not (is_trusted found)) (forbidden "VERIFICATION_REQUIRED")

-- `RolesGuard.canActivate`: `required` is none without the decorator, and `role` is that of the
-- request's user, if any.
abbrev pub occurs_role : UserRole → List UserRole → Bool
occurs_role r [] = false
occurs_role r (x ∷ xs) = role_code x == role_code r || occurs_role r xs

unfoldable pub has_role : Option (List UserRole) → Option UserRole → Bool
has_role none role = true
has_role (some required) none = false
has_role (some required) (some r) = occurs_role r required
