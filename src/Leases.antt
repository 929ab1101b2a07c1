-- ===== src/Leases.antt =====
-- src/lease-contracts/lease-contracts.service.ts: the draft of a lease between the two parties of a
-- connection, its review by the tenant and its approval. A handler reads, tests and writes later;
-- `others` is what other requests commit in between. The parse of a date is an argument, `none` where
-- it throws; so is the PDF that is rendered and stored, by its object key.
pub mod Handlers
pub mod Final
pub mod Approved
pub mod Drafts
pub mod Written
use propmatch_backend.Prelude.{
  ℕ, ◌+◌, String, Option, none, some, List, [], ◌∷◌, ◌++◌, length, Bool, true, false, not, ◌&&◌,
  ◌||◌, ltb, leb, ◌==◌, if◌then◌else◌, is_some, or_else, find?, update_where, count_where,
}
use propmatch_backend.Text.{Text, trim}
use propmatch_backend.Store.{
  User, Property, MatchConnection, ConnectionStatus, LeaseContract, LeaseContractStatus,
  TenantContractReviewStatus, IdentityVerification, VerificationStatus, NotificationType, Notice,
  Db, Action, Result, ok, err, pure, gets, throw, or_throw, throw_if, modify, when, transaction,
  ◌>>=◌, ◌>>◌, Error, bad_request, not_found, forbidden, conflict, internal,
}
use propmatch_backend.TenantOffers.{notify_user}

abbrev pub contract_code : LeaseContractStatus → ℕ
contract_code LeaseContractStatus.drafting = 0
contract_code LeaseContractStatus.pending_tenant_approval = 1
contract_code LeaseContractStatus.approved = 2

abbrev pub review_code : TenantContractReviewStatus → ℕ
review_code TenantContractReviewStatus.pending_review = 0
review_code TenantContractReviewStatus.changes_requested = 1
review_code TenantContractReviewStatus.review_confirmed = 2

abbrev pub is_drafting : LeaseContract → Bool
is_drafting c = contract_code c.status == 0

abbrev pub is_awaiting : LeaseContract → Bool
is_awaiting c = contract_code c.status == 1

abbrev pub is_approved : LeaseContract → Bool
is_approved c = contract_code c.status == 2

abbrev pub is_unreviewed : LeaseContract → Bool
is_unreviewed c = review_code c.tenant_review_status == 0

abbrev pub wants_changes : LeaseContract → Bool
wants_changes c = review_code c.tenant_review_status == 1

abbrev pub is_confirmed : LeaseContract → Bool
is_confirmed c = review_code c.tenant_review_status == 2

abbrev pub is_for : ℕ → LeaseContract → Bool
is_for match_id c = c.match_connection_id == match_id

abbrev pub is_connected : ConnectionStatus → Bool
is_connected ConnectionStatus.interested = false
is_connected ConnectionStatus.connected = true
is_connected ConnectionStatus.rejected = false

-- A connected match of which the user is a party.
abbrev pub is_own_match : ℕ → ℕ → MatchConnection → Bool
is_own_match user id x =
    x.id == id && (is_connected x.status && (x.tenant_id == user || x.owner_id == user))

-- `connectedMatchFor`
unfoldable pub connected_match : ℕ → ℕ → Action MatchConnection
connected_match user id = do
  found ← gets (λ db. find? (is_own_match user id) db.connections)
  or_throw found (not_found "no active connection")

-- `requireContract`
unfoldable pub require_contract : ℕ → Action LeaseContract
require_contract match_id = do
  found ← gets (λ db. find? (is_for match_id) db.contracts)
  or_throw found (not_found "no such lease contract")

-- `requireTrustedText`
unfoldable pub require_trusted : Text → ℕ → String → Action Text
unfolding trim
require_trusted value maximum error = do
  let normalized = trim value
  throw_if (length normalized == 0 || ltb maximum (length normalized)) (conflict error)
  pure normalized

-- The map of `normalizeCustomClauses`
unfoldable pub normalize_each : List Text → Action (List Text)
unfolding trim
normalize_each [] = pure []
normalize_each (clause ∷ clauses) = do
  let normalized = trim clause
  throw_if (length normalized == 0 || ltb 2000 (length normalized))
      (bad_request "CUSTOM_CLAUSE_IS_INVALID")
  rest ← normalize_each clauses
  pure (normalized ∷ rest)

-- `normalizeCustomClauses`
unfoldable pub normalize_clauses : List Text → Action (List Text)
unfolding normalize_each
normalize_clauses clauses = do
  throw_if (ltb 30 (length clauses)) (bad_request "TOO_MANY_CUSTOM_CLAUSES")
  normalize_each clauses

-- `SaveDraftDto`, with the dates parsed by `parseCalendarDate`.
pub record Draft : Type 0 where
  pub rent_amount : Option ℕ
  pub start_date : Option ℕ
  pub end_date : Option ℕ
  pub custom_clauses : List Text
  pub witness1_name : Option Text
  pub witness1_national_id : Option Text
  pub witness2_name : Option Text
  pub witness2_national_id : Option Text

-- What a save writes in any case.
pub record DraftData : Type 0 where
  pub owner_name : Text
  pub tenant_name : Text
  pub property_address : Text
  pub rent_amount : ℕ
  pub start_date : ℕ
  pub end_date : ℕ
  pub custom_clauses : List Text

-- `match.owner`, `match.tenant` and `match.property`; the foreign keys say that they exist.
abbrev pub user_of : ℕ → Action User
user_of id = do
  found ← gets (λ db. find? (λ u. u.id == id) db.users)
  or_throw found (internal "no user")

abbrev pub property_of : ℕ → Action Property
property_of id = do
  found ← gets (λ db. find? (λ p. p.id == id) db.properties)
  or_throw found (internal "no property")

-- The rows that `connectedMatchFor` includes.
pub record Parties : Type 0 where
  pub owner : User
  pub tenant : User
  pub property : Property

unfoldable pub parties_of : MatchConnection → Action Parties
parties_of x = do
  owner ← user_of x.owner_id
  tenant ← user_of x.tenant_id
  property ← property_of x.property_id
  pure (record { owner = owner; tenant = tenant; property = property })

-- The two names and the address, checked. 1548 is the Arabic comma.
unfoldable pub texts_of : Parties → Action (Text × Text × Text)
unfolding require_trusted
texts_of p = do
  owner_name ← require_trusted p.owner.full_name 200 "TRUSTED_OWNER_NAME_IS_INVALID"
  tenant_name ← require_trusted p.tenant.full_name 200 "TRUSTED_TENANT_NAME_IS_INVALID"
  address ←
      require_trusted (p.property.district ++ 1548 ∷ 32 ∷ p.property.manual_address) 500
        "TRUSTED_PROPERTY_ADDRESS_IS_INVALID"
  pure (owner_name, tenant_name, address)

-- The rent and the clauses, checked.
unfoldable pub terms_of : Parties → Draft → Action (ℕ × List Text)
unfolding normalize_clauses
terms_of p dto = do
  let rent = or_else dto.rent_amount p.property.rent_amount
  throw_if (rent == 0) (bad_request "RENT_AMOUNT_MUST_BE_POSITIVE")
  clauses ← normalize_clauses dto.custom_clauses
  pure (rent, clauses)

-- The two dates, checked.
unfoldable pub dates_of : Draft → Action (ℕ × ℕ)
dates_of dto = do
  starts ← or_throw dto.start_date (bad_request "STARTDATE_IS_INVALID")
  ends ← or_throw dto.end_date (bad_request "ENDDATE_IS_INVALID")
  throw_if (leb ends starts) (bad_request "END_DATE_MUST_BE_AFTER_START_DATE")
  pure (starts, ends)

-- What a save writes, from the checked texts and terms.
unfoldable pub collect : Draft → ℕ × ℕ → Parties → Action DraftData
unfolding texts_of terms_of
collect dto dates parties = do
  texts ← texts_of parties
  terms ← terms_of parties dto
  let (owner_name, tenant_name, address) = texts
  pure (record {
    owner_name = owner_name;
    tenant_name = tenant_name;
    property_address = address;
    rent_amount = terms.0;
    start_date = dates.0;
    end_date = dates.1;
    custom_clauses = terms.1;
  })

-- The checks of `saveDraft` between its two reads and its write.
unfoldable pub draft_data : MatchConnection → Draft → Action DraftData
unfolding parties_of collect dates_of
draft_data x dto = dates_of dto >>= λ dates. parties_of x >>= collect dto dates
