-- ===== src/Leases/Handlers.antt =====
-- src/lease-contracts/lease-contracts.service.ts, the handlers that change a contract.
use propmatch_backend.Prelude.{
  ℕ, ◌+◌, Option, none, some, [], ◌∷◌, ◌++◌, length, Bool, true, false, not, ◌&&◌, ltb, ◌==◌,
  if◌then◌else◌, or_else, find?, update_where, count_where,
}
use propmatch_backend.Text.{Text, trim}
use propmatch_backend.Store.{
  MatchConnection, LeaseContract, LeaseContractStatus, TenantContractReviewStatus,
  IdentityVerification, VerificationStatus, NotificationType, Notice, Db, Action, Result, pure,
  gets, throw, or_throw, throw_if, modify, when, ◌>>=◌, ◌>>◌, bad_request, not_found, forbidden,
  conflict, internal,
}
use propmatch_backend.TenantOffers.{notify_user}
use propmatch_backend.Leases.{
  is_drafting, is_awaiting, is_approved, is_unreviewed, wants_changes, is_confirmed, is_for,
  connected_match, require_contract, Draft, DraftData, draft_data,
}

-- The states in which `saveDraft` refuses.
abbrev pub check_lock : Option LeaseContract → Action (Unit {0})
check_lock none = pure tt
check_lock (some c) = do
  throw_if (is_confirmed c) (conflict "CONTRACT_DRAFT_LOCKED")
  throw_if (not (is_drafting c) && not (wants_changes c)) (conflict "DRAFT_LOCKED")

abbrev pub new_contract : ℕ → ℕ → ℕ → ℕ → DraftData → Draft → LeaseContract
new_contract id now user match_id d dto = record {
  id = id;
  match_connection_id = match_id;
  generated_by_user_id = user;
  owner_name = d.owner_name;
  owner_national_id = none;
  tenant_name = d.tenant_name;
  tenant_national_id = none;
  property_address = d.property_address;
  custom_clauses = d.custom_clauses;
  witness1_name = dto.witness1_name;
  witness1_national_id = dto.witness1_national_id;
  witness2_name = dto.witness2_name;
  witness2_national_id = dto.witness2_national_id;
  pdf_url = none;
  start_date = d.start_date;
  end_date = d.end_date;
  rent_amount = d.rent_amount;
  status = LeaseContractStatus.drafting;
  tenant_review_status = TenantContractReviewStatus.pending_review;
  tenant_change_request = none;
  tenant_change_requested_at = none;
  tenant_review_confirmed_at = none;
  draft_revision = 1;
  tenant_reviewed_revision = none;
  change_request_note = none;
  created_at = now;
}

-- The columns of the update in `saveDraft`.
abbrev pub redraft : ℕ → DraftData → Draft → LeaseContract → LeaseContract
redraft user d dto c = record c {
  generated_by_user_id = user;
  owner_name = d.owner_name;
  tenant_name = d.tenant_name;
  property_address = d.property_address;
  rent_amount = d.rent_amount;
  start_date = d.start_date;
  end_date = d.end_date;
  custom_clauses = d.custom_clauses;
  witness1_name = dto.witness1_name;
  witness1_national_id = dto.witness1_national_id;
  witness2_name = dto.witness2_name;
  witness2_national_id = dto.witness2_national_id;
  status = LeaseContractStatus.drafting;
  draft_revision = c.draft_revision + 1;
  tenant_review_status = TenantContractReviewStatus.pending_review;
  tenant_change_request = none;
  tenant_change_requested_at = none;
}

abbrev pub lease_notice : ℕ → NotificationType → Notice
lease_notice user type = record {
  user_id = user;
  type = type;
  title = "lease contract";
  link = "/contracts";
  price = none;
}

-- `updateMany` on contracts; how many rows it changed.
abbrev pub update_contracts : (LeaseContract → Bool) → (LeaseContract → LeaseContract) → Action ℕ
update_contracts q f = do
  count ← gets (λ db. count_where q db.contracts)
  modify (λ db. record db { contracts = update_where q f db.contracts })
  pure count

-- The first save; `matchConnectionId` is unique.
unfoldable pub create_draft : ℕ → ℕ → MatchConnection → DraftData → Draft → Action LeaseContract
create_draft now user x d dto = do
  taken ← gets (λ db. count_where (is_for x.id) db.contracts)
  throw_if (not (taken == 0)) (internal "unique constraint on match_connection_id")
  id ← gets (λ db. db.next_id)
  modify (λ db. record db {
    contracts = db.contracts ++ new_contract id now user x.id d dto ∷ [];
    next_id = db.next_id + 1;
  })
  notify_user (lease_notice x.tenant_id NotificationType.contract_ready_for_review)
  pure (new_contract id now user x.id d dto)

-- `{ matchConnectionId, tenantReviewStatus: { not: 'REVIEW_CONFIRMED' } }`
abbrev pub is_unlocked : ℕ → LeaseContract → Bool
is_unlocked match_id c = is_for match_id c && not (is_confirmed c)

-- A later save: the guarded update, and a notice if the tenant had asked for changes.
unfoldable pub rewrite_draft :
    ℕ → MatchConnection → DraftData → Draft → LeaseContract → Action LeaseContract
unfolding require_contract
rewrite_draft user x d dto existing = do
  count ← update_contracts (is_unlocked x.id) (redraft user d dto)
  throw_if (not (count == 1)) (conflict "CONTRACT_DRAFT_LOCKED")
  contract ← require_contract x.id
  when (wants_changes existing)
      (notify_user (lease_notice x.tenant_id NotificationType.new_review_submitted))
  pure contract

abbrev pub write_draft :
    ℕ → ℕ → MatchConnection → DraftData → Draft → Option LeaseContract → Action LeaseContract
write_draft now user x d dto none = create_draft now user x d dto
write_draft now user x d dto (some existing) = rewrite_draft user x d dto existing

-- The write of `saveDraft`.
unfoldable pub store_draft :
    (Db → Db)
    → ℕ
    → ℕ
    → MatchConnection
    → Draft
    → Option LeaseContract
    → DraftData
    → Action LeaseContract
unfolding create_draft rewrite_draft
store_draft others now user x dto existing d =
    modify others >> write_draft now user x d dto existing

-- `saveDraft` once the contract is read.
unfoldable pub edit_draft :
    (Db → Db) → ℕ → ℕ → MatchConnection → Draft → Option LeaseContract → Action LeaseContract
unfolding draft_data store_draft
edit_draft others now user x dto existing =
    check_lock existing >> (draft_data x dto >>= store_draft others now user x dto existing)

-- `saveDraft`
unfoldable pub save_draft : (Db → Db) → ℕ → ℕ → ℕ → Draft → Action LeaseContract
unfolding connected_match edit_draft
save_draft others now user match_id dto = do
  x ← connected_match user match_id
  throw_if (not (user == x.owner_id)) (forbidden "ONLY_LANDLORD_MAY_EDIT_DRAFT")
  existing ← gets (λ db. find? (is_for match_id) db.contracts)
  edit_draft others now user x dto existing

abbrev pub send : LeaseContract → LeaseContract
send c = record c {
  status = LeaseContractStatus.pending_tenant_approval;
  change_request_note = none;
}

-- `sendForReview`
unfoldable pub send_for_review : (Db → Db) → ℕ → ℕ → Action (Unit {0})
unfolding connected_match require_contract
send_for_review others user match_id = do
  x ← connected_match user match_id
  throw_if (not (user == x.owner_id)) (forbidden "ONLY_LANDLORD_MAY_SEND_FOR_REVIEW")
  contract ← require_contract match_id
  throw_if (not (is_drafting contract)) (conflict "NOT_IN_DRAFTING_STATE")
  modify others
  update_contracts (is_for match_id) send
  notify_user (lease_notice x.tenant_id NotificationType.contract_ready_for_review)

-- The identity of a user, if it is verified.
abbrev pub is_verified : Option IdentityVerification → Bool
is_verified none = false
is_verified (some v) = elim v.status [ VerificationStatus.approved ↦ true | _ ↦ false ]

abbrev pub national_id_of : Option IdentityVerification → Option Text
national_id_of none = none
national_id_of (some v) = v.national_id

abbrev pub find_identity : ℕ → Db → Option IdentityVerification
find_identity user db = find? (λ v. v.user_id == user) db.verifications

-- The columns that `approve` writes, from the contract that it read.
abbrev pub approve_with :
    ℕ → ℕ → LeaseContract → Option Text → Option Text → ℕ → LeaseContract → LeaseContract
approve_with now user seen owner_id tenant_id pdf c = record c {
  generated_by_user_id = user;
  owner_national_id = owner_id;
  tenant_national_id = tenant_id;
  pdf_url = some pdf;
  status = LeaseContractStatus.approved;
  tenant_review_status = TenantContractReviewStatus.review_confirmed;
  tenant_review_confirmed_at = some (or_else seen.tenant_review_confirmed_at now);
  tenant_reviewed_revision = some seen.draft_revision;
}

abbrev pub from_result : {A : Type 0} → Result A → Action A
from_result r db = (r, db)

-- The end of `approve` for a contract that awaits the tenant's approval.
unfoldable pub approve_contract :
    (Db → Db) → ℕ → ℕ → MatchConnection → ℕ → Result ℕ → LeaseContract → Action (Unit {0})
approve_contract others now user x match_id pdf contract = do
  throw_if (not (is_awaiting contract)) (conflict "NOT_PENDING_TENANT_APPROVAL")
  owner ← gets (find_identity x.owner_id)
  tenant ← gets (find_identity x.tenant_id)
  throw_if (not (is_verified owner && is_verified tenant)) (conflict "IDENTITY_NOT_VERIFIED")
  key ← from_result pdf
  modify others
  update_contracts (is_for match_id)
      (approve_with now user contract (national_id_of owner) (national_id_of tenant) key)
  notify_user (lease_notice x.owner_id NotificationType.contract_approved)

-- `approve`
unfoldable pub approve : (Db → Db) → ℕ → ℕ → ℕ → Result ℕ → Action (Unit {0})
unfolding connected_match require_contract approve_contract
approve others now user match_id pdf = do
  x ← connected_match user match_id
  throw_if (not (user == x.tenant_id)) (forbidden "ONLY_TENANT_MAY_APPROVE")
  contract ← require_contract match_id
  if is_approved contract
      then (pure tt)
      else (approve_contract others now user x match_id pdf contract)

-- `dto.note?.trim() || null`
abbrev pub note_of : Option Text → Option Text
note_of none = none
note_of (some note) = let text = trim note in if length text == 0 then none else some text

abbrev pub send_back : Option Text → LeaseContract → LeaseContract
send_back note c = record c { status = LeaseContractStatus.drafting; change_request_note = note }

-- `reject`
unfoldable pub reject : (Db → Db) → ℕ → ℕ → Option Text → Action (Unit {0})
unfolding connected_match require_contract trim
reject others user match_id note = do
  x ← connected_match user match_id
  throw_if (not (user == x.tenant_id)) (forbidden "ONLY_TENANT_MAY_REJECT")
  contract ← require_contract match_id
  throw_if (not (is_awaiting contract)) (conflict "NOT_PENDING_TENANT_APPROVAL")
  modify others
  update_contracts (is_for match_id) (send_back (note_of note))
  notify_user (lease_notice x.owner_id NotificationType.contract_rejected)

abbrev pub has_contract_id : ℕ → LeaseContract → Bool
has_contract_id id c = c.id == id

-- `authorizedContract` for the tenant: the contract and its connection.
unfoldable pub authorized_contract : ℕ → ℕ → Action (LeaseContract × MatchConnection)
authorized_contract user id = do
  found ← gets (λ db. find? (has_contract_id id) db.contracts)
  contract ← or_throw found (not_found "no such lease contract")
  connection ← gets (λ db. find? (λ x. x.id == contract.match_connection_id) db.connections)
  x ← or_throw connection (internal "no connection")
  throw_if (not (x.tenant_id == user)) (forbidden "NOT_A_PARTY_TO_THIS_CONTRACT")
  pure (contract, x)

-- `{ id: contractId, tenantReviewStatus: 'PENDING_REVIEW' }`
abbrev pub is_reviewable : ℕ → LeaseContract → Bool
is_reviewable id c = has_contract_id id c && is_unreviewed c

abbrev pub ask_changes : ℕ → Text → LeaseContract → LeaseContract
ask_changes now message c = record c {
  tenant_review_status = TenantContractReviewStatus.changes_requested;
  tenant_change_request = some message;
  tenant_change_requested_at = some now;
}

-- What is thrown when the guarded write of `requestChanges` found no row.
unfoldable pub changes_refused : ℕ → ℕ → Action (Unit {0})
unfolding authorized_contract
changes_refused user id = do
  now_seen ← authorized_contract user id
  throw_if (is_confirmed now_seen.0) (conflict "CONTRACT_REVIEW_ALREADY_CONFIRMED")
  throw (conflict "CONTRACT_CHANGES_ALREADY_REQUESTED")

-- The end of `requestChanges`, after its guarded write changed `count` rows.
unfoldable pub report_changes : ℕ → ℕ → ℕ → ℕ → Action (Unit {0})
unfolding authorized_contract changes_refused
report_changes user id owner count = do
  when (not (count == 1)) (changes_refused user id)
  authorized_contract user id
  notify_user (lease_notice owner NotificationType.new_review_submitted)

-- `requestChanges` once the contract is read.
unfoldable pub ask_for_changes :
    (Db → Db) → ℕ → ℕ → ℕ → Text → LeaseContract × MatchConnection → Action (Unit {0})
unfolding report_changes trim
ask_for_changes others now user id dto_message seen = do
  throw_if (is_confirmed seen.0) (conflict "CONTRACT_REVIEW_ALREADY_CONFIRMED")
  throw_if (wants_changes seen.0) (conflict "CONTRACT_CHANGES_ALREADY_REQUESTED")
  let message = trim dto_message
  throw_if (ltb (length message) 5) (bad_request "CHANGE_REQUEST_TOO_SHORT")
  modify others
  count ← update_contracts (is_reviewable id) (ask_changes now message)
  report_changes user id seen.1.owner_id count

-- `requestChanges`
unfoldable pub request_changes : (Db → Db) → ℕ → ℕ → ℕ → Text → Action (Unit {0})
unfolding authorized_contract ask_for_changes
request_changes others now user id message =
    authorized_contract user id >>= ask_for_changes others now user id message

-- The row that a confirmation of a revision writes to.
abbrev pub is_at_revision : ℕ → ℕ → LeaseContract → Bool
is_at_revision id revision c = is_reviewable id c && c.draft_revision == revision

abbrev pub confirm : ℕ → ℕ → LeaseContract → LeaseContract
confirm now revision c = record c {
  status = LeaseContractStatus.pending_tenant_approval;
  tenant_review_status = TenantContractReviewStatus.review_confirmed;
  tenant_review_confirmed_at = some now;
  tenant_reviewed_revision = some revision;
  tenant_change_request = none;
  tenant_change_requested_at = none;
}

-- `{ id: contractId, status: { not: 'APPROVED' } }`
abbrev pub is_unapproved : ℕ → LeaseContract → Bool
is_unapproved id c = has_contract_id id c && not (is_approved c)

abbrev pub await_approval : LeaseContract → LeaseContract
await_approval c = record c { status = LeaseContractStatus.pending_tenant_approval }

-- What the contract that is read again leads to.
abbrev pub confirm_current : (Db → Db) → ℕ → ℕ → Result ℕ → LeaseContract → Action (Unit {0})
confirm_current later now user pdf current =
    if is_confirmed current
    then (if is_approved current
        then pure tt
        else approve later now user current.match_connection_id pdf)
    else if wants_changes current
    then throw (conflict "CONTRACT_CHANGES_PENDING")
    else throw (conflict "CONTRACT_REVISION_CHANGED")

-- `confirmReview` after its guarded write found no row.
unfoldable pub confirm_late : (Db → Db) → ℕ → ℕ → ℕ → Result ℕ → Action (Unit {0})
unfolding authorized_contract approve
confirm_late later now user id pdf =
    authorized_contract user id >>= (λ current. confirm_current later now user pdf current.0)

-- `confirmReview` for a contract that waits for its review.
unfoldable pub confirm_pending :
    (Db → Db) → (Db → Db) → ℕ → ℕ → ℕ → ℕ → Result ℕ → LeaseContract → Action (Unit {0})
unfolding confirm_late approve
confirm_pending others later now user id expected pdf contract = do
  throw_if (wants_changes contract) (conflict "CONTRACT_CHANGES_PENDING")
  throw_if (not (expected == contract.draft_revision)) (conflict "CONTRACT_REVISION_CHANGED")
  modify others
  count ← update_contracts (is_at_revision id expected) (confirm now expected)
  (if count == 1
      then approve later now user contract.match_connection_id pdf
      else confirm_late later now user id pdf)

-- A confirmed contract of the former workflow is brought to its approval.
unfoldable pub recover :
    (Db → Db) → (Db → Db) → ℕ → ℕ → ℕ → Result ℕ → LeaseContract → Action (Unit {0})
unfolding approve
recover others later now user id pdf contract = do
  modify others
  update_contracts (is_unapproved id) await_approval
  approve later now user contract.match_connection_id pdf

-- `confirmReview` once the contract is read.
unfoldable pub confirm_seen :
    (Db → Db)
    → (Db → Db)
    → ℕ
    → ℕ
    → ℕ
    → ℕ
    → Result ℕ
    → LeaseContract × MatchConnection
    → Action (Unit {0})
unfolding recover confirm_pending
confirm_seen others later now user id expected pdf seen =
    if is_approved seen.0
    then pure tt
    else if is_confirmed seen.0
    then recover others later now user id pdf seen.0
    else confirm_pending others later now user id expected pdf seen.0

-- `confirmReview`; `later` is what others commit while the PDF is made.
unfoldable pub confirm_review : (Db → Db) → (Db → Db) → ℕ → ℕ → ℕ → ℕ → Result ℕ → Action (Unit {0})
unfolding authorized_contract confirm_seen
confirm_review others later now user id expected pdf =
    authorized_contract user id >>= confirm_seen others later now user id expected pdf
