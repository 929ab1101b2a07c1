-- ===== src/Tests/Leases.antt =====
-- The lease of the flat of the small shop, between the landlord 7 and the tenant 9.
use propmatch_backend.Prelude.{arith, ℕ, ◌≡◌, refl, none, some, [], ◌∷◌}
use propmatch_backend.Store.{
  MatchConnection, ConnectionStatus, LeaseContract, LeaseContractStatus, TenantContractReviewStatus,
  IdentityVerification, VerificationStatus, Db, err, conflict,
}
use propmatch_backend.TenantOffers.Market.{undisturbed}
use propmatch_backend.Leases.{Draft, DraftData}
use propmatch_backend.Leases.Handlers.{store_draft}
use propmatch_backend.Leases.Final.{IsContract}
use propmatch_backend.Leases.Approved.{save, after_request, after_request-IsContract}
use propmatch_backend.Leases.Written.{store_draft_locked}
use propmatch_backend.Tests.Shop.{shop}

abbrev lease_match : MatchConnection
lease_match = record {
  id = 101;
  tenant_id = 9;
  property_id = 11;
  owner_id = 7;
  tenant_request_id = none;
  match_score = 100;
  agreement_reached_at = none;
  status = ConnectionStatus.connected;
}

abbrev awaiting : LeaseContract
awaiting = record {
  id = 201;
  match_connection_id = 101;
  generated_by_user_id = 7;
  owner_name = 65 ∷ [];
  owner_national_id = none;
  tenant_name = 66 ∷ [];
  tenant_national_id = none;
  property_address = 67 ∷ [];
  custom_clauses = [];
  witness1_name = none;
  witness1_national_id = none;
  witness2_name = none;
  witness2_national_id = none;
  pdf_url = none;
  start_date = 0;
  end_date = 9;
  rent_amount = 4000;
  status = LeaseContractStatus.pending_tenant_approval;
  tenant_review_status = TenantContractReviewStatus.pending_review;
  tenant_change_request = none;
  tenant_change_requested_at = none;
  tenant_review_confirmed_at = none;
  draft_revision = 1;
  tenant_reviewed_revision = none;
  change_request_note = none;
  created_at = 0;
}

abbrev pub final : LeaseContract
final = record awaiting {
  status = LeaseContractStatus.approved;
  tenant_review_status = TenantContractReviewStatus.review_confirmed;
  tenant_reviewed_revision = some 1;
  pdf_url = some 77;
}

abbrev verified : ℕ → IdentityVerification
verified user = record { user_id = user; national_id = none; status = VerificationStatus.approved }

abbrev pub leased : LeaseContract → Db
leased c = record shop {
  connections = lease_match ∷ [];
  contracts = c ∷ [];
  verifications = verified 7 ∷ verified 9 ∷ [];
}

abbrev dearer : Draft
dearer = record {
  rent_amount = some 9000;
  start_date = some 0;
  end_date = some 9;
  custom_clauses = [];
  witness1_name = none;
  witness1_national_id = none;
  witness2_name = none;
  witness2_national_id = none;
}

after_request-IsContract_example :
    IsContract 101 final
      (after_request undisturbed undisturbed 5 7 101 (save dearer) (leased final))
after_request-IsContract_example =
    after_request-IsContract undisturbed undisturbed 101 final 5 7 101 (save dearer) (leased final)
      refl refl (λ db h. h) (λ db h. h) refl

abbrev dearer_data : DraftData
dearer_data = record {
  owner_name = 65 ∷ [];
  tenant_name = 66 ∷ [];
  property_address = 67 ∷ [];
  rent_amount = 9000;
  start_date = 0;
  end_date = 9;
  custom_clauses = [];
}

store_draft_locked_example :
    store_draft
      (λ db. leased final)
      5
      7
      lease_match
      dearer
      (some awaiting)
      dearer_data
      (leased awaiting)
    ≡ (err (conflict "CONTRACT_DRAFT_LOCKED"), leased final)
store_draft_locked_example =
    store_draft_locked (λ db. leased final) 5 7 lease_match dearer awaiting dearer_data
      (leased awaiting) final refl (omega arith) refl
