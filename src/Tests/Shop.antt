-- ===== src/Tests/Shop.antt =====
-- A small shop: one landlord, 7, with a property, add-on grants and two open orders.
use propmatch_backend.Prelude.{ℕ, ◌*◌, none, some, [], ◌∷◌, Bool}
use propmatch_backend.Text.{egp}
use propmatch_backend.Calendar.{day_ms}
use propmatch_backend.Catalog.{free, premium, monthly, matched_offer, premium_monthly, boost_7d}
use propmatch_backend.Store.{
  PropertyType, UserRole, User, UserQuota, EntitlementGrant, Property, PropertyStatus, PaymentType,
  PaymentStatus, PaymentTransaction, Db, empty_db,
}

-- 31 January 1970
abbrev pub now : ℕ
now = 30 * day_ms

abbrev pub landlord : User
landlord = record {
  id = 7;
  role = UserRole.landlord;
  full_name = 65 ∷ 66 ∷ [];
  phone_number = 48 ∷ 49 ∷ [];
  email = 97 ∷ 64 ∷ 98 ∷ [];
  password_hash = 112 ∷ [];
  is_active = Bool.true;
  deleted_at = none;
  token_version = 0;
  suspended_at = none;
  suspended_until = none;
  reset_token = none;
  reset_token_expiry = none;
  email_verified_at = some 0;
  email_otp_hash = none;
  email_otp_expires_at = none;
  email_otp_attempts = 0;
  email_otp_sent_at = none;
}

abbrev pub free_quota : UserQuota
free_quota = record {
  user_id = 7;
  plan_type = free;
  plan_expires_at = none;
  max_active_listings = 1;
  optimizer_uses_left = 5;
  free_offers_left = 1;
  boost_credits_left = 1;
  billing_interval = none;
  current_period_starts_at = some 0;
  current_period_ends_at = some (60 * day_ms);
  listing_grace_ends_at = none;
  pending_plan_type = none;
  pending_billing_interval = none;
  pending_plan_starts_at = none;
  pending_plan_expires_at = none;
  last_reset_date = 0;
}

abbrev pub premium_quota : UserQuota
premium_quota = record free_quota {
  plan_type = premium;
  plan_expires_at = some (40 * day_ms);
  billing_interval = some monthly;
}

abbrev pub early_grant : EntitlementGrant
early_grant = record {
  id = 21;
  user_id = 7;
  payment_transaction_id = none;
  type = matched_offer;
  granted_quantity = 10;
  remaining_quantity = 2;
  starts_at = 0;
  expires_at = 40 * day_ms;
}

abbrev pub late_grant : EntitlementGrant
late_grant = record early_grant { id = 22; remaining_quantity = 3; expires_at = 90 * day_ms }

abbrev pub flat : Property
flat = record {
  id = 11;
  owner_id = 7;
  status = PropertyStatus.approved;
  is_boosted = Bool.false;
  boosted_until = none;
  created_at = 0;
  district = 67 ∷ [];
  manual_address = 68 ∷ [];
  rent_amount = 4000;
  title = 70 ∷ [];
  description = 71 ∷ [];
  property_type = PropertyType.apartment;
  property_around_services = none;
  bedrooms = 2;
  is_furnished = Bool.true;
  country_id = 1;
  governorate_id = 1;
  city_id = 1;
  area_m2 = 90;
  bathrooms = 1;
  has_elevator = Bool.false;
  has_parking = Bool.false;
  approved_at = some 0;
  approved_by = none;
  rejection_reason = none;
}

abbrev pub plan_order : PaymentTransaction
plan_order = record {
  id = 31;
  user_id = 7;
  provider_order_id = 500;
  provider_transaction_id = none;
  amount = 699;
  currency = egp;
  payment_type = PaymentType.billable premium_monthly;
  billing_interval = some monthly;
  target_property_id = none;
  catalog_snapshot = none;
  status = PaymentStatus.pending;
  paid_at = none;
  created_at = 0;
}

abbrev pub boost_order : PaymentTransaction
boost_order = record plan_order {
  id = 32;
  provider_order_id = 501;
  amount = 79;
  payment_type = PaymentType.billable boost_7d;
  billing_interval = none;
  target_property_id = some 11;
}

abbrev pub shop : Db
shop = record empty_db {
  users = landlord ∷ [];
  quotas = free_quota ∷ [];
  grants = late_grant ∷ early_grant ∷ [];
  properties = flat ∷ [];
  transactions = plan_order ∷ boost_order ∷ [];
  next_id = 100;
}
