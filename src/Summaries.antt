-- ===== src/Summaries.antt =====
-- src/properties/mappers/property.mapper.ts: what the answers show of a property. The caller passes
-- the rows that its query includes; `arabic` is the language of the request.
use propmatch_backend.Prelude.{
  ℕ, Option, none, some, List, [], ◌∷◌, Bool, true, false, ◌==◌, if◌then◌else◌, find?, filter_where,
  sort_asc,
}
use propmatch_backend.Text.{Text}
use propmatch_backend.Store.{
  User, Property, PropertyStatus, PropertyType, PropertyImage, Governorate, City,
  IdentityVerification, VerificationStatus, Db,
}

-- `PropertySummaryResponse`
pub record PropertySummary : Type 0 where
  pub id : ℕ
  pub title : Text
  pub governorate : Text
  pub city : Text
  pub district : Text
  pub property_type : PropertyType
  pub rent_amount : ℕ
  pub area_m2 : ℕ
  pub bedrooms : ℕ
  pub bathrooms : ℕ
  pub is_furnished : Bool
  pub is_boosted : Bool
  pub status : PropertyStatus
  pub cover_image : Option ℕ
  pub owner_verified : Bool

-- `extractCoverImage`: the cover, or the first picture.
abbrev pub cover_or_first : Option PropertyImage → List PropertyImage → Option ℕ
cover_or_first (some i) images = some i.image_url
cover_or_first none [] = none
cover_or_first none (i ∷ images) = some i.image_url

abbrev pub extract_cover_image : List PropertyImage → Option ℕ
extract_cover_image images = cover_or_first (find? (λ i. i.is_cover) images) images

-- `isOwnerVerified`
abbrev pub is_approved_verification : VerificationStatus → Bool
is_approved_verification VerificationStatus.approved = true
is_approved_verification _ = false

abbrev pub is_owner_verified : Option IdentityVerification → Bool
is_owner_verified none = false
is_owner_verified (some v) = is_approved_verification v.status

-- The pictures of a property, in their order.
abbrev pub images_of : ℕ → Db → List PropertyImage
images_of property db =
    sort_asc (λ i. i.display_order)
      (filter_where (λ i. i.property_id == property) db.property_images)

abbrev pub governorate_name : Bool → Option Governorate → Text
governorate_name arabic none = []
governorate_name arabic (some g) = if arabic then g.name_ar else g.name_en

abbrev pub city_name : Bool → Option City → Text
city_name arabic none = []
city_name arabic (some c) = if arabic then c.name_ar else c.name_en

-- `transformPropertyToSummary`
unfoldable pub to_summary :
    Bool → Option Governorate → Option City → Db → Property → PropertySummary
to_summary arabic governorate city db p = record {
  id = p.id;
  title = p.title;
  governorate = governorate_name arabic governorate;
  city = city_name arabic city;
  district = p.district;
  property_type = p.property_type;
  rent_amount = p.rent_amount;
  area_m2 = p.area_m2;
  bedrooms = p.bedrooms;
  bathrooms = p.bathrooms;
  is_furnished = p.is_furnished;
  is_boosted = p.is_boosted;
  status = p.status;
  cover_image = extract_cover_image (images_of p.id db);
  owner_verified = is_owner_verified (find? (λ v. v.user_id == p.owner_id) db.verifications);
}

-- `PropertyDetailResponse`
pub record PropertyDetail : Type 0 where
  pub summary : PropertySummary
  pub description : Text
  pub property_around_services : Option Text
  pub has_elevator : Bool
  pub has_parking : Bool
  pub owner_id : ℕ
  pub images : List PropertyImage
  pub contact_revealed : Bool
  pub manual_address : Option Text
  pub owner_phone_number : Option Text
  pub owner_name : Option Text
  pub rejection_reason : Option Text
  pub approved_at : Option ℕ
  pub created_at : ℕ

-- A column of the owner, where contact is revealed.
abbrev pub if_revealed : Bool → (User → Text) → Option User → Option Text
if_revealed false column owner = none
if_revealed true column none = none
if_revealed true column (some u) = some (column u)

-- `transformPropertyToDetail`, with all that `DETAIL_INCLUDE` asks for.
unfoldable pub to_detail : Bool → Bool → Db → Property → PropertyDetail
unfolding to_summary
to_detail arabic revealed db p =
    let owner = find? (λ u. u.id == p.owner_id) db.users in
    let governorate = find? (λ g. g.id == p.governorate_id) db.governorates in
    let city = find? (λ c. c.id == p.city_id) db.cities in
    record {
      summary = to_summary arabic governorate city db p;
      description = p.description;
      property_around_services = p.property_around_services;
      has_elevator = p.has_elevator;
      has_parking = p.has_parking;
      owner_id = p.owner_id;
      images = images_of p.id db;
      contact_revealed = revealed;
      manual_address = if revealed then some p.manual_address else none;
      owner_phone_number = if_revealed revealed (λ u. u.phone_number) owner;
      owner_name = if_revealed revealed (λ u. u.full_name) owner;
      rejection_reason = p.rejection_reason;
      approved_at = p.approved_at;
      created_at = p.created_at;
    }
