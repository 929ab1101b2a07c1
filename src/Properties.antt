-- ===== src/Properties.antt =====
-- src/properties/properties.service.ts: the listings of an owner and their way through moderation,
-- under the capacity that Quota/Capacity gives. Search is left out.
pub mod Editing
pub mod Capacity
pub mod Viewing
pub mod Contact
use propmatch_backend.Prelude.{
  map, ℕ, ◌+◌, Option, none, some, List, [], ◌∷◌, ◌++◌, Bool, true, false, not, ◌&&◌, ◌||◌, ltb,
  leb, ◌==◌, if◌then◌else◌, is_some, find?, update_where, count_where, filter_where, length,
}
use propmatch_backend.Text.{Text, to_lower_case, text_eq}
use propmatch_backend.Catalog.{extra_listing_60d, pricing_catalog}
use propmatch_backend.Store.{
  User, Property, PropertyStatus, PropertyType, PropertyImage, Governorate, City, property_code,
  Effect, property_submitted, property_edited, Db, Error, Action, pure, gets, or_throw, throw_if,
  modify, transaction, when, ◌>>=◌, ◌>>◌, not_found, forbidden, plan_limit_reached,
}
use propmatch_backend.Summaries.{PropertySummary, PropertyDetail, to_summary, to_detail}
use propmatch_backend.Messages.Chat.{emit}
use propmatch_backend.Quota.Capacity.{is_active_unit, get_listing_capacity}
use propmatch_backend.Quota.Boosts.{activate_plan_boost}

-- `PropertyFieldsDto`
pub record PropertyFields : Type 0 where
  pub title : Text
  pub description : Text
  pub governorate : Text
  pub city : Text
  pub district : Text
  pub manual_address : Text
  pub property_type : PropertyType
  pub property_around_services : Option Text
  pub rent_amount : ℕ
  pub area_m2 : ℕ
  pub bedrooms : ℕ
  pub bathrooms : ℕ
  pub is_furnished : Bool
  pub has_elevator : Bool
  pub has_parking : Bool

pub record Region : Type 0 where
  pub governorate : Governorate
  pub city : City

-- `{ equals, mode: 'insensitive' }` on either name.
unfoldable pub is_named : Text → Text → Text → Bool
unfolding to_lower_case
is_named name english arabic =
    text_eq (to_lower_case english) (to_lower_case name)
    || text_eq (to_lower_case arabic) (to_lower_case name)

-- The region of a listing; `fits` is what else the two rows must satisfy.
unfoldable pub require_region : (Governorate → City → Bool) → PropertyFields → Action Region
unfolding is_named
require_region fits f = do
  found ← gets (λ db. find? (λ g. is_named f.governorate g.name_en g.name_ar) db.governorates)
  found_city ← gets (λ db. find? (λ c. is_named f.city c.name_en c.name_ar) db.cities)
  governorate ← or_throw found (forbidden "Selected region is not supported.")
  city ← or_throw found_city (forbidden "Selected region is not supported.")
  throw_if (not (fits governorate city)) (forbidden "Selected region is not supported.")
  throw_if (not (governorate.status && city.status)) (forbidden "Selected region is disabled.")
  pure (record { governorate = governorate; city = city })

-- `create` takes any city.
abbrev pub any_city : Governorate → City → Bool
any_city g c = true

-- The refusal of a listing over the limit.
abbrev pub limit_reached : ℕ → ℕ → Error
limit_reached count limit =
    plan_limit_reached (pricing_catalog extra_listing_60d).price_egp count limit

abbrev pub new_property : ℕ → ℕ → ℕ → Region → PropertyFields → Property
new_property id now owner r f = record {
  id = id;
  owner_id = owner;
  status = PropertyStatus.pending;
  is_boosted = false;
  boosted_until = none;
  created_at = now;
  district = f.district;
  manual_address = f.manual_address;
  rent_amount = f.rent_amount;
  title = f.title;
  description = f.description;
  property_type = f.property_type;
  property_around_services = f.property_around_services;
  bedrooms = f.bedrooms;
  is_furnished = f.is_furnished;
  country_id = r.governorate.country_id;
  governorate_id = r.governorate.id;
  city_id = r.city.id;
  area_m2 = f.area_m2;
  bathrooms = f.bathrooms;
  has_elevator = f.has_elevator;
  has_parking = f.has_parking;
  approved_at = none;
  approved_by = none;
  rejection_reason = none;
}

-- The rows of the pictures of a listing, from a place on; the one in place 0 is the cover.
abbrev pub image_rows : ℕ → ℕ → ℕ → List ℕ → List PropertyImage
image_rows id property order [] = []
image_rows id property order (url ∷ urls) =
    record {
      id = id;
      property_id = property;
      image_url = url;
      display_order = order;
      is_cover = order == 0;
    }
    ∷ image_rows (id + 1) property (order + 1) urls

-- The transaction of `create`, which counts again.
unfoldable pub insert_property : ℕ → ℕ → ℕ → Region → PropertyFields → List ℕ → Action Property
insert_property now owner limit r f images = do
  count ← gets (λ db. count_where (is_active_unit owner) db.properties)
  throw_if (leb limit count) (limit_reached count limit)
  id ← gets (λ db. db.next_id)
  let property = new_property id now owner r f
  modify (λ db. record db {
    properties = db.properties ++ property ∷ [];
    property_images = db.property_images ++ image_rows (id + 1) id 0 images;
    next_id = id + 1 + length images;
  })
  emit (property_submitted id)
  pure property

-- What `create` tests before its transaction: the limit, and the region.
unfoldable pub check_new : ℕ → ℕ → PropertyFields → Action (ℕ × Region)
unfolding get_listing_capacity require_region
check_new now owner f = do
  capacity ← get_listing_capacity now owner
  let limit = capacity.active_unit_limit
  throw_if (leb limit capacity.active_unit_count) (limit_reached capacity.active_unit_count limit)
  region ← require_region any_city f
  pure (limit, region)

-- What follows the tests; `others` is what other requests commit before the transaction.
abbrev pub insert_checked :
    (Db → Db) → ℕ → ℕ → PropertyFields → List ℕ → ℕ × Region → Action Property
insert_checked others now owner f images (limit, region) db =
    transaction (insert_property now owner limit region f images) (others db)

-- `create`
unfoldable pub create_property : (Db → Db) → ℕ → ℕ → PropertyFields → List ℕ → Action Property
unfolding check_new insert_property
create_property others now owner f images = do
  checked ← check_new now owner f
  insert_checked others now owner f images checked

abbrev pub has_property_id : ℕ → Property → Bool
has_property_id id p = p.id == id

abbrev pub is_own_property : ℕ → ℕ → Property → Bool
is_own_property owner id p = p.id == id && p.owner_id == owner

-- `requireOwnedProperty`
unfoldable pub require_owned_property : ℕ → ℕ → Action Property
require_owned_property owner id = do
  found ← gets (λ db. find? (is_own_property owner id) db.properties)
  or_throw found (not_found "no such property, or not yours")

-- `property.update({ where: { id } })`
abbrev pub update_property : ℕ → (Property → Property) → Action (Unit {0})
update_property id f =
    modify (λ db. record db { properties = update_where (has_property_id id) f db.properties })

-- `boost`
unfoldable pub boost : ℕ → ℕ → ℕ → Action (ℕ × ℕ)
unfolding require_owned_property activate_plan_boost
boost now owner id = do require_owned_property owner id; activate_plan_boost now owner id

-- `archive`
unfoldable pub archive : ℕ → ℕ → Action (Unit {0})
unfolding require_owned_property
archive owner id = do
  require_owned_property owner id
  update_property id (λ p. record p { status = PropertyStatus.archived })

abbrev pub restore : Property → Property
restore p = record p {
  status = PropertyStatus.pending;
  is_boosted = false;
  boosted_until = none;
  approved_by = none;
}

-- An edit of a listing that was approved once, or a new one.
abbrev pub announce_property : Property → Action (Unit {0})
announce_property p =
    emit (if is_some p.approved_at then property_edited p.id else property_submitted p.id)

-- `unarchive`
unfoldable pub unarchive : ℕ → ℕ → Action (Unit {0})
unfolding require_owned_property
unarchive owner id = do
  property ← require_owned_property owner id
  update_property id restore
  announce_property property

abbrev pub retire : Property → Property
retire p = record p {
  status = PropertyStatus.archived;
  is_boosted = false;
  boosted_until = none;
  approved_by = none;
}

-- `remove`
unfoldable pub remove_property : ℕ → ℕ → Action (Unit {0})
unfolding require_owned_property
remove_property owner id = do
  property ← require_owned_property owner id
  when (not (property_code property.status == 3)) (update_property id retire)

-- A property as a card, with its region.
abbrev pub to_card : Bool → Db → Property → PropertySummary
to_card arabic db p =
    to_summary arabic (find? (λ g. g.id == p.governorate_id) db.governorates)
      (find? (λ c. c.id == p.city_id) db.cities) db p

-- `getMyProperties`: the cards and their number.
unfoldable pub get_my_properties : Bool → ℕ → Db → List PropertySummary × ℕ
unfolding to_summary
get_my_properties arabic owner db = (
  map (to_card arabic db) (filter_where (λ p. p.owner_id == owner) db.properties),
  count_where (λ p. p.owner_id == owner) db.properties,
)

-- `getPendingProperties`: every contact is revealed.
unfoldable pub get_pending_properties : Bool → Db → List PropertyDetail
unfolding to_detail
get_pending_properties arabic db =
    map (to_detail arabic true db) (filter_where (λ p. property_code p.status == 0) db.properties)
