-- ===== src/Properties/Editing.antt =====
-- src/properties/properties.service.ts: `update`.
use propmatch_backend.Prelude.{
  ℕ, ◌+◌, none, List, [], ◌∷◌, ◌++◌, Bool, false, not, ◌&&◌, ◌||◌, ltb, leb, ◌==◌, is_some, find?,
  update_where, count_where, filter_where, length,
}
use propmatch_backend.Store.{
  Property, PropertyStatus, PropertyImage, Governorate, City, property_code, Action, gets, or_throw,
  throw_if, modify, when, ◌>>=◌, ◌>>◌, not_found, forbidden, bad_request,
}
use propmatch_backend.Quota.Capacity.{is_active_unit, get_listing_capacity}
use propmatch_backend.Properties.{
  PropertyFields, Region, require_region, limit_reached, image_rows, is_own_property,
  update_property, announce_property,
}

-- `UpdatePropertyMultipartDto` with the files that were stored for it.
pub record PropertyEdit : Type 0 where
  pub fields : PropertyFields
  pub existing_image_ids : List ℕ
  pub uploaded_image_urls : List ℕ

abbrev pub is_among : ℕ → List ℕ → Bool
is_among id [] = false
is_among id (x ∷ xs) = x == id || is_among id xs

abbrev pub has_repeats : List ℕ → Bool
has_repeats [] = false
has_repeats (x ∷ xs) = is_among x xs || has_repeats xs

abbrev pub is_image_of : ℕ → PropertyImage → Bool
is_image_of property i = i.property_id == property

-- One of the identifiers is not that of a picture of the listing.
abbrev pub has_foreign : ℕ → List PropertyImage → List ℕ → Bool
has_foreign property images [] = false
has_foreign property images (id ∷ ids) =
    not (is_some (find? (λ i. is_image_of property i && i.id == id) images))
    || has_foreign property images ids

abbrev pub image_count : PropertyEdit → ℕ
image_count e = length e.existing_image_ids + length e.uploaded_image_urls

-- `update` takes a city of the governorate.
abbrev pub city_of : Governorate → City → Bool
city_of g c = c.governorate_id == g.id

-- The tests of the listing and its pictures, in their order.
unfoldable pub check_images : ℕ → PropertyEdit → Property → Action (Unit {0})
check_images id e p = do
  throw_if (property_code p.status == 3) (forbidden "an archived property cannot be changed")
  throw_if (has_repeats e.existing_image_ids) (bad_request "the list of pictures is not valid")
  foreign ← gets (λ db. has_foreign id db.property_images e.existing_image_ids)
  throw_if foreign (bad_request "a picture is not of this property")
  throw_if (ltb (image_count e) 1) (bad_request "add at least one picture")
  throw_if (ltb 10 (image_count e)) (bad_request "at most 10 pictures")

abbrev pub is_other_unit : ℕ → ℕ → Property → Bool
is_other_unit owner id p = is_active_unit owner p && not (p.id == id)

-- A listing that becomes active again must fit the limit. The capacity is read outside the
-- transaction of `update` in which the test stands, before that has written.
unfoldable pub check_reactivated : ℕ → ℕ → ℕ → Action (Unit {0})
unfolding get_listing_capacity
check_reactivated now owner id = do
  capacity ← get_listing_capacity now owner
  count ← gets (λ db. count_where (is_other_unit owner id) db.properties)
  throw_if (leb capacity.active_unit_limit count) (limit_reached count capacity.active_unit_limit)

-- The retained pictures in their new order.
abbrev pub renumber : ℕ → List ℕ → List PropertyImage → List PropertyImage
renumber order [] images = images
renumber order (id ∷ ids) images = renumber (order + 1) ids (
    update_where (λ i. i.id == id) (λ i. record i { display_order = order; is_cover = order == 0 })
      images)

abbrev pub is_kept_image : ℕ → List ℕ → PropertyImage → Bool
is_kept_image property retained i = not (is_image_of property i) || is_among i.id retained

abbrev pub rewrite : Region → PropertyFields → Property → Property
rewrite r f p = record p {
  title = f.title;
  description = f.description;
  country_id = r.governorate.country_id;
  governorate_id = r.governorate.id;
  city_id = r.city.id;
  district = f.district;
  manual_address = f.manual_address;
  property_type = f.property_type;
  property_around_services = f.property_around_services;
  rent_amount = f.rent_amount;
  area_m2 = f.area_m2;
  bedrooms = f.bedrooms;
  bathrooms = f.bathrooms;
  is_furnished = f.is_furnished;
  has_elevator = f.has_elevator;
  has_parking = f.has_parking;
  status = PropertyStatus.pending;
  approved_by = none;
}

-- The writes of `update`.
unfoldable pub write_edit : ℕ → PropertyEdit → Region → Action (Unit {0})
write_edit id e r = do
  modify (λ db. record db {
    property_images =
        renumber 0 e.existing_image_ids
          (filter_where (is_kept_image id e.existing_image_ids) db.property_images)
        ++ image_rows db.next_id id (length e.existing_image_ids) e.uploaded_image_urls;
    next_id = db.next_id + length e.uploaded_image_urls;
  })
  update_property id (rewrite r e.fields)

-- `update`
unfoldable pub update_listing : ℕ → ℕ → ℕ → PropertyEdit → Action (Unit {0})
unfolding check_images require_region check_reactivated write_edit
update_listing now owner id e = do
  found ← gets (λ db. find? (is_own_property owner id) db.properties)
  property ← or_throw found (not_found "no such property, or not yours")
  check_images id e property
  region ← require_region city_of e.fields
  when (property_code property.status == 2) (check_reactivated now owner id)
  write_edit id e region
  announce_property property
