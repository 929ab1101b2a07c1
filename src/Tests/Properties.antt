-- ===== src/Tests/Properties.antt =====
-- The listings of the small shop.
use propmatch_backend.Prelude.{
  ◌+◌, ◌≤◌, ◌≡◌, refl, some, none, [], ◌∷◌, true, false, ◌==◌, ◌⊎◌, count_where, find?,
}
use propmatch_backend.Text.{Text}
use propmatch_backend.Store.{
  UserRole, Property, PropertyStatus, PropertyType, Governorate, City, OwnerOfferStatus, Db, ok,
}
use propmatch_backend.Quota.Capacity.{Capacity, is_active_unit, get_listing_capacity}
use propmatch_backend.Properties.{
  PropertyFields, new_property, create_property, unarchive, is_own_property,
}
use propmatch_backend.Properties.Capacity.{IsWithin, create_property-IsWithin, unarchive_uncapped}
use propmatch_backend.Properties.Viewing.{Viewer, get_property_by_id}
use propmatch_backend.Properties.Contact.{IsAcceptedTenant, get_property_by_id-IsAcceptedTenant}
use propmatch_backend.TenantOffers.Market.{undisturbed}
use propmatch_backend.Tests.Offers.{demand, the_offer}
use propmatch_backend.Tests.Shop.{now, flat, shop}

abbrev cairo : Text
cairo = 99 ∷ 97 ∷ []

abbrev province : Governorate
province = record { id = 1; country_id = 1; name_ar = []; name_en = 67 ∷ 65 ∷ []; status = true }

abbrev town : City
town = record { id = 1; governorate_id = 1; name_ar = []; name_en = 67 ∷ 97 ∷ []; status = true }

abbrev vacant : Db
vacant = record shop {
  properties = record flat { status = PropertyStatus.archived } ∷ [];
  governorates = province ∷ [];
  cities = town ∷ [];
}

abbrev fields : PropertyFields
fields = record {
  title = 70 ∷ [];
  description = 71 ∷ [];
  governorate = cairo;
  city = cairo;
  district = 67 ∷ [];
  manual_address = 68 ∷ [];
  property_type = PropertyType.studio;
  property_around_services = none;
  rent_amount = 3000;
  area_m2 = 40;
  bedrooms = 1;
  bathrooms = 1;
  is_furnished = true;
  has_elevator = false;
  has_parking = false;
}

abbrev listed : Db
listed = (create_property undisturbed now 7 fields (1 ∷ 2 ∷ []) vacant).1

abbrev studio_flat : Property
studio_flat = new_property 100 now 7 (record { governorate = province; city = town }) fields

lists : create_property undisturbed now 7 fields (1 ∷ 2 ∷ []) vacant ≡ (ok studio_flat, listed)
unfolding create_property
lists = refl

create_property-IsWithin_example :
    (c : Capacity) × (mid : Db) × (get_listing_capacity now 7 vacant ≡ (ok c, mid))
    × IsWithin now 7 c.active_unit_limit studio_flat (undisturbed mid).properties listed
create_property-IsWithin_example =
    create_property-IsWithin undisturbed now 7 fields (1 ∷ 2 ∷ []) vacant listed studio_flat lists

flat-found :
    find? (is_own_property 7 11) listed.properties
    ≡ some (record flat { status = PropertyStatus.archived })
unfolding create_property
flat-found = refl

-- The studio fills the limit of the free plan, and the archived flat is taken back beside it.
unarchive_uncapped_example :
    (d : Db) × (unarchive 7 11 listed ≡ (ok tt, d))
    × (count_where (is_active_unit 7) listed.properties + 1
        ≤ count_where (is_active_unit 7) d.properties)
unarchive_uncapped_example =
    unarchive_uncapped 7 11 listed (record flat { status = PropertyStatus.archived }) flat-found
      refl

abbrev tenant : Viewer
tenant = record { user_id = 9; role = UserRole.tenant }

abbrev agreed : Db
agreed = record demand {
  owner_offers = record the_offer { status = OwnerOfferStatus.accepted } ∷ [];
}

sees : get_property_by_id 11 (some tenant) agreed ≡ (ok (flat, true), agreed)
unfolding get_property_by_id
sees = refl

get_property_by_id-IsAcceptedTenant_example :
    (v : Viewer) × (some tenant ≡ some v)
    × (((v.user_id == 7) ≡ true) ⊎ IsAcceptedTenant 11 v.user_id agreed)
get_property_by_id-IsAcceptedTenant_example =
    get_property_by_id-IsAcceptedTenant 11 (some tenant) agreed agreed flat sees
