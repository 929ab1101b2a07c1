-- ===== src/Properties/Viewing.antt =====
-- src/properties/properties.service.ts: `getPropertyById`, which shows the contact of an owner.
use propmatch_backend.Prelude.{
  ℕ, Option, none, some, Bool, false, not, ◌&&◌, ◌||◌, ◌==◌, is_some, find?,
}
use propmatch_backend.Store.{
  UserRole, Property, property_code, OwnerOffer, TenantRequest, Db, Action, pure, gets, or_throw,
  throw_if, ◌>>=◌, ◌>>◌, not_found,
}
use propmatch_backend.Offers.{offer_code}
use propmatch_backend.Accounts.{role_code}
use propmatch_backend.Properties.{has_property_id}

pub record Viewer : Type 0 where
  pub user_id : ℕ
  pub role : UserRole

abbrev pub is_viewer_owner : Option Viewer → Property → Bool
is_viewer_owner none p = false
is_viewer_owner (some v) p = v.user_id == p.owner_id

abbrev pub is_viewer_admin : Option Viewer → Bool
is_viewer_admin none = false
is_viewer_admin (some v) = role_code v.role == 2

-- `tenantRequest: { tenantId }`
abbrev pub is_request_of : ℕ → ℕ → TenantRequest → Bool
is_request_of id tenant r = r.id == id && r.tenant_id == tenant

abbrev pub is_accepted_for : ℕ → ℕ → Db → OwnerOffer → Bool
is_accepted_for property tenant db o =
    o.property_id == property
    && (offer_code o.status == 2
        && is_some (find? (is_request_of o.tenant_request_id tenant) db.requests))

abbrev pub has_accepted : ℕ → Option Viewer → Db → Bool
has_accepted property none db = false
has_accepted property (some v) db =
    is_some (find? (is_accepted_for property v.user_id db) db.owner_offers)

-- A property that is approved is shown to all, any other to its owner and the administrators.
abbrev pub is_visible : Option Viewer → Property → Bool
is_visible viewer p =
    property_code p.status == 1 || (is_viewer_owner viewer p || is_viewer_admin viewer)

-- `getPropertyById`: the row, and whether its owner's contact is shown.
unfoldable pub get_property_by_id : ℕ → Option Viewer → Action (Property × Bool)
get_property_by_id id viewer = do
  found ← gets (λ db. find? (has_property_id id) db.properties)
  property ← or_throw found (not_found "no such property")
  throw_if (not (is_visible viewer property)) (not_found "the property is not shown")
  revealed ← gets (λ db. is_viewer_owner viewer property || has_accepted id viewer db)
  pure (property, revealed)
