-- ===== src/Properties/Contact.antt =====
-- Who is shown the contact of a listing's owner.
use propmatch_backend.Prelude.{
  ℕ, ◌≡◌, refl, Option, none, some, List, Bool, true, ◌||◌, ◌==◌, is_some, find?, find?-fits, arith,
  Bool-cases, Option-cases, inl, inr, ◌⊎◌, Occurs, find?-Occurs,
}
use propmatch_backend.Store.{Property, OwnerOffer, TenantRequest, Db, ok}
use propmatch_backend.Offers.{offer_code}
use propmatch_backend.Properties.{has_property_id}
use propmatch_backend.Properties.Viewing.{
  Viewer, is_viewer_owner, is_visible, is_request_of, is_accepted_for, has_accepted,
  get_property_by_id,
}

found-Occurs :
    {A : Type 0} (q : A → Bool) (rows : List A)
    → is_some (find? q rows) ≡ true
    → (x : A) × Occurs x rows × (q x ≡ true)
found-Occurs q rows known = elim (Option-cases (find? q rows)) [
  | inl missing ↦ absurd (ground arith)
  | inr (x, found) ↦ (x, find?-Occurs q rows x found, find?-fits q rows x found)
]

-- A tenant with an accepted offer on a property.
pub record IsAcceptedTenant (property tenant : ℕ) (db : Db) : Type 0 where
  pub offer : OwnerOffer
  pub stored_offer : Occurs offer db.owner_offers
  pub about : (offer.property_id == property) ≡ true
  pub agreed : offer_code offer.status ≡ 2
  pub request : TenantRequest
  pub stored_request : Occurs request db.requests
  pub answered : (request.id == offer.tenant_request_id) ≡ true
  pub asked : (request.tenant_id == tenant) ≡ true

has_accepted-IsAcceptedTenant :
    (property : ℕ) (v : Viewer) (db : Db)
    → has_accepted property (some v) db ≡ true
    → IsAcceptedTenant property v.user_id db
has_accepted-IsAcceptedTenant property v db h =
    let (o, stored, fits) =
      found-Occurs (is_accepted_for property v.user_id db) db.owner_offers h in
    let (r, asked, mine) =
      found-Occurs (is_request_of o.tenant_request_id v.user_id) db.requests (ground arith) in
    record {
      offer = o;
      stored_offer = stored;
      about = ground arith;
      agreed = ground arith;
      request = r;
      stored_request = asked;
      answered = ground arith;
      asked = ground arith;
    }

get_property_by_id_lem :
    (id : ℕ) (viewer : Option Viewer) (db d : Db) (p : Property) (b : Bool)
    → get_property_by_id id viewer db ≡ (ok (p, b), d)
    → (b ≡ (is_viewer_owner viewer p || has_accepted id viewer db)) × (is_visible viewer p ≡ true)
unfolding get_property_by_id
get_property_by_id_lem id viewer db d p b h =
    elim (Option-cases (find? (has_property_id id) db.properties)) [
      | inl unknown ↦ absurd (ground arith)
      | inr (x, found) ↦ elim (Bool-cases (is_visible viewer x)) [
        | inl visible ↦ let same : x ≡ p = ground arith in (ground arith, ground arith)
        | inr hidden ↦ absurd (ground arith)
      ]
    ]

-- The contact of an owner is shown to nobody but the owner and a tenant who has an accepted offer on
-- that property, for a request of the tenant's own; never to a visitor who is not signed in, and not
-- even to an administrator otherwise.
pub get_property_by_id-IsAcceptedTenant :
    (id : ℕ) (viewer : Option Viewer) (db d : Db) (p : Property)
    → get_property_by_id id viewer db ≡ (ok (p, true), d)
    → (v : Viewer) × (viewer ≡ some v)
      × (((v.user_id == p.owner_id) ≡ true) ⊎ IsAcceptedTenant id v.user_id db)
get_property_by_id-IsAcceptedTenant id none db d p h =
    let (revealed, visible) = get_property_by_id_lem id none db d p true h in absurd (cc)
get_property_by_id-IsAcceptedTenant id (some v) db d p h =
    let (revealed, visible) = get_property_by_id_lem id (some v) db d p true h in
    (
      v,
      refl,
      elim (Bool-cases (v.user_id == p.owner_id)) [
        | inl own ↦ inl own
        | inr other ↦ inr (has_accepted-IsAcceptedTenant id v db (ground arith))
      ],
    )
