-- ===== src/Properties/Capacity.antt =====
-- The limit on active listings: `create` respects it, `unarchive` does not.
use propmatch_backend.Prelude.{
  ℕ, ◌+◌, ◌≤◌, ◌≡◌, ◌∙◌, sym, ap, some, List, [], ◌∷◌, ◌++◌, Bool, true, false, leb, find?,
  find?-fits, update_where, count_where, count_where-append_new, if◌then◌else◌,
  count_where-update_more, arith,
}
use propmatch_backend.Store.{
  Property, Governorate, City, property_code, Db, ok, bind-steps, transaction-ok, Action, pure,
  throw_if, ◌>>=◌, ◌>>◌,
}
use propmatch_backend.Quota.Capacity.{Capacity, is_active_unit, get_listing_capacity}
use propmatch_backend.Properties.{
  PropertyFields, Region, any_city, require_region, limit_reached, insert_property, check_new,
  insert_checked, create_property, has_property_id, is_own_property, restore, unarchive,
}

require_region_quiet :
    (fits : Governorate → City → Bool) (f : PropertyFields) (db : Db)
    → (require_region fits f db).1 ≡ db
unfolding require_region
require_region_quiet fits f db = ground arith

-- A new listing under a limit.
pub record IsWithin (now owner limit : ℕ) (p : Property) (before : List Property) (db' : Db)
    : Type 0 where
  pub added : db'.properties ≡ before ++ p ∷ []
  pub unpublished : property_code p.status ≡ 0
  pub owned : p.owner_id ≡ owner
  pub bounded : count_where (is_active_unit owner) db'.properties ≤ limit

insert_property-added :
    (now owner limit : ℕ) (r : Region) (f : PropertyFields) (images : List ℕ) (db db' : Db)
    (p : Property)
    → insert_property now owner limit r f images db ≡ (ok p, db')
    → (leb limit (count_where (is_active_unit owner) db.properties) ≡ false)
      × (db'.properties ≡ db.properties ++ p ∷ [])
      × (property_code p.status ≡ 0)
      × (p.owner_id ≡ owner)
unfolding insert_property
insert_property-added now owner limit r f images db db' p h =
    (ground arith, ground arith, ground arith, ground arith)

one_more :
    (count limit : ℕ) (b : Bool) → leb limit count ≡ false → count + (if b then 1 else 0) ≤ limit
one_more count limit true free = ground arith
one_more count limit false free = ground arith

insert_property-IsWithin :
    (now owner limit : ℕ) (r : Region) (f : PropertyFields) (images : List ℕ) (db db' : Db)
    (p : Property)
    → insert_property now owner limit r f images db ≡ (ok p, db')
    → IsWithin now owner limit p db.properties db'
insert_property-IsWithin now owner limit r f images db db' p h =
    let (free, added, unpublished, owned) =
      insert_property-added now owner limit r f images db db' p h in
    record {
      added = added;
      unpublished = unpublished;
      owned = owned;
      bounded =
          rw (added, count_where-append_new (is_active_unit owner) db.properties p)
            (one_more (count_where (is_active_unit owner) db.properties) limit
              (is_active_unit owner p) free);
    }

-- What follows the capacity in the tests.
abbrev region_after : ℕ → PropertyFields → Capacity → Action (ℕ × Region)
region_after owner f c =
    throw_if (leb c.active_unit_limit c.active_unit_count)
      (limit_reached c.active_unit_count c.active_unit_limit)
    >> (require_region any_city f >>= (λ r. pure (c.active_unit_limit, r)))

region_after_lem :
    (owner : ℕ) (f : PropertyFields) (c : Capacity) (db d : Db) (limit : ℕ) (r : Region)
    → region_after owner f c db ≡ (ok (limit, r), d)
    → (limit ≡ c.active_unit_limit) × (d ≡ db)
unfolding require_region
region_after_lem owner f c db d limit r h = (ground arith, ground arith)

check_new_lem :
    (now owner : ℕ) (f : PropertyFields) (db d : Db) (limit : ℕ) (r : Region)
    → check_new now owner f db ≡ (ok (limit, r), d)
    → (c : Capacity) × (get_listing_capacity now owner db ≡ (ok c, d))
      × (limit ≡ c.active_unit_limit)
unfolding check_new
check_new_lem now owner f db d limit r h =
    let (c, mid, counted, rest) =
      bind-steps (get_listing_capacity now owner) (region_after owner f) db d (limit, r) h in
    let (same, kept) = region_after_lem owner f c mid d limit r rest in
    (c, counted ∙ ap (λ m. (ok c, m)) (sym kept), same)

-- A listing that is created is pending and its owner's, is the one row that is added, and leaves its
-- owner with at most as many active listings as the capacity that was read allows, whatever other
-- requests commit between that reading and the transaction.
pub create_property-IsWithin :
    (others : Db → Db) (now owner : ℕ) (f : PropertyFields) (images : List ℕ) (db db' : Db)
    (p : Property)
    → create_property others now owner f images db ≡ (ok p, db')
    → (c : Capacity) × (mid : Db) × (get_listing_capacity now owner db ≡ (ok c, mid))
      × IsWithin now owner c.active_unit_limit p (others mid).properties db'
unfolding create_property
create_property-IsWithin others now owner f images db db' p h =
    let ((limit, r), mid, checked, rest) =
      bind-steps (check_new now owner f) (insert_checked others now owner f images) db db' p h in
    let (c, counted, same) = check_new_lem now owner f db mid limit r checked in
    let ran = transaction-ok (insert_property now owner limit r f images) (others mid) db' p rest in
    (
      c,
      mid,
      counted,
      insert_property-IsWithin now owner c.active_unit_limit r f images (others mid) db' p
          (ap (λ n. insert_property now owner n r f images (others mid)) (sym same) ∙ ran),
    )

restore-keeps :
    (owner : ℕ) (y : Property)
    → is_active_unit owner y ≡ true
    → is_active_unit owner (restore y) ≡ true
restore-keeps owner y active = ground arith

unarchive-properties :
    (owner id : ℕ) (db : Db) (p : Property)
    → find? (is_own_property owner id) db.properties ≡ some p
    → (d : Db) × (unarchive owner id db ≡ (ok tt, d))
      × (d.properties ≡ update_where (has_property_id id) restore db.properties)
unfolding unarchive
unarchive-properties owner id db p found = ((unarchive owner id db).1, ground arith, ground arith)

own_property :
    (owner id : ℕ) (p : Property)
    → is_own_property owner id p ≡ true
    → (has_property_id id p ≡ true) × (is_active_unit owner (restore p) ≡ true)
own_property owner id p own = (ground arith, ground arith)

archived_inactive :
    (owner : ℕ) (p : Property) → property_code p.status ≡ 3 → is_active_unit owner p ≡ false
archived_inactive owner p archived = ground arith

-- Taking an archived listing of one's own back is never refused, and gives its owner one active
-- listing more at least, whatever the capacity: it is not read.
pub unarchive_uncapped :
    (owner id : ℕ) (db : Db) (p : Property)
    → find? (is_own_property owner id) db.properties ≡ some p
    → property_code p.status ≡ 3
    → (d : Db) × (unarchive owner id db ≡ (ok tt, d))
      × (count_where (is_active_unit owner) db.properties + 1
          ≤ count_where (is_active_unit owner) d.properties)
unarchive_uncapped owner id db p found archived =
    let (d, ran, rows) = unarchive-properties owner id db p found in
    let own = find?-fits (is_own_property owner id) db.properties p found in
    let (named, active) = own_property owner id p own in
    (
      d,
      ran,
      rw rows (
          count_where-update_more (is_active_unit owner) (has_property_id id)
            (is_own_property owner id) restore db.properties p (restore-keeps owner) found named
            (archived_inactive owner p archived) active),
    )
