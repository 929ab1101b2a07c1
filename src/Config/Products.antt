-- ===== src/Config/Products.antt =====
-- What an administrator's change of a product does, and what it cannot do.
use mathlib.Core.Option
use propmatch_backend.Prelude.{
  ℕ, ◌≡◌, none, some, inl, inr, ◌==◌, ==-refl, if◌then◌else◌, Option-cases, arith, find?-append_new,
  find?-update_where,
}
use propmatch_backend.Catalog.{BillablePaymentType, pricing_catalog, payment_code}
use propmatch_backend.Store.{ResolvedProduct, Db, ok, err, Error}
use propmatch_backend.Config.{
  is_entitlement, is_boost, ProductDto, find_product, get_product, default_product, resolve,
  product_row, save_product, update_product,
}

-- What a product is (its type, kind, billing, plan and entitlement) is what the catalogue says,
-- whatever an administrator has saved.
pub get_product-meaning :
    (t : BillablePaymentType) (db : Db)
    → let product = get_product t db in
      let listed = pricing_catalog t in
      (product.payment_type ≡ t)
      × (product.kind ≡ listed.kind)
      × (product.billing ≡ listed.billing)
      × (product.plan_type ≡ listed.plan_type)
      × (product.entitlement_type ≡ listed.entitlement_type)
unfolding get_product
get_product-meaning t db = ground arith

-- After a save the product is the saved row laid over the defaults.
get_product-save_product :
    (actor : ℕ) (t : BillablePaymentType) (dto : ProductDto) (db : Db)
    → (id : ℕ) × (get_product t (save_product actor t dto db)
        ≡ resolve (default_product t) (some (product_row id actor t dto)))
unfolding get_product save_product product_row
get_product-save_product actor t dto db =
    elim (Option-cases (find_product t db.product_configurations)) [
      | inl new ↦ (
        db.next_id,
        rw (new, save_product)
            (rw (
              find?-append_new (λ row. payment_code row.payment_type == payment_code t)
                db.product_configurations (product_row db.next_id actor t dto) new
                (==-refl (payment_code t)))),
      )
      | inr (old, e) ↦ (
        old.id,
        rw (e, save_product)
            (rw (
              find?-update_where (λ row. payment_code row.payment_type == payment_code t)
                  (λ row. product_row row.id actor t dto) db.product_configurations
                  (λ x h. ==-refl (payment_code t)),
              e,
            )),
      )
    ]

-- A change of a product that is accepted is what every later reader of the product gets, with the
-- new price and state, the new quantity and validity for an add-on, and the new duration for a boost.
pub get_product-update_product :
    (actor : ℕ) (t : BillablePaymentType) (dto : ProductDto) (db db' : Db)
    (product : ResolvedProduct)
    → update_product actor (some t) dto db ≡ (ok product, db')
    → (get_product t db' ≡ product)
      × (product.price_egp ≡ dto.price_egp)
      × (product.enabled ≡ dto.enabled)
      × (product.quantity
          ≡ (if is_entitlement (pricing_catalog t).kind then dto.quantity else none))
      × (product.validity_days
          ≡ (if is_entitlement (pricing_catalog t).kind then dto.validity_days else none))
      × (product.duration_days
          ≡ (if is_boost (pricing_catalog t).kind then dto.duration_days else none))
unfolding update_product resolve product_row default_product
get_product-update_product actor t dto db db' product h =
    let (id, e) = get_product-save_product actor t dto db in ground (arith, e)

-- A change that is refused writes nothing.
pub update_product_refused :
    (actor : ℕ) (value : Option.Option BillablePaymentType) (dto : ProductDto) (db db' : Db)
    (e : Error)
    → update_product actor value dto db ≡ (err e, db')
    → db' ≡ db
unfolding update_product
update_product_refused actor value dto db db' e h = ground arith
