-- ===== src/Payments/Delivery/Frame.antt =====
-- What a delivery leaves alone.
use propmatch_backend.Prelude.{ℕ, ◌≡◌, Option, arith}
use propmatch_backend.Catalog.{Plan, Billing, PlanAllowances}
use propmatch_backend.Store.{
  UserQuota, PaymentType, PaymentTransaction, CatalogSnapshot, ResolvedProduct, Db,
}
use propmatch_backend.Payments.Delivery.{
  subscribe, deliver_subscription, deliver_entitlement, deliver_boost, deliver,
}

subscribe-transactions :
    (paid_at user : ℕ) (target : Plan) (billing : Billing) (a : PlanAllowances)
    (current : Option UserQuota) (db : Db)
    → (subscribe paid_at user target billing a current db).transactions ≡ db.transactions
unfolding subscribe
subscribe-transactions paid_at user target billing a current db = ground arith

deliver_subscription-transactions :
    (paid_at user : ℕ) (s : CatalogSnapshot) (db : Db)
    → (deliver_subscription paid_at user s db).1.transactions ≡ db.transactions
unfolding deliver_subscription
deliver_subscription-transactions paid_at user s db = ground arith

deliver_entitlement-transactions :
    (paid_at user : ℕ) (bought : PaymentType) (t : PaymentTransaction) (product : ResolvedProduct)
    (db : Db)
    → (deliver_entitlement paid_at user bought t product db).1.transactions ≡ db.transactions
unfolding deliver_entitlement
deliver_entitlement-transactions paid_at user bought t product db = ground arith

deliver_boost-transactions :
    (paid_at user : ℕ) (t : PaymentTransaction) (product : ResolvedProduct) (db : Db)
    → (deliver_boost paid_at user t product db).1.transactions ≡ db.transactions
unfolding deliver_boost
deliver_boost-transactions paid_at user t product db = ground arith

-- No delivery touches a payment transaction.
pub deliver-transactions :
    (paid_at user : ℕ) (bought : PaymentType) (t : PaymentTransaction) (s : CatalogSnapshot)
    (db : Db)
    → (deliver paid_at user bought t s db).1.transactions ≡ db.transactions
unfolding deliver
deliver-transactions paid_at user bought t s db = ground (
  arith,
  deliver_subscription-transactions paid_at user s db,
  deliver_entitlement-transactions paid_at user bought t s.product db,
  deliver_boost-transactions paid_at user t s.product db,
)
