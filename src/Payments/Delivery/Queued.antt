-- ===== src/Payments/Delivery/Queued.antt =====
-- A bought boost is queued behind the live campaigns of its property.
use propmatch_backend.Prelude.{
  ℕ, ◌≡◌, refl, some, inl, inr, ◌==◌, Bool-cases, Option-cases, arith, count_where,
}
use propmatch_backend.Store.{PaymentTransaction, ResolvedProduct, Db, ok}
use propmatch_backend.Calendar.{add_days}
use propmatch_backend.Campaigns.{latest_end, status_at}
use propmatch_backend.Campaigns.Queue.{IsQueue, snoc-IsQueue}
use propmatch_backend.Payments.Delivery.{is_own, queue_boost, deliver_boost}

queue_boost-IsQueue :
    (paid_at user property days : ℕ) (t : PaymentTransaction) (db db' : Db)
    → IsQueue paid_at property db.campaigns
    → queue_boost paid_at user t property days db ≡ (ok tt, db')
    → IsQueue paid_at property db'.campaigns
unfolding queue_boost
queue_boost-IsQueue paid_at user property days t db db' h e =
    let starts = latest_end paid_at property db.campaigns in
    let queued =
      snoc-IsQueue paid_at property db.campaigns
        (record {
          id = db.next_id;
          property_id = property;
          user_id = user;
          payment_transaction_id = some t.id;
          duration_days = days;
          starts_at = starts;
          ends_at = add_days starts days;
          status = status_at paid_at starts;
        })
        refl h in
    elim (Bool-cases (count_where (is_own user property) db.properties == 1)) [
      | inl owned ↦ ground arith
      | inr foreign ↦ absurd (ground arith)
    ]

-- The delivery of a bought boost keeps the live campaigns of its property free of overlaps.
pub deliver_boost-IsQueue :
    (paid_at user property : ℕ) (t : PaymentTransaction) (product : ResolvedProduct) (db db' : Db)
    → t.target_property_id ≡ some property
    → IsQueue paid_at property db.campaigns
    → deliver_boost paid_at user t product db ≡ (ok tt, db')
    → IsQueue paid_at property db'.campaigns
unfolding deliver_boost
deliver_boost-IsQueue paid_at user property t product db db' target h e =
    elim (Option-cases product.duration_days) [
      | inl endless ↦ absurd (ground arith)
      | inr (days, lasts) ↦ queue_boost-IsQueue paid_at user property days t db db' h (ground arith)
    ]
