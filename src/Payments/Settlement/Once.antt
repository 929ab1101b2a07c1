-- ===== src/Payments/Settlement/Once.antt =====
-- An order is settled once.
use propmatch_backend.Prelude.{
  ℕ, ◌*◌, ◌≡◌, ◌≢◌, ◌⊎◌, refl, Option, none, some, inl, inr, List, [], ◌∷◌, Bool, true, false,
  Option-cases, arith, find?, update_where,
}
use propmatch_backend.Text.{Text, trim, to_upper_case, text_eq}
use propmatch_backend.Store.{
  PaymentType, PaymentStatus, PaymentTransaction, Db, Error, Result, ok, err,
}
use propmatch_backend.Config.{parse_snapshot}
use propmatch_backend.Payments.Delivery.{catalog_payment_type, snapshot_or_current}
use propmatch_backend.Payments.Delivery.Frame.{deliver-transactions}
use propmatch_backend.Payments.Settlement.{
  Cents, cents, other, is_pending, has_order, find_transaction, is_open_order, is_mismatch,
  fail_with, succeed_with, close_order, deliver_claimed, claim, settle, process_order,
}

-- The order is unknown, or it is not open.
abbrev pub IsClosed : Option PaymentTransaction → Type 0
IsClosed none = Unit
IsClosed (some t) = is_pending t.status ≡ false

find-IsClosed :
    (order : ℕ) (f : PaymentTransaction → PaymentTransaction) (ts : List PaymentTransaction)
    → ((t : PaymentTransaction) → (f t).provider_order_id ≡ t.provider_order_id)
    → ((t : PaymentTransaction) → is_pending (f t).status ≡ false)
    → IsClosed (find? (has_order order) (update_where (is_open_order order) f ts))
find-IsClosed order f [] keep shut = tt
find-IsClosed order f (t ∷ ts) keep shut =
    ground (arith, keep t, shut t, find-IsClosed order f ts keep shut)

deliver_claimed-transactions :
    (paid_at user : ℕ) (bought : PaymentType) (t : PaymentTransaction) (db : Db)
    → (deliver_claimed paid_at user bought t db).1.transactions ≡ db.transactions
unfolding deliver_claimed
deliver_claimed-transactions paid_at user bought t db =
    elim (Option-cases (catalog_payment_type bought)) [
      | inl legacy ↦ ground arith
      | inr (entry, e) ↦ ground (
        arith,
        deliver-transactions paid_at user bought t
            (snapshot_or_current (parse_snapshot t.catalog_snapshot) entry db) db,
      )
    ]

module _ (paid_at user : ℕ) (bought : PaymentType) (provider_id order : ℕ) where
  succeeded : Db → Db
  succeeded db = record db {
    transactions =
        update_where (is_open_order order) (succeed_with provider_id paid_at) db.transactions;
  }

  claim-transactions :
      (t : PaymentTransaction) (db : Db)
      → (claim paid_at user bought provider_id order t db).1.transactions
        ≡ update_where (is_open_order order) (succeed_with provider_id paid_at) db.transactions
  unfolding claim succeeded
  claim-transactions t db =
      ground (arith, deliver_claimed-transactions paid_at user bought t (succeeded db))

  claim-IsClosed :
      (t : PaymentTransaction) (db : Db)
      → IsClosed (find_transaction order (claim paid_at user bought provider_id order t db).1)
  claim-IsClosed t db = rw (claim-transactions t db) (
      find-IsClosed order (succeed_with provider_id paid_at) db.transactions (λ x. refl)
        (λ x. refl))

  -- Whatever comes of the attempt, the order is not open when it ends.
  settle-IsClosed :
      (paid : Option Cents) (currency : Option Text) (db : Db)
      → IsClosed
          (find_transaction order (settle paid_at user bought provider_id order paid currency db).1)
  unfolding settle close_order
  settle-IsClosed paid currency db = elim (Option-cases (find_transaction order db)) [
    | inl unknown ↦ ground arith
    | inr (t, found) ↦ ground (
      arith,
      claim-IsClosed t db,
      find-IsClosed order (fail_with provider_id) db.transactions (λ x. refl) (λ x. refl),
    )
  ]

  process_order-IsClosed :
      (paid : Option Cents) (currency : Option Text) (db db' : Db)
      → process_order paid_at user bought provider_id order paid currency db ≡ (ok tt, db')
      → IsClosed (find_transaction order db')
  unfolding process_order
  process_order-IsClosed paid currency db db' h = ground (arith, settle-IsClosed paid currency db)

  -- An order that is unknown or closed is left alone, and nothing is delivered or pushed.
  pub process_closed :
      (paid : Option Cents) (currency : Option Text) (db : Db)
      → IsClosed (find_transaction order db)
      → process_order paid_at user bought provider_id order paid currency db ≡ (ok tt, db)
  unfolding process_order settle
  process_closed paid currency db closed = elim (Option-cases (find_transaction order db)) [
    | inl unknown ↦ ground arith
    | inr (t, found) ↦ ground arith
  ]

-- An order is settled at most once: after a settlement that did not throw, any later settlement of
-- the same order, at any time and with any claim of a payer, a product, an amount or a currency,
-- changes nothing at all.
pub process_order_once :
    (now later user user' : ℕ) (bought bought' : PaymentType) (provider_id provider_id' order : ℕ)
    (paid paid' : Option Cents) (currency currency' : Option Text) (db db' : Db)
    → process_order now user bought provider_id order paid currency db ≡ (ok tt, db')
    → process_order later user' bought' provider_id' order paid' currency' db' ≡ (ok tt, db')
process_order_once now later user user' bought bought' provider_id provider_id' order paid paid'
      currency currency' db db' h =
    process_closed later user' bought' provider_id' order paid' currency' db'
      (process_order-IsClosed now user bought provider_id order paid currency db db' h)

-- A settlement that throws leaves the database as it was: the order stays open.
pub process_order_failed :
    (now user : ℕ) (bought : PaymentType) (provider_id order : ℕ) (paid : Option Cents)
    (currency : Option Text) (db db' : Db) (e : Error)
    → process_order now user bought provider_id order paid currency db ≡ (err e, db')
    → db' ≡ db
unfolding process_order
process_order_failed now user bought provider_id order paid currency db db' e h =
    go (settle now user bought provider_id order paid currency db) refl
  where
    go :
        (r : Result Bool × Db)
        → settle now user bought provider_id order paid currency db ≡ r
        → db' ≡ db
    go (ok b, d) s = ground arith
    go (err x, d) s = ground arith

-- A callback says what was paid, and not just what the order asks for: it gives another amount, or an
-- amount that is no whole number, or another currency, or one of the two alone.
abbrev pub IsOtherPayment : Option Cents → Option Text → PaymentTransaction → Type 0
IsOtherPayment none none t = ⊥
IsOtherPayment none (some c) t = Unit
IsOtherPayment (some p) none t = Unit
IsOtherPayment (some other) (some c) t = Unit
IsOtherPayment (some (cents n)) (some c) t =
    (n ≢ t.amount * 100) ⊎ (text_eq (to_upper_case (trim c)) t.currency ≡ false)

IsOtherPayment-is_mismatch :
    (paid : Option Cents) (currency : Option Text) (t : PaymentTransaction)
    → IsOtherPayment paid currency t
    → is_mismatch paid currency t ≡ true
unfolding is_mismatch
IsOtherPayment-is_mismatch none none t h = elim h [ ]
IsOtherPayment-is_mismatch none (some c) t h = ground arith
IsOtherPayment-is_mismatch (some other) none t h = ground arith
IsOtherPayment-is_mismatch (some (cents n)) none t h = ground arith
IsOtherPayment-is_mismatch (some other) (some c) t h = ground arith
IsOtherPayment-is_mismatch (some (cents n)) (some c) t (inl h) = ground (arith, h)
IsOtherPayment-is_mismatch (some (cents n)) (some c) t (inr h) = ground (arith, h)

-- A payment of another amount or in another currency than the open order's, or one that states only
-- one of the two, fails the order, delivers nothing and tells nobody that it was paid.
pub process_order_mismatch :
    (now user : ℕ) (bought : PaymentType) (provider_id order : ℕ) (paid : Option Cents)
    (currency : Option Text) (db : Db) (t : PaymentTransaction)
    → find_transaction order db ≡ some t
    → t.status ≡ PaymentStatus.pending
    → IsOtherPayment paid currency t
    → process_order now user bought provider_id order paid currency db ≡ (
      ok tt,
      record db {
        transactions = update_where (is_open_order order) (fail_with provider_id) db.transactions;
      },
    )
unfolding process_order settle close_order
process_order_mismatch now user bought provider_id order paid currency db t found open_now bad =
    let differs = IsOtherPayment-is_mismatch paid currency t bad in
    let waits : is_pending t.status ≡ true = rw open_now refl in ground arith
