-- ===== src/Payments/Settlement/Claims.antt =====
-- What a callback claims about the payer and the product has no effect.
use propmatch_backend.Prelude.{
  ℕ, ◌≡◌, ◌∙◌, refl, sym, if◌then◌else◌, Bool-cases, Option, none, some, inl, inr, List, [], ◌∷◌,
  false, Option-cases, arith, find?, update_where, count_where,
}
use propmatch_backend.Store.{
  PaymentType, PaymentTransaction, Db, Action, pure, when, err, ok, bad_request,
}
use propmatch_backend.Payments.Settlement.{
  has_order, find_transaction, find_by, is_open_order, fail_with, close_order, process_order,
  process_successful_payment, fail_order, conclude, WebhookResult, handle_webhook,
}
use propmatch_backend.Payments.Settlement.Once.{process_closed}

unknown_open :
    (order : ℕ) (f : PaymentTransaction → PaymentTransaction) (ts : List PaymentTransaction)
    → find? (has_order order) ts ≡ none
    → (update_where (is_open_order order) f ts ≡ ts) × (count_where (is_open_order order) ts ≡ 0)
unknown_open order f [] h = (refl, refl)
unknown_open order f (t ∷ ts) h = ground (arith, unknown_open order f ts)

unknown_fail :
    (r : WebhookResult) (order : ℕ) (db : Db)
    → find_transaction order db ≡ none
    → fail_order r none (some order) db ≡ (ok tt, db)
unfolding close_order
unknown_fail r order db h =
    ground (arith, unknown_open order (fail_with r.transaction_id) db.transactions h)

unknown_process :
    (now user : ℕ) (bought : PaymentType) (r : WebhookResult) (order : ℕ) (db : Db)
    → find_transaction order db ≡ none
    → process_order now user bought r.transaction_id order r.amount_cents r.currency db
      ≡ (ok tt, db)
unknown_process now user bought r order db h =
    process_closed now user bought r.transaction_id order r.amount_cents r.currency db (rw h tt)

unordered :
    (now : ℕ) (r : WebhookResult) (user : Option ℕ) (bought : Option PaymentType) (db : Db)
    → r.provider_order_id ≡ none
    → conclude now r none user bought db ≡ (ok tt, db)
unordered now r none bought db h = ground arith
unordered now r (some user) none db h = ground arith
unordered now r (some user) (some bought) db h = ground arith

ordered :
    (now : ℕ) (r : WebhookResult) (user : Option ℕ) (bought : Option PaymentType) (order : ℕ)
    (db : Db)
    → r.provider_order_id ≡ some order
    → find_transaction order db ≡ none
    → conclude now r none user bought db ≡ (ok tt, db)
ordered now r none bought order db e h = ground (arith, unknown_fail r order db h)
ordered now r (some user) none order db e h = ground (arith, unknown_fail r order db h)
ordered now r (some user) (some bought) order db e h =
    ground (arith, unknown_fail r order db h, unknown_process now user bought r order db h)

-- A callback for an order that is not known writes nothing.
unknown_order :
    (now : ℕ) (r : WebhookResult) (user : Option ℕ) (bought : Option PaymentType) (db : Db)
    → find_by r.provider_order_id db ≡ none
    → conclude now r none user bought db ≡ (ok tt, db)
unknown_order now r user bought db h = elim (Option-cases r.provider_order_id) [
  | inl no_order ↦ unordered now r user bought db no_order
  | inr (order, e) ↦ ordered now r user bought order db e (rw e at h)
]

-- What a callback does to an order that is stored: the order's own user and product count.
abbrev pub stored_outcome : ℕ → WebhookResult → Option PaymentTransaction → Action (Unit {0})
stored_outcome now r none = pure tt
stored_outcome now r (some t) =
    if r.success
    then process_successful_payment now t.user_id t.payment_type r.transaction_id
        r.provider_order_id r.amount_cents r.currency
    else when r.is_final (fail_order r (some t) r.provider_order_id)

-- What a callback does, with nothing read of the user and the product that it names.
abbrev pub callback_outcome : ℕ → WebhookResult → Action (Unit {0})
callback_outcome now r db =
    if r.is_valid
    then stored_outcome now r (find_by r.provider_order_id db) db
    else (err (bad_request "Invalid signature"), db)

outcome :
    (now : ℕ) (r : WebhookResult) (db : Db) → handle_webhook now r db ≡ callback_outcome now r db
unfolding handle_webhook
outcome now r db = elim (Bool-cases r.is_valid) [
  | inr forged ↦ ground arith
  | inl signed ↦ elim (Option-cases (find_by r.provider_order_id db)) [
    | inl unknown ↦ ground (arith, unknown_order now r r.user_id r.payment_type db unknown)
    | inr (t, found) ↦ ground arith
  ]
]

-- The user and the product that a callback names never change what it does: with a good signature
-- the order that is stored is settled for its own user and its own product if the callback reports
-- a success, and failed if it reports another final answer; a callback for an unknown order, or one
-- that is neither, does nothing; and one without a good signature is refused and writes nothing.
pub handle_webhook-claims :
    (now : ℕ) (r : WebhookResult) (user : Option ℕ) (bought : Option PaymentType) (db : Db)
    → (handle_webhook now (record r { user_id = user; payment_type = bought }) db
        ≡ handle_webhook now r db)
      × (handle_webhook now r db ≡ callback_outcome now r db)
handle_webhook-claims now r user bought db = (
  outcome now (record r { user_id = user; payment_type = bought }) db ∙ sym (outcome now r db),
  outcome now r db,
)

-- A callback whose signature does not check is refused and writes nothing.
pub handle_webhook_unsigned :
    (now : ℕ) (r : WebhookResult) (db : Db)
    → r.is_valid ≡ false
    → handle_webhook now r db ≡ (err (bad_request "Invalid signature"), db)
unfolding handle_webhook
handle_webhook_unsigned now r db h = rw h
