-- ===== src/Payments/Settlement.antt =====
-- src/payments/payments.service.ts: `checkout`, `handleWebhook`, `processSuccessfulPayment` up to the
-- delivery, `getTransaction` and `reconcilePendingTransactions`. The provider is
-- src/payments/providers/paymob.service.ts: its answers are arguments.
pub mod Once
pub mod Claims
use propmatch_backend.Prelude.{
  ℕ, ◌+◌, ◌-◌, ◌*◌, Option, none, some, List, [], ◌∷◌, ◌++◌, Bool, true, false, not, ◌&&◌, ◌||◌,
  ltb, leb, ◌==◌, if◌then◌else◌, is_some, or_else, find?, update_where, count_where, filter_where,
  insert_asc, sort_asc, take,
}
use propmatch_backend.Text.{Text, trim, to_upper_case, text_eq, egp}
use propmatch_backend.Catalog.{
  Billing, monthly, yearly, one_time, BillablePaymentType, pricing_catalog,
}
use propmatch_backend.Store.{
  User, UserRole, Property, BoostCampaign, CampaignStatus, PaymentType, PaymentStatus,
  PaymentTransaction, Db, Action, Result, ok, err, pure, throw, gets, or_throw, throw_if, when,
  modify, transaction, ◌>>=◌, ◌>>◌, Error, bad_request, forbidden, not_found, property_code,
}
use propmatch_backend.Campaigns.{campaign_code, is_live}
use propmatch_backend.Config.{is_boost, checkout_snapshot, parse_snapshot}
use propmatch_backend.Quota.Boosts.{is_own_approved}
use propmatch_backend.Payments.Delivery.{
  catalog_payment_type, snapshot_or_current, is_one_time, deliver,
}

abbrev pub status_code : PaymentStatus → ℕ
status_code PaymentStatus.pending = 0
status_code PaymentStatus.success = 1
status_code PaymentStatus.failed = 2

abbrev pub is_pending : PaymentStatus → Bool
is_pending s = status_code s == 0

-- `paymentTransaction.findUnique({ where: { providerOrderId } })`
abbrev pub has_order : ℕ → PaymentTransaction → Bool
has_order order t = t.provider_order_id == order

abbrev pub find_transaction : ℕ → Db → Option PaymentTransaction
find_transaction order db = find? (has_order order) db.transactions

-- `{ providerOrderId, status: 'PENDING' }`
abbrev pub is_open_order : ℕ → PaymentTransaction → Bool
is_open_order order t = has_order order t && is_pending t.status

-- `Number(obj.amount_cents)`: a natural number, or any other number value.
pub data Cents : Type 0 where
  cents : ℕ → Cents
  other : Cents

abbrev pub is_amount : Option Cents → ℕ → Bool
is_amount none expected = false
is_amount (some other) expected = false
is_amount (some (cents n)) expected = n == expected

abbrev pub is_currency : Option Text → Text → Bool
is_currency none expected = false
is_currency (some c) expected = text_eq (to_upper_case (trim c)) expected

-- What was paid is not what the order asks for; a callback that states neither is not checked.
unfoldable pub is_mismatch : Option Cents → Option Text → PaymentTransaction → Bool
unfolding trim to_upper_case
is_mismatch paid currency t =
    (is_some paid || is_some currency)
    && not (is_amount paid (t.amount * 100) && is_currency currency t.currency)

-- `updateMany` of the pending row to FAILED or SUCCESS.
abbrev pub fail_with : ℕ → PaymentTransaction → PaymentTransaction
fail_with provider_id t = record t {
  status = PaymentStatus.failed;
  provider_transaction_id = some provider_id;
}

abbrev pub succeed_with : ℕ → ℕ → PaymentTransaction → PaymentTransaction
succeed_with provider_id paid_at t = record t {
  status = PaymentStatus.success;
  provider_transaction_id = some provider_id;
  paid_at = some paid_at;
}

-- The guarded write of an open order; how many rows it changed.
unfoldable pub close_order : ℕ → (PaymentTransaction → PaymentTransaction) → Action ℕ
close_order order f = do
  count ← gets (λ db. count_where (is_open_order order) db.transactions)
  modify (λ db. record db { transactions = update_where (is_open_order order) f db.transactions })
  pure count

-- The delivery; a payment type of no catalogue entry delivers nothing and reports nothing.
unfoldable pub deliver_claimed : ℕ → ℕ → PaymentType → PaymentTransaction → Action Bool
unfolding deliver
deliver_claimed paid_at user bought t = elim (catalog_payment_type bought) [
  | none ↦ pure false
  | some entry ↦ do
    snapshot ← gets (snapshot_or_current (parse_snapshot t.catalog_snapshot) entry)
    deliver paid_at user bought t snapshot
    pure true
]

-- The claim of an open order, and the delivery if it was won.
unfoldable pub claim : ℕ → ℕ → PaymentType → ℕ → ℕ → PaymentTransaction → Action Bool
unfolding close_order deliver_claimed
claim paid_at user bought provider_id order t = do
  claimed ← close_order order (succeed_with provider_id paid_at)
  if claimed == 0 then (pure false) else (deliver_claimed paid_at user bought t)

-- The callback of the transaction in `processSuccessfulPayment`.
abbrev pub settle_found :
    ℕ
    → ℕ
    → PaymentType
    → ℕ
    → ℕ
    → Option Cents
    → Option Text
    → Option PaymentTransaction
    → Action Bool
settle_found paid_at user bought provider_id order paid currency none = pure false
settle_found paid_at user bought provider_id order paid currency (some t) =
    if is_pending t.status
    then (if is_mismatch paid currency t
        then (close_order order (fail_with provider_id) >> pure false)
        else claim paid_at user bought provider_id order t)
    else pure false

unfoldable pub settle : ℕ → ℕ → PaymentType → ℕ → ℕ → Option Cents → Option Text → Action Bool
unfolding claim is_mismatch
settle paid_at user bought provider_id order paid currency = do
  found ← gets (find_transaction order)
  settle_found paid_at user bought provider_id order paid currency found

-- `RealtimeService.paymentUpdated`
abbrev pub push_payment : ℕ → ℕ → PaymentStatus → ℕ → Option ℕ → Action (Unit {0})
push_payment user order status provider_id paid_at = modify (λ db. record db {
  payment_events =
      db.payment_events
      ++ record {
        user_id = user;
        provider_order_id = order;
        status = status;
        provider_transaction_id = provider_id;
        paid_at = paid_at;
      }
        ∷ [];
})

-- `processSuccessfulPayment` for an order that is known.
unfoldable pub process_order :
    ℕ → ℕ → PaymentType → ℕ → ℕ → Option Cents → Option Text → Action (Unit {0})
unfolding settle
process_order now user bought provider_id order paid currency = do
  applied ← transaction (settle now user bought provider_id order paid currency)
  when applied (push_payment user order PaymentStatus.success provider_id (some now))

-- `processSuccessfulPayment`
abbrev pub process_successful_payment :
    ℕ → ℕ → PaymentType → ℕ → Option ℕ → Option Cents → Option Text → Action (Unit {0})
process_successful_payment now user bought provider_id none paid currency = pure tt
process_successful_payment now user bought provider_id (some order) paid currency =
    process_order now user bought provider_id order paid currency

-- `WebhookResult`, what `processWebhook` makes of a callback and its signature.
pub record WebhookResult : Type 0 where
  pub is_valid : Bool
  pub success : Bool
  pub is_final : Bool
  pub transaction_id : ℕ
  pub provider_order_id : Option ℕ
  pub payment_type : Option PaymentType
  pub user_id : Option ℕ
  pub amount_cents : Option Cents
  pub currency : Option Text

abbrev pub find_by : Option ℕ → Db → Option PaymentTransaction
find_by none db = none
find_by (some order) db = find_transaction order db

-- The stored order is authoritative; what the callback claims is used only without one.
abbrev pub payer : Option PaymentTransaction → WebhookResult → Option ℕ
payer none r = r.user_id
payer (some t) r = some t.user_id

abbrev pub bought_type : Option PaymentTransaction → WebhookResult → Option PaymentType
bought_type none r = r.payment_type
bought_type (some t) r = some t.payment_type

abbrev pub notify_failed : Option PaymentTransaction → ℕ → ℕ → Action (Unit {0})
notify_failed none provider_id changed = pure tt
notify_failed (some t) provider_id changed =
    when (changed == 1)
      (push_payment t.user_id t.provider_order_id PaymentStatus.failed provider_id none)

-- The `else if` of `handleWebhook`: a final answer that is no success fails an open order.
abbrev pub fail_order : WebhookResult → Option PaymentTransaction → Option ℕ → Action (Unit {0})
fail_order r saved none = pure tt
fail_order r saved (some order) = do
  changed ← close_order order (fail_with r.transaction_id)
  notify_failed saved r.transaction_id changed

abbrev pub conclude :
    ℕ
    → WebhookResult
    → Option PaymentTransaction
    → Option ℕ
    → Option PaymentType
    → Action (Unit {0})
conclude now r saved (some user) (some bought) =
    if r.success
    then process_successful_payment now user bought r.transaction_id r.provider_order_id
        r.amount_cents r.currency
    else when r.is_final (fail_order r saved r.provider_order_id)
conclude now r saved _ _ = when r.is_final (fail_order r saved r.provider_order_id)

-- `handleWebhook`
unfoldable pub handle_webhook : ℕ → WebhookResult → Action (Unit {0})
unfolding process_order close_order
handle_webhook now r = do
  throw_if (not r.is_valid) (bad_request "Invalid signature")
  saved ← gets (find_by r.provider_order_id)
  conclude now r saved (payer saved r) (bought_type saved r)

-- `getTransaction`
unfoldable pub get_transaction : ℕ → ℕ → Action PaymentTransaction
get_transaction user order = do
  found ← gets (λ db. find? (λ t. t.user_id == user && has_order order t) db.transactions)
  or_throw found (not_found "no such payment")

abbrev is_landlord : Option User → Bool
is_landlord none = false
is_landlord (some u) = elim u.role [ UserRole.landlord ↦ true | _ ↦ false ]

-- `product.billing === 'MONTHLY' || … ? product.billing : null`
abbrev interval_of : Billing → Option Billing
interval_of b = if is_one_time b then none else some b

-- The check of a boost's target.
abbrev check_target : ℕ → Bool → Option ℕ → Action (Unit {0})
check_target user false target = pure tt
check_target user true none = throw (bad_request "propertyId is required for a boost")
check_target user true (some property) = do
  found ← gets (λ db. find? (is_own_approved user property) db.properties)
  throw_if (not (is_some found)) (not_found "the property to boost is not available")

abbrev from_gateway : Result ℕ → Action ℕ
from_gateway r db = (r, db)

-- `checkout`, for a payment type of the catalogue (`none` is any other text). `gateway` is the answer
-- of `generatePaymentUrl`: the provider's order, or an exception. Every product is for landlords.
unfoldable pub checkout : ℕ → ℕ → Option BillablePaymentType → Option ℕ → Result ℕ → Action (ℕ × ℕ)
unfolding checkout_snapshot
checkout now user payment_type target gateway = do
  t ← or_throw payment_type (bad_request "Unsupported payment type")
  snapshot ← checkout_snapshot t
  buyer ← gets (λ db. find? (λ u. u.id == user) db.users)
  throw_if (not (is_landlord buyer)) (forbidden "This product is not available to this role")
  check_target user (is_boost snapshot.product.kind) target
  order ← from_gateway gateway
  modify (λ db. record db {
    transactions =
        db.transactions
        ++ record {
          id = db.next_id;
          user_id = user;
          provider_order_id = order;
          provider_transaction_id = none;
          amount = snapshot.product.price_egp;
          currency = egp;
          payment_type = PaymentType.billable t;
          billing_interval = interval_of snapshot.product.billing;
          target_property_id = target;
          catalog_snapshot = some snapshot;
          status = PaymentStatus.pending;
          paid_at = none;
          created_at = now;
        }
          ∷ [];
    next_id = db.next_id + 1;
  })
  pure (order, snapshot.product.price_egp)
