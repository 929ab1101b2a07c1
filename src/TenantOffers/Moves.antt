-- ===== src/TenantOffers/Moves.antt =====
-- The state machine of an offer: which party may do what, and in which state.
use propmatch_backend.Prelude.{
  ℕ, ◌≡◌, String, Option, none, some, inl, inr, Bool, true, false, ◌&&◌, Option-cases, arith, find?,
  find?-update_where,
}
use propmatch_backend.Store.{
  TenantOffer, TenantOfferStatus, Db, Error, Action, ok, err, pure, not_found, conflict, ◌>>◌,
}
use propmatch_backend.TenantOffers.{
  Scope, owner, tenant, has_id, in_scope, is_pending, is_countered, is_open, set_status,
  landlord_accept, landlord_decline, landlord_counter, tenant_accept, tenant_withdraw,
}

-- What a party does with an offer.
pub data Move : Type 0 where
  accept_by_owner decline accept_by_tenant withdraw : Move
  counter : ℕ → Option String → Move

-- The party that makes the move.
abbrev pub party : Move → ℕ → Scope
party accept_by_owner user = owner user
party decline user = owner user
party (counter price message) user = owner user
party accept_by_tenant user = tenant user
party withdraw user = tenant user

-- An owner answers a pending offer, a tenant accepts a counter-offer; either may end an open one.
abbrev pub fits_state : Move → TenantOfferStatus → Bool
fits_state accept_by_owner s = is_pending s
fits_state decline s = is_open s
fits_state (counter price message) s = is_pending s
fits_state accept_by_tenant s = is_countered s
fits_state withdraw s = is_open s

-- The party's own offer of this identifier.
abbrev pub own_offer : Move → ℕ → ℕ → Db → Option TenantOffer
own_offer m user id db = find? (λ o. has_id id o && in_scope (party m user) o) db.tenant_offers

abbrev pub is_allowed : Move → Option TenantOffer → Bool
is_allowed m none = false
is_allowed m (some o) = fits_state m o.status

-- The handler of a move.
abbrev pub perform : Move → (Db → Db) → (Db → Db) → ℕ → ℕ → Action (Unit {0})
perform accept_by_owner before others user id = landlord_accept before others user id >> pure tt
perform decline before others user id = landlord_decline others user id
perform (counter price message) before others user id =
    landlord_counter others user id price message
perform accept_by_tenant before others user id = tenant_accept before others user id >> pure tt
perform withdraw before others user id = tenant_withdraw others user id

abbrev message_of : Move → String
message_of accept_by_owner = "the offer cannot be accepted in this state"
message_of decline = "the offer cannot be declined in this state"
message_of (counter price message) = "no counter-offer in this state"
message_of accept_by_tenant = "there is no counter-offer to accept"
message_of withdraw = "the offer cannot be withdrawn in this state"

-- What a refused move is told.
abbrev pub refusal : Move → Option TenantOffer → Error
refusal m none = not_found "no such offer, or it is another's"
refusal m (some o) = conflict (message_of m)

unknown_refused :
    (m : Move) (before others : Db → Db) (user id : ℕ) (db : Db)
    → own_offer m user id db ≡ none
    → perform m before others user id db ≡ (err (refusal m none), db)
unfolding landlord_accept landlord_decline landlord_counter tenant_accept tenant_withdraw
unknown_refused accept_by_owner before others user id db h = ground arith
unknown_refused decline before others user id db h = ground arith
unknown_refused (counter price message) before others user id db h = ground arith
unknown_refused accept_by_tenant before others user id db h = ground arith
unknown_refused withdraw before others user id db h = ground arith

state_refused :
    (m : Move) (before others : Db → Db) (user id : ℕ) (db : Db) (o : TenantOffer)
    → own_offer m user id db ≡ some o
    → fits_state m o.status ≡ false
    → perform m before others user id db ≡ (err (refusal m (some o)), db)
unfolding landlord_accept landlord_decline landlord_counter tenant_accept tenant_withdraw
state_refused accept_by_owner before others user id db o found bad = ground arith
state_refused decline before others user id db o found bad = ground arith
state_refused (counter price message) before others user id db o found bad = ground arith
state_refused accept_by_tenant before others user id db o found bad = ground arith
state_refused withdraw before others user id db o found bad = ground arith

-- A move on an offer that does not exist, by someone who is not its party, or in a state that does
-- not allow it (an accepted, declined or withdrawn offer allows none) is refused and writes
-- nothing.
pub perform_refused :
    (m : Move) (before others : Db → Db) (user id : ℕ) (db : Db)
    → is_allowed m (own_offer m user id db) ≡ false
    → perform m before others user id db ≡ (err (refusal m (own_offer m user id db)), db)
perform_refused m before others user id db h = elim (Option-cases (own_offer m user id db)) [
  | inl unknown ↦ rw unknown (unknown_refused m before others user id db unknown)
  | inr (o, found) ↦ rw found (state_refused m before others user id db o found (rw found at h))
]

-- Declining an open offer succeeds whatever others commit between the test and the write, and leaves
-- the offer declined: an acceptance in between, with the connection it made, is written over.
pub landlord_decline_overwrites :
    (others : Db → Db) (user id : ℕ) (db : Db) (o o' : TenantOffer)
    → own_offer decline user id db ≡ some o
    → is_open o.status ≡ true
    → find? (has_id id) (others db).tenant_offers ≡ some o'
    → let db' = (landlord_decline others user id db).1 in
      ((landlord_decline others user id db).0 ≡ ok tt)
      × (find? (has_id id) db'.tenant_offers
          ≡ some (record o' { status = TenantOfferStatus.declined }))
      × (db'.connections ≡ (others db).connections)
unfolding landlord_decline
landlord_decline_overwrites others user id db o o' found open_now meanwhile = ground (
  arith,
  find?-update_where (has_id id) (set_status TenantOfferStatus.declined) (others db).tenant_offers
      (λ x h. h),
)
