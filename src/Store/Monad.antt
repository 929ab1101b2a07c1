-- ===== src/Store/Monad.antt =====
-- A request handler: it reads and writes the database, and returns or throws. What was written
-- before a throw stays written, except inside `$transaction`.
use propmatch_backend.Prelude.{ℕ, String, Option, none, some, Bool, true, false}
use propmatch_backend.Catalog.{BillablePaymentType}
use propmatch_backend.Store.Schema.{Db}

-- The HTTP exceptions. `quota_exhausted` carries the product that is offered and its price,
-- `plan_limit_reached` the price of another listing, the count of listings and their limit.
pub data Error : Type 0 where
  bad_request unauthorized forbidden not_found conflict internal : String → Error
  too_many_requests : ℕ → Error
  quota_exhausted : BillablePaymentType → ℕ → Error
  plan_limit_reached : ℕ → ℕ → ℕ → Error

pub data Result {ℓ} (A : Type ℓ) : Type ℓ where
  ok : A → Result A
  err : Error → Result A

abbrev pub Action : Type 0 → Type 0
Action A = Db → Result A × Db

module _ {A : Type 0} where
  abbrev pub pure : A → Action A
  pure a db = (ok a, db)

  abbrev pub throw : Error → Action A
  throw e db = (err e, db)

  abbrev pub gets : (Db → A) → Action A
  gets f db = (ok (f db), db)

  -- The value, or the exception where there is none.
  abbrev pub or_throw : Option A → Error → Action A
  or_throw none e = throw e
  or_throw (some a) e = pure a

  -- `$transaction`: what a throwing callback has written is rolled back.
  abbrev pub transaction : Action A → Action A
  transaction m db = let (r, db') = m db in elim r [ ok a ↦ (ok a, db') | err e ↦ (err e, db) ]

infixl 5 ◌>>=◌ ◌>>◌
abbrev pub ◌>>=◌ : {A B : Type 0} → Action A → (A → Action B) → Action B
◌>>=◌ m f db = let (r, db') = m db in elim r [ ok a ↦ f a db' | err e ↦ (err e, db') ]

abbrev pub ◌>>◌ : {A B : Type 0} → Action A → Action B → Action B
m >> k = m >>= λ _. k

abbrev pub throw_if : Bool → Error → Action (Unit {0})
throw_if true e = throw e
throw_if false e = pure tt

abbrev pub modify : (Db → Db) → Action (Unit {0})
modify f db = (ok tt, f db)

abbrev pub when : Bool → Action (Unit {0}) → Action (Unit {0})
when true m = m
when false m = pure tt
