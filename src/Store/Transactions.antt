-- ===== src/Store/Transactions.antt =====
-- Lemmas on handlers: a bind that ends well, and a transaction that throws.
use propmatch_backend.Prelude.{◌≡◌, refl, sym, ap}
use propmatch_backend.Store.Schema.{Db}
use propmatch_backend.Store.Monad.{Error, Result, ok, err, Action, transaction, ◌>>=◌}

-- A transaction that throws has written nothing.
pub transaction-err :
    {A : Type 0} (m : Action A) (db db' : Db) (e : Error)
    → transaction m db ≡ (err e, db')
    → db' ≡ db
transaction-err {A} m db db' e h = go (m db) h
  where
    go : (r : Result A × Db) → transaction (λ _. r) db ≡ (err e, db') → db' ≡ db
    go (ok a, d) h = cc
    go (err x, d) h = sym (ap (λ (o : Result A × Db). o.1) h)

-- A first step that returns hands over its value and its database.
pub bind-ok :
    {A B : Type 0} (m : Action A) (k : A → Action B) (db db' : Db) (a : A)
    → m db ≡ (ok a, db')
    → (m >>= k) db ≡ k a db'
bind-ok m k db db' a h = rw (h, ◌>>=◌) (rw h)

-- A transaction that returns is what its callback does.
pub transaction-ok :
    {A : Type 0} (m : Action A) (db db' : Db) (a : A)
    → transaction m db ≡ (ok a, db')
    → m db ≡ (ok a, db')
transaction-ok {A} m db db' a h = go (m db) h
  where
    go : (r : Result A × Db) → transaction (λ _. r) db ≡ (ok a, db') → r ≡ (ok a, db')
    go (ok x, d) h = h
    go (err x, d) h = cc

-- A handler that returns has run its first step and then the rest.
pub bind-steps :
    {A B : Type 0} (m : Action A) (k : A → Action B) (db db' : Db) (b : B)
    → (m >>= k) db ≡ (ok b, db')
    → (a : A) × (mid : Db) × (m db ≡ (ok a, mid)) × (k a mid ≡ (ok b, db'))
bind-steps {A} {B} m k db db' b h = go (m db) refl h
  where
    go :
        (r : Result A × Db)
        → m db ≡ r
        → ((λ _. r) >>= k) db ≡ (ok b, db')
        → (a : A) × (mid : Db) × (m db ≡ (ok a, mid)) × (k a mid ≡ (ok b, db'))
    go (ok a, mid) e h = (a, mid, e, h)
    go (err x, mid) e h = cc

-- A first step that throws ends the handler.
pub bind-err :
    {A B : Type 0} (m : Action A) (k : A → Action B) (db db' : Db) (e : Error)
    → m db ≡ (err e, db')
    → (m >>= k) db ≡ (err e, db')
bind-err {A} {B} m k db db' e h = go (m db) h
  where
    go : (r : Result A × Db) → r ≡ (err e, db') → ((λ _. r) >>= k) db ≡ (err e, db')
    go (ok a, mid) h = cc
    go (err x, mid) h = cc

pub transaction-returns :
    {A : Type 0} (m : Action A) (db db' : Db) (a : A)
    → m db ≡ (ok a, db')
    → transaction m db ≡ (ok a, db')
transaction-returns {A} m db db' a h = go (m db) h
  where
    go : (r : Result A × Db) → r ≡ (ok a, db') → transaction (λ _. r) db ≡ (ok a, db')
    go (ok x, d) h = h
    go (err x, d) h = cc
