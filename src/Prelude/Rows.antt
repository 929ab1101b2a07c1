-- ===== src/Prelude/Rows.antt =====
-- Tables as lists of rows: the first row that fits, guarded updates, counts and sums.
use Prim.Native.Nat.{ℕ, zero, suc, ◌+◌}
use mathlib.Core.Bool.{Bool}
use mathlib.Core.Option.{Option, none, some}
use mathlib.Core.List.{List, [], ◌∷◌}
use propmatch_backend.Prelude.Tests.{if◌then◌else◌, leb}

abbrev pub earlier {ℓ} : {A : Type ℓ} → (A → ℕ) → A → Option A → A
earlier key x none = x
earlier key x (some y) = if leb (key x) (key y) then x else y

abbrev pub later {ℓ} : {A : Type ℓ} → (A → ℕ) → A → Option A → A
later key x none = x
later key x (some y) = if leb (key y) (key x) then x else y

module _ {ℓ} {A : Type ℓ} where
  abbrev pub length : List A → ℕ
  length [] = 0
  length (x ∷ xs) = suc (length xs)

  -- The first row that fits.
  abbrev pub find? : (A → Bool) → List A → Option A
  find? p [] = none
  find? p (x ∷ xs) = if p x then some x else find? p xs

  -- Rows that fit are rewritten, the others are left alone.
  abbrev pub update_where : (A → Bool) → (A → A) → List A → List A
  update_where p f [] = []
  update_where p f (x ∷ xs) = (if p x then f x else x) ∷ update_where p f xs

  abbrev pub count_where : (A → Bool) → List A → ℕ
  count_where p [] = 0
  count_where p (x ∷ xs) = (if p x then 1 else 0) + count_where p xs

  abbrev pub sum_where : (A → Bool) → (A → ℕ) → List A → ℕ
  sum_where p f [] = 0
  sum_where p f (x ∷ xs) = (if p x then f x else 0) + sum_where p f xs

  abbrev pub filter_where : (A → Bool) → List A → List A
  filter_where p [] = []
  filter_where p (x ∷ xs) = let rest = filter_where p xs in if p x then x ∷ rest else rest

  -- The row with the least key among those that fit, the first of them on a tie.
  abbrev pub first_by : (A → Bool) → (A → ℕ) → List A → Option A
  first_by p key [] = none
  first_by p key (x ∷ xs) =
      let rest = first_by p key xs in if p x then some (earlier key x rest) else rest

  -- The row with the greatest key among those that fit, the first of them on a tie.
  abbrev pub last_by : (A → Bool) → (A → ℕ) → List A → Option A
  last_by p key [] = none
  last_by p key (x ∷ xs) =
      let rest = last_by p key xs in if p x then some (later key x rest) else rest

  -- Rows by falling key; among equal keys the order stays.
  abbrev pub insert_desc : (A → ℕ) → A → List A → List A
  insert_desc key x [] = x ∷ []
  insert_desc key x (y ∷ ys) =
      let deeper = y ∷ insert_desc key x ys in if leb (key y) (key x) then x ∷ y ∷ ys else deeper

  abbrev pub sort_desc : (A → ℕ) → List A → List A
  sort_desc key [] = []
  sort_desc key (x ∷ xs) = insert_desc key x (sort_desc key xs)

  abbrev pub take : ℕ → List A → List A
  take zero xs = []
  take (suc n) [] = []
  take (suc n) (x ∷ xs) = x ∷ take n xs

  -- Rows by rising key.
  abbrev pub insert_asc : (A → ℕ) → A → List A → List A
  insert_asc key x [] = x ∷ []
  insert_asc key x (y ∷ ys) =
      let deeper = y ∷ insert_asc key x ys in if leb (key x) (key y) then x ∷ y ∷ ys else deeper

  abbrev pub sort_asc : (A → ℕ) → List A → List A
  sort_asc key [] = []
  sort_asc key (x ∷ xs) = insert_asc key x (sort_asc key xs)
