-- ===== src/Prelude/Sorting.antt =====
-- The sort of Rows.antt: its result falls, and has the same rows.
use mathlib.Core.Path.{◌≡◌, refl, ap, ◌∙◌}
use mathlib.Core.Bool.{Bool, true, false}
use mathlib.Core.List.{List, [], ◌∷◌, map}
use mathlib.Core.Logic.{inl, inr}
use native.Mathlib.Omega.{arith}
use Prim.Native.Nat.{ℕ, ◌≤◌}
use propmatch_backend.Prelude.Tests.{Bool-cases, leb}
use propmatch_backend.Prelude.Rows.{
  insert_desc, sort_desc, insert_asc, sort_asc, count_where, filter_where,
}
use propmatch_backend.Prelude.Predicates.{All, Occurs}

module _ {A : Type 0} (key : A → ℕ) where
  -- No row has a greater key than one before it.
  abbrev pub IsFalling : List A → Type 0
  IsFalling [] = Unit
  IsFalling (x ∷ xs) = All (λ y. key y ≤ key x) xs × IsFalling xs

  insert_desc-All :
      (P : A → Type 0) (x : A) (xs : List A) → P x → All P xs → All P (insert_desc key x xs)
  insert_desc-All P x [] p h = (p, tt)
  insert_desc-All P x (y ∷ ys) p (q, h) = elim (Bool-cases (leb (key y) (key x))) [
    | inl front ↦ rw front (p, (q, h))
    | inr deeper ↦ rw deeper (q, insert_desc-All P x ys p h)
  ]

  below-All : (k n : ℕ) (xs : List A) → k ≤ n → All (λ y. key y ≤ k) xs → All (λ y. key y ≤ n) xs
  below-All k n [] le h = tt
  below-All k n (x ∷ xs) le (p, h) = (omega arith, below-All k n xs le h)

  insert_desc-IsFalling : (x : A) (xs : List A) → IsFalling xs → IsFalling (insert_desc key x xs)
  insert_desc-IsFalling x [] h = (tt, tt)
  insert_desc-IsFalling x (y ∷ ys) (below, h) = elim (Bool-cases (leb (key y) (key x))) [
    | inl front ↦
        let le : key y ≤ key x = ground arith in
        rw front ((le, below-All (key y) (key x) ys le below), (below, h))
    | inr deeper ↦
        let le : key x ≤ key y = ground arith in
        rw deeper (insert_desc-All (λ z. key z ≤ key y) x ys le below, insert_desc-IsFalling x ys h)
  ]

  pub sort_desc-IsFalling : (xs : List A) → IsFalling (sort_desc key xs)
  sort_desc-IsFalling [] = tt
  sort_desc-IsFalling (x ∷ xs) = insert_desc-IsFalling x (sort_desc key xs) (sort_desc-IsFalling xs)

  pub sort_desc-All : (P : A → Type 0) (xs : List A) → All P xs → All P (sort_desc key xs)
  sort_desc-All P [] h = tt
  sort_desc-All P (x ∷ xs) (p, h) = insert_desc-All P x (sort_desc key xs) p (sort_desc-All P xs h)

  insert_desc-count :
      (p : A → Bool) (x : A) (xs : List A)
      → count_where p (insert_desc key x xs) ≡ count_where p (x ∷ xs)
  insert_desc-count p x [] = refl
  insert_desc-count p x (y ∷ ys) = elim (Bool-cases (leb (key y) (key x))) [
    | inl front ↦ rw front refl
    | inr deeper ↦ rw deeper (omega (arith, insert_desc-count p x ys))
  ]

  -- A sort neither drops nor doubles a row.
  pub sort_desc-count :
      (p : A → Bool) (xs : List A) → count_where p (sort_desc key xs) ≡ count_where p xs
  sort_desc-count p [] = refl
  sort_desc-count p (x ∷ xs) =
      insert_desc-count p x (sort_desc key xs) ∙ omega (arith, sort_desc-count p xs)

pub map-count :
    {A B : Type 0} (p : B → Bool) (q : A → Bool) (f : A → B) (xs : List A)
    → ((x : A) → p (f x) ≡ q x)
    → count_where p (map f xs) ≡ count_where q xs
map-count p q f [] same = refl
map-count p q f (x ∷ xs) same = rw (same x, map-count p q f xs same) refl

pub map-All :
    {A B : Type 0} (P : B → Type 0) (f : A → B) (xs : List A)
    → ((x : A) → P (f x))
    → All P (map f xs)
map-All P f [] h = tt
map-All P f (x ∷ xs) h = (h x, map-All P f xs h)

-- Of the rows that fit, those that also pass a second test.
pub filter_where-count :
    {A : Type 0} (p q r : A → Bool) (xs : List A)
    → ((x : A) → p x ≡ true → q x ≡ r x)
    → ((x : A) → p x ≡ false → r x ≡ false)
    → count_where q (filter_where p xs) ≡ count_where r xs
filter_where-count p q r [] fits skips = refl
filter_where-count p q r (x ∷ xs) fits skips = elim (Bool-cases (p x)) [
  | inl e ↦ rw (e, fits x e, filter_where-count p q r xs fits skips) refl
  | inr e ↦ rw (e, skips x e) (omega (arith, filter_where-count p q r xs fits skips))
]

module _ {A : Type 0} (key : A → ℕ) where
  insert_asc-Occurs-here : (x : A) (xs : List A) → Occurs x (insert_asc key x xs)
  insert_asc-Occurs-here x [] = inl refl
  insert_asc-Occurs-here x (y ∷ ys) = elim (Bool-cases (leb (key x) (key y))) [
    | inl front ↦ rw front (inl refl)
    | inr deeper ↦ rw deeper (inr (insert_asc-Occurs-here x ys))
  ]

  insert_asc-Occurs : (a x : A) (xs : List A) → Occurs a xs → Occurs a (insert_asc key x xs)
  insert_asc-Occurs a x [] o = elim o [ ]
  insert_asc-Occurs a x (y ∷ ys) (inl e) = elim (Bool-cases (leb (key x) (key y))) [
    | inl front ↦ rw front (inr (inl e))
    | inr deeper ↦ rw deeper (inl e)
  ]
  insert_asc-Occurs a x (y ∷ ys) (inr o) = elim (Bool-cases (leb (key x) (key y))) [
    | inl front ↦ rw front (inr (inr o))
    | inr deeper ↦ rw deeper (inr (insert_asc-Occurs a x ys o))
  ]

  -- A sort keeps every row.
  pub sort_asc-Occurs : (a : A) (xs : List A) → Occurs a xs → Occurs a (sort_asc key xs)
  sort_asc-Occurs a [] o = elim o [ ]
  sort_asc-Occurs a (x ∷ xs) (inl e) = rw (← e) (insert_asc-Occurs-here x (sort_asc key xs))
  sort_asc-Occurs a (x ∷ xs) (inr o) =
      insert_asc-Occurs a x (sort_asc key xs) (sort_asc-Occurs a xs o)

pub filter_where-Occurs :
    {A : Type 0} (p : A → Bool) (a : A) (xs : List A)
    → p a ≡ true
    → Occurs a xs
    → Occurs a (filter_where p xs)
filter_where-Occurs p a [] fits o = elim o [ ]
filter_where-Occurs p a (x ∷ xs) fits (inl e) = rw (e, fits) (inl refl)
filter_where-Occurs p a (x ∷ xs) fits (inr o) = elim (Bool-cases (p x)) [
  | inl e ↦ rw e (inr (filter_where-Occurs p a xs fits o))
  | inr e ↦ rw e (filter_where-Occurs p a xs fits o)
]

pub map-Occurs :
    {A B : Type 0} (f : A → B) (a : A) (xs : List A) → Occurs a xs → Occurs (f a) (map f xs)
map-Occurs f a [] o = elim o [ ]
map-Occurs f a (x ∷ xs) (inl e) = inl (ap f e)
map-Occurs f a (x ∷ xs) (inr o) = inr (map-Occurs f a xs o)
