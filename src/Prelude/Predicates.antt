-- ===== src/Prelude/Predicates.antt =====
-- Predicates on lists by recursion, and what the searches of Rows.antt return.
use Prim.Native.Nat.{ℕ, ◌≤◌}
use mathlib.Core.Path.{◌≡◌, refl, subst}
use mathlib.Core.Logic.{◌⊎◌, inl, inr}
use mathlib.Core.Bool.{Bool, true, false}
use mathlib.Core.Option.{none, some}
use mathlib.Core.List.{List, [], ◌∷◌, ◌++◌}
use native.Mathlib.Omega.{arith}
use propmatch_backend.Prelude.Tests.{leb, Bool-cases, Option-cases}
use propmatch_backend.Prelude.Rows.{first_by, last_by, sum_where, find?, update_where}

abbrev pub All {ℓ κ} : {A : Type ℓ} → (A → Type κ) → List A → Type κ
All P [] = Unit
All P (x ∷ xs) = P x × All P xs

abbrev pub Occurs : {A : Type 0} → A → List A → Type 0
Occurs a [] = ⊥
Occurs a (x ∷ xs) = (x ≡ a) ⊎ Occurs a xs

module _ {κ} {A : Type 0} (P : A → Type κ) where
  pub All-Occurs : (xs : List A) (a : A) → All P xs → Occurs a xs → P a
  All-Occurs [] a h o = elim o [ ]
  All-Occurs (x ∷ xs) a (p, h) (inl e) = subst P e p
  All-Occurs (x ∷ xs) a (p, h) (inr o) = All-Occurs xs a h o

  pub All-append : (xs ys : List A) → All P xs → All P ys → All P (xs ++ ys)
  All-append [] ys hx hy = hy
  All-append (x ∷ xs) ys (p, hx) hy = (p, All-append xs ys hx hy)

module _ {A : Type 0} (p : A → Bool) (key : A → ℕ) where
  -- What `first_by` returns is a row that fits.
  pub first_by-Occurs :
      (xs : List A) (a : A) → first_by p key xs ≡ some a → Occurs a xs × (p a ≡ true)
  first_by-Occurs [] a h = cc
  first_by-Occurs (x ∷ xs) a h = elim (Bool-cases (p x)) [
    | inr skipped ↦
        let (o, fits) = first_by-Occurs xs a (rw (skipped, first_by) at h) in (inr o, fits)
    | inl fits ↦ elim (Option-cases (first_by p key xs)) [
      | inl last ↦ let e : x ≡ a = ground arith in (inl e, rw (← e) fits)
      | inr (y, found) ↦ elim (Bool-cases (leb (key x) (key y))) [
        | inl front ↦ let e : x ≡ a = ground arith in (inl e, rw (← e) fits)
        | inr behind ↦
            let e : y ≡ a = ground arith in
            let (o, fits') = first_by-Occurs xs y found in
            (inr (subst (λ z. Occurs z xs) e o), rw (← e) fits')
      ]
    ]
  ]

  first_by-none-Occurs :
      (xs : List A) (b : A) → first_by p key xs ≡ none → Occurs b xs → p b ≡ false
  first_by-none-Occurs [] b h o = elim o [ ]
  first_by-none-Occurs (x ∷ xs) b h (inl e) = rw (← e) (ground arith)
  first_by-none-Occurs (x ∷ xs) b h (inr o) = first_by-none-Occurs xs b (ground arith) o

  -- No row that fits has a smaller key.
  pub first_by-least :
      (xs : List A) (a b : A)
      → first_by p key xs ≡ some a
      → Occurs b xs
      → p b ≡ true
      → key a ≤ key b
  first_by-least [] a b h o fits = elim o [ ]
  first_by-least (x ∷ xs) a b h (inl e) fits =
      let fits' : p x ≡ true = rw e fits in rw (← e) (ground arith)
  first_by-least (x ∷ xs) a b h (inr o) fits = elim (Option-cases (first_by p key xs)) [
    | inl empty ↦ ground (arith, first_by-none-Occurs xs b empty o)
    | inr (y, found) ↦ ground (arith, first_by-least xs y b found o fits)
  ]

  pub first_by-none : (f : A → ℕ) (xs : List A) → first_by p key xs ≡ none → sum_where p f xs ≡ 0
  first_by-none f [] h = refl
  first_by-none f (x ∷ xs) h = elim (Bool-cases (p x)) [
    | inr skipped ↦ rw skipped (omega (arith, first_by-none f xs (rw (skipped, first_by) at h)))
    | inl fits ↦ absurd (ground arith)
  ]

  -- What `last_by` returns is not below any row that fits.
  pub last_by-none-Occurs :
      (xs : List A) (b : A) → last_by p key xs ≡ none → Occurs b xs → p b ≡ false
  last_by-none-Occurs [] b h o = elim o [ ]
  last_by-none-Occurs (x ∷ xs) b h (inl e) = rw (← e) (ground arith)
  last_by-none-Occurs (x ∷ xs) b h (inr o) = last_by-none-Occurs xs b (ground arith) o

  pub last_by-greatest :
      (xs : List A) (a b : A) → last_by p key xs ≡ some a → Occurs b xs → p b ≡ true → key b ≤ key a
  last_by-greatest [] a b h o fits = elim o [ ]
  last_by-greatest (x ∷ xs) a b h (inl e) fits =
      let fits' : p x ≡ true = rw e fits in rw (← e) (ground arith)
  last_by-greatest (x ∷ xs) a b h (inr o) fits = elim (Option-cases (last_by p key xs)) [
    | inl empty ↦ ground (arith, last_by-none-Occurs xs b empty o)
    | inr (y, found) ↦ ground (arith, last_by-greatest xs y b found o fits)
  ]

module _ {A : Type 0} (p : A → Bool) where
  pub find?-Occurs : (xs : List A) (a : A) → find? p xs ≡ some a → Occurs a xs
  find?-Occurs [] a h = cc
  find?-Occurs (x ∷ xs) a h = elim (Bool-cases (p x)) [
    | inl fits ↦ inl (ground arith)
    | inr skipped ↦ inr (find?-Occurs xs a (ground arith))
  ]

  -- A row that fits is found rewritten.
  pub Occurs-update_where :
      (f : A → A) (xs : List A) (a : A)
      → Occurs a xs
      → p a ≡ true
      → Occurs (f a) (update_where p f xs)
  Occurs-update_where f [] a o fits = elim o [ ]
  Occurs-update_where f (x ∷ xs) a (inl e) fits = inl (rw (e, fits))
  Occurs-update_where f (x ∷ xs) a (inr o) fits = inr (Occurs-update_where f xs a o fits)

pub Occurs-append_new : {A : Type 0} (xs : List A) (a : A) → Occurs a (xs ++ a ∷ [])
Occurs-append_new [] a = inl refl
Occurs-append_new (x ∷ xs) a = inr (Occurs-append_new xs a)

-- A predicate that a rewrite keeps.
pub All-update_where {κ} :
    {A : Type 0} (P Q : A → Type κ) (p : A → Bool) (f : A → A) (xs : List A)
    → ((x : A) → P x → Q x)
    → ((x : A) → P x → Q (f x))
    → All P xs
    → All Q (update_where p f xs)
All-update_where P Q p f [] weaker keeps h = tt
All-update_where P Q p f (x ∷ xs) weaker keeps (h, hs) = elim (Bool-cases (p x)) [
  | inl fits ↦ rw fits (keeps x h, All-update_where P Q p f xs weaker keeps hs)
  | inr skipped ↦ rw skipped (weaker x h, All-update_where P Q p f xs weaker keeps hs)
]
