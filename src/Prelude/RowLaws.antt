-- ===== src/Prelude/RowLaws.antt =====
-- Lemmas on the queries of Rows.antt.
use mathlib.Core.Path.{◌≡◌, refl}
use mathlib.Core.Bool.{Bool, true, false, ◌&&◌}
use mathlib.Core.Option
use mathlib.Core.Option.{Option, none, some}
use mathlib.Core.List.{List, [], ◌∷◌, ◌++◌}
use mathlib.Core.Logic.{inl, inr}
use native.Mathlib.Omega.{arith}
use Prim.Native.Nat.{◌+◌, ◌≤◌}
use propmatch_backend.Prelude.Tests.{Bool-cases, if◌then◌else◌}
use propmatch_backend.Prelude.Rows.{find?, update_where, count_where}

module _ {ℓ} {A : Type ℓ} (p : A → Bool) where
  pub find?-fits : (rows : List A) (x : A) → find? p rows ≡ some x → p x ≡ true
  find?-fits [] x h = cc
  find?-fits (r ∷ rows) x h = elim (Bool-cases (p r)) [
    | inl fits ↦ let e : r ≡ x = ground arith in rw (← e) fits
    | inr skipped ↦ find?-fits rows x (rw (skipped, find?) at h)
  ]

  pub find?-append_new :
      (rows : List A) (x : A) → find? p rows ≡ none → p x ≡ true → find? p (rows ++ x ∷ []) ≡ some x
  find?-append_new [] x h e = rw e
  find?-append_new (r ∷ rows) x h e = elim (Bool-cases (p r)) [
    | inl fits ↦ ground arith
    | inr skipped ↦ rw skipped (find?-append_new rows x (ground arith) e)
  ]

  pub find?-update_where :
      (f : A → A) (rows : List A)
      → ((x : A) → p x ≡ true → p (f x) ≡ true)
      → find? p (update_where p f rows) ≡ Option.map f (find? p rows)
  find?-update_where f [] keeps = refl
  find?-update_where f (r ∷ rows) keeps = elim (Bool-cases (p r)) [
    | inl fits ↦ rw (fits, keeps r fits)
    | inr skipped ↦ rw (skipped, skipped) (find?-update_where f rows keeps)
  ]

  -- An update of rows that `q` does not read leaves what `q` finds.
  pub find?-update_other :
      (q : A → Bool) (f : A → A) (rows : List A)
      → ((x : A) → p x ≡ true → q x ≡ false)
      → ((x : A) → p x ≡ true → q (f x) ≡ false)
      → find? q (update_where p f rows) ≡ find? q rows
  find?-update_other q f [] apart after = refl
  find?-update_other q f (r ∷ rows) apart after = elim (Bool-cases (p r)) [
    | inl fits ↦ rw (fits, after r fits, apart r fits) (find?-update_other q f rows apart after)
    | inr skipped ↦ rw skipped (ground (arith, find?-update_other q f rows apart after))
  ]

  pub update_where-none :
      (f : A → A) (rows : List A) → count_where p rows ≡ 0 → update_where p f rows ≡ rows
  update_where-none f [] h = refl
  update_where-none f (r ∷ rows) h = elim (Bool-cases (p r)) [
    | inl fits ↦ absurd (ground arith)
    | inr skipped ↦ rw (skipped, update_where-none f rows (ground arith))
  ]

  -- An update after which no rewritten row fits leaves none that fits.
  pub count_where-update_done :
      (f : A → A) (rows : List A)
      → ((x : A) → p (f x) ≡ false)
      → count_where p (update_where p f rows) ≡ 0
  count_where-update_done f [] done = refl
  count_where-update_done f (r ∷ rows) done = elim (Bool-cases (p r)) [
    | inl fits ↦ rw (fits, done r, count_where-update_done f rows done)
    | inr skipped ↦ rw (skipped, skipped, count_where-update_done f rows done)
  ]

  pub count_where-append_new :
      (rows : List A) (x : A)
      → count_where p (rows ++ x ∷ []) ≡ count_where p rows + (if p x then 1 else 0)
  count_where-append_new [] x = ground arith
  count_where-append_new (r ∷ rows) x = ground (arith, count_where-append_new rows x)

  pub count_where-none : (rows : List A) → find? p rows ≡ none → count_where p rows ≡ 0
  count_where-none [] h = refl
  count_where-none (r ∷ rows) h = ground (arith, count_where-none rows)

  -- An update that makes no row fit that did not fit before.
  pub count_where-update_le :
      (q : A → Bool) (f : A → A) (rows : List A)
      → ((x : A) → q x ≡ true → p (f x) ≡ true → p x ≡ true)
      → count_where p (update_where q f rows) ≤ count_where p rows
  count_where-update_le q f [] keeps = ground arith
  count_where-update_le q f (r ∷ rows) keeps =
      ground (arith, keeps r, count_where-update_le q f rows keeps)

-- A search that asks for more finds the one row with the key.
none_narrower :
    {A : Type 0} (q s : A → Bool) (rows : List A)
    → count_where q rows ≡ 0
    → find? (λ y. q y && s y) rows ≡ none
none_narrower q s [] h = refl
none_narrower q s (r ∷ rows) h = ground (arith, none_narrower q s rows)

pub find?-narrower :
    {A : Type 0} (q s : A → Bool) (rows : List A) (x : A)
    → find? (λ y. q y && s y) rows ≡ some x
    → count_where q rows ≤ 1
    → find? q rows ≡ some x
find?-narrower q s [] x found one = cc
find?-narrower q s (r ∷ rows) x found one = elim (Bool-cases (q r)) [
  | inl here ↦ ground (arith, none_narrower q s rows)
  | inr skipped ↦ rw skipped (find?-narrower q s rows x (ground arith) (ground arith))
]

-- An update of the one row with a key makes no row fit if that row did fit.
pub count_where-update_one :
    {A : Type 0} (p q : A → Bool) (f : A → A) (rows : List A) (x : A)
    → find? q rows ≡ some x
    → count_where q rows ≤ 1
    → (p (f x) ≡ true → p x ≡ true)
    → count_where p (update_where q f rows) ≤ count_where p rows
count_where-update_one p q f [] x found one fits = cc
count_where-update_one p q f (r ∷ rows) x found one fits = elim (Bool-cases (q r)) [
  | inl here ↦
      let same : r ≡ x = ground arith in
      let keeps : p (f r) ≡ true → p r ≡ true = rw same fits in
      let rest : count_where q rows ≡ 0 = ground arith in
      rw (here, update_where-none q f rows rest) (ground (arith, keeps))
  | inr skipped ↦
      rw skipped
        (ground (arith, count_where-update_one p q f rows x (ground arith) (ground arith) fits))
]

-- An update that `q` does not read, of rows with the found one among them, is found rewritten.
pub find?-update_found :
    {A : Type 0} (p q : A → Bool) (f : A → A) (rows : List A) (x : A)
    → ((y : A) → q (f y) ≡ q y)
    → find? q rows ≡ some x
    → p x ≡ true
    → find? q (update_where p f rows) ≡ some (f x)
find?-update_found p q f [] x same found fits = cc
find?-update_found p q f (r ∷ rows) x same found fits = elim (Bool-cases (q r)) [
  | inl here ↦ ground (arith, same r)
  | inr skipped ↦ elim (Bool-cases (p r)) [
    | inl e ↦ rw (e, same r, skipped) (find?-update_found p q f rows x same (ground arith) fits)
    | inr e ↦ rw (e, skipped) (find?-update_found p q f rows x same (ground arith) fits)
  ]
]

found-count :
    {A : Type 0} (p q : A → Bool) (rows : List A) (x : A)
    → find? q rows ≡ some x
    → p x ≡ true
    → 1 ≤ count_where p rows
found-count p q [] x found fits = cc
found-count p q (r ∷ rows) x found fits = ground (arith, found-count p q rows x)

-- An update that takes the found row, the only one that fits, out of those that fit.
pub count_where-update_found :
    {A : Type 0} (p q s : A → Bool) (f : A → A) (rows : List A) (x : A)
    → ((y : A) → p (f y) ≡ false)
    → find? s rows ≡ some x
    → p x ≡ true
    → q x ≡ true
    → count_where p rows ≤ 1
    → count_where p (update_where q f rows) ≡ 0
count_where-update_found p q s f [] x out found fits taken one = cc
count_where-update_found p q s f (r ∷ rows) x out found fits taken one = elim (Bool-cases (s r)) [
  | inl here ↦
      let same : r ≡ x = ground arith in
      ground
        (arith, out r, count_where-update_le p q f rows (λ y h e. absurd (ground (arith, out y))))
  | inr skipped ↦
      let later : find? s rows ≡ some x = ground arith in
      ground (
        arith,
        out r,
        found-count p s rows x later fits,
        count_where-update_found p q s f rows x out later fits taken,
      )
]

-- An update that `q` does not read makes no row fit it.
pub find?-update_none :
    {A : Type 0} (p q : A → Bool) (f : A → A) (rows : List A)
    → ((y : A) → q (f y) ≡ q y)
    → find? q rows ≡ none
    → find? q (update_where p f rows) ≡ none
find?-update_none p q f [] same none_fits = refl
find?-update_none p q f (r ∷ rows) same none_fits = elim (Bool-cases (q r)) [
  | inl here ↦ absurd (ground arith)
  | inr skipped ↦ elim (Bool-cases (p r)) [
    | inl e ↦ rw (e, same r, skipped) (find?-update_none p q f rows same (ground arith))
    | inr e ↦ rw (e, skipped) (find?-update_none p q f rows same (ground arith))
  ]
]

count_where-update_ge :
    {A : Type 0} (p q : A → Bool) (f : A → A) (rows : List A)
    → ((y : A) → p y ≡ true → p (f y) ≡ true)
    → count_where p rows ≤ count_where p (update_where q f rows)
count_where-update_ge p q f [] kept = omega arith
count_where-update_ge p q f (r ∷ rows) kept =
    ground (arith, kept r, count_where-update_ge p q f rows kept)

-- An update that keeps what fits, and makes a found row fit that did not, gives one more at least.
pub count_where-update_more :
    {A : Type 0} (p q s : A → Bool) (f : A → A) (rows : List A) (x : A)
    → ((y : A) → p y ≡ true → p (f y) ≡ true)
    → find? s rows ≡ some x
    → q x ≡ true
    → p x ≡ false
    → p (f x) ≡ true
    → count_where p rows + 1 ≤ count_where p (update_where q f rows)
count_where-update_more p q s f [] x kept found taken out fits = cc
count_where-update_more p q s f (r ∷ rows) x kept found taken out fits = elim (Bool-cases (s r)) [
  | inl here ↦
      let same : r ≡ x = ground arith in ground (arith, count_where-update_ge p q f rows kept)
  | inr skipped ↦
      let later : find? s rows ≡ some x = ground arith in
      ground (arith, kept r, count_where-update_more p q s f rows x kept later taken out fits)
]
