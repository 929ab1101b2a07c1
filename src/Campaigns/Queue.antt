-- ===== src/Campaigns/Queue.antt =====
-- Live campaigns of one property never overlap.
use propmatch_backend.Prelude.{
  ℕ, ◌≤◌, ◌≡◌, refl, ◌⊎◌, inl, inr, List, [], ◌∷◌, ◌++◌, Bool, true, if◌then◌else◌, Bool-cases,
  Option-cases, arith, All, All-append, Occurs, filter_where, last_by, last_by-none-Occurs,
  last_by-greatest,
}
use propmatch_backend.Store.{BoostCampaign}
use propmatch_backend.Campaigns.{is_live, latest_end}

-- One of two campaigns ends before the other begins.
abbrev pub AreApart : BoostCampaign → BoostCampaign → Type 0
AreApart c d = (c.ends_at ≤ d.starts_at) ⊎ (d.ends_at ≤ c.starts_at)

abbrev pub ArePairwiseApart : List BoostCampaign → Type 0
ArePairwiseApart [] = Unit
ArePairwiseApart (c ∷ cs) = All (AreApart c) cs × ArePairwiseApart cs

-- The live campaigns of the property do not overlap.
abbrev pub IsQueue : ℕ → ℕ → List BoostCampaign → Type 0
IsQueue now property cs = ArePairwiseApart (filter_where (is_live now property) cs)

-- No live campaign of the property ends after the start of the next one.
pub latest_end-bound :
    (now property : ℕ) (cs : List BoostCampaign) (c : BoostCampaign)
    → Occurs c cs
    → is_live now property c ≡ true
    → c.ends_at ≤ latest_end now property cs
unfolding latest_end
latest_end-bound now property cs c o live =
    elim (Option-cases (last_by (is_live now property) (λ x. x.ends_at) cs)) [
      | inl empty ↦
          let dead = last_by-none-Occurs (is_live now property) (λ x. x.ends_at) cs c empty o in cc
      | inr (a, found) ↦
          rw found (last_by-greatest (is_live now property) (λ x. x.ends_at) cs a c found o live)
    ]

snoc-ArePairwiseApart :
    (cs : List BoostCampaign) (n : BoostCampaign)
    → ArePairwiseApart cs
    → All (λ c. c.ends_at ≤ n.starts_at) cs
    → ArePairwiseApart (cs ++ n ∷ [])
snoc-ArePairwiseApart [] n h k = (tt, tt)
snoc-ArePairwiseApart (c ∷ cs) n (apart, h) (before, k) =
    (All-append (AreApart c) cs (n ∷ []) apart (inl before, tt), snoc-ArePairwiseApart cs n h k)

module _ (p : BoostCampaign → Bool) where
  filter_where-snoc :
      (cs : List BoostCampaign) (n : BoostCampaign)
      → filter_where p (cs ++ n ∷ []) ≡ filter_where p cs ++ (if p n then n ∷ [] else [])
  filter_where-snoc [] n = ground arith
  filter_where-snoc (c ∷ cs) n = ground (arith, filter_where-snoc cs n)

  filter_where-All :
      (P : BoostCampaign → Type 0) (cs : List BoostCampaign)
      → ((c : BoostCampaign) → Occurs c cs → p c ≡ true → P c)
      → All P (filter_where p cs)
  filter_where-All P [] h = tt
  filter_where-All P (c ∷ cs) h = elim (Bool-cases (p c)) [
    | inl fits ↦ rw fits (h c (inl refl) fits, filter_where-All P cs (λ d o. h d (inr o)))
    | inr skipped ↦ rw skipped (filter_where-All P cs (λ d o. h d (inr o)))
  ]

append-nil-eq : (cs : List BoostCampaign) → cs ++ [] ≡ cs
append-nil-eq [] = refl
append-nil-eq (c ∷ cs) = rw (append-nil-eq cs)

-- A campaign that begins where the last live one ends keeps the queue free of overlaps.
pub snoc-IsQueue :
    (now property : ℕ) (cs : List BoostCampaign) (n : BoostCampaign)
    → n.starts_at ≡ latest_end now property cs
    → IsQueue now property cs
    → IsQueue now property (cs ++ n ∷ [])
snoc-IsQueue now property cs n e queue =
    let before : All (λ c. c.ends_at ≤ n.starts_at) (filter_where (is_live now property) cs) =
      filter_where-All (is_live now property) (λ c. c.ends_at ≤ n.starts_at) cs
        (λ c o live. rw e (latest_end-bound now property cs c o live)) in
    rw (filter_where-snoc (is_live now property) cs n) (elim (Bool-cases (is_live now property n)) [
      | inl live ↦
          rw live (snoc-ArePairwiseApart (filter_where (is_live now property) cs) n queue before)
      | inr dead ↦ rw (dead, append-nil-eq (filter_where (is_live now property) cs)) queue
    ])
