-- ===== src/Offers/Score.antt =====
-- src/offers/match-score.util.ts and src/matching/hybrid-match-reasons.util.ts: the score of a
-- request against a property, and why. A similarity is an exact fraction where the source has a
-- floating-point number; which one a request and a property have is an argument (`cosineSimilarity`
-- on their embeddings).
use propmatch_backend.Prelude.{
  ℕ, ◌+◌, ◌-◌, ◌*◌, ◌/◌, ◌≤◌, ◌≡◌, Option, none, some, List, [], ◌∷◌, ◌++◌, Bool, true, false, not,
  ◌&&◌, ◌||◌, ltb, leb, ◌==◌, if◌then◌else◌, arith, length, count_where, or_else, take,
}
use propmatch_backend.Text.{Text, is_space}
use propmatch_backend.Store.{Property, PropertyType, TenantRequest}

abbrev pub min : ℕ → ℕ → ℕ
min a b = if leb a b then a else b

abbrev pub max : ℕ → ℕ → ℕ
max a b = if leb a b then b else a

abbrev pub starts_with : Text → Text → Bool
starts_with [] s = true
starts_with (c ∷ w) [] = false
starts_with (c ∷ w) (d ∷ s) = c == d && starts_with w s

-- `s.includes(w)`
abbrev pub includes : Text → Text → Bool
includes [] w = starts_with w []
includes (c ∷ s) w = starts_with w (c ∷ s) || includes s w

-- A character in front of the words that follow: a space begins a new, still empty word.
abbrev pub extend : ℕ → List Text → List Text
extend c [] = if is_space c then [] ∷ [] ∷ [] else (c ∷ []) ∷ []
extend c (w ∷ ws) = if is_space c then [] ∷ w ∷ ws else (c ∷ w) ∷ ws

-- `split(/\s+/)`, with an empty word between two white spaces: `is_long` drops the empty words.
unfoldable pub split_words : Text → List Text
split_words [] = [] ∷ []
split_words (c ∷ s) = extend c (split_words s)

abbrev pub is_long : Text → Bool
is_long w = ltb 3 (length w)

abbrev pub type_code : PropertyType → ℕ
type_code PropertyType.apartment = 0
type_code PropertyType.villa = 1
type_code PropertyType.studio = 2

abbrev pub within_budget : TenantRequest → Property → Bool
within_budget r p = leb r.min_budget p.rent_amount && leb p.rent_amount r.max_budget

abbrev pub in_preferred_location : TenantRequest → Property → Bool
in_preferred_location r p = includes r.preferred_locations p.district

abbrev pub fits_type : TenantRequest → Property → Bool
fits_type r p = type_code p.property_type == type_code r.property_type

abbrev pub has_bedrooms : TenantRequest → Property → Bool
has_bedrooms r p = leb r.required_bedrooms p.bedrooms

abbrev pub fits_furnishing : TenantRequest → Property → Bool
fits_furnishing r p = not r.needs_furnished || p.is_furnished

-- The words of the request that the property's texts have in common with it.
unfoldable pub shared_words : TenantRequest → Property → ℕ
unfolding split_words
shared_words r p =
    let haystack = p.description ++ 32 ∷ or_else p.property_around_services [] in
    count_where (λ w. is_long w && includes haystack w) (split_words r.lifestyle_requirements)

-- `Math.round((flexibilityScore - 5) * 0.6)`, plus 10.
unfoldable pub flexibility_bonus : ℕ → ℕ
flexibility_bonus f = (6 * f + 75) / 10

abbrev pub points : Bool → ℕ → ℕ
points b n = if b then n else 0

-- The sum, with the budget first, clamped. It is 28 at least where the 10 is taken off.
unfoldable pub clamp_score : Bool → ℕ → ℕ → ℕ → ℕ → ℕ
clamp_score in_budget facts words bonus boost =
    let budget = if in_budget then 50 + 18 else 50 - 22 in
    max 5 (min 98 (budget + facts + words + bonus - 10 + boost))

abbrev pub fact_points : TenantRequest → Property → ℕ
fact_points r p =
    points (in_preferred_location r p) 12
    + points (fits_type r p) 8
    + points (has_bedrooms r p) 5
    + points (fits_furnishing r p) 5

-- `scoreRequestAgainstProperty`
unfoldable pub score_request : TenantRequest → Property → ℕ
unfolding shared_words flexibility_bonus clamp_score
score_request r p =
    clamp_score (within_budget r p) (fact_points r p) (min 10 (shared_words r p * 2))
      (flexibility_bonus r.flexibility_score) (points p.is_boosted 2)

-- A similarity between -1 and 1: a negative one, or a numerator over a denominator.
pub data Similarity : Type 0 where
  negative : Similarity
  ratio : ℕ → ℕ → Similarity

-- `combineHybridScore`: the mean of the rule score and of the similarity in hundredths, rounded.
unfoldable pub combine_score : ℕ → Option Similarity → ℕ
combine_score rule none = rule
combine_score rule (some negative) = min 100 ((rule + 1) / 2)
combine_score rule (some (ratio n d)) = min 100 ((rule * d + 100 * min n d + d) / (2 * d))

-- `similarity >= minSimilarity`
abbrev pub is_similar : Similarity → Option Similarity → Bool
is_similar least none = false
is_similar negative (some s) = true
is_similar (ratio a b) (some negative) = false
is_similar (ratio a b) (some (ratio n d)) = leb (a * d) (n * b)

pub data MatchReason : Type 0 where
  reason_budget reason_location reason_type reason_bedrooms : MatchReason
  reason_furnishing reason_similarity : MatchReason

abbrev pub reason_if : Bool → MatchReason → List MatchReason
reason_if b r = if b then r ∷ [] else []

-- `buildHybridMatchReasons`: the first four that hold.
unfoldable pub match_reasons :
    Similarity → TenantRequest → Property → Option Similarity → List MatchReason
match_reasons least r p s = take 4 (
    reason_if (within_budget r p) reason_budget
    ++ (reason_if (in_preferred_location r p) reason_location
        ++ (reason_if (fits_type r p) reason_type
            ++ (reason_if (has_bedrooms r p) reason_bedrooms
                ++ (reason_if (fits_furnishing r p) reason_furnishing
                    ++ reason_if (is_similar least s) reason_similarity)))))

points_bound : (b : Bool) (n : ℕ) → points b n ≤ n
points_bound b n = ground arith

min_bound : (a b : ℕ) → min a b ≤ a
min_bound a b = ground arith

flexibility_bounds :
    (f : ℕ) → 1 ≤ f → f ≤ 10 → (8 ≤ flexibility_bonus f) × (flexibility_bonus f ≤ 13)
unfolding flexibility_bonus
flexibility_bounds f least most = (omega arith, omega arith)

clamp_score_bounds :
    (b : Bool) (facts words bonus boost : ℕ)
    → facts ≤ 30
    → words ≤ 10
    → (8 ≤ bonus) × (bonus ≤ 13)
    → boost ≤ 2
    → (b ≡ true
        → (66 ≤ clamp_score b facts words bonus boost)
          × (clamp_score b facts words bonus boost ≤ 98))
      × (b ≡ false
          → (26 ≤ clamp_score b facts words bonus boost)
            × (clamp_score b facts words bonus boost ≤ 73))
unfolding clamp_score
clamp_score_bounds b facts words bonus boost f w n t =
    (λ e. (ground arith, ground arith), λ e. (ground arith, ground arith))

-- With a flexibility between 1 and 10, as the form has it, a property within the budget scores
-- between 66 and 98 and one outside it between 26 and 73: the clamp at 5 is never reached.
pub score_request_bounds :
    (r : TenantRequest) (p : Property)
    → 1 ≤ r.flexibility_score
    → r.flexibility_score ≤ 10
    → (within_budget r p ≡ true → (66 ≤ score_request r p) × (score_request r p ≤ 98))
      × (within_budget r p ≡ false → (26 ≤ score_request r p) × (score_request r p ≤ 73))
unfolding score_request
score_request_bounds r p least most =
    clamp_score_bounds (within_budget r p) (fact_points r p) (min 10 (shared_words r p * 2))
      (flexibility_bonus r.flexibility_score) (points p.is_boosted 2)
      (omega (
        arith,
        points_bound (in_preferred_location r p) 12,
        points_bound (fits_type r p) 8,
        points_bound (has_bedrooms r p) 5,
        points_bound (fits_furnishing r p) 5,
      ))
      (min_bound 10 (shared_words r p * 2)) (flexibility_bounds r.flexibility_score least most)
      (points_bound p.is_boosted 2)
