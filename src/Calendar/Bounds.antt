-- ===== src/Calendar/Bounds.antt =====
-- How far the calendar steps of Calendar.antt move a date.
use propmatch_backend.Prelude.{
  ℕ, zero, suc, ◌+◌, ◌-◌, ◌*◌, ◌/◌, ◌%◌, ◌≤◌, ◌<◌, ◌≡◌, refl, Bool, true, false, inl, inr, arith,
  Bool-cases, ltb, ◌&&◌, if◌then◌else◌,
}
use native.Mathlib.Decide.{dec_lt}
use propmatch_backend.Calendar.{
  day_ms, day_from_year, is_leap, year_down, year_of, common_start, month_start, month_down,
  make_day, advance, add_month, add_year,
}

-- A year has 366 days if it is a leap year, and 365 if not.
day_from_year-suc :
    (k : ℕ) → day_from_year (k + 1) ≡ day_from_year k + (if is_leap k then 366 else 365)
unfolding day_from_year is_leap
day_from_year-suc k = ground arith

year_down-le : (k d : ℕ) → day_from_year (year_down k d) ≤ d
unfolding year_down day_from_year
year_down-le zero d = omega arith
year_down-le (suc k) d = ground (arith, year_down-le k d)

year_of-le : (d : ℕ) → day_from_year (year_of d) ≤ d
unfolding year_of
year_of-le d = year_down-le (d / 365) d

month_start-zero : (leap : Bool) → month_start leap 0 ≡ 0
unfolding month_start
month_start-zero true = refl
month_start-zero false = refl

month_down-le :
    (leap : Bool) (m d : ℕ)
    → (month_start leap (month_down leap m d) ≤ d) × (month_down leap m d ≤ m)
unfolding month_down
month_down-le leap zero d = omega (arith, month_start-zero leap)
month_down-le leap (suc m) d = ground (arith, month_down-le leap m d)

common_step :
    (m : ℕ)
    → m < 11
    → (common_start m + 28 ≤ common_start (m + 1)) × (common_start (m + 1) ≤ common_start m + 31)
unfolding common_start
common_step m h = ground arith

month_step :
    (leap : Bool) (m : ℕ)
    → m < 11
    → (month_start leap m + 28 ≤ month_start leap (m + 1))
      × (month_start leap (m + 1) ≤ month_start leap m + 31)
unfolding month_start
month_step leap zero h = ground (arith, common_step 0 h)
month_step leap (suc zero) h = ground arith
month_step leap (suc (suc m)) h = ground (arith, common_step (suc (suc m)) h)

month_start_last : (leap : Bool) → month_start leap 11 ≡ (if leap then 335 else 334)
unfolding month_start
month_start_last true = refl
month_start_last false = refl

month_start_near :
    (leap : Bool) (m : ℕ)
    → (common_start m ≤ month_start leap m) × (month_start leap m ≤ common_start m + 1)
unfolding month_start
month_start_near leap m = elim (Bool-cases (leap && ltb 1 m)) [
  | inl late ↦ rw late (omega arith)
  | inr early ↦ rw early (omega arith)
]

-- The day number within a year, and in the year after.
make_day-eq :
    (k m offset : ℕ)
    → m ≤ 11
    → make_day k m offset ≡ day_from_year k + month_start (is_leap k) m + offset
unfolding make_day
make_day-eq k m offset h =
    let e : m / 12 ≡ 0 = omega arith in
    let r : m % 12 ≡ m = omega arith in let s : k + 0 ≡ k = omega arith in rw (e, r, s)

make_day_next : (k offset : ℕ) → make_day k 12 offset ≡ day_from_year (k + 1) + offset
unfolding make_day
make_day_next k offset = omega (arith, month_start-zero (is_leap (k + 1)))

-- The same day of the next month is 28 to 31 days on.
make_day_within :
    (k m offset : ℕ)
    → m < 11
    → (make_day k m offset + 28 ≤ make_day k (m + 1) offset)
      × (make_day k (m + 1) offset ≤ make_day k m offset + 31)
make_day_within k m offset h =
    let (low, high) = month_step (is_leap k) m h in
    rw (make_day-eq k m offset (omega arith), make_day-eq k (m + 1) offset (omega arith))
      (omega arith, omega arith)

make_day_across : (k offset : ℕ) → make_day k 12 offset ≡ make_day k 11 offset + 31
make_day_across k offset =
    rw
      (
        make_day_next k offset,
        make_day-eq k 11 offset (omega arith),
        day_from_year-suc k,
        month_start_last (is_leap k),
      )
      (elim (Bool-cases (is_leap k)) [ inl l ↦ rw l (omega arith) | inr l ↦ rw l (omega arith) ])

make_day_month :
    (k m offset : ℕ)
    → m ≤ 11
    → (make_day k m offset + 28 ≤ make_day k (m + 1) offset)
      × (make_day k (m + 1) offset ≤ make_day k m offset + 31)
make_day_month k m offset h = elim (dec_lt m 11) [
  | yes p ↦ make_day_within k m offset p
  | no p ↦
      let e : m ≡ 11 = omega arith in
      rw e (omega (arith, make_day_across k offset), omega (arith, make_day_across k offset))
]

-- The same day of the next year is 364 to 367 days on.
make_day_year :
    (k m offset : ℕ)
    → m ≤ 11
    → (make_day k m offset + 364 ≤ make_day (k + 1) m offset)
      × (make_day (k + 1) m offset ≤ make_day k m offset + 367)
make_day_year k m offset h =
    rw (make_day-eq k m offset h, make_day-eq (k + 1) m offset h)
      (ground (
        arith,
        day_from_year-suc k,
        month_start_near (is_leap k) m,
        month_start_near (is_leap (k + 1)) m,
      ))

-- The parts of a date give the date back.
make_day_parts :
    (d : ℕ)
    → let k = year_of d in
      let day_of_year = d - day_from_year k in
      let m = month_down (is_leap k) 11 day_of_year in
      (make_day k m (day_of_year - month_start (is_leap k) m) ≡ d) × (m ≤ 11)
make_day_parts d =
    let k = year_of d in
    let day_of_year = d - day_from_year k in
    let m = month_down (is_leap k) 11 day_of_year in
    let (begun, bound) = month_down-le (is_leap k) 11 day_of_year in
    (
      rw (make_day-eq k m (day_of_year - month_start (is_leap k) m) bound)
          (omega (arith, year_of-le d)),
      bound,
    )

split_ms : (t : ℕ) → t / day_ms * day_ms + t % day_ms ≡ t
split_ms t = omega arith

-- A month on lies 28 to 31 days after the date.
pub add_month_bounds : (t : ℕ) → (t + 28 * day_ms ≤ add_month t) × (add_month t ≤ t + 31 * day_ms)
unfolding add_month advance
add_month_bounds t =
    let d = t / day_ms in
    let k = year_of d in
    let day_of_year = d - day_from_year k in
    let m = month_down (is_leap k) 11 day_of_year in
    let (same, bound) = make_day_parts d in
    let step = make_day_month k m (day_of_year - month_start (is_leap k) m) bound in
    let z : k + 0 ≡ k = omega arith in
    rw z (omega (arith, same, step, split_ms t), omega (arith, same, step, split_ms t))

-- A year on lies 364 to 367 days after the date.
pub add_year_bounds : (t : ℕ) → (t + 364 * day_ms ≤ add_year t) × (add_year t ≤ t + 367 * day_ms)
unfolding add_year advance
add_year_bounds t =
    let d = t / day_ms in
    let k = year_of d in
    let day_of_year = d - day_from_year k in
    let m = month_down (is_leap k) 11 day_of_year in
    let (same, bound) = make_day_parts d in
    let step = make_day_year k m (day_of_year - month_start (is_leap k) m) bound in
    let z : m + 0 ≡ m = omega arith in
    rw z (omega (arith, same, step, split_ms t), omega (arith, same, step, split_ms t))
