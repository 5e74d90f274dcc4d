-- ===== src/Programs/Pages/Dashboard/Average.antt =====
-- The average of the grades on the dashboard.
use native.Mathlib.Nat.{mul-add, mul-div-le, lt-mul-div-succ, le-div_iff_mul-le, div-lt_iff_lt-mul}
use onvm.Base.{ℕ, some, refl, ◌≡◌, ◌≤◌, ◌<◌, ◌+◌, ◌*◌, ◌/◌, List, [], ◌∷◌, true, ltb, arith}
use onvm.Programs.Pages.Dashboard.{score_of, count, sum_scores, average_grade}
use onvm.Js.Value.{Value, peek}

-- Every score is a number between `low` and `high`.
abbrev AreWithin : (low high : ℕ) → List Value → Type 0
AreWithin low high [] = Unit
AreWithin low high (g ∷ gs) =
    ((n : ℕ) × (score_of (peek g "score") ≡ some n) × (low ≤ n) × (n ≤ high))
    × AreWithin low high gs

sum-within :
    (low high sum : ℕ) (gs : List Value)
    → AreWithin low high gs
    → (t : ℕ) × (sum_scores gs sum ≡ some t)
      × (sum + low * count gs ≤ t)
      × (t ≤ sum + high * count gs)
sum-within low high sum [] h = (sum, refl, omega arith, omega arith)
sum-within low high sum (g ∷ gs) ((n, read, a, b), h) =
    let (t, summed, below, above) = sum-within low high (sum + n) gs h in
    (
      t,
      rw (read, sum_scores) summed,
      omega (arith, below, a, mul-add low (count gs) 1),
      omega (arith, above, b, mul-add high (count gs) 1),
    )

module _ (low high sum total : ℕ) (some_grades : 0 < total) (least : low * total ≤ sum)
    (most : sum ≤ high * total) where
  average-low : low ≤ (2 * sum + total) / (2 * total)
  average-low = (le-div_iff_mul-le (omega (arith, some_grades))).1 (omega (arith, least))

  average-high : (2 * sum + total) / (2 * total) ≤ high
  average-high =
      let below : (2 * sum + total) / (2 * total) < high + 1 =
        (div-lt_iff_lt-mul (omega (arith, some_grades))).1
          (omega (arith, most, some_grades, right_double)) in
      omega (arith, below)
    where
      right_double : (high + 1) * (2 * total) ≡ 2 * (high * total) + 2 * total
      right_double = omega arith

ltb-pos : (n : ℕ) → 0 < n → ltb 0 n ≡ true
ltb-pos n h = ground arith

-- If there are grades and every score is a number between two bounds, the scores have a sum, and the
-- average that it gives lies between the bounds.
pub average_grade-within :
    (low high : ℕ) (g : Value) (gs : List Value)
    → AreWithin low high (g ∷ gs)
    → (sum : ℕ) × (sum_scores (g ∷ gs) 0 ≡ some sum)
      × (low ≤ average_grade sum (count (g ∷ gs)))
      × (average_grade sum (count (g ∷ gs)) ≤ high)
unfolding average_grade
average_grade-within low high g gs h =
    let (sum, summed, below, above) = sum-within low high 0 (g ∷ gs) h in
    let some_grades : 0 < count gs + 1 = omega arith in
    let least : low * (count gs + 1) ≤ sum = omega (arith, below) in
    let most : sum ≤ high * (count gs + 1) = omega (arith, above) in
    (
      sum,
      summed,
      rw (ltb-pos (count gs + 1) some_grades)
          (average-low low high sum (count gs + 1) some_grades least most),
      rw (ltb-pos (count gs + 1) some_grades)
          (average-high low high sum (count gs + 1) some_grades least most),
    )

-- The average is the nearest whole number to the mean, the larger one in the middle.
average_grade-IsNearest :
    (sum total : ℕ)
    → 0 < total
    → (2 * total * average_grade sum total ≤ 2 * sum + total)
      × (2 * sum + total < 2 * total * average_grade sum total + 2 * total)
unfolding average_grade
average_grade-IsNearest sum total h =
    let double : 0 < 2 * total = omega (arith, h) in
    rw (ltb-pos total h) (
      mul-div-le (2 * sum + total) (2 * total),
      omega (
        arith,
        lt-mul-div-succ (2 * sum + total) double,
        mul-add (2 * total) ((2 * sum + total) / (2 * total)) 1,
      ),
    )
