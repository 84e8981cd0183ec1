-- ===== src/Loadtest/Percentile.antt =====
-- cmd/loadtest/stats.go, lines 206 to 236: `percentile` with its floating-point rank, and `mean`.
use secure_auth_gateway.Prelude.{
  ℕ, zero, suc, ◌+◌, ◌-◌, ◌*◌, ◌/◌, ◌%◌, ◌^◌, Bool, false, ◌&&◌, List, [], ◌∷◌, length, ltb, leb,
  if◌then◌else◌,
}

-- A float64 that is positive and in range, as a quotient.
pub record Float : Type 0 where
  pub numerator : ℕ
  pub denominator : ℕ

-- The numerator is doubled until the quotient has 53 bits: it has `fuel` doublings at most, and
-- 110 are enough for quotients from 2 ^ -58 on.
abbrev doubled : ℕ → ℕ → ℕ → ℕ → Float
doubled zero a b scale = record { numerator = a; denominator = scale }
doubled (suc fuel) a b scale =
    let more = doubled fuel (2 * a) b (2 * scale) in
    if ltb a (2 ^ 52 * b) then more else record { numerator = a; denominator = scale }

-- To nearest, ties to even.
abbrev nearest : ℕ → ℕ → ℕ
nearest a b =
    let q = a / b in
    let rest = 2 * (a % b) in if ltb rest b then q else if ltb b rest then suc q else q + q % 2

-- The float64 next to a quotient.
abbrev rounded_from : Float → ℕ → Float
rounded_from scaled b = record {
  numerator = nearest scaled.numerator b;
  denominator = scaled.denominator;
}

unfoldable pub rounded : ℕ → ℕ → Float
rounded a b = rounded_from (doubled 110 a b 1) b

-- `p/100*float64(n)`, for p the float64 next to a quotient.
unfoldable pub rank_float : Float → ℕ → Float
unfolding rounded
rank_float p n =
    let share = rounded p.numerator (100 * p.denominator) in
    rounded (share.numerator * n) share.denominator

abbrev pub ceiling : Float → ℕ
ceiling f = (f.numerator + (f.denominator - 1)) / f.denominator

-- The element at an index; past the end it is the last one.
abbrev pub element : ℕ → ℕ → List ℕ → ℕ
element last i [] = last
element last zero (x ∷ xs) = x
element last (suc i) (x ∷ xs) = element x i xs

-- `idx`: below 0 it is 0 here, as in the source; the upper bound is in `element`.
unfoldable pub percentile : Float → List ℕ → ℕ
percentile p sorted = element 0 (ceiling (rank_float p (length sorted)) - 1) sorted

abbrev pub total : List ℕ → ℕ
total [] = 0
total (x ∷ xs) = x + total xs

unfoldable pub mean : List ℕ → ℕ
mean [] = 0
mean (x ∷ xs) = total (x ∷ xs) / length (x ∷ xs)

-- The percentiles that are reported; 99.9 is the float64 next to it.
abbrev pub p50 : Float
p50 = record { numerator = 50; denominator = 1 }

unfoldable pub p999 : Float
unfolding rounded
p999 = rounded 999 10

-- `latencyStats`, in nanoseconds.
pub record LatencyStats : Type 0 where
  pub n : ℕ
  pub min : ℕ
  pub at50 : ℕ
  pub at95 : ℕ
  pub at99 : ℕ
  pub at999 : ℕ
  pub max : ℕ
  pub average : ℕ

abbrev pub whole : ℕ → Float
whole p = record { numerator = p; denominator = 1 }

-- `statsFor`: no samples give zeroes.
unfoldable pub stats_for : List ℕ → LatencyStats
unfolding percentile mean p999
stats_for sorted = record {
  n = length sorted;
  min = element 0 0 sorted;
  at50 = percentile p50 sorted;
  at95 = percentile (whole 95) sorted;
  at99 = percentile (whole 99) sorted;
  at999 = percentile p999 sorted;
  max = element 0 (length sorted - 1) sorted;
  average = mean sorted;
}

-- `time.Duration(float64(timeout)*0.98)`
unfoldable pub censor_limit : ℕ → ℕ
unfolding rounded
censor_limit timeout =
    let share = rounded 98 100 in
    let limit = rounded (share.numerator * timeout) share.denominator in
    limit.numerator / limit.denominator

unfoldable pub censored : ℕ → List ℕ → Bool
unfolding censor_limit
censored timeout [] = false
censored timeout (x ∷ xs) =
    ltb 0 timeout && leb (censor_limit timeout) (element 0 (length xs) (x ∷ xs))
