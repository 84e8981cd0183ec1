-- ===== src/Timing/Bounds.antt =====
-- internal/auth/timing.go: the sizes of the target and of the jitter.
use secure_auth_gateway.Prelude.{
  ℕ, zero, suc, ◌*◌, ◌/◌, ◌≤◌, ◌<◌, ◌≡◌, refl, inl, inr, Option, none, some, Option-cases, Text,
  ltb, if◌then◌else◌, arith, ◌+◌,
}
use secure_auth_gateway.Platform.{Platform}
use secure_auth_gateway.Platform.World.{World}
use secure_auth_gateway.Timing.{
  jitter_divisor, safety_numerator, safety_denominator, with_margin, measure_cost, run_once,
  calibrate_verify_cost, failure_delay_target, jitter_below, failure_jitter, worst_cost,
  sample_cost, calibration_samples,
}

module _ (p : Platform) where
  pub with_margin_pos : (worst : ℕ) → 0 < with_margin p worst
  unfolding with_margin
  with_margin_pos worst = ground arith

  pub measure_cost_pos : (encoded : Option Text) (w : World p) → 0 < (measure_cost p encoded w).0
  unfolding measure_cost
  measure_cost_pos none w = omega arith
  measure_cost_pos (some e) w = with_margin_pos (worst_cost p calibration_samples e 0 w).0

  -- The delay target: not yet measured, or positive.
  abbrev pub IsCalibrated : Option ℕ → Type 0
  IsCalibrated none = Unit {0}
  IsCalibrated (some b) = 0 < b

  run_once_pos :
      (b : Option ℕ) (w : World p)
      → w.baseline ≡ b
      → IsCalibrated b
      → (c : ℕ) × ((run_once p b w).1.baseline ≡ some c) × (0 < c)
  unfolding run_once
  run_once_pos none w e h = (_, refl, measure_cost_pos _ _)
  run_once_pos (some b) w e h = (b, e, h)

  -- Calibration leaves a positive target, and a target that is set stays as it is.
  pub calibrate_verify_cost_pos :
      (w : World p)
      → IsCalibrated w.baseline
      → (c : ℕ) × ((calibrate_verify_cost p w).1.baseline ≡ some c) × (0 < c)
  unfolding calibrate_verify_cost
  calibrate_verify_cost_pos w h = run_once_pos w.baseline w refl h

  calibrate_verify_cost_again :
      (w : World p) (b : ℕ) → w.baseline ≡ some b → (calibrate_verify_cost p w).1 ≡ w
  unfolding calibrate_verify_cost run_once
  calibrate_verify_cost_again w b e = ground arith

  pub failure_delay_target_again :
      (w : World p) (b : ℕ) → w.baseline ≡ some b → failure_delay_target p w ≡ (b, w)
  unfolding failure_delay_target calibrate_verify_cost run_once
  failure_delay_target_again w b e = ground arith

  -- Every sample that some rounds of the calibration take has the property.
  abbrev pub EachSample : (ℕ → Type 0) → ℕ → Text → World p → Type 0
  EachSample P zero encoded w = Unit {0}
  EachSample P (suc rounds) encoded w =
      P (sample_cost p encoded w).0 × EachSample P rounds encoded (sample_cost p encoded w).1

  worst_cost-le :
      (rounds : ℕ) (encoded : Text) (worst : ℕ) (w : World p)
      → worst ≤ (worst_cost p rounds encoded worst w).0
  unfolding worst_cost
  worst_cost-le zero encoded worst w = omega arith
  worst_cost-le (suc rounds) encoded worst w =
      let (elapsed, w') = sample_cost p encoded w in
      ground (arith, worst_cost-le rounds encoded elapsed w', worst_cost-le rounds encoded worst w')

  -- The worst cost is at least each sample.
  worst_cost-EachSample :
      (rounds : ℕ) (encoded : Text) (worst : ℕ) (w : World p)
      → EachSample (λ s. s ≤ (worst_cost p rounds encoded worst w).0) rounds encoded w
  unfolding worst_cost
  worst_cost-EachSample zero encoded worst w = tt
  worst_cost-EachSample (suc rounds) encoded worst w =
      let (elapsed, w') = sample_cost p encoded w in
      let next = if ltb worst elapsed then elapsed else worst in
      (
        ground (arith, worst_cost-le rounds encoded next w'),
        worst_cost-EachSample rounds encoded next w',
      )

  EachSample-map :
      {P Q : ℕ → Type 0} (rounds : ℕ) (encoded : Text) (w : World p)
      → ((n : ℕ) → P n → Q n)
      → EachSample P rounds encoded w
      → EachSample Q rounds encoded w
  EachSample-map zero encoded w f e = tt
  EachSample-map (suc rounds) encoded w f (here, later) =
      (f _ here, EachSample-map rounds encoded (sample_cost p encoded w).1 f later)

  with_margin_lem :
      (worst n : ℕ)
      → n ≤ worst
      → n * safety_numerator < (with_margin p worst + 1) * safety_denominator
  unfolding with_margin
  with_margin_lem worst n h = ground arith

  -- The target that a first calibration stores covers each of the five timed checks with the
  -- margin of a quarter, up to the rounding of the division.
  pub target-EachSample :
      (encoded : Text) (w : World p)
      → EachSample
          (λ n.
            n * safety_numerator < ((measure_cost p (some encoded) w).0 + 1) * safety_denominator)
          calibration_samples
          encoded
          w
  unfolding measure_cost
  target-EachSample encoded w =
      EachSample-map calibration_samples encoded w (with_margin_lem _)
        (worst_cost-EachSample calibration_samples encoded 0 w)

  -- `rand.Int` draws below its bound.
  abbrev pub DrawsBelow : Type 0
  DrawsBelow = (call width n : ℕ) → p.rand_int call width ≡ some n → n < width

  jitter_below_le : DrawsBelow → (w : World p) (width : ℕ) → (jitter_below p width w).0 ≤ width
  unfolding jitter_below
  jitter_below_le draws w width = elim (Option-cases (p.rand_int w.tick width)) [
    | inl failed ↦ ground arith
    | inr (n, drawn) ↦ ground (arith, draws w.tick width n drawn)
  ]

  -- The jitter is at most a quarter of the target.
  pub failure_jitter_le :
      DrawsBelow
      → (w : World p) (b : ℕ) → w.baseline ≡ some b
      → (failure_jitter p w).0 * jitter_divisor ≤ b
  unfolding failure_jitter
  failure_jitter_le draws w b e =
      rw (failure_delay_target_again w b e)
        (omega (arith, jitter_below_le draws w (b / jitter_divisor)))
