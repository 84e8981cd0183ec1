-- ===== src/Timing.antt =====
-- internal/auth/timing.go: how long a failed login is made to last.
pub mod Bounds
use secure_auth_gateway.Prelude.{
  ℕ, zero, suc, ◌+◌, ◌-◌, ◌*◌, ◌/◌, Option, none, some, Text, codes, ltb, ◌==◌, if◌then◌else◌,
  String,
}
use secure_auth_gateway.Platform.{Platform}
use secure_auth_gateway.Platform.World.{
  World, M, branch, ◌>>=◌, ◌>>◌, pure, time_now, draw_int, takes_time,
}
use secure_auth_gateway.Password.{hash_password, verify_password}

abbrev pub calibration_samples : ℕ
calibration_samples = 5

abbrev pub safety_numerator : ℕ
safety_numerator = 5

abbrev pub safety_denominator : ℕ
safety_denominator = 4

abbrev pub jitter_divisor : ℕ
jitter_divisor = 4

-- 250 milliseconds
abbrev pub fallback_verify_cost : ℕ
fallback_verify_cost = 250000000

module _ (p : Platform) where
  -- One timed check; the clock does not run backwards, so no difference is negative.
  unfoldable pub sample_cost : Text → M p ℕ
  sample_cost encoded = do
    start ← time_now p
    takes_time p (verify_password p (codes "calibration-probe-mismatch") encoded)
    finish ← time_now p
    pure (finish - start)

  -- The loop of `CalibrateVerifyCost`: the rounds left and the worst cost so far.
  unfoldable pub worst_cost : ℕ → Text → ℕ → M p ℕ
  worst_cost zero encoded worst = pure worst
  worst_cost (suc rounds) encoded worst = do
    elapsed ← sample_cost encoded
    worst_cost rounds encoded (if ltb worst elapsed then elapsed else worst)

  unfoldable pub with_margin : ℕ → ℕ
  with_margin worst =
      let cost = worst * safety_numerator / safety_denominator in
      if cost == 0 then fallback_verify_cost else cost

  unfoldable pub measure_cost : Option Text → M p ℕ
  measure_cost none = pure fallback_verify_cost
  measure_cost (some encoded) =
      worst_cost calibration_samples encoded 0 >>= (λ worst. pure (with_margin worst))

  abbrev pub store_baseline : ℕ → M p (Unit {0})
  store_baseline cost w = (tt, record w { baseline = some cost })

  -- `CalibrateVerifyCost`: the body of `calibrateOnce` runs once.
  unfoldable pub run_once : Option ℕ → M p (Unit {0})
  run_once (some baseline) = pure tt
  run_once none = do
    encoded ← hash_password p (codes "calibration-probe-not-a-credential")
    cost ← measure_cost encoded
    store_baseline cost

  unfoldable pub calibrate_verify_cost : M p (Unit {0})
  unfolding run_once
  calibrate_verify_cost w = run_once w.baseline w

  abbrev pub baseline_or_zero : Option ℕ → ℕ
  baseline_or_zero none = 0
  baseline_or_zero (some b) = b

  unfoldable pub failure_delay_target : M p ℕ
  failure_delay_target = calibrate_verify_cost >>= λ _ w. (baseline_or_zero w.baseline, w)

  abbrev pub drawn_or_half : ℕ → Option ℕ → ℕ
  drawn_or_half width none = width / 2
  drawn_or_half width (some n) = n

  unfoldable pub jitter_below : ℕ → M p ℕ
  jitter_below width =
      branch (width == 0) (pure 0) (draw_int p width >>= λ n. pure (drawn_or_half width n))

  unfoldable pub failure_jitter : M p ℕ
  unfolding jitter_below
  failure_jitter = failure_delay_target >>= λ target. jitter_below (target / jitter_divisor)
