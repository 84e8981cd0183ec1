-- ===== src/History/Parts.antt =====
-- internal/redis_db/lockout.go, internal/auth/password.go and timing.go against an invariant.
use secure_auth_gateway.Prelude.{
  ℕ, zero, suc, inl, inr, Bool-cases, Option-cases, Option, none, some, Text, ◌==◌, ltb,
}
use secure_auth_gateway.Http.{Credentials}
use secure_auth_gateway.Platform.{Platform}
use secure_auth_gateway.Platform.Redis.{incr, get, Reply, value, count}
use secure_auth_gateway.Platform.World.{World, redis_call}
use secure_auth_gateway.Lockout
use secure_auth_gateway.Password.{hash_password}
use secure_auth_gateway.Timing
use secure_auth_gateway.Timing.Bounds.{measure_cost_pos}
use secure_auth_gateway.Handlers.Responses
use secure_auth_gateway.Handlers.Responses.{AuthHandler}
use secure_auth_gateway.History.Keeps.{Keeps, Kept}

module _ {p : Platform} {I : World p → Type 0} {Fresh : Text → Type 0}
    {Asked : Credentials → Type 0} (k : Kept p I Fresh Asked) where
  start_window-Keeps :
      (email : Text) (reply : Reply)
      → Keeps I (Lockout.start_window p (Lockout.lockout_key p email) reply)
  unfolding Lockout.start_window
  start_window-Keeps email (value (count n)) w i = elim (Bool-cases (n == 1)) [
    | inl first ↦ rw first (k.bounding email w i)
    | inr later ↦ rw later i
  ]
  start_window-Keeps email _ w i = i

  pub record_failure-Keeps : (email : Text) → Keeps I (Lockout.record_failure p email)
  unfolding Lockout.record_failure
  record_failure-Keeps email w i =
      start_window-Keeps email (redis_call p (incr (Lockout.lockout_key p email)) w).0 _
        (k.counting email w i)

  check_budget-Keeps :
      (email : Text) (reply : Reply)
      → Keeps I (Lockout.check_budget p (Lockout.lockout_key p email) reply)
  unfolding Lockout.check_budget
  check_budget-Keeps email (value (count n)) w i =
      elim (Bool-cases (ltb n Lockout.max_login_failures)) [
        | inl low ↦ rw low i
        | inr spent ↦ rw spent (k.timing email w i)
      ]
  check_budget-Keeps email _ w i = i

  pub is_locked-Keeps : (email : Text) → Keeps I (Lockout.is_locked p email)
  unfolding Lockout.is_locked
  is_locked-Keeps email w i =
      check_budget-Keeps email (redis_call p (get (Lockout.lockout_key p email)) w).0 _
        (k.reading email w i)

  pub reset_failures-Keeps : (email : Text) → Keeps I (Lockout.reset_failures p email)
  unfolding Lockout.reset_failures
  reset_failures-Keeps email w i = k.clearing email w i

  pub hash_password-Keeps : (password : Text) → Keeps I (hash_password p password)
  unfolding hash_password
  hash_password-Keeps password w i = elim (Option-cases (p.salt w.tick)) [
    | inl failed ↦ rw failed (k.elapsing w i)
    | inr (salt, drawn) ↦ rw drawn (k.elapsing _ (k.elapsing w i))
  ]

  sample_cost-Keeps : (encoded : Text) → Keeps I (Timing.sample_cost p encoded)
  unfolding Timing.sample_cost
  sample_cost-Keeps encoded w i = k.elapsing _ (k.elapsing _ (k.elapsing w i))

  worst_cost-Keeps :
      (rounds : ℕ) (encoded : Text) (worst : ℕ) → Keeps I (Timing.worst_cost p rounds encoded worst)
  unfolding Timing.worst_cost
  worst_cost-Keeps zero encoded worst w i = i
  worst_cost-Keeps (suc rounds) encoded worst w i =
      worst_cost-Keeps rounds encoded _ _ (sample_cost-Keeps encoded w i)

  measure_cost-Keeps : (encoded : Option Text) → Keeps I (Timing.measure_cost p encoded)
  unfolding Timing.measure_cost
  measure_cost-Keeps none w i = i
  measure_cost-Keeps (some encoded) w i = worst_cost-Keeps Timing.calibration_samples encoded 0 w i

  run_once-Keeps : (b : Option ℕ) → Keeps I (Timing.run_once p b)
  unfolding Timing.run_once
  run_once-Keeps none w i =
      k.calibrating _ (measure_cost_pos p _ _) _
        (measure_cost-Keeps _ _ (hash_password-Keeps _ w i))
  run_once-Keeps (some b) w i = i

  failure_delay_target-Keeps : Keeps I (Timing.failure_delay_target p)
  unfolding Timing.failure_delay_target Timing.calibrate_verify_cost
  failure_delay_target-Keeps w i = run_once-Keeps w.baseline w i

  jitter_below-Keeps : (width : ℕ) → Keeps I (Timing.jitter_below p width)
  unfolding Timing.jitter_below
  jitter_below-Keeps width w i = elim (Bool-cases (width == 0)) [
    | inl no_width ↦ rw no_width i
    | inr some_width ↦ rw some_width (k.elapsing w i)
  ]

  failure_jitter-Keeps : Keeps I (Timing.failure_jitter p)
  unfolding Timing.failure_jitter
  failure_jitter-Keeps w i = jitter_below-Keeps _ _ (failure_delay_target-Keeps w i)

  wait_remaining-Keeps : (remaining : ℕ) → Keeps I (Responses.wait_remaining p remaining)
  unfolding Responses.wait_remaining
  wait_remaining-Keeps remaining w i = elim (Bool-cases (remaining == 0)) [
    | inl over ↦ rw over i
    | inr more ↦ rw more (k.waiting (Responses.cut_short (p.hung_up w.tick) remaining) w i)
  ]

  pub pad_failure-Keeps : (start : ℕ) → Keeps I (Responses.pad_failure p start)
  unfolding Responses.pad_failure
  pad_failure-Keeps start w i =
      wait_remaining-Keeps _ _
        (k.elapsing _ (failure_jitter-Keeps _ (failure_delay_target-Keeps w i)))
