-- ===== src/Loadtest/Config.antt =====
-- cmd/loadtest/main.go: the configuration of a load test, the checks in front of a run, and the
-- size of the open-loop generator.
use secure_auth_gateway.Prelude.{
  ℕ, zero, suc, ◌*◌, ◌/◌, ◌≤◌, ◌≡◌, Bool, true, false, not, ◌&&◌, ◌||◌, Option, none, some, Text,
  codes, text_eq, ltb, if◌then◌else◌, ℤ, pos, negsuc, arith,
}
use secure_auth_gateway.Platform.Redis.{second}
use secure_auth_gateway.Loadtest.Percentile.{Float, rounded}

-- The flags that the checks and the generator read. The rate is a float64: a quotient.
pub record Config : Type 0 where
  pub target : Text
  pub phase : Text
  pub users : ℤ
  pub ips : ℤ
  pub rate : ℤ
  pub rate_scale : ℕ
  pub max_in_fl : ℤ
  pub workers : ℤ

abbrev pub is_positive : ℤ → Bool
is_positive (pos zero) = false
is_positive (pos (suc n)) = true
is_positive (negsuc n) = false

abbrev is_negative : ℤ → Bool
is_negative (pos n) = false
is_negative (negsuc n) = true

-- The value of a number that is not negative.
abbrev pub natural : ℤ → ℕ
natural (pos n) = n
natural (negsuc n) = 0

abbrev pub open_loop : Config → Bool
open_loop c = is_positive c.rate

abbrev pub ok_status : Config → ℕ
ok_status c =
    if text_eq c.target (codes "health")
    then 200
    else if text_eq c.target (codes "timing")
    then 401
    else 201

pub data ConfigError : Type 0 where
  few_users few_ips unknown_phase unknown_target negative_rate few_in_flight : ConfigError
  rate_with_limiter : ConfigError

abbrev pub run_limiter : Config → Bool
run_limiter c = text_eq c.phase (codes "both") || text_eq c.phase (codes "limiter")

abbrev pub run_compute : Config → Bool
run_compute c = text_eq c.phase (codes "both") || text_eq c.phase (codes "compute")

-- The error that `run` returns before it does anything.
unfoldable pub config_error : Config → Option ConfigError
config_error c =
    if not (is_positive c.users)
    then some few_users
    else if not (is_positive c.ips)
    then some few_ips
    else if not (run_limiter c) && not (run_compute c)
    then some unknown_phase
    else if not (text_eq c.target (codes "login"))
        && not (text_eq c.target (codes "health"))
        && not (text_eq c.target (codes "timing"))
    then some unknown_target
    else if is_negative c.rate
    then some negative_rate
    else if open_loop c && not (is_positive c.max_in_fl)
    then some few_in_flight
    else if open_loop c
        && (text_eq c.phase (codes "limiter") || text_eq c.phase (codes "both"))
        && text_eq c.target (codes "login")
    then some rate_with_limiter
    else none

-- The number of senders in the open loop: a quarter of a second at the offered rate, unless given.
abbrev at_most : ℕ → ℕ → ℕ
at_most cap n = if ltb cap n then cap else n

abbrev auto_workers : Config → ℕ
auto_workers c =
    let quarter = natural c.rate / (4 * c.rate_scale) in if ltb quarter 256 then 256 else quarter

unfoldable pub workers_for : Config → ℕ
workers_for c =
    at_most (natural c.max_in_fl)
      (if is_positive c.workers then natural c.workers else auto_workers c)

abbrev whole_part : Float → ℕ
whole_part f = f.numerator / f.denominator

-- `time.Duration(float64(time.Second) / cfg.rate)`
unfoldable pub period_for : Config → ℕ
unfolding rounded
period_for c = whole_part (rounded (second * c.rate_scale) (natural c.rate))

pub record IsReady (c : Config) : Type 0 where
  pub some_worker : 1 ≤ workers_for c
  pub in_bounds : workers_for c ≤ natural c.max_in_fl
  pub only_compute :
      text_eq c.target (codes "login") ≡ true → (run_compute c ≡ true) × (run_limiter c ≡ false)

-- A configuration that `run` accepts and that asks for the open loop gives it at least one sender
-- and at most as many as requests in flight, and for the login target only the compute phase.
pub config_error-IsReady : (c : Config) → config_error c ≡ none → open_loop c ≡ true → IsReady c
unfolding config_error workers_for
config_error-IsReady c accepted looped = record {
  some_worker = ground arith;
  in_bounds = ground arith;
  only_compute = λ login. ground arith;
}
