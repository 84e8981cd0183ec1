-- ===== src/Loadtest/Samples.antt =====
-- cmd/loadtest/stats.go, lines 18 to 204: samples, their errors, and the distributions of a phase.
use secure_auth_gateway.Prelude.{
  ℕ, ◌+◌, ◌-◌, Bool, true, false, not, ◌&&◌, ◌||◌, Option, none, some, List, [], ◌∷◌, Text, codes,
  leb, ◌==◌, if◌then◌else◌,
}

-- What `classify` asks of an error: whether it is `errInFlightCap`, whether it is a network error
-- that timed out, and its message.
pub record Failure : Type 0 where
  pub in_flight_cap : Bool
  pub timed_out : Bool
  pub message : Text

pub data ThrottleKind : Type 0 where
  throttle_none throttle_ip throttle_account : ThrottleKind

pub data ErrKind : Type 0 where
  err_timeout err_refused err_reset_eof err_capacity err_other_kind : ErrKind

-- Times are nanoseconds; `scheduled_at` is `none` for the zero time.
pub record Sample : Type 0 where
  pub at : ℕ
  pub ip : Text
  pub latency : ℕ
  pub status : ℕ
  pub err : Option Failure
  pub throttle : ThrottleKind
  pub scheduled_at : Option ℕ
  pub in_window : Bool

-- A difference of times that is negative is 0 here, as in the source.
abbrev pub lag_after : Option ℕ → ℕ → ℕ
lag_after none at = 0
lag_after (some due) at = at - due

abbrev pub sched_lag : Sample → ℕ
sched_lag s = lag_after s.scheduled_at s.at

-- `strings.Contains`
abbrev pub is_prefix : Text → Text → Bool
is_prefix [] s = true
is_prefix (c ∷ p) [] = false
is_prefix (c ∷ p) (d ∷ s) = (c == d) && is_prefix p s

abbrev pub contains : Text → Text → Bool
contains [] part = is_prefix part []
contains (c ∷ s) part = is_prefix part (c ∷ s) || contains s part

unfoldable pub classify : Failure → ErrKind
classify e =
    if e.in_flight_cap
    then err_capacity
    else if e.timed_out
    then err_timeout
    else if contains e.message (codes "connection refused")
    then err_refused
    else if contains e.message (codes "EOF")
        || contains e.message (codes "connection reset")
        || contains e.message (codes "broken pipe")
    then err_reset_eof
    else err_other_kind

-- What the statistics read of a phase.
pub record PhaseResult : Type 0 where
  pub samples : List Sample
  pub ok_status : ℕ
  pub timeout : ℕ

abbrev pub keep_if : (Sample → Bool) → List Sample → List Sample
keep_if test [] = []
keep_if test (s ∷ ss) = if test s then s ∷ keep_if test ss else keep_if test ss

unfoldable pub windowed : PhaseResult → List Sample
windowed r = keep_if (λ s. s.in_window) r.samples

abbrev pub insert_sorted : ℕ → List ℕ → List ℕ
insert_sorted x [] = x ∷ []
insert_sorted x (y ∷ ys) = if leb x y then x ∷ y ∷ ys else y ∷ insert_sorted x ys

-- `sort.Slice` in ascending order.
abbrev pub sort_ascending : List ℕ → List ℕ
sort_ascending [] = []
sort_ascending (x ∷ xs) = insert_sorted x (sort_ascending xs)

abbrev pub values : (Sample → ℕ) → List Sample → List ℕ
values f [] = []
values f (s ∷ ss) = f s ∷ values f ss

abbrev pub is_accepted : ℕ → Option Failure → ℕ → Bool
is_accepted wanted none status = status == wanted
is_accepted wanted (some e) status = false

unfoldable pub latencies : ℕ → PhaseResult → List ℕ
latencies status r = sort_ascending (
    values (λ s. s.latency)
      (keep_if (λ s. s.in_window && is_accepted status s.err s.status) r.samples))

abbrev pub was_sent : Option Failure → Bool
was_sent none = true
was_sent (some e) = not e.in_flight_cap

abbrev pub timed : Sample → Bool
timed s = was_sent s.err

unfoldable pub all_latencies : PhaseResult → List ℕ
all_latencies r =
    sort_ascending (values (λ s. s.latency) (keep_if (λ s. s.in_window && timed s) r.samples))

unfoldable pub corrected_latencies : PhaseResult → List ℕ
corrected_latencies r =
    sort_ascending
      (values (λ s. s.latency + sched_lag s) (keep_if (λ s. s.in_window && timed s) r.samples))

abbrev pub is_scheduled : Option ℕ → Bool
is_scheduled none = false
is_scheduled (some due) = true

unfoldable pub sched_lags : PhaseResult → List ℕ
sched_lags r =
    sort_ascending
      (values sched_lag (keep_if (λ s. s.in_window && is_scheduled s.scheduled_at) r.samples))
