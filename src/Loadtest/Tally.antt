-- ===== src/Loadtest/Tally.antt =====
-- The counts of a phase: the loop of `report` (cmd/loadtest/stats.go) and the one of `summarize`
-- (cmd/loadtest/summary.go).
use secure_auth_gateway.Prelude.{
  ℕ, suc, ◌+◌, ◌-◌, Option, none, some, List, [], ◌∷◌, ◌==◌, length, if◌then◌else◌,
}
use secure_auth_gateway.Loadtest.Samples.{
  Sample, Failure, ErrKind, err_timeout, err_refused, err_reset_eof, err_capacity, err_other_kind,
  ThrottleKind, throttle_none, throttle_ip, throttle_account, classify, PhaseResult, windowed,
}

-- A map of counts; a missing key counts 0.
abbrev pub Counts : Type 0
Counts = List (ℕ × ℕ)

abbrev pub count_of : ℕ → Counts → ℕ
count_of k [] = 0
count_of k ((j, n) ∷ rest) = if j == k then n else count_of k rest

-- `m[k]++`
unfoldable pub increment : ℕ → Counts → Counts
increment k [] = (k, 1) ∷ []
increment k ((j, n) ∷ rest) = if j == k then (j, suc n) ∷ rest else (j, n) ∷ increment k rest

-- The maps with few keys have a number for each.
pub record ErrCounts : Type 0 where
  pub timeout : ℕ
  pub refused : ℕ
  pub reset_eof : ℕ
  pub capacity : ℕ
  pub other : ℕ

abbrev pub count_error : ErrKind → ErrCounts → ErrCounts
count_error err_timeout m = record m { timeout = suc m.timeout }
count_error err_refused m = record m { refused = suc m.refused }
count_error err_reset_eof m = record m { reset_eof = suc m.reset_eof }
count_error err_capacity m = record m { capacity = suc m.capacity }
count_error err_other_kind m = record m { other = suc m.other }

pub record ThrottleCounts : Type 0 where
  pub ip : ℕ
  pub account : ℕ

abbrev pub count_throttle : ThrottleKind → ThrottleCounts → ThrottleCounts
count_throttle throttle_none m = m
count_throttle throttle_ip m = record m { ip = suc m.ip }
count_throttle throttle_account m = record m { account = suc m.account }

-- The maps of `report` and the number of errors.
pub record Tally : Type 0 where
  pub statuses : Counts
  pub errs : ErrCounts
  pub throttles : ThrottleCounts
  pub err_total : ℕ

abbrev pub no_errors : ErrCounts
no_errors = record { timeout = 0; refused = 0; reset_eof = 0; capacity = 0; other = 0 }

abbrev pub empty_tally : Tally
empty_tally = record {
  statuses = [];
  errs = no_errors;
  throttles = record { ip = 0; account = 0 };
  err_total = 0;
}

unfoldable pub tally_sample : Option Failure → Sample → Tally → Tally
unfolding classify increment
tally_sample (some e) s t = record t {
  errs = count_error (classify e) t.errs;
  err_total = suc t.err_total;
}
tally_sample none s t = record t {
  statuses = increment s.status t.statuses;
  throttles = count_throttle s.throttle t.throttles;
}

-- The loop of `report`, in the order of the samples.
unfoldable pub tally : List Sample → Tally → Tally
unfolding tally_sample
tally [] t = t
tally (s ∷ ss) t = tally ss (tally_sample s.err s t)

-- `nonOK` of `report`: the sum over the other status codes.
unfoldable pub non_ok : ℕ → Counts → ℕ
non_ok ok [] = 0
non_ok ok ((code, n) ∷ rest) = if code == ok then non_ok ok rest else n + non_ok ok rest

-- The loop of `summarize`.
pub record Totals : Type 0 where
  pub codes : Counts
  pub errors : ErrCounts
  pub transport : ℕ

unfoldable pub total_sample : Option Failure → Sample → Totals → Totals
unfolding classify increment
total_sample (some e) s t = record t {
  errors = count_error (classify e) t.errors;
  transport = suc t.transport;
}
total_sample none s t = record t { codes = increment s.status t.codes }

unfoldable pub totals : List Sample → Totals → Totals
unfolding total_sample
totals [] t = t
totals (s ∷ ss) t = totals ss (total_sample s.err s t)

-- The counts of `phaseSummary`.
pub record PhaseSummary : Type 0 where
  pub total_requests : ℕ
  pub accepted : ℕ
  pub transport_errors : ℕ
  pub non_ok : ℕ
  pub failed : ℕ
  pub errors : ErrCounts
  pub status_codes : Counts

-- The differences are written as in the source; that they do not go below 0 is a theorem.
abbrev pub summary_of : ℕ → ℕ → Totals → PhaseSummary
summary_of ok requests t = record {
  total_requests = requests;
  accepted = count_of ok t.codes;
  transport_errors = t.transport;
  non_ok = requests - t.transport - count_of ok t.codes;
  failed = t.transport + (requests - t.transport - count_of ok t.codes);
  errors = t.errors;
  status_codes = t.codes;
}

unfoldable pub summarize : PhaseResult → PhaseSummary
unfolding windowed totals
summarize r =
    summary_of r.ok_status (length (windowed r))
      (totals (windowed r) (record { codes = []; errors = no_errors; transport = 0 }))
