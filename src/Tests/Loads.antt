-- ===== src/Tests/Loads.antt =====
-- The statistics of a small load test.
use secure_auth_gateway.Prelude.{◌≤◌, ◌≡◌, refl, true, false, none, some, [], ◌∷◌, codes}
use secure_auth_gateway.Loadtest.Samples.{
  Sample, PhaseResult, throttle_none, throttle_account, all_latencies, corrected_latencies,
  windowed,
}
use secure_auth_gateway.Loadtest.Percentile.{percentile, p50, p999, rank_float, ceiling, whole}
use secure_auth_gateway.Loadtest.Tally.{tally, empty_tally, summarize}
use secure_auth_gateway.Loadtest.Agreement.{IsAgreed, summarize-tally}
use secure_auth_gateway.Loadtest.Distributions.{percentile-corrected}

abbrev accepted : Sample
accepted = record {
  at = 30;
  ip = codes "10.0.0.1";
  latency = 7;
  status = 201;
  err = none;
  throttle = throttle_none;
  scheduled_at = some 20;
  in_window = true;
}

abbrev locked : Sample
locked = record accepted { status = 429; throttle = throttle_account; latency = 2; at = 21 }

abbrev dropped : Sample
dropped = record accepted {
  err = some (record { in_flight_cap = true; timed_out = false; message = codes "cap" });
  latency = 0;
}

abbrev phase : PhaseResult
phase = record {
  samples = accepted ∷ locked ∷ dropped ∷ accepted ∷ [];
  ok_status = 201;
  timeout = 50;
}

-- The p99.9 of a thousand samples is the largest one, since 99.9/100*1000 rounds to above 999.
rank_p999 : ceiling (rank_float p999 1000) ≡ 1000
unfolding rank_float p999
rank_p999 = refl

rank_p99 : ceiling (rank_float (whole 99) 1000) ≡ 990
unfolding rank_float
rank_p99 = refl

summarize-tally_example : IsAgreed phase (tally (windowed phase) empty_tally) (summarize phase)
summarize-tally_example = summarize-tally phase

percentile-corrected_example :
    percentile p50 (all_latencies phase) ≤ percentile p50 (corrected_latencies phase)
percentile-corrected_example = percentile-corrected p50 phase
