-- ===== src/Tests/Reports.antt =====
-- A small load report.
use secure_auth_gateway.Prelude.{
  ℕ, ◌+◌, ◌/◌, ◌≡◌, refl, false, true, Option, none, some, List, [], ◌∷◌, Text, codes, ltb, pos,
  negsuc, decimal, text_eq,
}
use secure_auth_gateway.Loadreport.Commas.{commas, signed, magnitude, IsGrouped, commas-IsGrouped}
use secure_auth_gateway.Loadreport.Rates.{rps}
use secure_auth_gateway.Loadreport.Aggregate.{Floats, CpuSample, aggregate}
use secure_auth_gateway.Loadreport.Aggregate.Counting.{IsCounted, aggregate-IsCounted}
use secure_auth_gateway.Loadreport.Report.{Phase, Summary, Opts, written, failed, no_phases, run}

groups_digits : commas (pos 402360) ≡ codes "402,360"
unfolding commas decimal
groups_digits = refl

groups_negative : commas (negsuc 999) ≡ codes "-1,000"
unfolding commas decimal
groups_negative = refl

-- 13412.25, and 12.96875, which is printed as "121.0".
rates_are_grouped : rps false 13412 1 4 ≡ codes "13,412.2"
unfolding rps decimal
rates_are_grouped = refl

carries_into_the_text : rps false 12 31 32 ≡ codes "121.0"
unfolding rps decimal
carries_into_the_text = refl

commas-IsGrouped_example :
    (text : Text) × (commas (negsuc 402359) ≡ signed (negsuc 402359) text)
    × IsGrouped (decimal (magnitude (negsuc 402359))) text
commas-IsGrouped_example = commas-IsGrouped (negsuc 402359)

-- Percentages in hundredths, whose sums are exact.
abbrev hundredths : Floats
hundredths = record {
  F = ℕ;
  zero_float = 0;
  add = ◌+◌;
  over = λ sum n. sum / n;
  above = λ a b. ltb b a;
}

abbrev poll : ℕ → Text → ℕ → CpuSample hundredths
poll at container cpu = record { at = at; container = container; cpu = cpu }

abbrev polls : List (CpuSample hundredths)
polls =
    poll 5 (codes "redis") 900
    ∷ poll 10 (codes "redis") 300
    ∷ poll 10 (codes "app1") 9000
    ∷ poll 20 (codes "redis") 500
    ∷ poll 20 (codes "app1") 7000
    ∷ []

combined : (aggregate hundredths polls 10 20).combined_peak ≡ 9300
unfolding aggregate
combined = refl

aggregate-IsCounted_example : IsCounted hundredths polls 10 20 (aggregate hundredths polls 10 20)
aggregate-IsCounted_example = aggregate-IsCounted hundredths polls 10 20

abbrev phase : Text → Phase ℕ
phase name = record { name = name; figures = 7 }

abbrev summary : Text → Option (Summary ℕ)
summary path =
    some
      (record { concurrency = 50; phases = phase (codes "limiter") ∷ phase (codes "compute") ∷ [] })

abbrev no_cpu : Text → Option ℕ
no_cpu path = none

abbrev opts : Opts
opts = record {
  json_path = codes "run.json";
  cpu_path = [];
  out_path = codes "run.md";
  has_cores = true;
  concurrency = 0;
}

writes :
    run summary no_cpu opts
    ≡ written (record { phase = phase (codes "compute"); concurrency = 50; cpu = none })
unfolding run text_eq
writes = refl

-- A summary without phases.
abbrev no_phase : Text → Option (Summary ℕ)
no_phase path = some (record { concurrency = 50; phases = [] })

fails : run no_phase no_cpu opts ≡ failed no_phases
unfolding run text_eq
fails = refl
