-- ===== src/Loadtest/Agreement.antt =====
-- The counts of `report` (cmd/loadtest/stats.go) beside those of `summarize` (summary.go).
use secure_auth_gateway.Prelude.{
  ℕ, suc, ◌+◌, ◌≡◌, refl, ap, sym, false, Option, none, some, List, [], ◌∷◌, ◌==◌, length, arith,
  Bool-cases, inl, inr, ◌∙◌,
}
use secure_auth_gateway.Loadtest.Samples.{Sample, Failure, classify, PhaseResult, windowed}
use secure_auth_gateway.Loadtest.Tally.{
  Counts, count_of, increment, Tally, empty_tally, tally, tally_sample, non_ok, Totals, totals,
  total_sample, PhaseSummary, no_errors, summarize, count_error,
}

abbrev sum_counts : Counts → ℕ
sum_counts [] = 0
sum_counts ((j, n) ∷ rest) = n + sum_counts rest

-- Keys that occur once, as in a map.
abbrev Absent : ℕ → Counts → Type 0
Absent k [] = Unit {0}
Absent k ((j, n) ∷ rest) = ((j == k) ≡ false) × Absent k rest

abbrev Distinct : Counts → Type 0
Distinct [] = Unit {0}
Distinct ((j, n) ∷ rest) = Absent j rest × Distinct rest

Absent-increment : (j k : ℕ) (m : Counts) → (k == j) ≡ false → Absent j m → Absent j (increment k m)
unfolding increment
Absent-increment j k [] h a = (h, tt)
Absent-increment j k ((i, n) ∷ rest) h (a, b) = elim (Bool-cases (i == k)) [
  | inl same ↦ rw same (a, b)
  | inr other ↦ rw other (a, Absent-increment j k rest h b)
]

Distinct-increment : (k : ℕ) (m : Counts) → Distinct m → Distinct (increment k m)
unfolding increment
Distinct-increment k [] d = (tt, tt)
Distinct-increment k ((i, n) ∷ rest) (a, d) = elim (Bool-cases (i == k)) [
  | inl same ↦ rw same (a, d)
  | inr other ↦ rw other (Absent-increment i k rest (ground arith) a, Distinct-increment k rest d)
]

sum_counts-increment : (k : ℕ) (m : Counts) → sum_counts (increment k m) ≡ suc (sum_counts m)
unfolding increment
sum_counts-increment k [] = refl
sum_counts-increment k ((j, n) ∷ rest) = elim (Bool-cases (j == k)) [
  | inl same ↦ rw same (omega arith)
  | inr other ↦ rw other (omega (arith, sum_counts-increment k rest))
]

non_ok-Absent : (ok : ℕ) (m : Counts) → Absent ok m → non_ok ok m ≡ sum_counts m
unfolding non_ok
non_ok-Absent ok [] a = refl
non_ok-Absent ok ((j, n) ∷ rest) (a, b) = ground (arith, non_ok-Absent ok rest b)

-- In a map the accepted ones and the others are all.
non_ok_lem : (ok : ℕ) (m : Counts) → Distinct m → count_of ok m + non_ok ok m ≡ sum_counts m
unfolding non_ok
non_ok_lem ok [] d = refl
non_ok_lem ok ((j, n) ∷ rest) (a, d) = elim (Bool-cases (j == ok)) [
  | inl same ↦
      let e : j ≡ ok = ground arith in rw same (ap (λ x. n + x) (non_ok-Absent ok rest (rw e at a)))
  | inr other ↦ rw other (omega (arith, non_ok_lem ok rest d))
]

-- What the two loops share.
pub record Agree (t : Tally) (u : Totals) : Type 0 where
  pub statuses : t.statuses ≡ u.codes
  pub errs : t.errs ≡ u.errors
  pub transport : t.err_total ≡ u.transport

sample-Agree :
    (e : Option Failure) (s : Sample) (t : Tally) (u : Totals)
    → Agree t u
    → Agree (tally_sample e s t) (total_sample e s u)
unfolding tally_sample total_sample
sample-Agree none s t u a = record {
  statuses = ap (increment s.status) a.statuses;
  errs = a.errs;
  transport = a.transport;
}
sample-Agree (some e) s t u a = record {
  statuses = a.statuses;
  errs = ap (count_error (classify e)) a.errs;
  transport = ap (λ n. suc n) a.transport;
}

tally-Agree :
    (ss : List Sample) (t : Tally) (u : Totals) → Agree t u → Agree (tally ss t) (totals ss u)
unfolding tally totals
tally-Agree [] t u a = a
tally-Agree (s ∷ ss) t u a =
    tally-Agree ss (tally_sample s.err s t) (total_sample s.err s u) (sample-Agree s.err s t u a)

sample-counted :
    (e : Option Failure) (s : Sample) (u : Totals)
    → sum_counts (total_sample e s u).codes + (total_sample e s u).transport
      ≡ suc (sum_counts u.codes + u.transport)
unfolding total_sample
sample-counted none s u = omega (arith, sum_counts-increment s.status u.codes)
sample-counted (some e) s u = omega arith

sample-Distinct :
    (e : Option Failure) (s : Sample) (u : Totals)
    → Distinct u.codes
    → Distinct (total_sample e s u).codes
unfolding total_sample
sample-Distinct none s u d = Distinct-increment s.status u.codes d
sample-Distinct (some e) s u d = d

totals-counted :
    (ss : List Sample) (u : Totals)
    → sum_counts (totals ss u).codes + (totals ss u).transport
      ≡ length ss + (sum_counts u.codes + u.transport)
unfolding totals
totals-counted [] u = omega arith
totals-counted (s ∷ ss) u =
    omega (arith, totals-counted ss (total_sample s.err s u), sample-counted s.err s u)

totals-Distinct : (ss : List Sample) (u : Totals) → Distinct u.codes → Distinct (totals ss u).codes
unfolding totals
totals-Distinct [] u d = d
totals-Distinct (s ∷ ss) u d =
    totals-Distinct ss (total_sample s.err s u) (sample-Distinct s.err s u d)

-- The summary of a phase has the counts of the printed report, where the number of other answers is
-- a sum over the status codes; and accepted, other and failed requests add up to all of them.
pub record IsAgreed (r : PhaseResult) (t : Tally) (s : PhaseSummary) : Type 0 where
  pub accepted : s.accepted ≡ count_of r.ok_status t.statuses
  pub non_ok_sum : s.non_ok ≡ non_ok r.ok_status t.statuses
  pub transport_errors : s.transport_errors ≡ t.err_total
  pub errors : s.errors ≡ t.errs
  pub status_codes : s.status_codes ≡ t.statuses
  pub all : s.accepted + s.non_ok + s.transport_errors ≡ s.total_requests
  pub failures : s.accepted + s.failed ≡ s.total_requests

-- The summary of a phase agrees with the printed report, and each request in the window is counted
-- as exactly one of accepted, answered otherwise, and failed.
pub summarize-tally : (r : PhaseResult) → IsAgreed r (tally (windowed r) empty_tally) (summarize r)
unfolding summarize
summarize-tally r =
    let start : Totals = record { codes = []; errors = no_errors; transport = 0 } in
    let u = totals (windowed r) start in
    let a =
      tally-Agree (windowed r) empty_tally start
        (record { statuses = refl; errs = refl; transport = refl }) in
    let counted = totals-counted (windowed r) start in
    let split = non_ok_lem r.ok_status u.codes (totals-Distinct (windowed r) start tt) in
    record {
      accepted = ap (count_of r.ok_status) (sym a.statuses);
      non_ok_sum = omega (arith, counted, split) ∙ ap (non_ok r.ok_status) (sym a.statuses);
      transport_errors = sym a.transport;
      errors = sym a.errs;
      status_codes = sym a.statuses;
      all = omega (arith, counted, split);
      failures = omega (arith, counted, split);
    }
