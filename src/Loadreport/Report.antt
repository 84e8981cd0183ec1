-- ===== src/Loadreport/Report.antt =====
-- cmd/loadreport/main.go: the checks of `run`, and the phase that the report is about. The write of
-- the file is left out.
pub mod Endings
use secure_auth_gateway.Prelude.{
  ℕ, ◌≡◌, refl, ap, ◌∙◌, inl, inr, Bool, true, false, ◌||◌, not, Bool-cases, Option, none, some,
  List, [], ◌∷◌, ◌++◌, Text, codes, text_eq, ◌==◌, if◌then◌else◌, ◌⊎◌, All,
}

-- What the choice of the phase reads of it, and the figures that go with it.
pub record Phase (Figures : Type 0) : Type 0 where
  pub name : Text
  pub figures : Figures

pub record Summary (Figures : Type 0) : Type 0 where
  pub concurrency : ℕ
  pub phases : List (Phase Figures)

-- The options that `run` reads; `has_cores` is `cores > 0`.
pub record Opts : Type 0 where
  pub json_path : Text
  pub cpu_path : Text
  pub out_path : Text
  pub has_cores : Bool
  pub concurrency : ℕ

pub data RunError : Type 0 where
  missing_path no_cores unreadable no_phases : RunError

module _ {Figures : Type 0} where
  abbrev pub is_headline : Phase Figures → Bool
  is_headline p = text_eq p.name (codes "compute") || text_eq p.name (codes "health")

  abbrev last_phase : Phase Figures → List (Phase Figures) → Phase Figures
  last_phase p [] = p
  last_phase p (q ∷ qs) = last_phase q qs

  abbrev first_headline : List (Phase Figures) → Option (Phase Figures)
  first_headline [] = none
  first_headline (p ∷ ps) = let rest = first_headline ps in if is_headline p then some p else rest

  -- `none` is the index out of range of a summary with no phases.
  abbrev or_last : Option (Phase Figures) → List (Phase Figures) → Option (Phase Figures)
  or_last (some p) ps = some p
  or_last none [] = none
  or_last none (p ∷ ps) = some (last_phase p ps)

  unfoldable pub headline : List (Phase Figures) → Option (Phase Figures)
  headline ps = or_last (first_headline ps) ps

-- A report that is written: its phase, the concurrency in its header, and the CPU samples.
pub record Report (Figures Cpu : Type 0) : Type 0 where
  pub phase : Phase Figures
  pub concurrency : ℕ
  pub cpu : Option Cpu

pub data Outcome (Figures Cpu : Type 0) : Type 0 where
  failed : RunError → Outcome Figures Cpu
  panics : Outcome Figures Cpu
  written : Report Figures Cpu → Outcome Figures Cpu

-- `read_summary` and `read_cpu` read the files; `none` is an error.
module _ {Figures Cpu : Type 0} (read_summary : Text → Option (Summary Figures))
    (read_cpu : Text → Option Cpu) where
  abbrev cpu_of : Text → Option Cpu
  cpu_of [] = none
  cpu_of (c ∷ path) = read_cpu (c ∷ path)

  abbrev write_report : Opts → ℕ → Option (Phase Figures) → Outcome Figures Cpu
  write_report o n none = panics
  write_report o n (some p) = written (record {
    phase = p;
    concurrency = if o.concurrency == 0 then n else o.concurrency;
    cpu = cpu_of o.cpu_path;
  })

  unfoldable pub report_phases : Opts → ℕ → List (Phase Figures) → Outcome Figures Cpu
  unfolding headline
  report_phases o n [] = failed no_phases
  report_phases o n (p ∷ ps) = write_report o n (headline (p ∷ ps))

  unfoldable pub report_summary : Opts → Option (Summary Figures) → Outcome Figures Cpu
  unfolding report_phases
  report_summary o none = failed unreadable
  report_summary o (some s) = report_phases o s.concurrency s.phases

  unfoldable pub run : Opts → Outcome Figures Cpu
  unfolding report_summary
  run o =
      if text_eq o.json_path [] || text_eq o.out_path []
      then failed missing_path
      else if not o.has_cores
      then failed no_cores
      else report_summary o (read_summary o.json_path)
