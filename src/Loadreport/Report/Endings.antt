-- ===== src/Loadreport/Report/Endings.antt =====
-- cmd/loadreport/main.go, `run`: how a run ends.
use secure_auth_gateway.Prelude.{
  ◌≡◌, ◌≢◌, true, false, Option, none, some, List, [], ◌∷◌, ◌++◌, Text, codes, ◌⊎◌, All,
}
use secure_auth_gateway.Loadreport.Report.{
  Phase, Summary, Opts, RunError, missing_path, no_cores, unreadable, no_phases, Report, Outcome,
  failed, panics, written,
}

-- A phase of one of the two names.
abbrev pub IsNamed : {Figures : Type 0} → Phase Figures → Type 0
IsNamed p = (p.name ≡ codes "compute") ⊎ (p.name ≡ codes "health")

-- The phase is the first one named "compute" or "health", or else the last one.
pub record IsChosen {Figures : Type 0} (ps : List (Phase Figures)) (p : Phase Figures)
    : Type 0 where
  pub before : List (Phase Figures)
  pub after : List (Phase Figures)
  pub place : ps ≡ before ++ (p ∷ after)
  pub passed : All (λ q. ¬ IsNamed q) before
  pub why : IsNamed p ⊎ ((¬ IsNamed p) × (after ≡ []))

module _ {Figures Cpu : Type 0} (read_summary : Text → Option (Summary Figures))
    (read_cpu : Text → Option Cpu) where
  -- The arguments that `run` asks for.
  abbrev pub IsGiven : Opts → Type 0
  IsGiven o = (o.json_path ≢ []) × (o.out_path ≢ []) × (o.has_cores ≡ true)

  -- When a run ends with an error.
  abbrev pub Causes : Opts → Option (Summary Figures) → RunError → Type 0
  Causes o read missing_path = (o.json_path ≡ []) ⊎ (o.out_path ≡ [])
  Causes o read no_cores = (o.json_path ≢ []) × (o.out_path ≢ []) × (o.has_cores ≡ false)
  Causes o read unreadable = IsGiven o × (read ≡ none)
  Causes o read no_phases = IsGiven o × ((s : Summary Figures) × (read ≡ some s) × (s.phases ≡ []))

  -- A report that is written.
  pub record IsReport (o : Opts) (read : Option (Summary Figures)) (r : Report Figures Cpu)
      : Type 0 where
    pub given : IsGiven o
    pub summary : Summary Figures
    pub found : read ≡ some summary
    pub chosen : IsChosen summary.phases r.phase
    pub stated :
        ((o.concurrency ≡ 0) × (r.concurrency ≡ summary.concurrency))
        ⊎ ((o.concurrency ≢ 0) × (r.concurrency ≡ o.concurrency))
    pub measured :
        ((o.cpu_path ≡ []) × (r.cpu ≡ none)) ⊎ ((o.cpu_path ≢ []) × (r.cpu ≡ read_cpu o.cpu_path))

  abbrev pub IsExplained : Opts → Option (Summary Figures) → Outcome Figures Cpu → Type 0
  IsExplained o read (failed e) = Causes o read e
  IsExplained o read panics = ⊥
  IsExplained o read (written r) = IsReport o read r
