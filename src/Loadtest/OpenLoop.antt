-- ===== src/Loadtest/OpenLoop.antt =====
-- cmd/loadtest/main.go, `runOpenLoop`: the ticks of a run, the senders, and the result of the phase.
pub mod Complete
use secure_auth_gateway.Prelude.{
  ℕ, ◌+◌, ◌-◌, Bool, Option, none, some, List, [], ◌∷◌, ◌++◌, map, Text, ltb, if◌then◌else◌,
}
use secure_auth_gateway.Loadtest.Samples.{Sample}
use secure_auth_gateway.Loadtest.Addresses.{mark_window}
use secure_auth_gateway.Loadtest.Dispatch.{Job, Dispatcher, dispatch}

-- The settings of a run, in nanoseconds.
pub record Settings : Type 0 where
  pub start : ℕ
  pub period : ℕ
  pub warmup : ℕ
  pub duration : ℕ

pub record OpenResult : Type 0 where
  pub samples : List Sample
  pub wall : ℕ
  pub measured : ℕ
  pub window_start : ℕ
  pub window_end : ℕ

-- A run that stopped early has a shorter window; one that stopped in the warmup has none.
unfoldable pub measured_window : ℕ → ℕ → ℕ → ℕ
measured_window duration warmup wall =
    let elapsed = wall - warmup in if ltb elapsed duration then elapsed else duration

abbrev pub merged : List (List Sample) → List Sample
merged [] = []
merged (out ∷ rest) = out ++ merged rest

-- `issue` performs the request of a job. A sender keeps the samples of the jobs that it took.
unfoldable pub send : (Job → Sample) → Job → Sample
send issue j = record (issue j) { scheduled_at = some j.due }

abbrev pub send_all : (Job → Sample) → List (List Job) → List Sample
send_all issue shares = merged (map (map (send issue)) shares)

abbrev pub fresh : Dispatcher
fresh = record { issued = 0; queued = []; dropped = [] }

-- `shares` says which jobs of the queue each sender takes.
module _ (s : Settings) (next_ip : ℕ → Text) (room : ℕ → Bool) (issue : Job → Sample)
    (shares : List Job → List (List Job)) where
  -- The ticks up to the deadline or the abort, each at the time that the clock then shows.
  unfoldable pub dispatch_ticks : List ℕ → Dispatcher → Option Dispatcher
  unfolding dispatch
  dispatch_ticks [] d = some d
  dispatch_ticks (now ∷ rest) d =
      elim (dispatch s.start s.period next_ip room (now - s.start + 2) now d) [
        | none ↦ none
        | some after ↦ dispatch_ticks rest after
      ]

  -- Once the queue is drained: the samples of the senders, and the requests that were dropped.
  unfoldable pub collect : ℕ → Dispatcher → OpenResult
  unfolding mark_window measured_window send
  collect wall d =
      let samples = send_all issue (shares d.queued) ++ d.dropped in
      let measured = measured_window s.duration s.warmup wall in
      let from = s.start + s.warmup in
      record {
        samples = mark_window from measured samples;
        wall = wall;
        measured = measured;
        window_start = from;
        window_end = from + measured;
      }

  unfoldable pub run_open_loop : List ℕ → ℕ → Option OpenResult
  unfolding dispatch_ticks collect
  run_open_loop ticks wall = elim (dispatch_ticks ticks fresh) [
    | none ↦ none
    | some d ↦ some (collect wall d)
  ]
