-- ===== src/Tests/Harness.antt =====
-- A small load test: its dispatcher, its run with the watch, its timing check and its accounts.
use mathlib.Core.Path.{subst}
use mathlib.Core.List.{Perm, append-nil}
use mathlib.Core.List.Perm
use secure_auth_gateway.Prelude.{
  sym, ℕ, zero, suc, ◌+◌, ◌≡◌, ◌≢◌, ◌↔◌, refl, Bool, true, false, none, some, List, [], ◌∷◌, All,
  length, Text, codes, pos, arith, text_eq,
}
use secure_auth_gateway.Platform.World.{redis_call}
use secure_auth_gateway.Platform.World.Calls.{seen}
use secure_auth_gateway.Lockout.{is_locked}
use secure_auth_gateway.Loadtest.Addresses.{unique_next}
use secure_auth_gateway.Loadtest.Config.{Config, period_for, config_error, workers_for}
use secure_auth_gateway.Loadtest.Dispatch.{Dispatcher, dispatch, dispatch-endless}
use secure_auth_gateway.Loadtest.Samples.{Sample, throttle_none}
use secure_auth_gateway.Loadtest.Dispatch.{Job}
use secure_auth_gateway.Loadtest.OpenLoop.{Settings, run_open_loop}
use secure_auth_gateway.Loadtest.OpenLoop.Complete.{IsForward, IsComplete, run_open_loop-IsComplete}
use secure_auth_gateway.Loadtest.Watch.{watch, HasRun, watch-HasRun}
use secure_auth_gateway.Loadtest.Seed.{accounts, clear_lockouts, clear_lockouts-All, keys_of}
use secure_auth_gateway.Loadtest.TimingRun.{
  PostResult, Groups, measure, balanced, no_groups, timing_warmup, measure-length,
}
use secure_auth_gateway.Loadtest.Ranks.{pooled, tie_loop}
use secure_auth_gateway.Loadtest.Ranks.MidRanks.{HasMidRanks, tie_loop-mid_ranks}
use secure_auth_gateway.Tests.Demo.{demo, start, redis_laws}
use secure_auth_gateway.Platform.Redis.{perform}

abbrev rates : Config
rates = record {
  target = codes "login";
  phase = codes "compute";
  users = pos 100;
  ips = pos 25;
  rate = pos 500;
  rate_scale = 1;
  max_in_fl = pos 20000;
  workers = pos 0;
}

accepts_rates : config_error rates ≡ none
unfolding config_error text_eq
accepts_rates = refl

senders : workers_for rates ≡ 256
unfolding workers_for
senders = refl

two_milliseconds : period_for rates ≡ 2000000
unfolding period_for
two_milliseconds = refl

-- Above a thousand million requests a second the period is 0.
abbrev too_fast : Config
too_fast = record rates { rate = pos 2000000000 }

accepts_too_fast : config_error too_fast ≡ none
unfolding config_error text_eq
accepts_too_fast = refl

no_period : period_for too_fast ≡ 0
unfolding period_for
no_period = refl

abbrev idle : Dispatcher
idle = record { issued = 0; queued = []; dropped = [] }

-- The queue takes the first two requests.
abbrev room : ℕ → Bool
room zero = true
room (suc zero) = true
room n = false

dispatch-endless_example : dispatch 100 (period_for too_fast) unique_next room 9 175 idle ≡ none
dispatch-endless_example =
    dispatch-endless 100 (period_for too_fast) unique_next room 9 175 idle no_period (omega arith)

-- A run of three ticks whose queue takes two requests; the first sender takes all of them.
abbrev settings : Settings
settings = record { start = 100; period = 20; warmup = 25; duration = 50 }

abbrev answer : Job → Sample
answer j = record {
  at = j.due + 3;
  ip = j.ip;
  latency = 2;
  status = 201;
  err = none;
  throttle = throttle_none;
  scheduled_at = none;
  in_window = false;
}

abbrev one_sender : List Job → List (List Job)
one_sender jobs = jobs ∷ [] ∷ []

abbrev later_ticks : List ℕ
later_ticks = 140 ∷ 175 ∷ []

later_ticks-IsForward : IsForward 110 later_ticks
later_ticks-IsForward = (omega arith, (omega arith, tt))

run_open_loop-IsComplete_example :
    IsComplete settings unique_next room answer one_sender 175 90
      (run_open_loop settings unique_next room answer one_sender (110 ∷ later_ticks) 90)
run_open_loop-IsComplete_example =
    run_open_loop-IsComplete settings unique_next room answer one_sender 110 later_ticks 90
      (omega arith) (omega arith) later_ticks-IsForward
      (λ jobs. subst (λ js. Perm js jobs) (sym (append-nil jobs)) Perm.rfl)

-- The seconds of a run with a limit of 100 requests: it is near its limit from the third one on.
abbrev in_flight : List ℕ
in_flight = 95 ∷ 40 ∷ 91 ∷ 97 ∷ 100 ∷ 99 ∷ 92 ∷ 10 ∷ []

aborts : watch 100 0 in_flight ≡ true
unfolding watch
aborts = refl

watch-HasRun_example : (watch 100 0 in_flight ≡ true) ↔ HasRun 100 in_flight
watch-HasRun_example = watch-HasRun 100 in_flight

clears : (clear_lockouts demo accounts start).0 ≡ true
unfolding clear_lockouts redis_call perform
clears = refl

clear_lockouts-All_example :
    let w' = (clear_lockouts demo accounts start).1 in
    All (λ a. (is_locked demo a.email w').0.0 ≡ false) accounts
    × ((k : Text)
        → All (λ j. j ≢ k) (keys_of demo accounts)
        → seen redis_laws w' k ≡ seen redis_laws start k)
clear_lockouts-All_example = clear_lockouts-All redis_laws accounts start clears

-- Each login is refused after as many nanoseconds as its number.
abbrev refused : ℕ → Text → PostResult
refused n email = some (401, n)

abbrev two_samples : Groups
two_samples = record {
  absent = record { samples = 40 ∷ 42 ∷ []; seen = 22 };
  wrong = record { samples = 41 ∷ 43 ∷ []; seen = 22 };
}

measures :
    measure 0 refused (λ n. true) 0 (balanced (2 + timing_warmup)) (some no_groups)
    ≡ some two_samples
unfolding measure balanced
measures = refl

measure-length_example :
    (length two_samples.absent.samples ≡ 2) × (length two_samples.wrong.samples ≡ 2)
measure-length_example =
    measure-length 0 2 refused (λ n. true) (λ ks. ks) two_samples (λ b ks. refl) measures

abbrev one_group : List ℕ
one_group = 5 ∷ 7 ∷ 7 ∷ []

abbrev other_group : List ℕ
other_group = 7 ∷ 3 ∷ []

tie_loop-mid_ranks_example :
    HasMidRanks 0 (pooled one_group other_group) (tie_loop 5 0 (pooled one_group other_group))
tie_loop-mid_ranks_example = tie_loop-mid_ranks one_group other_group

ranked :
    tie_loop 5 0 (pooled one_group other_group)
    ≡ some (record { ranks = 2 ∷ 4 ∷ 8 ∷ 8 ∷ 8 ∷ []; correction = 24 })
unfolding tie_loop pooled
ranked = refl
