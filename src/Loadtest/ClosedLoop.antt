-- ===== src/Loadtest/ClosedLoop.antt =====
-- cmd/loadtest/main.go, `runPhase`: the users of the closed loop, each of which waits for the answer
-- and then for its think time, and `sleepCtx`.
pub mod Paced
use secure_auth_gateway.Prelude.{
  ℕ, zero, suc, ◌+◌, ◌*◌, ◌/◌, ◌%◌, ◌^◌, Bool, true, false, Option, none, some, List, [], ◌∷◌, ◌++◌,
  Text, ltb, ◌==◌, if◌then◌else◌,
}
use secure_auth_gateway.Loadtest.Samples.{Sample}
use secure_auth_gateway.Loadtest.Addresses.{mark_window}
use secure_auth_gateway.Loadtest.Requests.{Exchange, do_request}

-- The settings of a phase, in nanoseconds but for the number of users.
pub record PhaseSettings : Type 0 where
  pub start : ℕ
  pub ramp : ℕ
  pub warmup : ℕ
  pub duration : ℕ
  pub think : ℕ
  pub users : ℕ

-- What one user meets: how long its request n takes, its address and what comes back, and the
-- think time that it draws after it.
pub record User : Type 0 where
  pub took : ℕ → ℕ
  pub ip : ℕ → Text
  pub exchange : ℕ → Exchange
  pub pause : ℕ → ℕ

-- Whether the context is still there when the sleep ends, and the time at which it ends. If the
-- timer and the deadline come at once, the deadline counts.
unfoldable pub sleep_ctx : ℕ → ℕ → ℕ → Bool × ℕ
sleep_ctx deadline now d =
    if d == 0
    then (ltb now deadline, now)
    else if ltb (now + d) deadline
    then (true, now + d)
    else (false, deadline)

-- The product is a signed 64-bit number; where it is negative there is no delay.
unfoldable pub ramp_delay : PhaseSettings → ℕ → ℕ
ramp_delay s u =
    let product = s.ramp * u % 2 ^ 64 in if ltb product (2 ^ 63) then product / s.users else 0

module _ (s : PhaseSettings) where
  abbrev pub window_start : ℕ
  window_start = s.start + s.ramp + s.warmup

  abbrev pub deadline : ℕ
  deadline = window_start + s.duration

  abbrev pub push : Sample → Option (List Sample) → Option (List Sample)
  push x none = none
  push x (some xs) = some (x ∷ xs)

  unfoldable pub rest_after : User → ℕ → ℕ → Bool × ℕ
  unfolding sleep_ctx
  rest_after user n after =
      if s.think == 0 then (true, after) else sleep_ctx deadline after (user.pause n)

  -- The loop of a user from its request n on; `none` has not ended after `fuel` rounds.
  unfoldable pub user_loop : User → ℕ → ℕ → ℕ → Option (List Sample)
  unfolding rest_after
  user_loop user zero n now = none
  user_loop user (suc fuel) n now = elim (ltb now deadline) [
    | false ↦ some []
    | true ↦
        let sample = (do_request now (user.took n) (user.ip n) (user.exchange n)).0 in
        let (goes_on, woken) = rest_after user n (now + user.took n) in
        elim goes_on [
          | false ↦ some (sample ∷ [])
          | true ↦ push sample (user_loop user fuel (suc n) woken)
        ]
  ]

  -- The start of a user within the ramp.
  unfoldable pub ramp_up : ℕ → Bool × ℕ
  unfolding sleep_ctx ramp_delay
  ramp_up u = if s.ramp == 0 then (true, s.start) else sleep_ctx deadline s.start (ramp_delay s u)

  unfoldable pub run_user : User → ℕ → ℕ → Option (List Sample)
  unfolding user_loop ramp_up
  run_user user fuel u =
      let (goes_on, woken) = ramp_up u in
      elim goes_on [ false ↦ some [] | true ↦ user_loop user fuel 0 woken ]

  abbrev pub join : Option (List Sample) → Option (List Sample) → Option (List Sample)
  join none ys = none
  join (some xs) none = none
  join (some xs) (some ys) = some (xs ++ ys)

  -- The samples of the users from number u on, one list behind the other.
  unfoldable pub run_users : (ℕ → User) → ℕ → ℕ → ℕ → Option (List Sample)
  unfolding run_user
  run_users who fuel zero u = some []
  run_users who fuel (suc left) u =
      let later = run_users who fuel left (suc u) in join (run_user (who u) fuel u) later

  abbrev marked : Option (List Sample) → Option (List Sample)
  marked none = none
  marked (some xs) = some (mark_window window_start s.duration xs)

  unfoldable pub run_phase : (ℕ → User) → ℕ → Option (List Sample)
  unfolding run_users mark_window
  run_phase who fuel = marked (run_users who fuel s.users 0)
