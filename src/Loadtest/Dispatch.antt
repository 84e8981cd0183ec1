-- ===== src/Loadtest/Dispatch.antt =====
-- cmd/loadtest/main.go, `runOpenLoop`: the dispatcher, which issues each request that is due.
use secure_auth_gateway.Prelude.{
  ℕ, zero, suc, ◌+◌, ◌-◌, ◌*◌, ◌≤◌, ◌<◌, ◌≡◌, refl, inl, inr, Bool, true, false, Bool-cases, Option,
  none, some, List, [], ◌∷◌, ◌++◌, Text, length, length-append, ltb, ltb→lt, if◌then◌else◌, arith,
  codes,
}
use native.Mathlib.Decide.{dec_lt}
use native.Mathlib.Nat.{mul-zero}
use secure_auth_gateway.Loadtest.Samples.{Sample, Failure, throttle_none}

pub record Job : Type 0 where
  pub due : ℕ
  pub ip : Text

-- What the dispatcher has done: the number of requests that it issued, those in the queue for the
-- senders, and those that the queue had no room for.
pub record Dispatcher : Type 0 where
  pub issued : ℕ
  pub queued : List Job
  pub dropped : List Sample

-- `errInFlightCap`
abbrev pub err_in_flight_cap : Failure
err_in_flight_cap = record {
  in_flight_cap = true;
  timed_out = false;
  message = codes "in-flight cap exceeded (server not keeping up)";
}

abbrev pub never_sent : ℕ → ℕ → Text → Sample
never_sent now due ip = record {
  at = now;
  ip = ip;
  latency = 0;
  status = 0;
  err = some err_in_flight_cap;
  throttle = throttle_none;
  scheduled_at = some due;
  in_window = false;
}

-- The clock starts at `start`; `next_ip n` is the address for request n, and `room n` says whether
-- the queue takes it when it is issued, since the senders empty the queue at the same time.
module _ (start period : ℕ) (next_ip : ℕ → Text) (room : ℕ → Bool) where
  unfoldable pub due_at : ℕ → ℕ
  due_at n = start + n * period

  unfoldable pub issue : ℕ → Dispatcher → Dispatcher
  unfolding due_at
  issue now d =
      let due = due_at d.issued in
      let ip = next_ip d.issued in
      if room d.issued
      then record {
        issued = suc d.issued;
        queued = d.queued ++ (record { due = due; ip = ip } ∷ []);
        dropped = d.dropped;
      }
      else record {
        issued = suc d.issued;
        queued = d.queued;
        dropped = d.dropped ++ (never_sent now due ip ∷ []);
      }

  -- The loop of one tick; `none` is a loop that has not ended after `fuel` rounds.
  unfoldable pub dispatch : ℕ → ℕ → Dispatcher → Option Dispatcher
  unfolding issue due_at
  dispatch zero now d = none
  dispatch (suc fuel) now d = elim (ltb now (due_at d.issued)) [
    | true ↦ some d
    | false ↦ dispatch fuel now (issue now d)
  ]

  -- Each issued request is in the queue or among the dropped ones.
  abbrev pub accounted : Dispatcher → ℕ
  accounted d = length d.queued + length d.dropped

  pub record IsDispatched (now : ℕ) (d : Dispatcher) (done : Option Dispatcher) : Type 0 where
    pub after : Dispatcher
    pub ended : done ≡ some after
    pub next_late : now < due_at after.issued
    pub all_due : (n : ℕ) → d.issued ≤ n → n < after.issued → due_at n ≤ now
    pub balance : accounted after + d.issued ≡ accounted d + after.issued

  issue-issued : (now : ℕ) (d : Dispatcher) → (issue now d).issued ≡ suc d.issued
  unfolding issue
  issue-issued now d = ground arith

  issue-accounted : (now : ℕ) (d : Dispatcher) → accounted (issue now d) ≡ suc (accounted d)
  unfolding issue
  issue-accounted now d = elim (Bool-cases (room d.issued)) [
    | inl free ↦ rw free (
        omega (
          arith,
          length-append d.queued (record { due = due_at d.issued; ip = next_ip d.issued } ∷ []),
        ))
    | inr full ↦ rw full (
        omega (
          arith,
          length-append d.dropped (never_sent now (due_at d.issued) (next_ip d.issued) ∷ []),
        ))
  ]

  due_at-suc : (n : ℕ) → due_at (suc n) ≡ due_at n + period
  unfolding due_at
  due_at-suc n = grind arith

  stopped :
      (fuel now : ℕ) (d : Dispatcher)
      → ltb now (due_at d.issued) ≡ true
      → IsDispatched now d (dispatch (suc fuel) now d)
  unfolding dispatch
  stopped fuel now d late =
      rw (late, dispatch)
        (record {
          after = d;
          ended = refl;
          next_late = ltb→lt now (due_at d.issued) late;
          all_due = λ n from below. absurd (omega arith);
          balance = refl;
        })

  went_on :
      (now : ℕ) (d : Dispatcher) (result : Option Dispatcher)
      → due_at d.issued ≤ now
      → IsDispatched now (issue now d) result
      → IsDispatched now d result
  went_on now d result due rest = record {
    after = rest.after;
    ended = rest.ended;
    next_late = rest.next_late;
    all_due = λ n from below. elim (dec_lt d.issued n) [
      | yes later ↦ rest.all_due n (omega (arith, issue-issued now d)) below
      | no first ↦ let e : n ≡ d.issued = omega arith in rw e due
    ];
    balance = omega (arith, rest.balance, issue-issued now d, issue-accounted now d);
  }

  dispatch-loop :
      0 < period
      → (fuel now : ℕ) (d : Dispatcher) → 0 < fuel
      → now + 1 < fuel + due_at d.issued
      → IsDispatched now d (dispatch fuel now d)
  unfolding dispatch
  dispatch-loop pos zero now d some_fuel enough = absurd (omega arith)
  dispatch-loop pos (suc fuel) now d some_fuel enough =
      elim (Bool-cases (ltb now (due_at d.issued))) [
        | inl late ↦ stopped fuel now d late
        | inr due ↦
            let due_now : due_at d.issued ≤ now = ground arith in
            let rest = dispatch-loop pos fuel now (issue now d) in
            let step : due_at (issue now d).issued ≡ due_at d.issued + period =
              rw (issue-issued now d) (due_at-suc d.issued) in
            let done = rest (omega arith) (omega arith) in
            rw (due, dispatch) (went_on now d _ due_now done)
      ]

  -- With a positive period the loop of a tick ends: `now - start + 2` rounds are enough. Then each
  -- request that it issued was due and the next one is not, and all of them are in the queue or
  -- among the dropped ones.
  pub dispatch-IsDispatched :
      (now : ℕ) (d : Dispatcher)
      → 0 < period
      → start ≤ now
      → IsDispatched now d (dispatch (now - start + 2) now d)
  unfolding due_at
  dispatch-IsDispatched now d pos started =
      dispatch-loop pos (now - start + 2) now d (omega arith) (omega arith)

  -- With a period of 0 it does not end, whatever the number of rounds.
  pub dispatch-endless :
      (fuel now : ℕ) (d : Dispatcher) → period ≡ 0 → start ≤ now → dispatch fuel now d ≡ none
  unfolding dispatch due_at
  dispatch-endless zero now d zero_period started = refl
  dispatch-endless (suc fuel) now d zero_period started =
      let due : ltb now (start + d.issued * period) ≡ false =
        rw (zero_period, mul-zero d.issued) (ground arith) in
      rw (due, dispatch) (dispatch-endless fuel now (issue now d) zero_period started)
