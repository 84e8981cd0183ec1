-- ===== src/Loadtest/OpenLoop/Complete.antt =====
-- cmd/loadtest/main.go, `runOpenLoop`: each request that was due has a sample of its own.
use mathlib.Core.Path.{subst}
use mathlib.Core.List.{Perm, perm_middle, perm_append_singleton, append_assoc, map-append}
use mathlib.Core.List.Perm
use secure_auth_gateway.Prelude.{
  ℕ, zero, suc, ◌+◌, ◌-◌, ◌≤◌, ◌<◌, ◌≡◌, refl, ap, sym, ◌∙◌, inl, inr, Bool, Bool-cases, Option,
  some, List, [], ◌∷◌, ◌++◌, map, Text, ltb, same_of_some, arith,
}
use native.Mathlib.Decide.{dec_lt}
use secure_auth_gateway.Loadtest.Samples.{Sample}
use secure_auth_gateway.Loadtest.Addresses.{mark_window}
use secure_auth_gateway.Loadtest.Dispatch.{
  Job, Dispatcher, dispatch, issue, due_at, dispatch-IsDispatched,
}
use secure_auth_gateway.Loadtest.OpenLoop.{
  Settings, OpenResult, measured_window, send, send_all, fresh, dispatch_ticks, collect,
  run_open_loop,
}

-- A new element in the middle or at the end of a list that is a permutation of another.
middle-Perm :
    {a : Option ℕ} (q d : List (Option ℕ)) {s : List (Option ℕ)}
    → Perm (q ++ d) s
    → Perm ((q ++ a ∷ []) ++ d) (a ∷ s)
middle-Perm {a} q d {s} p =
    subst (λ l. Perm l (a ∷ s)) (sym (append_assoc q (a ∷ []) d))
      (Perm.trans (perm_middle q d) (Perm.cons a p))

last-Perm :
    {a : Option ℕ} (q d : List (Option ℕ)) {s : List (Option ℕ)}
    → Perm (q ++ d) s
    → Perm (q ++ (d ++ a ∷ [])) (a ∷ s)
last-Perm {a} q d {s} p =
    subst (λ l. Perm l (a ∷ s)) (append_assoc q d (a ∷ []))
      (Perm.trans (perm_append_singleton a (q ++ d)) (Perm.cons a p))

abbrev pub flat : List (List Job) → List Job
flat [] = []
flat (js ∷ rest) = js ++ flat rest

-- The times at which requests were due.
abbrev pub due_times : List Job → List (Option ℕ)
due_times = map (λ j. some j.due)

abbrev pub scheduled : List Sample → List (Option ℕ)
scheduled = map (λ s. s.scheduled_at)

abbrev all_times : Dispatcher → List (Option ℕ)
all_times d = due_times d.queued ++ scheduled d.dropped

module _ (start period : ℕ) (next_ip : ℕ → Text) (room : ℕ → Bool) where
  -- The times of the first n requests, the last one first.
  abbrev pub slots : ℕ → List (Option ℕ)
  slots zero = []
  slots (suc n) = some (due_at start period next_ip room n) ∷ slots n

  abbrev IsTimed : Dispatcher → Type 0
  IsTimed d = Perm (all_times d) (slots d.issued)

  issue-IsTimed :
      (now : ℕ) (d : Dispatcher) → IsTimed d → IsTimed (issue start period next_ip room now d)
  unfolding issue
  issue-IsTimed now d timed =
      let due = due_at start period next_ip room d.issued in
      elim (Bool-cases (room d.issued)) [
        | inl free ↦ rw free (
            subst (λ ts. Perm (ts ++ scheduled d.dropped) (slots (suc d.issued)))
              (sym (map-append (λ j. some j.due) d.queued _)) (middle-Perm _ _ timed))
        | inr full ↦ rw full (
            subst (λ ts. Perm (due_times d.queued ++ ts) (slots (suc d.issued)))
              (sym (map-append (λ x. x.scheduled_at) d.dropped _)) (last-Perm _ _ timed))
      ]

  dispatch-IsTimed :
      (fuel now : ℕ) (d after : Dispatcher)
      → dispatch start period next_ip room fuel now d ≡ some after
      → IsTimed d
      → IsTimed after
  unfolding dispatch
  dispatch-IsTimed zero now d after ended timed = absurd (ground arith)
  dispatch-IsTimed (suc fuel) now d after ended timed =
      elim (Bool-cases (ltb now (due_at start period next_ip room d.issued))) [
        | inl late ↦ subst IsTimed (same_of_some (rw (late, dispatch) at ended)) timed
        | inr due ↦
            dispatch-IsTimed fuel now (issue start period next_ip room now d) after
              (rw (due, dispatch) at ended) (issue-IsTimed now d timed)
      ]

-- The time of the last tick.
abbrev pub last_tick : ℕ → List ℕ → ℕ
last_tick now [] = now
last_tick now (t ∷ ts) = last_tick t ts

-- The clock does not run backwards.
abbrev pub IsForward : ℕ → List ℕ → Type 0
IsForward now [] = Unit
IsForward now (t ∷ ts) = (now ≤ t) × IsForward t ts

module _ (s : Settings) (next_ip : ℕ → Text) (room : ℕ → Bool) (issue_job : Job → Sample)
    (shares : List Job → List (List Job)) where
  abbrev pub due_of : ℕ → ℕ
  due_of = due_at s.start s.period next_ip room

  pub record IsDone (last : ℕ) (result : Option Dispatcher) : Type 0 where
    pub after : Dispatcher
    pub ended : result ≡ some after
    pub timed : IsTimed s.start s.period next_ip room after
    pub all_due : (n : ℕ) → n < after.issued → due_of n ≤ last
    pub next_late : last < due_of after.issued

  tick-IsDone :
      (now : ℕ) (d : Dispatcher)
      → 0 < s.period
      → s.start ≤ now
      → IsTimed s.start s.period next_ip room d
      → ((n : ℕ) → n < d.issued → due_of n ≤ now)
      → IsDone now (dispatch s.start s.period next_ip room (now - s.start + 2) now d)
  tick-IsDone now d pos started timed due =
      let one = dispatch-IsDispatched s.start s.period next_ip room now d pos started in
      record {
        after = one.after;
        ended = one.ended;
        timed = dispatch-IsTimed s.start s.period next_ip room _ now d one.after one.ended timed;
        all_due = λ n below. elim (dec_lt n d.issued) [
          | yes before ↦ due n before
          | no later ↦ one.all_due n (omega (arith, later)) below
        ];
        next_late = one.next_late;
      }

  ticks-IsDone :
      (now : ℕ) (rest : List ℕ) (d : Dispatcher)
      → 0 < s.period
      → s.start ≤ now
      → IsForward now rest
      → IsTimed s.start s.period next_ip room d
      → ((n : ℕ) → n < d.issued → due_of n ≤ now)
      → IsDone (last_tick now rest) (dispatch_ticks s next_ip room issue_job shares (now ∷ rest) d)
  unfolding dispatch_ticks
  ticks-IsDone now [] d pos started forward timed due =
      let one = tick-IsDone now d pos started timed due in
      rw (one.ended, dispatch_ticks)
        (record {
          after = one.after;
          ended = refl;
          timed = one.timed;
          all_due = one.all_due;
          next_late = one.next_late;
        })
  ticks-IsDone now (t ∷ ts) d pos started (le, forward) timed due =
      let one = tick-IsDone now d pos started timed due in
      rw (one.ended, dispatch_ticks)
        (ticks-IsDone t ts one.after pos (omega (arith, le)) forward one.timed
          (λ n below. omega (arith, one.all_due n below, le)))

  -- The samples of the senders have the times of the jobs that they took.
  sent-scheduled : (js : List Job) → scheduled (map (send issue_job) js) ≡ due_times js
  unfolding send
  sent-scheduled [] = refl
  sent-scheduled (j ∷ js) = ap (λ ts. some j.due ∷ ts) (sent-scheduled js)

  merged-scheduled :
      (jobs : List (List Job)) → scheduled (send_all issue_job jobs) ≡ due_times (flat jobs)
  merged-scheduled [] = refl
  merged-scheduled (js ∷ rest) =
      map-append (λ x. x.scheduled_at) (map (send issue_job) js) (send_all issue_job rest)
      ∙ ap (λ ts. scheduled (map (send issue_job) js) ++ ts) (merged-scheduled rest)
      ∙ ap (λ ts. ts ++ due_times (flat rest)) (sent-scheduled js)
      ∙ sym (map-append (λ j. some j.due) js (flat rest))

  marked-scheduled :
      (from width : ℕ) (ss : List Sample) → scheduled (mark_window from width ss) ≡ scheduled ss
  unfolding mark_window
  marked-scheduled from width [] = refl
  marked-scheduled from width (x ∷ xs) =
      ap (λ ts. x.scheduled_at ∷ ts) (marked-scheduled from width xs)

  -- What a run gives whose last tick was at `last` and that lasted `wall`.
  pub record IsComplete (last wall : ℕ) (result : Option OpenResult) : Type 0 where
    pub phase : OpenResult
    pub ended : result ≡ some phase
    pub issued : ℕ
    pub each_once : Perm (scheduled phase.samples) (slots s.start s.period next_ip room issued)
    pub all_due : (n : ℕ) → n < issued → due_of n ≤ last
    pub next_late : last < due_of issued
    pub in_time : phase.measured ≤ s.duration
    pub elapsed : phase.measured ≤ wall - s.warmup

  collect-scheduled :
      (wall : ℕ) (d : Dispatcher)
      → Perm (flat (shares d.queued)) d.queued
      → Perm (scheduled (collect s next_ip room issue_job shares wall d).samples) (all_times d)
  unfolding collect
  collect-scheduled wall d split =
      let sent = send_all issue_job (shares d.queued) in
      let same =
        marked-scheduled _ _ (sent ++ d.dropped)
        ∙ map-append (λ x. x.scheduled_at) sent d.dropped
        ∙ ap (λ ts. ts ++ scheduled d.dropped) (merged-scheduled (shares d.queued)) in
      subst (λ ts. Perm ts (all_times d)) (sym same)
        (Perm.append_right (scheduled d.dropped) (Perm.map (λ j. some j.due) split))

  -- A run with a positive period, with a tick and with a clock that does not run backwards gives a
  -- result: for each request that was due by the last tick it has exactly one sample with the time
  -- at which it was due, whether it was sent or dropped, and no others, if the senders take each
  -- job of the queue once. The measured window is not longer than the setting, and not longer than
  -- the run without its warmup.
  pub run_open_loop-IsComplete :
      (now : ℕ) (rest : List ℕ) (wall : ℕ)
      → 0 < s.period
      → s.start ≤ now
      → IsForward now rest
      → ((jobs : List Job) → Perm (flat (shares jobs)) jobs)
      → IsComplete
          (last_tick now rest)
          wall
          (run_open_loop s next_ip room issue_job shares (now ∷ rest) wall)
  unfolding run_open_loop collect measured_window
  run_open_loop-IsComplete now rest wall pos started forward split =
      let done =
        ticks-IsDone now rest fresh pos started forward Perm.rfl
          (λ n below. absurd (omega arith)) in
      rw (done.ended, run_open_loop)
        (record {
          phase = collect s next_ip room issue_job shares wall done.after;
          ended = refl;
          issued = done.after.issued;
          each_once =
              Perm.trans (collect-scheduled wall done.after (split done.after.queued)) done.timed;
          all_due = done.all_due;
          next_late = done.next_late;
          in_time = ground arith;
          elapsed = ground arith;
        })
