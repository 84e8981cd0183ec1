-- ===== src/Lockout/Counting.antt =====
-- internal/redis_db/lockout.go over a sequence of failures.
use secure_auth_gateway.Prelude.{
  ℕ, suc, ◌+◌, ◌≤◌, ◌<◌, ◌≡◌, ◌∙◌, ◌≢◌, ◌↔◌, true, Option, none, some, Text, text_eq_refl, arith,
}
use secure_auth_gateway.Platform.{Platform, RedisLaws}
use secure_auth_gateway.Platform.Redis.{
  Value, Entry, count, fail, incr, expire, get, live, put, perform,
}
use secure_auth_gateway.Platform.World.{World, redis_call}
use secure_auth_gateway.Platform.World.Calls.{seen, redis_call_ok, redis_call_at, redis_call-now}
use secure_auth_gateway.Lockout.{
  lockout_window, max_login_failures, lockout_key, record_failure, start_window, is_locked,
  check_budget,
}

live-within :
    {now deadline : ℕ} {v : Value} {e : Option Entry}
    → e ≡ some (record { value = v; expires = some deadline })
    → now < deadline
    → live now e ≡ some (record { value = v; expires = some deadline })
unfolding live
live-within h early = rw h (ground arith)

module _ {p : Platform} (r : RedisLaws p) where
  -- A first failure counts one and starts the window.
  pub record_failure_first :
      (email : Text) (w : World p)
      → (record_failure p email w).0 ≡ true
      → live (w.now + p.lag w.tick) (seen r w (lockout_key p email)) ≡ none
      → seen r (record_failure p email w).1 (lockout_key p email)
        ≡ some (record {
          value = count 1;
          expires = some ((record_failure p email w).1.now + lockout_window);
        })
  unfolding record_failure start_window live put perform
  record_failure_first email w ok new =
      let k = lockout_key p email in
      let w' = (redis_call p (incr k) w).1 in
      ground (
        arith,
        redis_call_ok r (incr k) w,
        redis_call_at r (incr k) w k,
        redis_call_at r (expire k lockout_window) w' k,
        redis_call-now p (expire k lockout_window) w',
        text_eq_refl k,
      )

  -- A later failure counts one more and leaves the window as it is.
  pub record_failure_next :
      (email : Text) (w : World p) (n : ℕ) (e : Option ℕ)
      → (record_failure p email w).0 ≡ true
      → live (w.now + p.lag w.tick) (seen r w (lockout_key p email))
        ≡ some (record { value = count (suc n); expires = e })
      → seen r (record_failure p email w).1 (lockout_key p email)
        ≡ some (record { value = count (suc (suc n)); expires = e })
  unfolding record_failure start_window live put perform
  record_failure_next email w n e ok old =
      let k = lockout_key p email in
      ground (arith, redis_call_ok r (incr k) w, redis_call_at r (incr k) w k, text_eq_refl k)

  record_failure-now :
      (email : Text) (w : World p) → w.now + p.lag w.tick ≤ (record_failure p email w).1.now
  unfolding record_failure start_window
  record_failure-now email w =
      let w' = (redis_call p (incr (lockout_key p email)) w).1 in
      ground (
        arith,
        redis_call-now p (incr (lockout_key p email)) w,
        redis_call-now p (expire (lockout_key p email) lockout_window) w',
      )

  -- Failures of one account, each recorded without an error. Between two of them other requests
  -- may run, as long as they leave the account's counter alone.
  pub data Failures (email : Text) (w : World p) : ℕ → World p → Type 0 where
    first : (record_failure p email w).0 ≡ true → Failures email w 1 (record_failure p email w).1
    later :
        {n : ℕ} {u : World p} (v : World p)
        → Failures email w (suc n) u
        → u.now ≤ v.now
        → seen r v (lockout_key p email) ≡ seen r u (lockout_key p email)
        → (record_failure p email v).0 ≡ true
        → Failures email w (suc (suc n)) (record_failure p email v).1

  -- The moment at which the window of a first failure ends.
  abbrev pub window_end : Text → World p → ℕ
  window_end email w = (record_failure p email w).1.now + lockout_window

  -- Inside the window of the first failure the counter is the number of failures since.
  pub Failures-counted :
      (email : Text) (w : World p) {n : ℕ} {u : World p}
      → live (w.now + p.lag w.tick) (seen r w (lockout_key p email)) ≡ none
      → Failures email w n u
      → u.now < window_end email w
      → seen r u (lockout_key p email)
        ≡ some (record { value = count n; expires = some (window_end email w) })
  Failures-counted email w new (first ok) h = record_failure_first email w ok new
  Failures-counted email w new (later {n} {u} v fs order same ok) h =
      let early : v.now + p.lag v.tick < window_end email w =
        omega (arith, record_failure-now email v) in
      let before = same ∙ Failures-counted email w new fs (omega arith) in
      record_failure_next email v n (some (window_end email w)) ok (live-within before early)

  -- With Redis at hand an account is locked exactly from the fifth failure that its counter shows.
  pub is_locked_iff :
      (email : Text) (w : World p) (n : ℕ) (e : Option ℕ)
      → (redis_call p (get (lockout_key p email)) w).0 ≢ fail
      → live (w.now + p.lag w.tick) (seen r w (lockout_key p email))
        ≡ some (record { value = count n; expires = e })
      → ((is_locked p email w).0.0 ≡ true) ↔ (max_login_failures ≤ n)
  unfolding is_locked check_budget perform
  is_locked_iff email w n e up entry = ground (arith, redis_call_ok r (get (lockout_key p email)) w)

  -- Within the window of its first failure, an account that has had `n` failures recorded is locked
  -- exactly if `n` is five or more, provided Redis answers and nothing else touched its counter.
  pub Failures-is_locked :
      (email : Text) (w : World p) {n : ℕ} {u : World p} (v : World p)
      → live (w.now + p.lag w.tick) (seen r w (lockout_key p email)) ≡ none
      → Failures email w n u
      → u.now ≤ v.now
      → v.now + p.lag v.tick < window_end email w
      → seen r v (lockout_key p email) ≡ seen r u (lockout_key p email)
      → (redis_call p (get (lockout_key p email)) v).0 ≢ fail
      → ((is_locked p email v).0.0 ≡ true) ↔ (max_login_failures ≤ n)
  Failures-is_locked email w {n} {u} v new fs order inside same up =
      let entry = same ∙ Failures-counted email w new fs (omega arith) in
      is_locked_iff email v n (some (window_end email w)) up (live-within entry inside)
