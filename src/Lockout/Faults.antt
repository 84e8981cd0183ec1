-- ===== src/Lockout/Faults.antt =====
-- internal/redis_db/lockout.go under errors of Redis, and with spellings of an address.
use secure_auth_gateway.Prelude.{
  ℕ, ◌+◌, ◌≤◌, ◌≡◌, refl, ap, ◌≢◌, true, false, Option, none, some, Text, trim_space, text_eq_refl,
  arith,
}
use secure_auth_gateway.Platform.{Platform, RedisLaws}
use secure_auth_gateway.Platform.Redis.{
  count, fail, Entry, Reply, value, value_reply, incr, expire, get, ttl, del, live, put, perform,
}
use secure_auth_gateway.Platform.World.{World, redis_call}
use secure_auth_gateway.Platform.World.Calls.{seen, redis_call_ok, redis_call_at, redis_call_reply}
use secure_auth_gateway.Lockout.{
  lockout_window, max_login_failures, lockout_key, to_lower, record_failure, start_window,
  is_locked, check_budget, reset_failures,
}

check_budget_only :
    {p : Platform} (key : Text) (reply : Reply) (w : World p)
    → (check_budget p key reply w).0.0 ≡ true
    → (n : ℕ) × (reply ≡ value (count n)) × (max_login_failures ≤ n)
unfolding check_budget
check_budget_only key (value (count n)) w locked = (n, refl, ground arith)
check_budget_only key _ w locked = absurd (ground arith)

counter_of :
    (o : Option Entry) (n : ℕ)
    → value_reply o ≡ value (count n)
    → (e : Option ℕ) × (o ≡ some (record { value = count n; expires = e }))
counter_of none n h = absurd (ground arith)
counter_of (some e) n h = (e.expires, ground arith)

module _ {p : Platform} (r : RedisLaws p) where
  -- Nobody is locked without a counter of five or more failures that is alive: an error of Redis at
  -- any point locks no account.
  pub is_locked_only :
      (email : Text) (w : World p)
      → (is_locked p email w).0.0 ≡ true
      → (n : ℕ) × (e : Option ℕ) × (live (w.now + p.lag w.tick) (seen r w (lockout_key p email))
          ≡ some (record { value = count n; expires = e }))
        × (max_login_failures ≤ n)
  unfolding is_locked perform
  is_locked_only email w locked =
      let k = lockout_key p email in
      let (reply, w') = redis_call p (get k) w in
      let (n, counted, spent) = check_budget_only k reply w' locked in
      let same : value_reply (live (w.now + p.lag w.tick) (seen r w k)) ≡ value (count n) =
        ground (arith, redis_call_reply r (get k) w) in
      let (e, entry) = counter_of (live (w.now + p.lag w.tick) (seen r w k)) n same in
      (n, e, entry, spent)

  -- A counter with no expiry and five failures locks its account at whatever time it is asked, and
  -- the answer claims a window of fifteen minutes each time.
  pub no_expiry_locks :
      (email : Text) (n : ℕ) (w : World p)
      → seen r w (lockout_key p email) ≡ some (record { value = count n; expires = none })
      → max_login_failures ≤ n
      → (redis_call p (get (lockout_key p email)) w).0 ≢ fail
      → (is_locked p email w).0 ≡ (true, lockout_window)
  unfolding is_locked check_budget live perform
  no_expiry_locks email n w entry spent up =
      let k = lockout_key p email in
      let w' = (redis_call p (get k) w).1 in
      ground (
        arith,
        redis_call_ok r (get k) w,
        redis_call_at r (get k) w k,
        redis_call_reply r (ttl k) w',
      )

  abbrev pub counted : Text → World p → World p
  counted email w = (redis_call p (incr (lockout_key p email)) w).1

  -- How such a counter comes about: the first `INCR` went through and its `EXPIRE` did not run.
  pub record_failure_without_expiry :
      (email : Text) (w : World p)
      → live (w.now + p.lag w.tick) (seen r w (lockout_key p email)) ≡ none
      → (redis_call p (incr (lockout_key p email)) w).0 ≢ fail
      → (redis_call p (expire (lockout_key p email) lockout_window) (counted email w)).0 ≡ fail
      → seen r (redis_call p (expire (lockout_key p email) lockout_window) (counted email w)).1
        ≡ seen r (counted email w)
      → ((record_failure p email w).0 ≡ false)
        × (seen r (record_failure p email w).1 (lockout_key p email)
            ≡ some (record { value = count 1; expires = none }))
  unfolding record_failure start_window live put perform
  record_failure_without_expiry email w new up lost same =
      let k = lockout_key p email in
      ground (
        arith,
        redis_call_ok r (incr k) w,
        redis_call_at r (incr k) w k,
        text_eq_refl k,
        ap (λ s. s k) same,
      )

  -- Addresses that differ in case or in outer space share one counter: clearing that of one clears
  -- that of the other, which then is not locked.
  pub reset_failures_variants :
      (mine theirs : Text) (w : World p)
      → to_lower p (trim_space mine) ≡ to_lower p (trim_space theirs)
      → (reset_failures p mine w).0 ≡ true
      → let w' = (reset_failures p mine w).1 in
        (seen r w' (lockout_key p theirs) ≡ none) × ((is_locked p theirs w').0.0 ≡ false)
  unfolding reset_failures lockout_key is_locked check_budget live put perform
  reset_failures_variants mine theirs w same ok =
      let k = lockout_key p theirs in
      let shared : lockout_key p mine ≡ k = rw same in
      let w' = (redis_call p (del k) w).1 in
      rw shared
        (ground (arith, redis_call_at r (del k) w k, redis_call_reply r (get k) w', text_eq_refl k))
