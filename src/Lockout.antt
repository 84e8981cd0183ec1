-- ===== src/Lockout.antt =====
-- internal/redis_db/lockout.go: the counter of failed logins of an account.
pub mod Counting
pub mod Faults
use secure_auth_gateway.Prelude.{
  ℕ, zero, suc, ◌*◌, ◌+◌, Bool, true, false, ◌||◌, ◌&&◌, Option, none, some, List, [], ◌∷◌, ◌++◌,
  map, Text, codes, trim_space, ltb, ◌==◌, if◌then◌else◌, ℤ, pos, negsuc,
}
use secure_auth_gateway.Platform.{Platform}
use secure_auth_gateway.Platform.Redis.{
  Reply, value, span, done, nil, fail, count, text, second, incr, expire, get, ttl, del,
}
use secure_auth_gateway.Platform.World.{World, M, branch, ◌>>=◌, ◌>>◌, pure, redis_call}

abbrev pub max_login_failures : ℕ
max_login_failures = 5

abbrev pub lockout_window : ℕ
lockout_window = 15 * 60 * second

abbrev pub lockout_prefix : Text
lockout_prefix = codes "loginlock:"

-- The Boolean results of the operations are `err == nil`.
abbrev pub is_ok : Reply → Bool
is_ok fail = false
is_ok _ = true

-- The time left, or the whole window where Redis gives none.
abbrev pub time_left : Reply → ℕ
time_left (span (pos d)) = d
time_left _ = lockout_window

module _ (p : Platform) where
  -- `strings.ToLower`
  abbrev pub to_lower : Text → Text
  to_lower = map p.lower

  unfoldable pub lockout_key : Text → Text
  lockout_key email = lockout_prefix ++ to_lower (trim_space email)

  -- What `RecordFailure` does with the reply to its `INCR`.
  unfoldable pub start_window : Text → Reply → M p Bool
  start_window key (value (count n)) =
      branch (n == 1) (redis_call p (expire key lockout_window) >>= λ r. pure (is_ok r)) (pure true)
  start_window key _ = pure false

  unfoldable pub record_failure : Text → M p Bool
  unfolding start_window
  record_failure email = do
    let key = lockout_key email
    reply ← redis_call p (incr key)
    start_window key reply

  -- What `IsLocked` does with the reply to its `GET`.
  unfoldable pub check_budget : Text → Reply → M p (Bool × ℕ)
  check_budget key (value (count n)) =
      branch (ltb n max_login_failures) (pure (false, 0))
        (redis_call p (ttl key) >>= λ r. pure (true, time_left r))
  check_budget key _ = pure (false, 0)

  unfoldable pub is_locked : Text → M p (Bool × ℕ)
  unfolding check_budget
  is_locked email = do
    let key = lockout_key email
    reply ← redis_call p (get key)
    check_budget key reply

  unfoldable pub reset_failures : Text → M p Bool
  reset_failures email = redis_call p (del (lockout_key email)) >>= λ r. pure (is_ok r)
