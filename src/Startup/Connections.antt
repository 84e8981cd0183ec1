-- ===== src/Startup/Connections.antt =====
-- The connection loop of internal/redis_db/redis.go.
use secure_auth_gateway.Prelude.{
  ℕ, zero, suc, ◌+◌, ◌*◌, ◌≤◌, ◌<◌, ◌≡◌, ◌↔◌, ◌&&◌, refl, true, false, inl, inr, Bool-cases, arith,
}
use secure_auth_gateway.Platform.{Platform}
use secure_auth_gateway.Platform.Redis.{ping}
use secure_auth_gateway.Platform.World.{World, redis_call}
use secure_auth_gateway.Platform.World.Calls.{redis_call-now}
use secure_auth_gateway.Lockout.{is_ok}
use secure_auth_gateway.Startup.{
  connect_backoff, back_off, ping_redis, connect_redis, connect_retries, Environment,
}

module _ (p : Platform) where
  abbrev after_ping : ℕ → World p → World p
  after_ping left w = back_off p left (redis_call p ping w).1

  -- A ping that is answered is preceded by a number of pings that fail; so many attempts are left.
  pub data Answered : World p → ℕ → ℕ → Type 0 where
    at_once :
        {w : World p} {left : ℕ} → is_ok (redis_call p ping w).0 ≡ true → Answered w 0 (suc left)
    later :
        {w : World p} {k left : ℕ}
        → is_ok (redis_call p ping w).0 ≡ false
        → Answered (after_ping left w) k left
        → Answered w (suc k) (suc left)

  after_ping-later :
      (left : ℕ) (w : World p) → 0 < left → w.now + connect_backoff ≤ (after_ping left w).now
  unfolding back_off redis_call
  after_ping-later zero w h = absurd (omega arith)
  after_ping-later (suc left) w h = omega arith

  Answered-left : {w : World p} {k left : ℕ} → Answered w k left → 0 < left
  Answered-left (at_once ok) = omega arith
  Answered-left (later failed rest) = omega arith

  Answered-connects :
      {w : World p} {k left : ℕ}
      → Answered w k left
      → ((ping_redis p left w).0 ≡ true)
        × (w.now + k * connect_backoff ≤ (ping_redis p left w).1.now)
  unfolding ping_redis
  Answered-connects {w = w} (at_once ok) =
      rw (ok, ping_redis) (refl, omega (arith, redis_call-now p ping w))
  Answered-connects {w = w} (later {k = k} {left = left} failed rest) =
      let (ok, time) = Answered-connects rest in
      rw (failed, ping_redis)
        (ok, omega (arith, time, after_ping-later left w (Answered-left rest)))

  connects-Answered :
      (left : ℕ) (w : World p) → (ping_redis p left w).0 ≡ true → (k : ℕ) × (Answered w k left)
  unfolding ping_redis
  connects-Answered zero w h = absurd (ground arith)
  connects-Answered (suc left) w h = elim (Bool-cases (is_ok (redis_call p ping w).0)) [
    | inl ok ↦ (0, at_once ok)
    | inr failed ↦
        let (k, rest) = connects-Answered left (after_ping left w) (rw (failed, ping_redis) at h) in
        (suc k, later failed rest)
  ]

  -- A loop that gives up has paused after each attempt but the last.
  given_up :
      (left : ℕ) (w : World p)
      → (ping_redis p (suc left) w).0 ≡ false
      → w.now + left * connect_backoff ≤ (ping_redis p (suc left) w).1.now
  unfolding ping_redis back_off
  given_up zero w h = elim (Bool-cases (is_ok (redis_call p ping w).0)) [
    | inl ok ↦ absurd (ground arith)
    | inr failed ↦ rw (failed, ping_redis) (omega (arith, redis_call-now p ping w))
  ]
  given_up (suc left) w h = elim (Bool-cases (is_ok (redis_call p ping w).0)) [
    | inl ok ↦ absurd (ground arith)
    | inr failed ↦
        let time = given_up left (after_ping (suc left) w) (rw (failed, ping_redis) at h) in
        rw (failed, ping_redis) (omega (arith, time, after_ping-later (suc left) w (omega arith)))
  ]

  -- Redis is connected exactly if one of the first ten pings is answered and the limit counter is
  -- made; otherwise, if the counter is not at fault, nine pauses have passed.
  pub connect_redis_lem :
      (env : Environment) (w : World p)
      → env.limit_counter ≡ true
      → (((connect_redis p env w).0 ≡ true) ↔ ((k : ℕ) × Answered w k connect_retries))
        × ((connect_redis p env w).0 ≡ false
            → w.now + 9 * connect_backoff ≤ (connect_redis p env w).1.now)
  unfolding connect_redis
  connect_redis_lem env w made =
      let (ok, w') = ping_redis p connect_retries w in
      let same : (ok && env.limit_counter) ≡ ok = ground arith in
      rw same
        ((λ h. connects-Answered 10 w h, λ (k, a). (Answered-connects a).0), λ h. given_up 9 w h)
