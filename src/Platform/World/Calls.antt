-- ===== src/Platform/World/Calls.antt =====
-- What a Redis or a Postgres call leaves behind, under the laws of the two services.
use secure_auth_gateway.Prelude.{suc, ◌+◌, ◌≡◌, refl, ap, ◌≢◌, ◌⊎◌, inl, inr, List, Text}
use secure_auth_gateway.Platform.{Platform, RedisLaws, PostgresLaws}
use secure_auth_gateway.Platform.Redis.{Command, fail, Keyspace, perform}
use secure_auth_gateway.Platform.Postgres.{Query, failed, User, respond}
use secure_auth_gateway.Platform.World.{World, redis_call, postgres_call}

module _ {p : Platform} (r : RedisLaws p) where
  abbrev pub seen : World p → Keyspace
  seen w = r.view w.store

  -- A call without an error has done what the command means.
  pub redis_call_ok :
      (c : Command) (w : World p)
      → (redis_call p c w).0 ≢ fail
      → ((redis_call p c w).0 ≡ (perform (w.now + p.lag w.tick) c (seen w)).0)
        × (seen (redis_call p c w).1 ≡ (perform (w.now + p.lag w.tick) c (seen w)).1)
  unfolding redis_call
  redis_call_ok c w ne = elim (r.redis_law (w.now + p.lag w.tick) c w.store) [
    | inl h ↦ h
    | inr h ↦ absurd (ne h.0)
  ]

  -- The reply is what the command means, or an error.
  pub redis_call_reply :
      (c : Command) (w : World p)
      → ((redis_call p c w).0 ≡ (perform (w.now + p.lag w.tick) c (seen w)).0)
        ⊎ ((redis_call p c w).0 ≡ fail)
  unfolding redis_call
  redis_call_reply c w = elim (r.redis_law (w.now + p.lag w.tick) c w.store) [
    | inl h ↦ inl h.0
    | inr h ↦ inr h.0
  ]

  -- The same at one key.
  pub redis_call_at :
      (c : Command) (w : World p) (k : Text)
      → (redis_call p c w).0 ≢ fail
      → seen (redis_call p c w).1 k ≡ (perform (w.now + p.lag w.tick) c (seen w)).1 k
  redis_call_at c w k ne = ap (λ s. s k) (redis_call_ok c w ne).1

module _ (p : Platform) where
  pub redis_call-now : (c : Command) (w : World p) → (redis_call p c w).1.now ≡ w.now + p.lag w.tick
  unfolding redis_call
  redis_call-now c w = refl

  pub redis_call-tick : (c : Command) (w : World p) → (redis_call p c w).1.tick ≡ suc w.tick
  unfolding redis_call
  redis_call-tick c w = refl

  pub redis_call-tables : (c : Command) (w : World p) → (redis_call p c w).1.tables ≡ w.tables
  unfolding redis_call
  redis_call-tables c w = refl

module _ {p : Platform} (q : PostgresLaws p) where
  abbrev pub table : World p → List User
  table w = q.rows w.tables

  -- A query without an error has done what it means.
  pub postgres_call_ok :
      (query : Query) (w : World p)
      → (postgres_call p query w).0 ≢ failed
      → let (answer, rows) = respond (w.now + p.lag w.tick) (q.new_id w.tables) query (table w) in
        ((postgres_call p query w).0 ≡ answer) × (table (postgres_call p query w).1 ≡ rows)
  unfolding postgres_call
  postgres_call_ok query w ne = elim (q.postgres_law (w.now + p.lag w.tick) query w.tables) [
    | inl h ↦ h
    | inr h ↦ absurd (ne h.0)
  ]
