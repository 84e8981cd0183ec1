-- ===== src/History/Keeps.antt =====
-- An invariant of the state, and what each call has to do to keep it. The handlers' proofs use
-- only this interface; an invariant is a value of it.
use secure_auth_gateway.Prelude.{ℕ, suc, ◌+◌, ◌<◌, ◌≡◌, true, some, Text, ℤ}
use secure_auth_gateway.Platform.{Platform}
use secure_auth_gateway.Platform.Redis.{incr, expire, get, ttl, del, set, get_del}
use secure_auth_gateway.Platform.Postgres.{Query, insert_user}
use secure_auth_gateway.Platform.World.{World, M, elapse, redis_call, postgres_call, limiter_call}
use secure_auth_gateway.Http.{Response, Credentials}
use secure_auth_gateway.Lockout.{lockout_key, lockout_window}
use secure_auth_gateway.Password.{hash_password}
use secure_auth_gateway.Handlers.Register.{valid_registration}
use secure_auth_gateway.Handlers.Login.{refresh_key}

-- From a state with the invariant a computation ends in one.
abbrev pub Keeps : {p : Platform} {A : Type 0} → (World p → Type 0) → M p A → Type 0
Keeps {p} I m = (w : World p) → I w → I (m w).1

-- A query that is no `INSERT`.
abbrev pub IsReading : Query → Type 0
IsReading (insert_user e h) = ⊥
IsReading _ = Unit

-- What `HashPassword` gave for a password at some time.
abbrev pub IsHashOf : Platform → Text → Text → Type 0
IsHashOf p password hash = (w : World p) × ((hash_password p password w).0 ≡ some hash)

-- `Fresh` is what is known of an identifier that was just drawn, and `Asked` of the body of
-- a registration.
pub record Kept (p : Platform) (I : World p → Type 0) (Fresh : Text → Type 0)
    (Asked : Credentials → Type 0) : Type 0 where
  pub elapsing : Keeps I (λ w. (tt, elapse p w))
  pub waiting :
      (d : ℕ) → Keeps I (λ w. (tt, record w { now = w.now + d + p.lag w.tick; tick = suc w.tick }))
  pub calibrating : (b : ℕ) → 0 < b → Keeps I (λ w. (tt, record w { baseline = some b }))
  pub drawing : (w : World p) → I w → Fresh (p.uuid w.tick)
  pub counting : (email : Text) → Keeps I (redis_call p (incr (lockout_key p email)))
  pub bounding :
      (email : Text) → Keeps I (redis_call p (expire (lockout_key p email) lockout_window))
  pub reading : (email : Text) → Keeps I (redis_call p (get (lockout_key p email)))
  pub timing : (email : Text) → Keeps I (redis_call p (ttl (lockout_key p email)))
  pub clearing : (email : Text) → Keeps I (redis_call p (del (lockout_key p email)))
  pub storing :
      (id user_id : Text) (d : ℤ)
      → Fresh id
      → Keeps I (redis_call p (set (refresh_key id) user_id d))
  pub claiming : (id : Text) → Keeps I (redis_call p (get_del (refresh_key id)))
  pub querying : (q : Query) → IsReading q → Keeps I (postgres_call p q)
  pub inserting :
      (c : Credentials) (hash : Text)
      → IsHashOf p c.password hash
      → valid_registration p c ≡ true
      → Asked c
      → Keeps I (postgres_call p (insert_user c.email hash))
  pub limiting : (ip : Text) (r : Response) → Keeps I (limiter_call p ip r)
