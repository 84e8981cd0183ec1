-- ===== src/Platform/World.antt =====
-- The state that a request runs on, and the calls of it: each takes its time and has a number.
pub mod Calls
use secure_auth_gateway.Prelude.{ℕ, suc, ◌+◌, Bool, true, false, Option, List, Text}
use secure_auth_gateway.Platform.{Platform}
use secure_auth_gateway.Http.{Response}
use secure_auth_gateway.Platform.Redis.{Command, Reply}
use secure_auth_gateway.Platform.Postgres.{Query, Answer}

pub record World (p : Platform) : Type 0 where
  pub now : ℕ
  pub tick : ℕ
  pub store : p.Store
  pub tables : p.Tables
  -- `calibrateOnce` and `baselineVerifyCost`: `none` before the first call.
  pub baseline : Option ℕ

abbrev pub M : Platform → Type 0 → Type 0
M p A = World p → A × World p

infixl 5 ◌>>=◌ ◌>>◌
abbrev pub ◌>>=◌ : {p : Platform} {A B : Type 0} → M p A → (A → M p B) → M p B
◌>>=◌ m f w = let (a, w') = m w in f a w'

abbrev pub ◌>>◌ : {p : Platform} {A B : Type 0} → M p A → M p B → M p B
m >> k = m >>= λ _. k

abbrev pub pure : {p : Platform} {A : Type 0} → A → M p A
pure a w = (a, w)

-- A test between two computations.
abbrev pub branch : {p : Platform} {A : Type 0} → Bool → M p A → M p A → M p A
branch true m k w = m w
branch false m k w = k w

module _ (p : Platform) where
  -- A call takes its time, and the next one has the next number.
  abbrev pub elapse : World p → World p
  elapse w = record w { now = w.now + p.lag w.tick; tick = suc w.tick }

  -- A Redis command runs on the server when the call has arrived there.
  unfoldable pub redis_call : Command → M p Reply
  redis_call c w =
      let (reply, store) = p.redis (w.now + p.lag w.tick) c w.store in
      (reply, record (elapse w) { store = store })

  unfoldable pub postgres_call : Query → M p Answer
  postgres_call q w =
      let (answer, tables) = p.postgres (w.now + p.lag w.tick) q w.tables in
      (answer, record (elapse w) { tables = tables })

  -- `time.Now()`
  abbrev pub time_now : M p ℕ
  time_now w = (w.now + p.lag w.tick, elapse w)

  -- `uuid.NewString()`
  abbrev pub new_uuid : M p Text
  new_uuid w = (p.uuid w.tick, elapse w)

  -- `rand.Read` into the salt; `none` is its error.
  abbrev pub read_salt : M p (Option (List ℕ))
  read_salt w = (p.salt w.tick, elapse w)

  -- `rand.Int(rand.Reader, big.NewInt(span))`
  abbrev pub draw_int : ℕ → M p (Option ℕ)
  draw_int span w = (p.rand_int w.tick span, elapse w)

  -- A computation that only takes time.
  abbrev pub takes_time : {A : Type 0} → A → M p A
  takes_time a w = (a, elapse w)

  -- The limiter's call; the response comes back with what it wrote.
  unfoldable pub limiter_call : Text → Response → M p (Bool × Response)
  limiter_call ip r w =
      let (verdict, store) = p.limiter (w.now + p.lag w.tick) ip r w.store in
      (verdict, record (elapse w) { store = store })
