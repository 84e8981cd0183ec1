-- ===== src/Platform.antt =====
-- The code that the gateway calls and does not contain, as one record of operations: Redis and
-- Postgres, the clock and the random sources, the validator, Argon2id and PASETO. The laws that a
-- theorem relies on are records of their own, which it takes as hypotheses.
pub mod Payload
pub mod Redis
pub mod Postgres
pub mod World
use secure_auth_gateway.Prelude.{ℕ, ◌≡◌, ◌≢◌, ◌⊎◌, Bool, Option, some, List, ◌++◌, Text, codes}
use secure_auth_gateway.Http.{Request, Response}
use Payload.{AccessTokenPayload, RefreshTokenPayload}
use Redis.{Command, Reply, fail, Keyspace, perform}
use Postgres.{Query, Answer, failed, User, respond}

pub record Platform : Type 1 where
  -- The services. `redis t c s` runs the command `c` on the server's state `s` at time `t`.
  pub Store : Type 0
  pub redis : ℕ → Command → Store → Reply × Store
  pub Tables : Type 0
  pub postgres : ℕ → Query → Tables → Answer × Tables
  -- The rate limiter of `httprate`, which keeps its counts in the same Redis: whether it lets a
  -- request of a client through, and the response with its headers or its refusal.
  pub limiter : ℕ → Text → Response → Store → (Bool × Response) × Store
  -- The router's own answer to a request that no route takes.
  pub unrouted : Request → Response → Response
  -- The environment, by the number of the call: how long the call takes, and what it draws.
  pub lag : ℕ → ℕ
  pub uuid : ℕ → Text
  pub salt : ℕ → Option (List ℕ)
  pub rand_int : ℕ → ℕ → Option ℕ
  -- `some d`: the client leaves `d` after the wait begins.
  pub hung_up : ℕ → Option ℕ
  -- The validator's `email`, and `unicode.ToLower`.
  pub valid_email : Text → Bool
  pub lower : ℕ → ℕ
  -- `argon2.IDKey` on password, salt, time, memory, threads and key length.
  pub id_key : Text → List ℕ → ℕ → ℕ → ℕ → ℕ → List ℕ
  -- PASETO v2, and the public half of an Ed25519 private key.
  pub public_half : List ℕ → List ℕ
  pub sign : List ℕ → AccessTokenPayload → Option Text
  pub verify : Text → List ℕ → Option AccessTokenPayload
  pub encrypt : ℕ → List ℕ → RefreshTokenPayload → Option Text
  pub decrypt : Text → List ℕ → Option RefreshTokenPayload

module _ (p : Platform) where
  open p use {Store, redis, Tables, postgres, public_half, sign, verify, encrypt, decrypt}

  -- Redis does what `perform` says and reports it, or the caller gets an error: then the command
  -- has run or has not.
  pub record RedisLaws : Type 0 where
    pub view : Store → Keyspace
    pub redis_law :
        (now : ℕ) (c : Command) (s : Store)
        → (((redis now c s).0 ≡ (perform now c (view s)).0)
            × (view (redis now c s).1 ≡ (perform now c (view s)).1))
          ⊎ (((redis now c s).0 ≡ fail)
              × ((view (redis now c s).1 ≡ view s)
                  ⊎ (view (redis now c s).1 ≡ (perform now c (view s)).1)))

  -- The rate limiter keeps its counts under keys of its own.
  pub record LimiterLaws (view : Store → Keyspace) : Type 0 where
    pub limiter_law :
        (now : ℕ) (ip : Text) (r : Response) (s : Store) (k : Text)
        → ((rest : Text) → k ≢ codes "httprate" ++ rest)
        → view (p.limiter now ip r s).1 k ≡ view s k

  -- Postgres likewise, with `respond`; the identifier of a new row is its own choice.
  pub record PostgresLaws : Type 0 where
    pub rows : Tables → List User
    pub new_id : Tables → Text
    pub postgres_law :
        (now : ℕ) (q : Query) (b : Tables)
        → (((postgres now q b).0 ≡ (respond now (new_id b) q (rows b)).0)
            × (rows (postgres now q b).1 ≡ (respond now (new_id b) q (rows b)).1))
          ⊎ (((postgres now q b).0 ≡ failed)
              × ((rows (postgres now q b).1 ≡ rows b)
                  ⊎ (rows (postgres now q b).1 ≡ (respond now (new_id b) q (rows b)).1)))

  -- A token that was made is read back under the matching key.
  pub record PasetoLaws : Type 0 where
    pub sign-verify :
        (key : List ℕ) (c : AccessTokenPayload) (t : Text)
        → sign key c ≡ some t
        → verify t (public_half key) ≡ some c
    pub encrypt-decrypt :
        (call : ℕ) (key : List ℕ) (c : RefreshTokenPayload) (t : Text)
        → encrypt call key c ≡ some t
        → decrypt t key ≡ some c
