-- ===== src/Startup.antt =====
-- The start of the gateway: cmd/api/main.go up to the routes, internal/db, the connection of
-- internal/redis_db/redis.go, and the keys of cmd/keygen/main.go.
pub mod Connections
pub mod Steps
pub mod Keys
use secure_auth_gateway.Prelude.{
  ℕ, zero, suc, ◌+◌, ◌-◌, ◌*◌, Bool, true, false, ◌&&◌, Option, none, some, List, [], ◌∷◌, ◌++◌,
  Text, codes, ltb, leb, if◌then◌else◌,
}
use secure_auth_gateway.Platform.{Platform}
use secure_auth_gateway.Platform.Redis.{Reply, ping, second}
use secure_auth_gateway.Platform.World.{World, M, ◌>>=◌, ◌>>◌, pure, redis_call, takes_time}
use secure_auth_gateway.Lockout.{is_ok}
use secure_auth_gateway.Timing.{calibrate_verify_cost}
use secure_auth_gateway.Tokens.{
  AccessTokenSigner, RefreshTokenMaker, new_access_token_signer, new_refresh_token_maker,
}
use secure_auth_gateway.Handlers.Responses.{AuthHandler, new_auth_handler}
use secure_auth_gateway.Handlers.PublicKey.{hex}

-- `hex.DecodeString`, which takes digits of either case.
abbrev pub hex_value : ℕ → Option ℕ
hex_value c =
    if leb b'0' c && leb c b'9'
    then some (c - b'0')
    else if leb b'a' c && leb c b'f'
    then some (c - b'a' + 10)
    else if leb b'A' c && leb c b'F'
    then some (c - b'A' + 10)
    else none

abbrev pub hex_byte : Option ℕ → Option ℕ → Option (List ℕ) → Option (List ℕ)
hex_byte (some high) (some low) (some bytes) = some ((16 * high + low) ∷ bytes)
hex_byte _ _ _ = none

unfoldable pub decode_hex : Text → Option (List ℕ)
decode_hex [] = some []
decode_hex (c ∷ []) = none
decode_hex (c ∷ d ∷ s) = hex_byte (hex_value c) (hex_value d) (decode_hex s)

-- `connectRetries` and `connectBackoff`, in both packages.
abbrev pub connect_retries : ℕ
connect_retries = 10

abbrev pub connect_backoff : ℕ
connect_backoff = 2 * second

pub data UpResult : Type 0 where
  applied no_change up_failed : UpResult

-- What the start needs from outside: the two keys in the environment, the pool of Postgres, the
-- limit counter and the migrator. The attempts at the pool are told apart by the number of the call.
pub record Environment : Type 0 where
  pub access_token_private_key : Text
  pub refresh_token_key : Text
  pub new_pool : ℕ → Bool
  pub ping_pool : ℕ → Bool
  pub limit_counter : Bool
  pub migration_source : Bool
  pub migrator : Bool
  pub up : UpResult

-- `log.Fatalf` at the step named.
pub data Start : Type 0 where
  started : AuthHandler → Start
  bad_private_key bad_signer bad_refresh_key bad_maker no_postgres no_migrations no_redis : Start

abbrev pub up_ok : UpResult → Bool
up_ok up_failed = false
up_ok _ = true

-- `RunMigrations`; false is its error.
abbrev pub run_migrations : Environment → Bool
run_migrations env = env.migration_source && env.migrator && up_ok env.up

module _ (p : Platform) where
  abbrev pub sleep : ℕ → World p → World p
  sleep d w = record w { now = w.now + d + p.lag w.tick; tick = suc w.tick }

  -- The pause after an attempt, which the last one does not have; `left` attempts are to come.
  unfoldable pub back_off : ℕ → World p → World p
  back_off zero w = w
  back_off (suc left) w = sleep connect_backoff w

  -- The loop of `redis_db.Connect`, by the attempts left.
  unfoldable pub ping_redis : ℕ → M p Bool
  ping_redis zero w = (false, w)
  ping_redis (suc left) w =
      let (reply, w') = redis_call p ping w in
      elim (is_ok reply) [ true ↦ (true, w') | false ↦ ping_redis left (back_off left w') ]

  unfoldable pub connect_redis : Environment → M p Bool
  unfolding ping_redis
  connect_redis env = ping_redis connect_retries >>= λ ok. pure (ok && env.limit_counter)

  -- One attempt at the pool: it is made and then pinged.
  abbrev pub try_pool : Environment → M p Bool
  try_pool env w = elim (env.new_pool w.tick) [
    | true ↦ takes_time p (env.ping_pool w.tick) w
    | false ↦ takes_time p false w
  ]

  -- The loop of `database.Connect`.
  unfoldable pub open_pool : Environment → ℕ → M p Bool
  open_pool env zero w = (false, w)
  open_pool env (suc left) w =
      let (ok, w') = try_pool env w in
      elim ok [ true ↦ (true, w') | false ↦ open_pool env left (back_off left w') ]

  unfoldable pub connect_postgres : Environment → M p Bool
  unfolding open_pool
  connect_postgres env = open_pool env connect_retries

  -- The steps of `main`, from the last to the first.
  unfoldable pub start_handler : AccessTokenSigner → RefreshTokenMaker → Bool → M p Start
  start_handler signer maker false = pure no_redis
  start_handler signer maker true =
      calibrate_verify_cost p >>= λ _. pure (started (new_auth_handler signer maker))

  unfoldable pub start_services :
      Environment → AccessTokenSigner → RefreshTokenMaker → Bool → M p Start
  unfolding start_handler
  start_services env signer maker false = pure no_postgres
  start_services env signer maker true = elim (run_migrations env) [
    | false ↦ pure no_migrations
    | true ↦ connect_redis env >>= λ ok. start_handler signer maker ok
  ]

  unfoldable pub start_maker : Environment → AccessTokenSigner → M p Start
  unfolding start_services
  start_maker env signer = elim (decode_hex env.refresh_token_key) [
    | none ↦ pure bad_refresh_key
    | some key ↦ elim (new_refresh_token_maker key) [
      | none ↦ pure bad_maker
      | some maker ↦ connect_postgres env >>= λ ok. start_services env signer maker ok
    ]
  ]

  unfoldable pub start : Environment → M p Start
  unfolding start_maker
  start env = elim (decode_hex env.access_token_private_key) [
    | none ↦ pure bad_private_key
    | some key ↦ elim (new_access_token_signer key) [
      | none ↦ pure bad_signer
      | some signer ↦ start_maker env signer
    ]
  ]

-- What `keygen` prints, from the two halves of a key pair and a refresh key; `none` is the error of
-- the random source.
unfoldable pub keygen : Option (List ℕ × List ℕ) → Option (List ℕ) → Option (List Text)
keygen (some (public, private)) (some refresh_key) = some (
    (codes "ACCESS_TOKEN_PRIVATE_KEY=" ++ hex private)
    ∷ (codes "REFRESH_TOKEN_KEY=" ++ hex refresh_key)
    ∷ []
    ∷ codes "# public key, derived at startup — published at /.well-known/paseto-public-key"
    ∷ (codes "# " ++ hex public)
    ∷ [])
keygen _ _ = none
