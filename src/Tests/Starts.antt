-- ===== src/Tests/Starts.antt =====
-- Starts of the concrete gateway.
use secure_auth_gateway.Prelude.{
  ℕ, ◌+◌, ◌*◌, ◌≤◌, ◌≡◌, ◌↔◌, refl, true, false, none, some, List, [], ◌∷◌, ◌++◌, Text, codes, leb,
  arith,
}
use secure_auth_gateway.Platform.World.{World, redis_call}
use secure_auth_gateway.Handlers.PublicKey.{hex}
use secure_auth_gateway.Handlers.Responses.{new_auth_handler}
use secure_auth_gateway.Startup.{
  Environment, applied, started, connect_redis, connect_postgres, connect_retries, connect_backoff,
  run_migrations, keygen,
}
use secure_auth_gateway.Startup
use secure_auth_gateway.Startup.Connections.{Answered, connect_redis_lem}
use secure_auth_gateway.Startup.Keys.{IsStarted, start-IsStarted, start-keygen}
use secure_auth_gateway.Tests.Demo.{demo, start, handler, replicate, replicate-IsByte}
use secure_auth_gateway.Platform.Redis.{perform}
use secure_auth_gateway.Tokens.{new_access_token_signer, new_refresh_token_maker}

-- Postgres answers at the third attempt.
abbrev environment : Environment
environment = record {
  access_token_private_key = hex (replicate 64 1);
  refresh_token_key = hex (replicate 32 2);
  new_pool = λ call. true;
  ping_pool = λ call. leb 5 call;
  limit_counter = true;
  migration_source = true;
  migrator = true;
  up = applied;
}

abbrev boot : World demo
boot = record start { baseline = none }

reaches_postgres : (connect_postgres demo environment boot).0 ≡ true
unfolding connect_postgres Startup.back_off
reaches_postgres = refl

reaches_redis : (connect_redis demo environment (connect_postgres demo environment boot).1).0 ≡ true
unfolding connect_redis redis_call perform
reaches_redis = refl

connect_redis_lem_example :
    (((connect_redis demo environment boot).0 ≡ true)
      ↔ ((k : ℕ) × Answered demo boot k connect_retries))
    × ((connect_redis demo environment boot).0 ≡ false
        → 1000 + 9 * connect_backoff ≤ (connect_redis demo environment boot).1.now)
connect_redis_lem_example = connect_redis_lem demo environment boot refl

starts : (Startup.start demo environment boot).0 ≡ started handler
unfolding Startup.start Startup.decode_hex hex new_access_token_signer new_refresh_token_maker
    connect_postgres Startup.back_off connect_redis redis_call perform
starts = refl

start-IsStarted_example : IsStarted environment handler boot (Startup.start demo environment boot).1
start-IsStarted_example = start-IsStarted environment handler boot refl starts

abbrev rest : List Text
rest =
    []
    ∷ codes "# public key, derived at startup — published at /.well-known/paseto-public-key"
    ∷ (codes "# " ++ hex (replicate 32 1))
    ∷ []

prints :
    keygen (some (replicate 32 1, replicate 64 1)) (some (replicate 32 2))
    ≡ some (
        (codes "ACCESS_TOKEN_PRIVATE_KEY=" ++ environment.access_token_private_key)
        ∷ (codes "REFRESH_TOKEN_KEY=" ++ environment.refresh_token_key)
        ∷ rest)
unfolding keygen
prints = refl

start-keygen_example :
    (Startup.start demo environment boot).0
    ≡ started (
        new_auth_handler
          (record { private_key = replicate 64 1 })
          (record { key = replicate 32 2 }))
start-keygen_example =
    start-keygen environment (replicate 32 1) (replicate 64 1) (replicate 32 2) rest boot
      (replicate-IsByte 64 1 (omega arith)) (replicate-IsByte 32 2 (omega arith)) refl refl prints
      reaches_postgres refl reaches_redis
