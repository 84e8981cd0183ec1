-- ===== src/Tests/Seedings.antt =====
-- A seeding of the concrete gateway.
use secure_auth_gateway.Prelude.{
  ◌≡◌, refl, none, All, arith, text_eq, decimal, trim_space, is_space,
}
use secure_auth_gateway.Platform.World.{redis_call, postgres_call, limiter_call}
use secure_auth_gateway.Platform.World.Calls.{table}
use secure_auth_gateway.Platform.Redis.{perform, live, put}
use secure_auth_gateway.Platform.Postgres.{respond, find_email, find_id}
use secure_auth_gateway.Http.{respond_json, set_header}
use secure_auth_gateway.Password.{hash_password, verify_password, encoded_hash}
use secure_auth_gateway.Password.Base64.{encode_sextet, decode, decode_sextet}
use secure_auth_gateway.Password.Scan.{scan_version, scan_parameters}
use secure_auth_gateway.Tokens.{create_access_token, create_refresh_token}
use secure_auth_gateway.Lockout.{is_locked, lockout_key, reset_failures}
use secure_auth_gateway.Gate.{security_headers}
use secure_auth_gateway.Handlers.Responses.{set_refresh_cookie}
use secure_auth_gateway.Handlers.Register.{register}
use secure_auth_gateway.Handlers.Login.{login, refresh_key}
use secure_auth_gateway.Routes.{serve}
use secure_auth_gateway.Loadtest.Seed.{account, accounts}
use secure_auth_gateway.Loadtest.Seeding.{LimiterStatus, HasAccount, seed}
use secure_auth_gateway.Loadtest.Seeding.Outcome.{seed-All}
use secure_auth_gateway.Tests.Demo.{demo, start, handler, redis_laws, postgres_laws}

statuses : LimiterStatus demo
statuses = record {
  passes = λ now ip r s lets. refl;
  refuses = λ now ip r s refused. absurd (ground arith);
}

seeds : (seed demo handler start).0 ≡ none
unfolding seed serve limiter_call register account decimal postgres_call respond find_email text_eq
    hash_password find_id respond_json security_headers login is_locked redis_call perform live put
    lockout_key verify_password encoded_hash encode_sextet scan_version scan_parameters decode
    decode_sextet create_access_token create_refresh_token reset_failures set_refresh_cookie
    refresh_key set_header trim_space is_space
seeds = refl

seed-All_example : All (HasAccount demo (table postgres_laws (seed demo handler start).1)) accounts
seed-All_example = seed-All redis_laws postgres_laws statuses handler start seeds
