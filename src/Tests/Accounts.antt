-- ===== src/Tests/Accounts.antt =====
-- The accounts of the concrete gateway.
use secure_auth_gateway.Prelude.{◌≡◌, refl, some, none, arith, text_eq, [], ◌∷◌}
use secure_auth_gateway.Platform.World.{postgres_call}
use secure_auth_gateway.Platform.World.Calls.{table}
use secure_auth_gateway.Http.{Request, respond_json}
use secure_auth_gateway.Handlers.Register.{register}
use secure_auth_gateway.Handlers.Register.Outcome.{
  register-IsRegistered, IsRegistered, SaltsAreBytes,
}
use secure_auth_gateway.Routes.{fresh_response}
use secure_auth_gateway.History.Requests.{serve_all}
use secure_auth_gateway.History.Accounts.{Grows}
use secure_auth_gateway.History.Origins.{IsMade, serve_all-Grows}
use secure_auth_gateway.Tests.Demo.{
  handler, demo, start, postgres_laws, argon2_laws, auth_request, bob, replicate, replicate-IsByte,
}
use secure_auth_gateway.Platform.Postgres.{respond, find_email, find_id}
use secure_auth_gateway.Password.{hash_password}

abbrev request : Request
request = auth_request "/api/v1/auth/register" (some bob) none

registers : (register demo request fresh_response start).0.status ≡ some 201
unfolding register postgres_call respond find_email text_eq hash_password find_id respond_json
registers = refl

salts : SaltsAreBytes demo
salts call salt drawn =
    let e : salt ≡ replicate 16 7 = cc in rw e (replicate-IsByte 16 7 (omega arith))

register-IsRegistered_example :
    IsRegistered postgres_laws request fresh_response
      (register demo request fresh_response start).0
      start
      (register demo request fresh_response start).1
register-IsRegistered_example =
    register-IsRegistered postgres_laws argon2_laws salts request fresh_response start refl
      registers

serve_all-Grows_example :
    Grows
      (IsMade demo (request ∷ request ∷ []))
      (table postgres_laws start)
      (table postgres_laws (serve_all demo handler (request ∷ request ∷ []) start))
serve_all-Grows_example =
    serve_all-Grows demo (request ∷ request ∷ []) postgres_laws argon2_laws salts handler start
