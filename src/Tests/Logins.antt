-- ===== src/Tests/Logins.antt =====
-- Logins, refreshes and a protected request on the concrete gateway.
use secure_auth_gateway.Prelude.{
  ◌+◌, ◌≤◌, ◌≡◌, ◌≢◌, ◌↔◌, refl, true, false, text_eq, none, some, [], ◌∷◌, ◌++◌, codes, arith,
  text_eq, trim_space, is_space,
}
use secure_auth_gateway.Platform.Postgres.{User, user, respond, find_email}
use secure_auth_gateway.Platform.Redis.{perform, count, put, get, live, fail}
use secure_auth_gateway.Platform.World.{World, redis_call, postgres_call}
use secure_auth_gateway.Http.{Request, Credentials, respond_json}
use secure_auth_gateway.Password.{encoded_hash, digest, verify_password, checked}
use secure_auth_gateway.Password.Base64.{encode_sextet, decode, decode_sextet}
use secure_auth_gateway.Password.Scan.{scan_version, scan_parameters}
use secure_auth_gateway.Tokens.{create_access_token, create_refresh_token}
use secure_auth_gateway.Lockout.{lockout_key, is_locked, reset_failures}
use secure_auth_gateway.Handlers.Responses.{set_refresh_cookie, respond_invalid_credentials}
use secure_auth_gateway.Handlers.Login.{refresh_key, login, login_found, valid_login}
use secure_auth_gateway.Handlers.Login.Refusals.{
  ClientsStay, wrong, login_found-IsRefused, login-429,
}
use secure_auth_gateway.Handlers.Login.Outcome.{IsLoggedIn, login-IsLoggedIn}
use secure_auth_gateway.Handlers.Session.{refresh}
use secure_auth_gateway.Handlers.Session.Outcome.{IsRefreshed, refresh-IsRefreshed}
use secure_auth_gateway.Routes.{fresh_response, serve}
use secure_auth_gateway.Routes.Access.{IsAuthorized, serve-admin_health}
use secure_auth_gateway.History.RouteReplies.{Outside}
use secure_auth_gateway.History.Headers.{IsSecured, serve-IsSecured}
use secure_auth_gateway.Tests.Demo.{
  demo, start, handler, redis_laws, postgres_laws, auth_request, bob, replicate, value-fail,
}
use secure_auth_gateway.Tests.Sessions.{with_session, request, refreshes}

abbrev pub account : User
account = record {
  id = codes "2";
  email = bob.email;
  password_hash = encoded_hash (replicate 16 7) (digest demo bob.password (replicate 16 7));
  created_at = 0;
  role = codes "admin";
}

abbrev pub with_account : World demo
with_account = record start { tables = account ∷ [] }

abbrev pub credentials : Request
credentials = auth_request "/api/v1/auth/login" (some bob) none

pub logs_in : (login demo handler credentials fresh_response with_account).0.status ≡ some 201
unfolding login is_locked redis_call perform live postgres_call respond find_email text_eq
    verify_password encoded_hash encode_sextet scan_version scan_parameters decode decode_sextet
    create_access_token create_refresh_token reset_failures set_refresh_cookie respond_json
    refresh_key put lockout_key
logs_in = refl

login-IsLoggedIn_example :
    IsLoggedIn redis_laws postgres_laws handler credentials fresh_response
      (login demo handler credentials fresh_response with_account).0
      with_account
      (login demo handler credentials fresh_response with_account).1
login-IsLoggedIn_example =
    login-IsLoggedIn redis_laws postgres_laws handler credentials fresh_response with_account refl
      logs_in

stays : ClientsStay demo
stays call = refl

abbrev guess : Credentials
guess = record bob { password = codes "wrong" }

refuses : verify_password demo guess.password account.password_hash ≡ checked false
unfolding verify_password encoded_hash encode_sextet text_eq scan_version scan_parameters decode
    decode_sextet
refuses = refl

login_found-IsRefused_example :
    ((login_found demo handler guess 900 (user account) fresh_response with_account).0
      ≡ respond_invalid_credentials fresh_response)
    × (900 + 250
        ≤ (login_found demo handler guess 900 (user account) fresh_response with_account).1.now)
login_found-IsRefused_example =
    login_found-IsRefused handler stays guess (user account) 900 250 fresh_response with_account
      (wrong account refuses) refl (omega arith)

abbrev spent : World demo
spent = record with_account {
  store =
      put (lockout_key demo bob.email) (some (record { value = count 5; expires = some 5000 }))
        start.store;
}

is_valid : valid_login demo handler bob ≡ true
is_valid = refl

spent_entry :
    live 1001 (spent.store (lockout_key demo bob.email))
    ≡ some (record { value = count 5; expires = some 5000 })
unfolding live put text_eq lockout_key trim_space is_space
spent_entry = refl

spent_reads : (redis_call demo (get (lockout_key demo bob.email)) spent).0 ≢ fail
unfolding redis_call perform live put text_eq lockout_key trim_space is_space
spent_reads = value-fail (count 5)

login-429_example :
    ((login demo handler credentials fresh_response spent).0.status ≡ some 429)
    × ((login demo handler credentials fresh_response spent).1.tables ≡ spent.tables)
login-429_example =
    login-429 redis_laws handler credentials bob 5 (some 5000) fresh_response spent refl is_valid
      spent_entry (omega arith) spent_reads refl

refresh-IsRefreshed_example :
    IsRefreshed redis_laws postgres_laws handler request fresh_response
      (refresh demo handler request fresh_response with_session).0
      with_session
      (refresh demo handler request fresh_response with_session).1
refresh-IsRefreshed_example =
    refresh-IsRefreshed redis_laws postgres_laws handler request fresh_response with_session refl
      refreshes

abbrev pub admin_request : Request
admin_request = record {
  method = "GET";
  path = "/api/v1/admin/health";
  body = none;
  cookie = none;
  authorization = codes "Bearer " ++ (1 ∷ 900 ∷ 5000 ∷ codes "2admin");
  client_ip = codes "10.0.0.1";
}

serve-admin_health_example :
    ((serve demo handler admin_request start).0.status ≡ some 200)
    ↔ IsAuthorized demo handler (codes "admin") admin_request start
serve-admin_health_example = serve-admin_health handler admin_request start refl refl

outside : Outside demo IsSecured
outside = record { unrouted-kept = λ req r s. s; limiter-kept = λ now ip r store s. s }

serve-IsSecured_example : IsSecured (serve demo handler admin_request start).0
serve-IsSecured_example = serve-IsSecured outside handler admin_request start
