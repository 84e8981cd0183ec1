-- ===== src/Tests/Journeys.antt =====
-- A login on the concrete gateway and the request for the admin endpoint that follows it.
use secure_auth_gateway.Prelude.{
  ◌≡◌, ◌↔◌, refl, some, [], ◌∷◌, ◌++◌, Text, codes, fields, arith, text_eq,
}
use secure_auth_gateway.Platform.World.{redis_call, postgres_call}
use secure_auth_gateway.Platform.Postgres.{find_email, respond}
use secure_auth_gateway.Http.{Request, respond_json}
use secure_auth_gateway.Lockout.{is_locked, reset_failures, lockout_key}
use secure_auth_gateway.Tokens.{Verifier, verifier, create_access_token, create_refresh_token}
use secure_auth_gateway.Handlers.Login.{login, refresh_key}
use secure_auth_gateway.Platform.Redis.{perform, live, put}
use secure_auth_gateway.Password.{verify_password, encoded_hash}
use secure_auth_gateway.Password.Base64.{encode_sextet, decode, decode_sextet}
use secure_auth_gateway.Password.Scan.{scan_version, scan_parameters}
use secure_auth_gateway.Handlers.Responses.{set_refresh_cookie}
use secure_auth_gateway.Routes.{fresh_response, serve}
use secure_auth_gateway.Routes.Journey.{token_of, admin_after_login}
use secure_auth_gateway.Tests.Demo.{
  demo, handler, redis_laws, postgres_laws, paseto_laws, bob, replicate,
}
use secure_auth_gateway.Tests.Logins.{account, with_account, credentials, logs_in, admin_request}

abbrev key : Verifier
key = record { public_key = replicate 32 1 }

has_key : verifier demo handler.access_token_maker ≡ some key
unfolding verifier
has_key = refl

abbrev access : Text
access = 1 ∷ 1006 ∷ 900000001007 ∷ codes "2admin"

gives : token_of (login demo handler credentials fresh_response with_account).0 ≡ some access
unfolding token_of login is_locked redis_call perform live postgres_call respond find_email text_eq
    verify_password encoded_hash encode_sextet scan_version scan_parameters decode decode_sextet
    create_access_token create_refresh_token reset_failures set_refresh_cookie respond_json
    refresh_key put lockout_key
gives = refl

abbrev ask : Request
ask = record admin_request { authorization = codes "Bearer " ++ access }

two_words : fields ask.authorization ≡ codes "Bearer" ∷ access ∷ []
unfolding fields
two_words = refl

found : find_email bob.email with_account.tables ≡ some account
unfolding find_email text_eq
found = refl

admin_after_login_example :
    ((serve demo handler ask with_account).0.status ≡ some 200) ↔ (account.role ≡ codes "admin")
admin_after_login_example =
    admin_after_login redis_laws postgres_laws paseto_laws handler key has_key credentials ask
      fresh_response with_account with_account bob account (codes "Bearer") access [] refl logs_in
      gives refl found refl refl two_words refl (omega arith)
