-- ===== src/Tests/Sessions.antt =====
-- The sessions of the concrete gateway.
use secure_auth_gateway.Prelude.{
  ℕ, ◌≤◌, ◌≡◌, ◌≢◌, refl, none, some, [], ◌∷◌, Text, codes, arith, text_eq,
}
use secure_auth_gateway.Platform.Payload.{RefreshTokenPayload}
use secure_auth_gateway.Platform.Redis.{fail, get_del, text, put, perform, live}
use secure_auth_gateway.Platform.World.{World, elapse, redis_call, postgres_call}
use secure_auth_gateway.Http.{Request, respond_json}
use secure_auth_gateway.Handlers.Responses.{respond_invalid_session, set_refresh_cookie}
use secure_auth_gateway.Handlers.Session.{refresh, logout}
use secure_auth_gateway.Handlers.Login.{refresh_key}
use secure_auth_gateway.Routes.{fresh_response}
use secure_auth_gateway.History.Requests.{serve_all}
use secure_auth_gateway.History.SingleUse.{refresh_single_use, logout_revokes}
use secure_auth_gateway.Tests.Demo.{
  demo, handler, start, redis_laws, limiter_laws, auth_request, value-fail,
}
use secure_auth_gateway.Tokens.{verify_refresh_token, create_access_token, create_refresh_token}
use secure_auth_gateway.Platform.Postgres.{respond, find_id}

abbrev token : Text
token = 1 ∷ 0 ∷ 5000000000 ∷ 0 ∷ codes "1"

abbrev pub claims : RefreshTokenPayload
claims = record {
  token_id = 0 ∷ [];
  user_id = codes "1";
  meta = record { issued_at = 0; expired_at = 5000000000 };
}

abbrev pub request : Request
request = auth_request "/api/v1/auth/refresh" none (some token)

-- The session's token is stored.
abbrev pub with_session : World demo
with_session = record start {
  store =
      put (refresh_key (0 ∷ []))
        (some (record { value = text (codes "1"); expires = some 5000000000 })) start.store;
}

pub refreshes : (refresh demo handler request fresh_response with_session).0.status ≡ some 201
unfolding refresh verify_refresh_token redis_call perform live put text_eq refresh_key postgres_call
    respond find_id create_access_token create_refresh_token respond_json set_refresh_cookie
refreshes = refl

pub not_reused : (call : ℕ) → 1 ≤ call → call ∷ [] ≢ 0 ∷ []
not_reused call h = ground arith

refresh_single_use_example :
    (refresh demo handler request fresh_response (
      serve_all demo handler
        (request ∷ request ∷ [])
        (refresh demo handler request fresh_response with_session).1)).0
    ≡ respond_invalid_session fresh_response
refresh_single_use_example =
    refresh_single_use redis_laws limiter_laws handler token claims request request fresh_response
      fresh_response (request ∷ request ∷ []) with_session refl refl refl not_reused refl refreshes

answers : (redis_call demo (get_del (refresh_key (0 ∷ []))) (elapse demo with_session)).0 ≢ fail
unfolding redis_call perform live put text_eq refresh_key
answers = value-fail (text (codes "1"))

logout_revokes_example :
    (refresh demo handler request fresh_response (
      serve_all demo handler
        (request ∷ request ∷ [])
        (logout demo handler request fresh_response with_session).1)).0
    ≡ respond_invalid_session fresh_response
logout_revokes_example =
    logout_revokes redis_laws limiter_laws handler token claims request request fresh_response
      fresh_response (request ∷ request ∷ []) with_session refl refl refl not_reused
      (λ late. ground arith) answers
