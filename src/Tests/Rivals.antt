-- ===== src/Tests/Rivals.antt =====
-- Two goroutines of the concrete gateway that refresh with the same token at the same time.
use secure_auth_gateway.Prelude.{arith, ℕ, ◌≡◌, refl, some, [], ◌∷◌, List, text_eq}
use secure_auth_gateway.History.Requests.{serve_all}
use secure_auth_gateway.SessionTable.{Evolves}
use secure_auth_gateway.SessionTable.Refines.{IsDrawn, sessions, serve_all-Evolves}
use native.Mathlib.Decide.{ℕ_discrete}
use secure_auth_gateway.Http.{respond_json, Response}
use secure_auth_gateway.Routes.{fresh_response}
use secure_auth_gateway.Handlers.Responses.{respond_invalid_session, set_refresh_cookie}
use secure_auth_gateway.Interleaving.{Stage, finished, advance}
use secure_auth_gateway.Interleaving.System.{System, initial, turns, turns-Reach, start}
use secure_auth_gateway.Interleaving.Single.{at_most_one_refresh}
use secure_auth_gateway.Tests.Demo.{demo, handler, redis_laws, limiter_laws}
use secure_auth_gateway.Tests.Sessions.{request, claims, with_session, not_reused}
use secure_auth_gateway.Tokens.{
  if_valid, verify_refresh_token, create_access_token, create_refresh_token,
}
use secure_auth_gateway.Platform.World.{redis_call, postgres_call}
use secure_auth_gateway.Platform.Redis.{perform, live, put}
use secure_auth_gateway.Handlers.Login.{refresh_key}
use secure_auth_gateway.Platform.Postgres.{respond, find_id}

-- Both decrypt the token; then the second one claims it, and they take turns to the end.
abbrev schedule : List ℕ
schedule = 0 ∷ 1 ∷ 1 ∷ 0 ∷ 1 ∷ 0 ∷ 1 ∷ 1 ∷ 1 ∷ 1 ∷ 1 ∷ []

abbrev rivals : System demo
rivals = turns demo handler schedule (initial (λ i. request) fresh_response with_session)

first : rivals.stage 0 ≡ finished (respond_invalid_session fresh_response)
unfolding turns ℕ_discrete advance verify_refresh_token redis_call perform live put text_eq
    refresh_key
first = refl

abbrev response_of : Stage → Response
response_of (finished r) = r
response_of _ = fresh_response

second_ends : rivals.stage 1 ≡ finished (response_of (rivals.stage 1))
unfolding turns ℕ_discrete advance verify_refresh_token redis_call perform live put text_eq
    refresh_key postgres_call respond find_id create_access_token create_refresh_token
second_ends = refl

second_answers : (response_of (rivals.stage 1)).status ≡ some 201
unfolding turns ℕ_discrete advance verify_refresh_token redis_call perform live put text_eq
    refresh_key postgres_call respond find_id create_access_token create_refresh_token respond_json
    set_refresh_cookie if_valid respond_invalid_session
second_answers = refl

at_most_one_refresh_example : ◌≡◌ {A = ℕ} 1 1
at_most_one_refresh_example =
    at_most_one_refresh redis_laws limiter_laws handler claims (λ i. request) fresh_response
      {w = with_session} (omega arith) not_reused refl
      (turns-Reach demo handler (λ i. request) fresh_response 1 with_session schedule _ start) 1 1
      (response_of (rivals.stage 1)) (response_of (rivals.stage 1)) refl refl second_ends
      second_ends second_answers second_answers

serve_all-Evolves_example :
    Evolves
      (IsDrawn demo 1)
      (sessions redis_laws with_session)
      (sessions redis_laws (serve_all demo handler (request ∷ request ∷ []) with_session))
serve_all-Evolves_example =
    serve_all-Evolves redis_laws limiter_laws handler (request ∷ request ∷ []) with_session
