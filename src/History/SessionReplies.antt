-- ===== src/History/SessionReplies.antt =====
-- The responses of `Logout` and `Refresh` (internal/handlers/auth.go), step by step.
use secure_auth_gateway.Prelude.{◌+◌, Option, none, some, Text, ℤ, text_eq, sub_ℕ}
use secure_auth_gateway.Platform.{Platform}
use secure_auth_gateway.Platform.Payload.{RefreshTokenPayload}
use secure_auth_gateway.Platform.Redis.{Reply, fail, get_del, set}
use secure_auth_gateway.Platform.Postgres.{Answer, role, find_role}
use secure_auth_gateway.Platform.World.{elapse, redis_call, postgres_call, pure}
use secure_auth_gateway.Http.{Response}
use secure_auth_gateway.Tokens.{
  Verified, ok, err, create_access_token, create_refresh_token, verify_refresh_token,
}
use secure_auth_gateway.Handlers.Responses.{respond_invalid_session, AuthHandler, access_lifetime}
use secure_auth_gateway.Handlers.Login.{refresh_key}
use secure_auth_gateway.Handlers.Session.{
  logout_cookie, logout_verified, refresh, refresh_cookie_value, refresh_verified, refresh_claimed,
  refresh_role, refresh_rotate, refresh_store, refresh_finish, string_result,
}
use secure_auth_gateway.History.Sends.{
  Written, Sends, http_error-Sends, respond_json-Sends, branch-Sends,
}
use secure_auth_gateway.History.Replies.{invalid_session-Sends, logged_out-Sends, cookie-Sends}

module _ {p : Platform} {P : Response → Type 0} (k : Written P) (h : AuthHandler) where
  logout_verified-Sends : (v : Verified RefreshTokenPayload) → Sends P (logout_verified p h v)
  unfolding logout_verified
  logout_verified-Sends (err e) r w i = logged_out-Sends k r i
  logout_verified-Sends (ok payload) r w i = logged_out-Sends k r i

  pub logout-Sends : (cookie : Option Text) → Sends P (logout_cookie p h cookie)
  unfolding logout_cookie
  logout-Sends none r w i = logged_out-Sends k r i
  logout-Sends (some token) r w i =
      let (v, w') = verify_refresh_token p h.refresh_token_maker token w in
      logout_verified-Sends v r w' i

  refresh_finish-Sends :
      (access refresh : Text) (d : ℤ) (reply : Reply)
      → Sends P (refresh_finish p h access refresh d reply)
  unfolding refresh_finish
  refresh_finish-Sends access refresh d fail r w i = http_error-Sends k _ 500 r i
  refresh_finish-Sends access refresh d _ r w i =
      respond_json-Sends k 201 _ _ (cookie-Sends k refresh d r w i)

  refresh_store-Sends :
      (id access : Text) (d : ℤ) (made : Option Text × Text)
      → Sends P (refresh_store p h id access d made)
  unfolding refresh_store
  refresh_store-Sends id access d (none, token_id) r w i = http_error-Sends k _ 500 r i
  refresh_store-Sends id access d (some refresh, token_id) r w i =
      let (reply, w') = redis_call p (set (refresh_key token_id) id d) w in
      refresh_finish-Sends access refresh d reply r w' i

  refresh_rotate-Sends :
      (payload : RefreshTokenPayload) (access : Option Text)
      → Sends P (refresh_rotate p h payload access)
  unfolding refresh_rotate
  refresh_rotate-Sends payload none r w i = http_error-Sends k _ 500 r i
  refresh_rotate-Sends payload (some access) r w i =
      let d = sub_ℕ payload.meta.expired_at (w.now + p.lag w.tick) in
      let w1 = elapse p w in
      let (made, w2) = create_refresh_token p h.refresh_token_maker payload.user_id d w1 in
      refresh_store-Sends payload.user_id access d made r w2 i

  refresh_role-Sends :
      (payload : RefreshTokenPayload) (a : Answer) → Sends P (refresh_role p h payload a)
  unfolding refresh_role
  refresh_role-Sends payload (role name) r w i =
      let (access, w') =
        create_access_token p h.access_token_maker payload.user_id name access_lifetime w in
      refresh_rotate-Sends payload access r w' i
  refresh_role-Sends payload _ r w i = http_error-Sends k _ 500 r i

  refresh_claimed-Sends :
      (payload : RefreshTokenPayload) (id : Option Text) → Sends P (refresh_claimed p h payload id)
  unfolding refresh_claimed
  refresh_claimed-Sends payload none r w i = invalid_session-Sends k r i
  refresh_claimed-Sends payload (some id) r w i =
      branch-Sends (text_eq id payload.user_id)
        (λ r' u.
          let (a, u') = postgres_call p (find_role payload.user_id) u in
          refresh_role p h payload a r' u')
        (λ r'. pure (respond_invalid_session r'))
        (λ r' u j.
          let (a, u') = postgres_call p (find_role payload.user_id) u in
          refresh_role-Sends payload a r' u' j)
        (λ r' u j. invalid_session-Sends k r' j) r w i

  refresh_verified-Sends : (v : Verified RefreshTokenPayload) → Sends P (refresh_verified p h v)
  unfolding refresh_verified
  refresh_verified-Sends (err e) r w i = invalid_session-Sends k r i
  refresh_verified-Sends (ok payload) r w i =
      let (reply, w') = redis_call p (get_del (refresh_key payload.token_id)) w in
      refresh_claimed-Sends payload (string_result reply) r w' i

  pub refresh-Sends : (cookie : Option Text) → Sends P (refresh_cookie_value p h cookie)
  unfolding refresh_cookie_value
  refresh-Sends none r w i = invalid_session-Sends k r i
  refresh-Sends (some token) r w i =
      let (v, w') = verify_refresh_token p h.refresh_token_maker token w in
      refresh_verified-Sends v r w' i
