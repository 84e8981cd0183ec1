-- ===== src/History/Replies.antt =====
-- The responses of `Register` and `Login` (internal/handlers/auth.go), step by step.
use secure_auth_gateway.Prelude.{ℕ, ◌+◌, Bool, true, false, Option, none, some, Text, ℤ}
use secure_auth_gateway.Platform.{Platform}
use secure_auth_gateway.Platform.Redis.{Reply, fail, set}
use secure_auth_gateway.Platform.Postgres.{
  Answer, user, one, no_rows, unique_violation, User, email_exists, find_user, insert_user,
}
use secure_auth_gateway.Platform.World.{elapse, redis_call, postgres_call, pure}
use secure_auth_gateway.Http.{Response, Request, Credentials, http_error}
use secure_auth_gateway.Lockout.{is_locked, reset_failures}
use secure_auth_gateway.Password.{
  PasswordCheck, checked, hash_error, panics, hash_password, verify_password,
}
use secure_auth_gateway.Tokens.{create_access_token, create_refresh_token}
use secure_auth_gateway.Handlers.Responses.{
  AuthHandler, respond_invalid_credentials, respond_invalid_session, respond_logged_out,
  clear_refresh_cookie, set_refresh_cookie, access_lifetime, refresh_lifetime,
}
use secure_auth_gateway.Handlers.Register.{
  register, register_decoded, after_check, store_user, after_insert, respond_unprocessable,
  valid_registration,
}
use secure_auth_gateway.Handlers.Login.{
  login, login_decoded, login_guarded, login_unlocked, login_found, login_checked, login_accept,
  login_refresh, login_store, login_finish, login_fail, respond_locked, valid_login, refresh_key,
}
use secure_auth_gateway.Handlers.Session.{refresh}
use secure_auth_gateway.History.Sends.{
  Written, Sends, http_error-Sends, respond_json-Sends, branch-Sends,
}

module _ {P : Response → Type 0} (k : Written P) where
  after_insert-Sends : (a : Answer) (r : Response) → P r → P (after_insert a r)
  unfolding after_insert
  after_insert-Sends (user u) r h = respond_json-Sends k 201 _ r h
  after_insert-Sends unique_violation r h = respond_json-Sends k 409 _ r h
  after_insert-Sends _ r h = http_error-Sends k _ 500 r h

  invalid_credentials-Sends : (r : Response) → P r → P (respond_invalid_credentials r)
  unfolding respond_invalid_credentials
  invalid_credentials-Sends r h = respond_json-Sends k 401 _ r h

  pub invalid_session-Sends : (r : Response) → P r → P (respond_invalid_session r)
  unfolding respond_invalid_session
  invalid_session-Sends r h = respond_json-Sends k 401 _ r h

  pub logged_out-Sends : (r : Response) → P r → P (respond_logged_out r)
  unfolding respond_logged_out clear_refresh_cookie
  logged_out-Sends r h = respond_json-Sends k 200 _ _ (k.cookie _ r h)

  locked-Sends : (d : ℕ) (r : Response) → P r → P (respond_locked d r)
  unfolding respond_locked
  locked-Sends d r h = respond_json-Sends k 429 _ _ (k.retry_after _ r h)

  finish-Sends : (t : Text) (reply : Reply) (r : Response) → P r → P (login_finish t reply r)
  unfolding login_finish
  finish-Sends t fail r h = http_error-Sends k _ 500 r h
  finish-Sends t _ r h = respond_json-Sends k 201 _ r h

module _ {p : Platform} {P : Response → Type 0} (k : Written P) where
  store_user-Sends : (email : Text) (hash : Option Text) → Sends P (store_user p email hash)
  unfolding store_user
  store_user-Sends email none r w h = http_error-Sends k _ 500 r h
  store_user-Sends email (some hash) r w h =
      after_insert-Sends k (postgres_call p (insert_user email hash) w).0 r h

  after_check-Sends : (c : Credentials) (a : Answer) → Sends P (after_check p c a)
  unfolding after_check
  after_check-Sends c one r w h = respond_json-Sends k 409 _ r h
  after_check-Sends c no_rows r w h =
      let (hash, w') = hash_password p c.password w in store_user-Sends c.email hash r w' h
  after_check-Sends c _ r w h = http_error-Sends k _ 500 r h

  register_decoded-Sends : (body : Option Credentials) → Sends P (register_decoded p body)
  unfolding register_decoded
  register_decoded-Sends none r w h = http_error-Sends k _ 400 r h
  register_decoded-Sends (some c) r w h =
      branch-Sends (valid_registration p c)
        (λ r' u. let (a, u') = postgres_call p (email_exists c.email) u in after_check p c a r' u')
        (λ r'. pure (respond_unprocessable r'))
        (λ r' u h'.
          let (a, u') = postgres_call p (email_exists c.email) u in after_check-Sends c a r' u' h')
        (λ r' u h'. respond_json-Sends k 422 _ r' h') r w h

  pub register-Sends : (req : Request) → Sends P (register p req)
  unfolding register
  register-Sends req r w h = register_decoded-Sends req.body r w h

  pub cookie-Sends : (token : Text) (ttl : ℤ) → Sends P (set_refresh_cookie p token ttl)
  unfolding set_refresh_cookie
  cookie-Sends token ttl r w h = k.cookie _ r h

  module _ (h : AuthHandler) where
    login_store-Sends :
        (id access : Text) (made : Option Text × Text) → Sends P (login_store p h id access made)
    unfolding login_store
    login_store-Sends id access (none, token_id) r w i = http_error-Sends k _ 500 r i
    login_store-Sends id access (some refresh, token_id) r w i =
        let (r', w') = set_refresh_cookie p refresh refresh_lifetime r w in
        finish-Sends k access (redis_call p (set (refresh_key token_id) id refresh_lifetime) w').0
          r' (cookie-Sends refresh refresh_lifetime r w i)

    login_refresh-Sends : (id : Text) (access : Option Text) → Sends P (login_refresh p h id access)
    unfolding login_refresh
    login_refresh-Sends id none r w i = http_error-Sends k _ 500 r i
    login_refresh-Sends id (some access) r w i =
        let (made, w') = create_refresh_token p h.refresh_token_maker id refresh_lifetime w in
        login_store-Sends id access made r w' i

    login_accept-Sends : (email : Text) (u : User) → Sends P (login_accept p h email u)
    unfolding login_accept
    login_accept-Sends email u r w i =
        let w' = (reset_failures p email w).1 in
        let (access, w2) =
          create_access_token p h.access_token_maker u.id u.role access_lifetime w' in
        login_refresh-Sends u.id access r w2 i

    login_fail-Sends : (email : Text) (start : ℕ) → Sends P (login_fail p h email start)
    unfolding login_fail
    login_fail-Sends email start r w i = invalid_credentials-Sends k r i

    login_checked-Sends :
        (email : Text) (start : ℕ) (u : User) (check : PasswordCheck)
        → Sends P (login_checked p h email start u check)
    unfolding login_checked
    login_checked-Sends email start u (checked true) r w i = login_accept-Sends email u r w i
    login_checked-Sends email start u (checked false) r w i = login_fail-Sends email start r w i
    login_checked-Sends email start u (hash_error e) r w i = login_fail-Sends email start r w i
    login_checked-Sends email start u panics r w i = k.status 500 r i

    login_found-Sends :
        (c : Credentials) (start : ℕ) (a : Answer) → Sends P (login_found p h c start a)
    unfolding login_found
    login_found-Sends c start (user u) r w i =
        login_checked-Sends c.email start u (verify_password p c.password u.password_hash) r
          (elapse p w) i
    login_found-Sends c start no_rows r w i = login_fail-Sends c.email start r w i
    login_found-Sends c start _ r w i = http_error-Sends k _ 500 r i

    login_guarded-Sends :
        (c : Credentials) (verdict : Bool × ℕ) → Sends P (login_guarded p h c verdict)
    unfolding login_guarded login_unlocked
    login_guarded-Sends c (true, d) r w i = locked-Sends k d r i
    login_guarded-Sends c (false, d) r w i =
        let w' = elapse p w in
        let (a, w2) = postgres_call p (find_user c.email) w' in
        login_found-Sends c (w.now + p.lag w.tick) a r w2 i

    login_decoded-Sends : (body : Option Credentials) → Sends P (login_decoded p h body)
    unfolding login_decoded
    login_decoded-Sends none r w i = http_error-Sends k _ 400 r i
    login_decoded-Sends (some c) r w i =
        branch-Sends (valid_login p h c)
          (λ r' u. let (lock, u') = is_locked p c.email u in login_guarded p h c lock r' u')
          (λ r'. pure (http_error "{\"error\": \"Invalid input formatting\"}" 400 r'))
          (λ r' u j. let (lock, u') = is_locked p c.email u in login_guarded-Sends c lock r' u' j)
          (λ r' u j. http_error-Sends k _ 400 r' j) r w i

    pub login-Sends : (req : Request) → Sends P (login p h req)
    unfolding login
    login-Sends req r w i = login_decoded-Sends req.body r w i
