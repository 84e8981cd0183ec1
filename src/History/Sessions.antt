-- ===== src/History/Sessions.antt =====
-- `Logout` and `Refresh` (internal/handlers/auth.go), step by step, against an invariant.
use secure_auth_gateway.Prelude.{inl, inr, Bool-cases, Option, none, some, Text, text_eq, ℤ, sub_ℕ}
use secure_auth_gateway.Platform.{Platform}
use secure_auth_gateway.Platform.Payload.{RefreshTokenPayload}
use secure_auth_gateway.Platform.Redis.{Reply, set, get_del}
use secure_auth_gateway.Platform.Postgres.{Answer, role, find_role}
use secure_auth_gateway.Platform.World.{World, elapse, redis_call, postgres_call}
use secure_auth_gateway.Http.{Credentials, Response}
use secure_auth_gateway.Lockout.{is_ok}
use secure_auth_gateway.Tokens.{
  Verified, ok, err, create_access_token, create_refresh_token, verify_refresh_token, if_valid,
  check_refresh,
}
use secure_auth_gateway.Handlers.Responses.{AuthHandler, access_lifetime, set_refresh_cookie}
use secure_auth_gateway.Handlers.Login.{refresh_key}
use secure_auth_gateway.Handlers.Session
use secure_auth_gateway.Handlers.Session.{string_result}
use secure_auth_gateway.History.Keeps.{Keeps, Kept}
use secure_auth_gateway.History.Logins.{create_access_token-Keeps, create_refresh_token-Keeps}

module _ {p : Platform} {I : World p → Type 0} {Fresh : Text → Type 0}
    {Asked : Credentials → Type 0} (k : Kept p I Fresh Asked) (h : AuthHandler) where
  check_refresh-Keeps : (c : Option RefreshTokenPayload) → Keeps I (check_refresh p c)
  unfolding if_valid
  check_refresh-Keeps none w i = i
  check_refresh-Keeps (some c) w i = k.elapsing w i

  pub verify_refresh_token-Keeps :
      (token : Text) → Keeps I (verify_refresh_token p h.refresh_token_maker token)
  unfolding verify_refresh_token
  verify_refresh_token-Keeps token w i = check_refresh-Keeps _ w i

  logout_verified-Keeps :
      (v : Verified RefreshTokenPayload) (r : Response) → Keeps I (Session.logout_verified p h v r)
  unfolding Session.logout_verified
  logout_verified-Keeps (err e) r w i = i
  logout_verified-Keeps (ok c) r w i = k.claiming c.token_id w i

  pub logout_cookie-Keeps :
      (cookie : Option Text) (r : Response) → Keeps I (Session.logout_cookie p h cookie r)
  unfolding Session.logout_cookie
  logout_cookie-Keeps none r w i = i
  logout_cookie-Keeps (some token) r w i =
      logout_verified-Keeps (verify_refresh_token p h.refresh_token_maker token w).0 r _
        (verify_refresh_token-Keeps token w i)

  refresh_finish-Keeps :
      (access refresh : Text) (d : ℤ) (reply : Reply) (r : Response)
      → Keeps I (Session.refresh_finish p h access refresh d reply r)
  unfolding Session.refresh_finish set_refresh_cookie
  refresh_finish-Keeps access refresh d reply r w i = elim (Bool-cases (is_ok reply)) [
    | inl stored ↦ rw (stored, Session.refresh_finish) (k.elapsing w i)
    | inr failed ↦ rw (failed, Session.refresh_finish) i
  ]

  refresh_store-Keeps :
      (user_id access : Text) (d : ℤ) (made : Option Text × Text) (r : Response)
      → Fresh made.1
      → Keeps I (Session.refresh_store p h user_id access d made r)
  unfolding Session.refresh_store
  refresh_store-Keeps user_id access d (none, id) r fresh w i = i
  refresh_store-Keeps user_id access d (some t, id) r fresh w i =
      refresh_finish-Keeps access t d (redis_call p (set (refresh_key id) user_id d) w).0 r _
        (k.storing id user_id d fresh w i)

  refresh_rotate-Keeps :
      (c : RefreshTokenPayload) (access : Option Text) (r : Response)
      → Keeps I (Session.refresh_rotate p h c access r)
  unfolding Session.refresh_rotate
  refresh_rotate-Keeps c none r w i = i
  refresh_rotate-Keeps c (some access) r w i =
      let w' = elapse p w in
      let d = sub_ℕ c.meta.expired_at w'.now in
      let (i', fresh) = create_refresh_token-Keeps k h c.user_id d w' (k.elapsing w i) in
      refresh_store-Keeps c.user_id access d
        (create_refresh_token p h.refresh_token_maker c.user_id d w').0 r fresh _ i'

  refresh_role-Keeps :
      (c : RefreshTokenPayload) (a : Answer) (r : Response)
      → Keeps I (Session.refresh_role p h c a r)
  unfolding Session.refresh_role
  refresh_role-Keeps c (role name) r w i =
      refresh_rotate-Keeps c
        (create_access_token p h.access_token_maker c.user_id name access_lifetime w).0 r _
        (create_access_token-Keeps k h c.user_id name access_lifetime w i)
  refresh_role-Keeps c _ r w i = i

  pub refresh_claimed-Keeps :
      (c : RefreshTokenPayload) (stored : Option Text) (r : Response)
      → Keeps I (Session.refresh_claimed p h c stored r)
  unfolding Session.refresh_claimed
  refresh_claimed-Keeps c none r w i = i
  refresh_claimed-Keeps c (some user_id) r w i = elim (Bool-cases (text_eq user_id c.user_id)) [
    | inl same ↦ rw same (
        refresh_role-Keeps c (postgres_call p (find_role c.user_id) w).0 r _
          (k.querying (find_role c.user_id) tt w i))
    | inr other ↦ rw other i
  ]

  refresh_verified-Keeps :
      (v : Verified RefreshTokenPayload) (r : Response) → Keeps I (Session.refresh_verified p h v r)
  unfolding Session.refresh_verified
  refresh_verified-Keeps (err e) r w i = i
  refresh_verified-Keeps (ok c) r w i =
      refresh_claimed-Keeps c (string_result (redis_call p (get_del (refresh_key c.token_id)) w).0)
        r _ (k.claiming c.token_id w i)

  pub refresh_cookie_value-Keeps :
      (cookie : Option Text) (r : Response) → Keeps I (Session.refresh_cookie_value p h cookie r)
  unfolding Session.refresh_cookie_value
  refresh_cookie_value-Keeps none r w i = i
  refresh_cookie_value-Keeps (some token) r w i =
      refresh_verified-Keeps (verify_refresh_token p h.refresh_token_maker token w).0 r _
        (verify_refresh_token-Keeps token w i)
