-- ===== src/Handlers/Login/Opening.antt =====
-- `Login` (internal/handlers/auth.go), from the accepted password on.
use secure_auth_gateway.Prelude.{
  ◌≤◌, ℕ, suc, ◌+◌, ◌≡◌, ◌≢◌, refl, ap, inl, inr, Option-cases, Option, none, some, Text, arith,
  codes, text_eq_refl, pos, add_duration,
}
use secure_auth_gateway.Platform.{Platform, RedisLaws}
use secure_auth_gateway.Platform.Payload.{AccessTokenPayload, RefreshTokenPayload}
use secure_auth_gateway.Platform.Redis.{Reply, fail, set, perform, text, put}
use secure_auth_gateway.Platform.Postgres.{User}
use secure_auth_gateway.Platform.World.{World, redis_call, elapse}
use secure_auth_gateway.Platform.World.Calls.{seen, redis_call_at, redis_call-now}
use secure_auth_gateway.Http.{Response, respond_json, http_error, add_cookie}
use secure_auth_gateway.Lockout.{reset_failures}
use secure_auth_gateway.Tokens.{create_access_token, create_refresh_token}
use secure_auth_gateway.Tokens.RoundTrip.{access_claims, refresh_claims}
use secure_auth_gateway.Handlers.Responses.{
  AuthHandler, access_lifetime, refresh_lifetime, refresh_cookie, set_refresh_cookie,
}
use secure_auth_gateway.Handlers.Login.{
  login_accept, login_refresh, login_store, login_finish, respond_token, refresh_key,
}

-- A session that a login has made for an account: the tokens, the stored key, and the answer.
pub record IsOpened {p : Platform} (r : RedisLaws p) (h : AuthHandler) (u : User) (since : ℕ)
    (res answer : Response) (w' : World p) : Type 0 where
  pub access : Text
  pub refresh : Text
  pub claims : AccessTokenPayload
  pub session : RefreshTokenPayload
  pub call : ℕ
  pub expires : ℕ
  pub signed : p.sign h.access_token_maker.private_key claims ≡ some access
  pub encrypted : p.encrypt call h.refresh_token_maker.key session ≡ some refresh
  pub user_id : claims.user_id ≡ u.id
  pub role : claims.role ≡ u.role
  pub issued : since ≤ claims.meta.issued_at
  pub lasting : add_duration claims.meta.issued_at access_lifetime ≤ claims.meta.expired_at
  pub session_of : session.user_id ≡ u.id
  pub stored :
      seen r w' (refresh_key session.token_id)
      ≡ some (record { value = text u.id; expires = some (add_duration w'.now refresh_lifetime) })
  pub answered :
      answer
      ≡ respond_token
          (codes "User successfully logged in.")
          access
          (add_cookie (refresh_cookie refresh expires (pos 0)) res)

module _ {p : Platform} (r : RedisLaws p) (h : AuthHandler) where
  login_finish-201 :
      (access : Text) (reply : Reply) (res : Response)
      → res.status ≡ none
      → (login_finish access reply res).status ≡ some 201
      → (reply ≢ fail)
        × (login_finish access reply res
            ≡ respond_token (codes "User successfully logged in.") access res)
  unfolding login_finish respond_json http_error
  login_finish-201 access fail res empty finished = absurd (ground arith)
  login_finish-201 access _ res empty finished = (λ e. ground arith, refl)

  login_refresh-201 :
      (u : User) (access : Option Text) (res : Response) (w : World p)
      → res.status ≡ none
      → (login_refresh p h u.id access res w).0.status ≡ some 201
      → (t : Text) × (refresh : Text) × (access ≡ some t)
        × ((create_refresh_token p h.refresh_token_maker u.id refresh_lifetime w).0.0
            ≡ some refresh)
        × (let ((made, id), w') =
              create_refresh_token p h.refresh_token_maker u.id refresh_lifetime w in
            (login_refresh p h u.id access res w
              ≡ login_store p h u.id t (some refresh, id) res w'))
  unfolding login_refresh http_error login_store
  login_refresh-201 u none res w empty done = absurd (ground arith)
  login_refresh-201 u (some t) res w empty done =
      elim (Option-cases
        (create_refresh_token p h.refresh_token_maker u.id refresh_lifetime w).0.0) [
          | inl failed ↦ absurd (ground arith)
          | inr (refresh, made) ↦
              let ((_, id), w') =
                create_refresh_token p h.refresh_token_maker u.id refresh_lifetime w in
              (t, refresh, refl, made, ap (λ m. login_store p h u.id t (m, id) res w') made)
        ]

  -- The key that the last call has stored.
  stored_key :
      (k user_id : Text) (w : World p)
      → (redis_call p (set k user_id refresh_lifetime) w).0 ≢ fail
      → seen r (redis_call p (set k user_id refresh_lifetime) w).1 k
        ≡ some (record {
          value = text user_id;
          expires = some (
              add_duration
                (redis_call p (set k user_id refresh_lifetime) w).1.now
                refresh_lifetime);
        })
  unfolding perform put
  stored_key k user_id w up = ground (
    arith,
    redis_call_at r (set k user_id refresh_lifetime) w k up,
    text_eq_refl k,
    redis_call-now p (set k user_id refresh_lifetime) w,
  )

  login_store-IsOpened :
      (u : User) (since : ℕ) (access refresh : Text) (claims : AccessTokenPayload)
      (session : RefreshTokenPayload) (call : ℕ) (res : Response) (w : World p)
      → p.sign h.access_token_maker.private_key claims ≡ some access
      → p.encrypt call h.refresh_token_maker.key session ≡ some refresh
      → claims.user_id ≡ u.id
      → claims.role ≡ u.role
      → since ≤ claims.meta.issued_at
      → add_duration claims.meta.issued_at access_lifetime ≤ claims.meta.expired_at
      → session.user_id ≡ u.id
      → res.status ≡ none
      → (login_store p h u.id access (some refresh, session.token_id) res w).0.status ≡ some 201
      → IsOpened r h u since res
          (login_store p h u.id access (some refresh, session.token_id) res w).0
          (login_store p h u.id access (some refresh, session.token_id) res w).1
  unfolding login_store set_refresh_cookie
  login_store-IsOpened u since access refresh claims session call res w signed encrypted user_id
        role issued lasting owner empty done =
      let k = refresh_key session.token_id in
      let w' = elapse p w in
      let (up, answered) =
        login_finish-201 access (redis_call p (set k u.id refresh_lifetime) w').0
          (set_refresh_cookie p refresh refresh_lifetime res w).0 empty done in
      record {
        access = access;
        refresh = refresh;
        claims = claims;
        session = session;
        call = call;
        expires = add_duration (w.now + p.lag w.tick) refresh_lifetime;
        signed = signed;
        encrypted = encrypted;
        user_id = user_id;
        role = role;
        issued = issued;
        lasting = lasting;
        session_of = owner;
        stored = stored_key k u.id w' up;
        answered = answered;
      }

  abbrev after_reset : Text → World p → World p
  after_reset email w = (reset_failures p email w).1

  reset-now : (email : Text) (w : World p) → w.now ≤ (after_reset email w).now
  unfolding reset_failures redis_call
  reset-now email w = omega arith

  abbrev signing : Text → User → World p → Option Text × World p
  signing email u w =
      create_access_token p h.access_token_maker u.id u.role access_lifetime (after_reset email w)

  pub login_accept-IsOpened :
      (email : Text) (u : User) (since : ℕ) (res : Response) (w : World p)
      → since ≤ w.now
      → res.status ≡ none
      → (login_accept p h email u res w).0.status ≡ some 201
      → IsOpened r h u since res
          (login_accept p h email u res w).0
          (login_accept p h email u res w).1
  unfolding login_accept create_access_token create_refresh_token
  login_accept-IsOpened email u since res w early empty done =
      let (access, w2) = signing email u w in
      let (t, refresh, signed, encrypted, same) = login_refresh-201 u access res w2 empty done in
      rw same (
        login_store-IsOpened u since t refresh
          (access_claims p u.id u.role access_lifetime (after_reset email w))
          (refresh_claims p u.id refresh_lifetime w2) (suc (suc (suc w2.tick))) res
          (create_refresh_token p h.refresh_token_maker u.id refresh_lifetime w2).1 signed encrypted
          refl refl (omega (arith, early, reset-now email w)) (omega arith) refl empty
          (rw same at done))
