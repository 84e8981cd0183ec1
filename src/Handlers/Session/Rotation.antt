-- ===== src/Handlers/Session/Rotation.antt =====
-- `Refresh` (internal/handlers/auth.go), from the role on.
use secure_auth_gateway.Prelude.{
  ℕ, suc, ◌+◌, ◌≡◌, ◌≢◌, refl, ap, inl, inr, Option-cases, Option, none, some, Text, arith, codes,
  text_eq_refl, ℤ, pos, sub_ℕ, add_duration,
}
use secure_auth_gateway.Platform.{Platform, RedisLaws}
use secure_auth_gateway.Platform.Payload.{AccessTokenPayload, RefreshTokenPayload}
use secure_auth_gateway.Platform.Redis.{Reply, fail, set, perform, text, put, deadline_of}
use secure_auth_gateway.Platform.Postgres.{role}
use secure_auth_gateway.Platform.World.{World, redis_call, elapse}
use secure_auth_gateway.Platform.World.Calls.{seen, redis_call_at}
use secure_auth_gateway.Http.{Response, respond_json, http_error, add_cookie}
use secure_auth_gateway.Tokens.{create_access_token, create_refresh_token}
use secure_auth_gateway.Tokens.RoundTrip.{access_claims, refresh_claims}
use secure_auth_gateway.Handlers.Responses.{
  AuthHandler, access_lifetime, refresh_cookie, set_refresh_cookie,
}
use secure_auth_gateway.Handlers.Login.{respond_token, refresh_key}
use secure_auth_gateway.Handlers.Session.{
  refresh, refresh_role, refresh_rotate, refresh_store, refresh_finish,
}

-- What a rotation makes for a claimed token and a role: an access token with that role, and a new
-- refresh token that ends when the old one does, but for the time that the making takes.
pub record IsRotated {p : Platform} (r : RedisLaws p) (h : AuthHandler) (old : RefreshTokenPayload)
    (name : Text) (res answer : Response) (w' : World p) : Type 0 where
  pub access : Text
  pub refresh : Text
  pub claims : AccessTokenPayload
  pub session : RefreshTokenPayload
  pub call : ℕ
  pub expires : ℕ
  pub deadline : Option ℕ
  pub signed : p.sign h.access_token_maker.private_key claims ≡ some access
  pub encrypted : p.encrypt (suc (suc (suc call))) h.refresh_token_maker.key session ≡ some refresh
  pub user_id : claims.user_id ≡ old.user_id
  pub role_of : claims.role ≡ name
  pub session_of : session.user_id ≡ old.user_id
  pub drift :
      session.meta.expired_at
      ≡ old.meta.expired_at + (p.lag call + p.lag (suc call) + p.lag (suc (suc call)))
  pub stored :
      seen r w' (refresh_key session.token_id)
      ≡ some (record { value = text old.user_id; expires = deadline })
  pub answered :
      answer
      ≡ respond_token
          (codes "Access token refreshed.")
          access
          (add_cookie (refresh_cookie refresh expires (pos 0)) res)

add_duration-sub :
    (e now a b c : ℕ) → add_duration (now + a + b + c) (sub_ℕ e now) ≡ e + (a + b + c)
add_duration-sub e now a b c = ground arith

module _ {p : Platform} (r : RedisLaws p) (h : AuthHandler) where
  refresh_finish-201 :
      (access refresh : Text) (remaining : ℤ) (reply : Reply) (res : Response) (w : World p)
      → res.status ≡ none
      → (refresh_finish p h access refresh remaining reply res w).0.status ≡ some 201
      → (reply ≢ fail)
        × ((refresh_finish p h access refresh remaining reply res w).0
            ≡ respond_token (codes "Access token refreshed.") access (
                add_cookie
                  (refresh_cookie refresh (add_duration (w.now + p.lag w.tick) remaining) (pos 0))
                  res))
        × ((refresh_finish p h access refresh remaining reply res w).1 ≡ elapse p w)
  unfolding refresh_finish set_refresh_cookie respond_json http_error
  refresh_finish-201 access refresh remaining fail res w empty done = absurd (ground arith)
  refresh_finish-201 access refresh remaining _ res w empty done = (λ e. ground arith, refl, refl)

  stored_key :
      (k user_id : Text) (d : ℤ) (w : World p)
      → (redis_call p (set k user_id d) w).0 ≢ fail
      → seen r (redis_call p (set k user_id d) w).1 k
        ≡ some (record { value = text user_id; expires = deadline_of (w.now + p.lag w.tick) d })
  unfolding perform put
  stored_key k user_id d w up = rw (redis_call_at r (set k user_id d) w k up, text_eq_refl k) refl

  refresh_rotate-201 :
      (old : RefreshTokenPayload) (access : Option Text) (res : Response) (w : World p)
      → res.status ≡ none
      → (refresh_rotate p h old access res w).0.status ≡ some 201
      → let remaining = sub_ℕ old.meta.expired_at (w.now + p.lag w.tick) in
        let (made, w') =
          create_refresh_token p h.refresh_token_maker old.user_id remaining (elapse p w) in
        (t : Text) × (refresh : Text) × (access ≡ some t)
        × (made.0 ≡ some refresh)
        × (refresh_rotate p h old access res w
            ≡ refresh_store p h old.user_id t remaining (some refresh, made.1) res w')
  unfolding refresh_rotate refresh_store http_error
  refresh_rotate-201 old none res w empty done = absurd (ground arith)
  refresh_rotate-201 old (some t) res w empty done =
      let remaining = sub_ℕ old.meta.expired_at (w.now + p.lag w.tick) in
      let ((made, id), w') =
        create_refresh_token p h.refresh_token_maker old.user_id remaining (elapse p w) in
      elim (Option-cases made) [
        | inl failed ↦ absurd (ground arith)
        | inr (refresh, e) ↦ (
          t,
          refresh,
          refl,
          e,
          ap (λ m. refresh_store p h old.user_id t remaining (m, id) res w') e,
        )
      ]

  abbrev signing : RefreshTokenPayload → Text → World p → Option Text × World p
  signing old name w = create_access_token p h.access_token_maker old.user_id name access_lifetime w

  -- The rotation, from the role on.
  pub rotate-IsRotated :
      (old : RefreshTokenPayload) (name : Text) (res : Response) (w : World p)
      → res.status ≡ none
      → (refresh_role p h old (role name) res w).0.status ≡ some 201
      → IsRotated r h old name res
          (refresh_role p h old (role name) res w).0
          (refresh_role p h old (role name) res w).1
  unfolding refresh_role refresh_store create_access_token create_refresh_token
  rotate-IsRotated old name res w empty done =
      let (access, w2) = signing old name w in
      let w3 = elapse p w2 in
      let remaining = sub_ℕ old.meta.expired_at (w2.now + p.lag w2.tick) in
      let w4 = (create_refresh_token p h.refresh_token_maker old.user_id remaining w3).1 in
      let session = refresh_claims p old.user_id remaining w3 in
      let k = refresh_key session.token_id in
      let (t, refresh, signed, encrypted, same) = refresh_rotate-201 old access res w2 empty done in
      let (reply, w5) = redis_call p (set k old.user_id remaining) w4 in
      let (up, answered, ended) =
        refresh_finish-201 t refresh remaining reply res w5 empty (rw same at done) in
      rw same (record {
        access = t;
        refresh = refresh;
        claims = access_claims p old.user_id name access_lifetime w;
        session = session;
        call = w3.tick;
        expires = add_duration (w5.now + p.lag w5.tick) remaining;
        deadline = deadline_of (w4.now + p.lag w4.tick) remaining;
        signed = signed;
        encrypted = encrypted;
        user_id = refl;
        role_of = refl;
        session_of = refl;
        drift = add_duration-sub old.meta.expired_at (w2.now + p.lag w2.tick) _ _ _;
        stored = rw ended (stored_key k old.user_id remaining w4 up);
        answered = answered;
      })
