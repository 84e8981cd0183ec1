-- ===== src/History/SingleUse.antt =====
-- `Refresh` and `Logout` (internal/handlers/auth.go): what becomes of a token that was claimed.
use secure_auth_gateway.Prelude.{
  ℕ, ◌+◌, ◌≤◌, ◌<◌, ◌≡◌, ◌≢◌, false, none, some, Text, text_eq_refl, List, arith, ltb,
}
use secure_auth_gateway.Platform.{Platform, RedisLaws, LimiterLaws}
use secure_auth_gateway.Platform.Payload.{RefreshTokenPayload}
use secure_auth_gateway.Platform.Redis.{get_del, fail, perform, put, live}
use secure_auth_gateway.Platform.World.{World, redis_call, elapse}
use secure_auth_gateway.Platform.World.Calls.{
  seen, redis_call_at, redis_call_reply, redis_call-tick,
}
use secure_auth_gateway.Http.{Response, Request}
use secure_auth_gateway.Tokens.{verify_refresh_token, if_valid}
use secure_auth_gateway.Handlers.Responses.{AuthHandler, respond_invalid_session}
use secure_auth_gateway.Handlers.Login.{refresh_key}
use secure_auth_gateway.Handlers.Session.{
  logout, logout_verified, refresh, refresh_cookie_value, refresh_verified, refresh_claimed,
  string_result,
}
use secure_auth_gateway.History.Sessions.{refresh_claimed-Keeps}
use secure_auth_gateway.History.Requests.{serve_all, serve_all-Keeps}
use secure_auth_gateway.History.Absence.{Gone, Gone-Kept}

module _ {p : Platform} (r : RedisLaws p) where
  -- Once the key is gone a refresh with the token is refused, whatever Redis does.
  refused_of_Gone :
      (h : AuthHandler) (token : Text) (c : RefreshTokenPayload) (res : Response) (w : World p)
      → p.decrypt token h.refresh_token_maker.key ≡ some c
      → seen r w (refresh_key c.token_id) ≡ none
      → (refresh_cookie_value p h (some token) res w).0 ≡ respond_invalid_session res
  unfolding refresh_cookie_value verify_refresh_token if_valid refresh_verified refresh_claimed
      perform live
  refused_of_Gone h token c res w read gone =
      let w' = elapse p w in
      ground (arith, redis_call_reply r (get_del (refresh_key c.token_id)) w')

  -- The state in which a handler claims the key, and the one after its claim.
  abbrev claim : RefreshTokenPayload → World p → World p
  claim c w = (redis_call p (get_del (refresh_key c.token_id)) (elapse p w)).1

  claim-Gone :
      (c : RefreshTokenPayload) (w : World p)
      → ((call : ℕ) → w.tick ≤ call → p.uuid call ≢ c.token_id)
      → (redis_call p (get_del (refresh_key c.token_id)) (elapse p w)).0 ≢ fail
      → Gone r c.token_id (claim c w)
  unfolding perform put
  claim-Gone c w fresh up =
      let k = refresh_key c.token_id in
      (
        ground (arith, redis_call_at r (get_del k) (elapse p w) k up, text_eq_refl k),
        λ n h. fresh n (omega (arith, redis_call-tick p (get_del k) (elapse p w))),
      )

  -- A refresh that succeeds has had an answer to its claim.
  claim-ne-fail :
      (h : AuthHandler) (token : Text) (c : RefreshTokenPayload) (res : Response) (w : World p)
      → p.decrypt token h.refresh_token_maker.key ≡ some c
      → res.status ≡ none
      → (refresh_cookie_value p h (some token) res w).0.status ≡ some 201
      → (c.meta.expired_at < w.now + p.lag w.tick → ⊥)
        × ((redis_call p (get_del (refresh_key c.token_id)) (elapse p w)).0 ≢ fail)
  unfolding refresh_cookie_value verify_refresh_token if_valid refresh_verified refresh_claimed
      respond_invalid_session
  claim-ne-fail h token c res w read empty done = ground arith

  -- A refresh with a token that has not expired goes on from its claim.
  refresh-eq-claimed :
      (h : AuthHandler) (token : Text) (c : RefreshTokenPayload) (res : Response) (w : World p)
      → p.decrypt token h.refresh_token_maker.key ≡ some c
      → ¬ (c.meta.expired_at < w.now + p.lag w.tick)
      → refresh_cookie_value p h (some token) res w
        ≡ refresh_claimed p h c
            (string_result (redis_call p (get_del (refresh_key c.token_id)) (elapse p w)).0)
            res
            (claim c w)
  unfolding refresh_cookie_value verify_refresh_token if_valid refresh_verified
  refresh-eq-claimed h token c res w read valid =
      let in_time : ltb c.meta.expired_at (w.now + p.lag w.tick) ≡ false = ground arith in
      rw (read, in_time)

  refresh-Gone :
      LimiterLaws p r.view
      → (h : AuthHandler) (token : Text) (c : RefreshTokenPayload) (res : Response) (w : World p)
      → p.decrypt token h.refresh_token_maker.key ≡ some c
      → ((call : ℕ) → w.tick ≤ call → p.uuid call ≢ c.token_id)
      → res.status ≡ none
      → (refresh_cookie_value p h (some token) res w).0.status ≡ some 201
      → Gone r c.token_id (refresh_cookie_value p h (some token) res w).1
  refresh-Gone l h token c res w read fresh empty done =
      let (valid, up) = claim-ne-fail h token c res w read empty done in
      rw (refresh-eq-claimed h token c res w read valid)
        (refresh_claimed-Keeps (Gone-Kept r l c.token_id) h c _ res _ (claim-Gone c w fresh up))

  -- After a refresh that succeeded, a refresh with the same token is refused, whatever requests
  -- are served in between and whatever Redis, Postgres and the limiter do, if no later identifier
  -- equals that of the token.
  pub refresh_single_use :
      LimiterLaws p r.view
      → (h : AuthHandler) (token : Text) (c : RefreshTokenPayload) (req again : Request)
        (res later : Response) (reqs : List Request) (w : World p)
      → req.cookie ≡ some token
      → again.cookie ≡ some token
      → p.decrypt token h.refresh_token_maker.key ≡ some c
      → ((call : ℕ) → w.tick ≤ call → p.uuid call ≢ c.token_id)
      → res.status ≡ none
      → (refresh p h req res w).0.status ≡ some 201
      → (refresh p h again later (serve_all p h reqs (refresh p h req res w).1)).0
        ≡ respond_invalid_session later
  unfolding refresh
  refresh_single_use l h token c req again res later reqs w sent resent read fresh empty done =
      let done' = rw sent at done in
      let gone = refresh-Gone l h token c res w read fresh empty done' in
      rw (sent, resent)
        (refused_of_Gone h token c later _ read
          (serve_all-Keeps (Gone-Kept r l c.token_id) h reqs _ gone).0)

  logout-Gone :
      (h : AuthHandler) (token : Text) (c : RefreshTokenPayload) (req : Request) (res : Response)
      (w : World p)
      → req.cookie ≡ some token
      → p.decrypt token h.refresh_token_maker.key ≡ some c
      → ((call : ℕ) → w.tick ≤ call → p.uuid call ≢ c.token_id)
      → ¬ (c.meta.expired_at < w.now + p.lag w.tick)
      → (redis_call p (get_del (refresh_key c.token_id)) (elapse p w)).0 ≢ fail
      → Gone r c.token_id (logout p h req res w).1
  unfolding logout logout_verified verify_refresh_token if_valid
  logout-Gone h token c req res w sent read fresh valid up =
      let in_time : ltb c.meta.expired_at (w.now + p.lag w.tick) ≡ false = ground arith in
      rw (sent, read, in_time) (claim-Gone c w fresh up)

  -- So it is after a logout with the token for which Redis answered.
  pub logout_revokes :
      LimiterLaws p r.view
      → (h : AuthHandler) (token : Text) (c : RefreshTokenPayload) (req again : Request)
        (res later : Response) (reqs : List Request) (w : World p)
      → req.cookie ≡ some token
      → again.cookie ≡ some token
      → p.decrypt token h.refresh_token_maker.key ≡ some c
      → ((call : ℕ) → w.tick ≤ call → p.uuid call ≢ c.token_id)
      → ¬ (c.meta.expired_at < w.now + p.lag w.tick)
      → (redis_call p (get_del (refresh_key c.token_id)) (elapse p w)).0 ≢ fail
      → (refresh p h again later (serve_all p h reqs (logout p h req res w).1)).0
        ≡ respond_invalid_session later
  unfolding refresh
  logout_revokes l h token c req again res later reqs w sent resent read fresh valid up =
      rw resent (
        refused_of_Gone h token c later _ read
          (serve_all-Keeps (Gone-Kept r l c.token_id) h reqs _
            (logout-Gone h token c req res w sent read fresh valid up)).0)
