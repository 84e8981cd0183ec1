-- ===== src/Interleaving/Alone.antt =====
-- `Refresh` (internal/handlers/auth.go): its stages, run with no other request in between.
use secure_auth_gateway.Prelude.{
  ℕ, zero, suc, ◌+◌, ◌≡◌, refl, inl, inr, Bool-cases, Option, none, some, Text, text_eq, ℤ, sub_ℕ,
}
use secure_auth_gateway.Platform.{Platform}
use secure_auth_gateway.Platform.Payload.{RefreshTokenPayload}
use secure_auth_gateway.Platform.Redis.{Reply, set, get_del}
use secure_auth_gateway.Platform.Postgres.{Answer, role, find_role}
use secure_auth_gateway.Platform.World.{World, M, elapse, redis_call, postgres_call}
use secure_auth_gateway.Http.{Response, Request}
use secure_auth_gateway.Lockout.{is_ok}
use secure_auth_gateway.Tokens.{
  Verified, ok, err, create_access_token, create_refresh_token, verify_refresh_token,
}
use secure_auth_gateway.Handlers.Responses.{AuthHandler, access_lifetime}
use secure_auth_gateway.Handlers.Login.{refresh_key}
use secure_auth_gateway.Handlers.Session
use secure_auth_gateway.Handlers.Session.{string_result}
use secure_auth_gateway.Interleaving.{
  Stage, arrived, verified, claimed, answered, signed, created, stored, finished, advance, conclude,
}

module _ (p : Platform) (h : AuthHandler) where
  unfoldable pub advances : ℕ → Stage → M p Stage
  advances zero st w = (st, w)
  advances (suc n) st w = advances n (advance p h st w).0 (advance p h st w).1

  -- A computation of a response, as the last stage.
  abbrev ended : M p Response → M p Stage
  ended m w = (finished (m w).0, (m w).1)

  stays : (n : ℕ) (r : Response) (w : World p) → advances n (finished r) w ≡ (finished r, w)
  unfolding advances advance
  stays zero r w = refl
  stays (suc n) r w = stays n r w

  stored_lem :
      (n : ℕ) (access refresh : Text) (d : ℤ) (reply : Reply) (r : Response) (w : World p)
      → advances (suc n) (stored access refresh d reply r) w
        ≡ ended (Session.refresh_finish p h access refresh d reply r) w
  unfolding advances advance Session.refresh_finish
  stored_lem n access refresh d reply r w = elim (Bool-cases (is_ok reply)) [
    | inl done ↦ rw (done, Session.refresh_finish, conclude) (stays n _ _)
    | inr failed ↦ rw (failed, Session.refresh_finish, conclude) (stays n _ _)
  ]

  created_lem :
      (n : ℕ) (c : RefreshTokenPayload) (access : Text) (d : ℤ) (made : Option Text × Text)
      (r : Response) (w : World p)
      → advances (suc (suc n)) (created c access d made r) w
        ≡ ended (Session.refresh_store p h c.user_id access d made r) w
  unfolding advances advance Session.refresh_store
  created_lem n c access d (none, id) r w = stays (suc n) _ _
  created_lem n c access d (some refresh, id) r w =
      stored_lem n access refresh d (redis_call p (set (refresh_key id) c.user_id d) w).0 r _

  signed_lem :
      (n : ℕ) (c : RefreshTokenPayload) (access : Option Text) (r : Response) (w : World p)
      → advances (suc (suc (suc (suc n)))) (signed c access r) w
        ≡ ended (Session.refresh_rotate p h c access r) w
  unfolding advances advance Session.refresh_rotate
  signed_lem n c none r w = stays (suc (suc (suc n))) _ _
  signed_lem n c (some access) r w =
      let d = sub_ℕ c.meta.expired_at (w.now + p.lag w.tick) in
      created_lem n c access d
        (create_refresh_token p h.refresh_token_maker c.user_id d (elapse p w)).0 r _

  answered_lem :
      (n : ℕ) (c : RefreshTokenPayload) (a : Answer) (r : Response) (w : World p)
      → advances (suc (suc (suc (suc (suc n))))) (answered c a r) w
        ≡ ended (Session.refresh_role p h c a r) w
  unfolding advances advance Session.refresh_role
  answered_lem n c (role name) r w =
      signed_lem n c (create_access_token p h.access_token_maker c.user_id name access_lifetime w).0
        r _
  answered_lem n c _ r w = stays (suc (suc (suc (suc n)))) _ _

  claimed_lem :
      (n : ℕ) (c : RefreshTokenPayload) (u : Option Text) (r : Response) (w : World p)
      → advances (suc (suc (suc (suc (suc (suc n)))))) (claimed c u r) w
        ≡ ended (Session.refresh_claimed p h c u r) w
  unfolding advances advance Session.refresh_claimed
  claimed_lem n c none r w = stays (suc (suc (suc (suc (suc n))))) _ _
  claimed_lem n c (some id) r w = elim (Bool-cases (text_eq id c.user_id)) [
    | inl same ↦ rw same (answered_lem n c (postgres_call p (find_role c.user_id) w).0 r _)
    | inr other ↦ rw other (stays (suc (suc (suc (suc (suc n))))) _ _)
  ]

  verified_lem :
      (n : ℕ) (v : Verified RefreshTokenPayload) (r : Response) (w : World p)
      → advances (suc (suc (suc (suc (suc (suc (suc n))))))) (verified v r) w
        ≡ ended (Session.refresh_verified p h v r) w
  unfolding advances advance Session.refresh_verified
  verified_lem n (err e) r w = stays (suc (suc (suc (suc (suc (suc n)))))) _ _
  verified_lem n (ok c) r w =
      claimed_lem n c (string_result (redis_call p (get_del (refresh_key c.token_id)) w).0) r _

  begin_lem :
      (cookie : Option Text) (req : Request) (r : Response) (w : World p)
      → req.cookie ≡ cookie
      → advances 8 (arrived req r) w ≡ ended (Session.refresh_cookie_value p h cookie r) w
  unfolding advances advance Session.refresh_cookie_value
  begin_lem none req r w e = rw e (stays 7 _ _)
  begin_lem (some token) req r w e =
      rw e (verified_lem 0 (verify_refresh_token p h.refresh_token_maker token w).0 r _)

  -- A refresh whose stages run with nothing in between has ended after eight of them, with the
  -- response and the state that `refresh` gives.
  pub advances-refresh :
      (req : Request) (r : Response) (w : World p)
      → advances 8 (arrived req r) w
        ≡ (finished (Session.refresh p h req r w).0, (Session.refresh p h req r w).1)
  unfolding Session.refresh
  advances-refresh req r w = begin_lem req.cookie req r w refl
