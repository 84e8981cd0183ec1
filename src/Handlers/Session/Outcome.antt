-- ===== src/Handlers/Session/Outcome.antt =====
-- `Refresh` (internal/handlers/auth.go), from its answer 201 back to what was checked.
use secure_auth_gateway.Prelude.{
  ◌+◌, ◌≡◌, refl, ap, sym, inl, inr, Bool-cases, Option-cases, false, Option, none, some, Text,
  text_eq, text_eq_iff, arith, ◌∙◌, ltb,
}
use secure_auth_gateway.Platform.{Platform, RedisLaws, PostgresLaws}
use secure_auth_gateway.Platform.Payload.{RefreshTokenPayload}
use secure_auth_gateway.Platform.Redis.{Reply, get_del, perform, live, value_reply}
use secure_auth_gateway.Platform.Postgres.{User, Answer, role, find_role, respond, find_id}
use secure_auth_gateway.Platform.World.{World, redis_call, postgres_call, elapse}
use secure_auth_gateway.Platform.World.Calls.{seen, table, redis_call_reply, postgres_call_ok}
use secure_auth_gateway.Http.{Response, Request, respond_json, http_error}
use secure_auth_gateway.Tokens.{verify_refresh_token, if_valid}
use secure_auth_gateway.Handlers.Responses.{AuthHandler, respond_invalid_session}
use secure_auth_gateway.Handlers.Login.{refresh_key}
use secure_auth_gateway.Handlers.Session.{
  refresh, refresh_cookie_value, refresh_verified, refresh_claimed, refresh_role, string_result,
}
use secure_auth_gateway.Handlers.Session.Rotation.{IsRotated, rotate-IsRotated}

module _ {p : Platform} (h : AuthHandler) where
  refresh_role-201 :
      (old : RefreshTokenPayload) (a : Answer) (res : Response) (w : World p)
      → res.status ≡ none
      → (refresh_role p h old a res w).0.status ≡ some 201
      → (name : Text) × (a ≡ role name)
  unfolding refresh_role http_error
  refresh_role-201 old (role name) res w empty done = (name, refl)
  refresh_role-201 old _ res w empty done = absurd (ground arith)

  refresh_claimed-201 :
      (old : RefreshTokenPayload) (claimed : Option Text) (res : Response) (w : World p)
      → res.status ≡ none
      → (refresh_claimed p h old claimed res w).0.status ≡ some 201
      → let (a, w') = postgres_call p (find_role old.user_id) w in
        (claimed ≡ some old.user_id)
        × (refresh_claimed p h old claimed res w ≡ refresh_role p h old a res w')
  unfolding refresh_claimed respond_invalid_session respond_json
  refresh_claimed-201 old none res w empty done = absurd (ground arith)
  refresh_claimed-201 old (some id) res w empty done = elim (Bool-cases (text_eq id old.user_id)) [
    | inl same ↦ (ap some ((text_eq_iff id old.user_id).0 same), rw (same, refresh_claimed) refl)
    | inr other ↦ absurd (ground arith)
  ]

  -- The state in which the token is claimed, and the reply to the claim.
  abbrev claim : RefreshTokenPayload → World p → Reply × World p
  claim old w = redis_call p (get_del (refresh_key old.token_id)) (elapse p w)

  refresh_cookie_value-201 :
      (cookie : Option Text) (res : Response) (w : World p)
      → res.status ≡ none
      → (refresh_cookie_value p h cookie res w).0.status ≡ some 201
      → (token : Text) × (old : RefreshTokenPayload) × (cookie ≡ some token)
        × (p.decrypt token h.refresh_token_maker.key ≡ some old)
        × (ltb old.meta.expired_at (w.now + p.lag w.tick) ≡ false)
        × (refresh_cookie_value p h cookie res w
            ≡ refresh_claimed p h old (string_result (claim old w).0) res (claim old w).1)
  unfolding refresh_cookie_value verify_refresh_token if_valid refresh_verified
      respond_invalid_session respond_json
  refresh_cookie_value-201 none res w empty done = absurd (ground arith)
  refresh_cookie_value-201 (some token) res w empty done =
      elim (Option-cases (p.decrypt token h.refresh_token_maker.key)) [
        | inl unread ↦ absurd (ground arith)
        | inr (old, read) ↦ elim (Bool-cases (ltb old.meta.expired_at (w.now + p.lag w.tick))) [
          | inl late ↦ absurd (ground arith)
          | inr in_time ↦
              (token, old, refl, read, in_time, rw (read, in_time, refresh_cookie_value) refl)
        ]
      ]

module _ {p : Platform} where
  claimed_id :
      (r : RedisLaws p) (k id : Text) (w : World p)
      → string_result (redis_call p (get_del k) w).0 ≡ some id
      → string_result (value_reply (live (w.now + p.lag w.tick) (seen r w k))) ≡ some id
  unfolding perform
  claimed_id r k id w e = ground (arith, redis_call_reply r (get_del k) w)

  role_found :
      (q : PostgresLaws p) (id name : Text) (w : World p)
      → (postgres_call p (find_role id) w).0 ≡ role name
      → (u : User) × (find_id id (table q w) ≡ some u) × (u.role ≡ name)
  unfolding respond
  role_found q id name w found = ground (arith, postgres_call_ok q (find_role id) w)

-- What a success means: an unexpired token whose key was stored for its owner, an account with
-- that identifier, and a rotation that gives the account's present role.
pub record IsRefreshed {p : Platform} (r : RedisLaws p) (q : PostgresLaws p) (h : AuthHandler)
    (req : Request) (res answer : Response) (w w' : World p) : Type 0 where
  pub token : Text
  pub old : RefreshTokenPayload
  pub account : User
  pub sent : req.cookie ≡ some token
  pub read : p.decrypt token h.refresh_token_maker.key ≡ some old
  pub in_time : ltb old.meta.expired_at (w.now + p.lag w.tick) ≡ false
  pub claimed :
      string_result (
        value_reply
          (live ((elapse p w).now + p.lag (elapse p w).tick) (seen r w (refresh_key old.token_id))))
      ≡ some old.user_id
  pub found : find_id old.user_id (table q w) ≡ some account
  pub rotated : IsRotated r h old account.role res answer w'

-- A refresh that answers 201 was sent an unexpired token whose key was stored for its owner, and
-- has made for the owner's account an access token with the role that the account has now, and a
-- stored refresh token that ends when the old one does, but for the time of three calls.
pub refresh-IsRefreshed :
    {p : Platform} (r : RedisLaws p) (q : PostgresLaws p) (h : AuthHandler) (req : Request)
    (res : Response) (w : World p)
    → res.status ≡ none
    → (refresh p h req res w).0.status ≡ some 201
    → IsRefreshed r q h req res (refresh p h req res w).0 w (refresh p h req res w).1
unfolding refresh redis_call
refresh-IsRefreshed {p} r q h req res w empty done =
    let (token, old, sent, read, in_time, same1) =
      refresh_cookie_value-201 h req.cookie res w empty done in
    let (reply, w1) = claim h old w in
    let done1 = rw same1 at done in
    let (claimed, same2) = refresh_claimed-201 h old (string_result reply) res w1 empty done1 in
    let (a, w2) = postgres_call p (find_role old.user_id) w1 in
    let (name, answered) = refresh_role-201 h old a res w2 empty (rw same2 at done1) in
    let (account, found, named) = role_found q old.user_id name w1 answered in
    let same =
      same1 ∙ same2 ∙ ap (λ x. refresh_role p h old x res w2) (answered ∙ ap role (sym named)) in
    rw same (record {
      token = token;
      old = old;
      account = account;
      sent = sent;
      read = read;
      in_time = in_time;
      claimed = claimed_id r (refresh_key old.token_id) old.user_id (elapse p w) claimed;
      found = found;
      rotated = rotate-IsRotated r h old account.role res w2 empty (rw same at done);
    })
