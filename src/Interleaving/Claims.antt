-- ===== src/Interleaving/Claims.antt =====
-- A refresh (internal/handlers/auth.go) and the key of its token: at which stages it has claimed
-- the key, and how it gets there.
use secure_auth_gateway.Prelude.{
  ◌+◌, ◌≡◌, ◌≢◌, ◌⊎◌, refl, inl, inr, Bool-cases, Option-cases, Option, none, some, Text, ltb,
  text_eq, text_eq_refl, arith, ℤ,
}
use secure_auth_gateway.Platform.{Platform, RedisLaws}
use secure_auth_gateway.Platform.Payload.{RefreshTokenPayload}
use secure_auth_gateway.Platform.Redis.{Reply, fail, get_del, perform, put, live}
use secure_auth_gateway.Platform.World.{World, redis_call}
use secure_auth_gateway.Platform.World.Calls.{seen, redis_call_at, redis_call_reply}
use secure_auth_gateway.Http.{Response, respond_json}
use secure_auth_gateway.Lockout.{is_ok}
use secure_auth_gateway.Platform.Postgres.{role}
use secure_auth_gateway.Tokens.{ok, err, verify_refresh_token, if_valid}
use secure_auth_gateway.Handlers.Responses.{
  AuthHandler, respond_invalid_session, set_refresh_cookie,
}
use secure_auth_gateway.Handlers.Login.{refresh_key}
use secure_auth_gateway.Handlers.Session.{string_result}
use secure_auth_gateway.Interleaving.{
  Stage, arrived, verified, claimed, answered, signed, lasting, created, stored, finished, advance,
  begin, conclude,
}

-- The claims of the token that a request carries.
abbrev pub carried : Platform → AuthHandler → Option Text → Option RefreshTokenPayload
carried p h none = none
carried p h (some token) = p.decrypt token h.refresh_token_maker.key

-- The refresh has taken the key of its token from Redis, and has not failed since.
abbrev pub HasClaimed : Stage → Type 0
HasClaimed (arrived req r) = ⊥
HasClaimed (verified v r) = ⊥
HasClaimed (claimed c none r) = ⊥
HasClaimed (finished r) = r.status ≡ some 201
HasClaimed _ = Unit

-- Up to its claim the refresh is about the token `c`, and has written no status.
abbrev pub IsFor : Platform → AuthHandler → RefreshTokenPayload → Stage → Type 0
IsFor p h c (arrived req r) = (carried p h req.cookie ≡ some c) × (r.status ≡ none)
IsFor p h c (verified (ok d) r) = (d ≡ c) × (r.status ≡ none)
IsFor p h c (verified (err e) r) = r.status ≡ none
IsFor p h c (claimed d none r) = r.status ≡ none
IsFor p h c _ = Unit

refused-not : (r : Response) → r.status ≡ none → ¬ HasClaimed (finished (respond_invalid_session r))
unfolding respond_invalid_session respond_json
refused-not r e done = ground arith

-- A claim that a string answers found the key, and has removed it.
claim-seen :
    {p : Platform} (r : RedisLaws p) (k u : Text) (w : World p)
    → string_result (redis_call p (get_del k) w).0 ≡ some u
    → (seen r w k ≢ none) × (seen r (redis_call p (get_del k) w).1 k ≡ none)
unfolding perform put live
claim-seen r k u w e =
    let up : (redis_call _ (get_del k) w).0 ≢ fail = λ failed. ground arith in
    (
      λ gone. ground (arith, redis_call_reply r (get_del k) w),
      ground (arith, redis_call_at r (get_del k) w k up, text_eq_refl k),
    )

module _ (p : Platform) (h : AuthHandler) (c : RefreshTokenPayload) where
  begin-IsFor :
      (cookie : Option Text) (r : Response) (w : World p)
      → carried p h cookie ≡ some c
      → r.status ≡ none
      → IsFor p h c (begin p h cookie r w).0
  unfolding verify_refresh_token if_valid
  begin-IsFor none r w e empty = tt
  begin-IsFor (some token) r w e empty =
      elim (Bool-cases (ltb c.meta.expired_at (w.now + p.lag w.tick))) [
        | inl late ↦ rw (e, late) empty
        | inr valid ↦ rw (e, valid) (refl, empty)
      ]

  claimed-IsFor :
      (d : RefreshTokenPayload) (u : Option Text) (r : Response)
      → r.status ≡ none
      → IsFor p h c (claimed d u r)
  claimed-IsFor d none r empty = empty
  claimed-IsFor d (some u) r empty = tt

  conclude-IsFor :
      (access refresh : Text) (d : ℤ) (reply : Reply) (r : Response) (w : World p)
      → IsFor p h c (conclude p h access refresh d reply r w).0
  unfolding set_refresh_cookie
  conclude-IsFor access refresh d reply r w = elim (Bool-cases (is_ok reply)) [
    | inl done ↦ rw (done, conclude) tt
    | inr failed ↦ rw (failed, conclude) tt
  ]

  pub advance-IsFor : (st : Stage) (w : World p) → IsFor p h c st → IsFor p h c (advance p h st w).0
  unfolding advance
  advance-IsFor (arrived req r) w (e, empty) = begin-IsFor req.cookie r w e empty
  advance-IsFor (verified (err e) r) w about = tt
  advance-IsFor (verified (ok d) r) w (e, empty) = claimed-IsFor d _ r empty
  advance-IsFor (claimed d none r) w about = tt
  advance-IsFor (claimed d (some id) r) w about = elim (Bool-cases (text_eq id d.user_id)) [
    | inl same ↦ rw same tt
    | inr differs ↦ rw differs tt
  ]
  advance-IsFor (answered d (role name) r) w about = tt
  advance-IsFor (answered d _ r) w about = tt
  advance-IsFor (signed d none r) w about = tt
  advance-IsFor (signed d (some access) r) w about = tt
  advance-IsFor (lasting d access left r) w about = tt
  advance-IsFor (created d access left (none, id) r) w about = tt
  advance-IsFor (created d access left (some t, id) r) w about = tt
  advance-IsFor (stored access t left reply r) w about = conclude-IsFor access t left reply r w
  advance-IsFor (finished r) w about = tt

  begin-unclaimed :
      (cookie : Option Text) (r : Response) (w : World p)
      → r.status ≡ none
      → ¬ HasClaimed (begin p h cookie r w).0
  begin-unclaimed none r w empty done = refused-not r empty done
  begin-unclaimed (some token) r w empty done = done

  -- A stage that has claimed comes after one that has, or the key has just been there and is gone.
  pub advance-HasClaimed :
      (r : RedisLaws p) (st : Stage) (w : World p)
      → IsFor p h c st
      → HasClaimed (advance p h st w).0
      → HasClaimed st
        ⊎ ((seen r w (refresh_key c.token_id) ≢ none)
            × (seen r (advance p h st w).1 (refresh_key c.token_id) ≡ none))
  unfolding advance
  advance-HasClaimed r (arrived req res) w (e, empty) done =
      absurd (begin-unclaimed req.cookie res w empty done)
  advance-HasClaimed r (verified (err e) res) w empty done = absurd (refused-not res empty done)
  advance-HasClaimed r (verified (ok d) res) w (e, empty) done =
      let k = refresh_key d.token_id in
      elim (Option-cases (string_result (redis_call p (get_del k) w).0)) [
        | inl missing ↦ absurd (rw missing at done)
        | inr (u, got) ↦ inr (rw (← e) (claim-seen r k u w got))
      ]
  advance-HasClaimed r (claimed d none res) w empty done = absurd (refused-not res empty done)
  advance-HasClaimed r (claimed d (some id) res) w about done = inl tt
  advance-HasClaimed r (answered d a res) w about done = inl tt
  advance-HasClaimed r (signed d access res) w about done = inl tt
  advance-HasClaimed r (lasting d access left res) w about done = inl tt
  advance-HasClaimed r (created d access left made res) w about done = inl tt
  advance-HasClaimed r (stored access t left reply res) w about done = inl tt
  advance-HasClaimed r (finished res) w about done = inl done
