-- ===== src/Handlers/Login/Refusals.antt =====
-- `Login` (internal/handlers/auth.go): the answers 401 and 429, and their time.
use secure_auth_gateway.Prelude.{
  ℕ, ◌+◌, ◌-◌, ◌≤◌, ◌≡◌, ◌≢◌, refl, ap, Bool, true, false, Option, none, some, Text, arith, ◌/◌,
  ◌∙◌,
}
use secure_auth_gateway.Platform.{Platform, RedisLaws}
use secure_auth_gateway.Platform.Redis.{get, fail, perform, live, count}
use secure_auth_gateway.Platform.Postgres.{User, Answer, user, no_rows}
use secure_auth_gateway.Platform.World.{World, redis_call, elapse}
use secure_auth_gateway.Platform.World.Calls.{seen, redis_call_ok}
use secure_auth_gateway.Http.{Response, Request, Credentials, respond_json}
use secure_auth_gateway.Lockout.{
  record_failure, is_locked, check_budget, lockout_key, max_login_failures,
}
use secure_auth_gateway.Password.{HashError, checked, hash_error, verify_password}
use secure_auth_gateway.Timing.{failure_jitter, jitter_below}
use secure_auth_gateway.Timing.Bounds.{failure_delay_target_again}
use secure_auth_gateway.Handlers.Responses.{
  AuthHandler, respond_invalid_credentials, pad_failure, wait_remaining,
}
use secure_auth_gateway.Handlers.Login.{
  login, login_decoded, login_guarded, login_found, login_checked, login_fail, valid_login,
  respond_locked,
}

-- No client leaves during a wait.
abbrev pub ClientsStay : Platform → Type 0
ClientsStay p = (call : ℕ) → p.hung_up call ≡ none

-- The answers to the lookup that end in a refusal: no such address, or a check that fails.
pub data IsRefused (p : Platform) (c : Credentials) : Answer → Type 0 where
  unknown : IsRefused p c no_rows
  wrong :
      (u : User)
      → verify_password p c.password u.password_hash ≡ checked false
      → IsRefused p c (user u)
  unreadable :
      (u : User) (e : HashError)
      → verify_password p c.password u.password_hash ≡ hash_error e
      → IsRefused p c (user u)

module _ {p : Platform} where
  record_failure-baseline :
      (email : Text) (w : World p) → (record_failure p email w).1.baseline ≡ w.baseline
  unfolding record_failure redis_call
  record_failure-baseline email w = ground arith

  record_failure-later : (email : Text) (w : World p) → w.now ≤ (record_failure p email w).1.now
  unfolding record_failure redis_call
  record_failure-later email w = ground arith

  jitter_below-later : (width : ℕ) (w : World p) → w.now ≤ (jitter_below p width w).1.now
  unfolding jitter_below
  jitter_below-later width w = ground arith

  failure_jitter-later :
      (b : ℕ) (w : World p) → w.baseline ≡ some b → w.now ≤ (failure_jitter p w).1.now
  unfolding failure_jitter
  failure_jitter-later b w e =
      rw (failure_delay_target_again p w b e) (jitter_below-later (b / 4) w)

  wait_remaining_lem :
      ClientsStay p
      → (remaining : ℕ) (w : World p) → w.now + remaining ≤ (wait_remaining p remaining w).1.now
  unfolding wait_remaining
  wait_remaining_lem stay remaining w = ground (arith, stay w.tick)

  -- A padded failure lasts at least the delay target and the jitter, from the start that it is given.
  pub pad_failure_lem :
      ClientsStay p
      → (start b : ℕ) (w : World p) → w.baseline ≡ some b
      → start ≤ w.now
      → start + b + (failure_jitter p w).0 ≤ (pad_failure p start w).1.now
  unfolding pad_failure
  pad_failure_lem stay start b w e order =
      let (jitter, w') = failure_jitter p w in
      let now = w'.now + p.lag w'.tick in
      rw (failure_delay_target_again p w b e) (
        omega (
          arith,
          failure_jitter-later b w e,
          wait_remaining_lem stay (b + jitter - (now - start)) (elapse p w'),
        ))

  login_fail_lem :
      (h : AuthHandler)
      → ClientsStay p
      → (email : Text) (start b : ℕ) (r : Response) (w : World p) → w.baseline ≡ some b
      → start ≤ w.now
      → ((login_fail p h email start r w).0 ≡ respond_invalid_credentials r)
        × (start + b ≤ (login_fail p h email start r w).1.now)
  unfolding login_fail
  login_fail_lem h stay email start b r w e order =
      let w' = (record_failure p email w).1 in
      (
        refl,
        omega (
          arith,
          record_failure-later email w,
          pad_failure_lem stay start b w' (record_failure-baseline email w ∙ e)
              (omega (arith, record_failure-later email w)),
        ),
      )

  -- Whatever the reason of a refusal, the response is the same, and it is not given before the time
  -- of a password check has passed since the start.
  pub login_found-IsRefused :
      (h : AuthHandler) (stay : ClientsStay p) (c : Credentials) (answer : Answer) (start b : ℕ)
      (r : Response) (w : World p)
      → IsRefused p c answer
      → w.baseline ≡ some b
      → start ≤ w.now
      → ((login_found p h c start answer r w).0 ≡ respond_invalid_credentials r)
        × (start + b ≤ (login_found p h c start answer r w).1.now)
  unfolding login_found login_checked
  login_found-IsRefused h stay c _ start b r w unknown e order =
      login_fail_lem h stay c.email start b r w e order
  login_found-IsRefused h stay c _ start b r w (wrong u check) e order =
      rw check (login_fail_lem h stay c.email start b r (elapse p w) e (omega arith))
  login_found-IsRefused h stay c _ start b r w (unreadable u x check) e order =
      rw check (login_fail_lem h stay c.email start b r (elapse p w) e (omega arith))

module _ {p : Platform} (r : RedisLaws p) where
  is_locked-429 :
      (email : Text) (n : ℕ) (e : Option ℕ) (w : World p)
      → live (w.now + p.lag w.tick) (seen r w (lockout_key p email))
        ≡ some (record { value = count n; expires = e })
      → max_login_failures ≤ n
      → (redis_call p (get (lockout_key p email)) w).0 ≢ fail
      → ((is_locked p email w).0.0 ≡ true) × ((is_locked p email w).1.tables ≡ w.tables)
  unfolding is_locked check_budget redis_call perform
  is_locked-429 email n e w entry spent up =
      ground (arith, redis_call_ok r (get (lockout_key p email)) w)

  login_guarded-429 :
      (h : AuthHandler) (c : Credentials) (verdict : Bool × ℕ) (res : Response) (w : World p)
      → verdict.0 ≡ true
      → res.status ≡ none
      → ((login_guarded p h c verdict res w).0.status ≡ some 429)
        × ((login_guarded p h c verdict res w).1 ≡ w)
  unfolding login_guarded respond_locked respond_json
  login_guarded-429 h c (true, d) res w locked empty = ground arith
  login_guarded-429 h c (false, d) res w locked empty = absurd (ground arith)

  -- While a counter of five or more failures is alive, a well-formed login is answered with 429,
  -- whatever the password, and no account is touched.
  pub login-429 :
      (h : AuthHandler) (req : Request) (c : Credentials) (n : ℕ) (e : Option ℕ) (res : Response)
      (w : World p)
      → req.body ≡ some c
      → valid_login p h c ≡ true
      → live (w.now + p.lag w.tick) (seen r w (lockout_key p c.email))
        ≡ some (record { value = count n; expires = e })
      → max_login_failures ≤ n
      → (redis_call p (get (lockout_key p c.email)) w).0 ≢ fail
      → res.status ≡ none
      → ((login p h req res w).0.status ≡ some 429) × ((login p h req res w).1.tables ≡ w.tables)
  unfolding login login_decoded
  login-429 h req c n e res w body valid entry spent up empty =
      let (locked, kept) = is_locked-429 c.email n e w entry spent up in
      let (verdict, w') = is_locked p c.email w in
      let (status, same) = login_guarded-429 h c verdict res w' locked empty in
      rw (body, valid) (status, ap (λ u. u.tables) same ∙ kept)
