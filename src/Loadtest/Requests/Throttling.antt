-- ===== src/Loadtest/Requests/Throttling.antt =====
-- The throttling of a login that the load test sends (cmd/loadtest/main.go, `do`), against the
-- limiter and the lockout of the gateway (internal/handlers).
use secure_auth_gateway.Prelude.{
  ℕ, ◌/◌, decimal, ◌≡◌, ◌≢◌, refl, ap, inl, inr, Bool, true, false, Bool-cases, Option, none, some,
  Text, codes, ◌==◌, ==_iff, arith,
}
use secure_auth_gateway.Platform.{Platform}
use secure_auth_gateway.Platform.Redis.{Reply, fail, value, span, done, nil, second}
use secure_auth_gateway.Platform.Postgres.{User, Answer, user, no_rows}
use secure_auth_gateway.Platform.World.{World, limiter_call}
use secure_auth_gateway.Http.{
  Response, Request, Credentials, get_header, set_header, respond_json, http_error,
}
use secure_auth_gateway.Lockout.{is_locked}
use secure_auth_gateway.Password.{PasswordCheck, checked, hash_error, panics}
use secure_auth_gateway.Gate.{security_headers}
use secure_auth_gateway.Handlers.Responses.{
  AuthHandler, set_refresh_cookie, respond_invalid_credentials,
}
use secure_auth_gateway.Handlers.Login.{
  login_finish, login_store, login_refresh, login_accept, login_fail, login_checked, login_found,
  login_unlocked, login_guarded, login_decoded, valid_login, respond_locked,
}
use secure_auth_gateway.Handlers.Login
use secure_auth_gateway.Routes.{login, serve, limited, run_endpoint, fresh_response}
use secure_auth_gateway.History.Headers.{get_header-set_header}
use secure_auth_gateway.Loadtest.Samples.{
  ThrottleKind, throttle_none, throttle_ip, throttle_account,
}
use secure_auth_gateway.Loadtest.Seeding.{seed_request, sent_status, serve-login, LimiterStatus}
use secure_auth_gateway.Loadtest.Requests.{throttle_of, do_request, answered}

-- A response to which a status other than 429 has been written.
abbrev IsOpen : Response → Type 0
IsOpen r = r.status ≢ some 429

finish-IsOpen :
    (t : Text) (reply : Reply) (r : Response) → r.status ≡ none → IsOpen (login_finish t reply r)
unfolding login_finish respond_json http_error
finish-IsOpen t fail r e same = ground arith
finish-IsOpen t (value v) r e same = ground arith
finish-IsOpen t (span d) r e same = ground arith
finish-IsOpen t done r e same = ground arith
finish-IsOpen t nil r e same = ground arith

module _ (p : Platform) (h : AuthHandler) where
  store-IsOpen :
      (id access : Text) (made : Option Text × Text) (r : Response) (w : World p)
      → r.status ≡ none
      → IsOpen (login_store p h id access made r w).0
  unfolding login_store set_refresh_cookie http_error
  store-IsOpen id access (none, token_id) r w e = λ same. ground arith
  store-IsOpen id access (some refresh, token_id) r w e = finish-IsOpen access _ _ e

  refresh-IsOpen :
      (id : Text) (access : Option Text) (r : Response) (w : World p)
      → r.status ≡ none
      → IsOpen (login_refresh p h id access r w).0
  unfolding login_refresh http_error
  refresh-IsOpen id none r w e = λ same. ground arith
  refresh-IsOpen id (some access) r w e = store-IsOpen id access _ r _ e

  fail-IsOpen :
      (email : Text) (start : ℕ) (r : Response) (w : World p)
      → r.status ≡ none
      → IsOpen (login_fail p h email start r w).0
  unfolding login_fail respond_invalid_credentials respond_json
  fail-IsOpen email start r w e = λ same. ground arith

  checked-IsOpen :
      (email : Text) (start : ℕ) (u : User) (check : PasswordCheck) (r : Response) (w : World p)
      → r.status ≡ none
      → IsOpen (login_checked p h email start u check r w).0
  unfolding login_checked login_accept
  checked-IsOpen email start u (checked true) r w e = refresh-IsOpen u.id _ r _ e
  checked-IsOpen email start u (checked false) r w e = fail-IsOpen email start r w e
  checked-IsOpen email start u (hash_error x) r w e = fail-IsOpen email start r w e
  checked-IsOpen email start u panics r w e = λ same. ground arith

  found-IsOpen :
      (c : Credentials) (start : ℕ) (a : Answer) (r : Response) (w : World p)
      → r.status ≡ none
      → IsOpen (login_found p h c start a r w).0
  unfolding login_found http_error
  found-IsOpen c start (user u) r w e = checked-IsOpen c.email start u _ r _ e
  found-IsOpen c start no_rows r w e = fail-IsOpen c.email start r w e
  found-IsOpen c start _ r w e = λ same. ground arith

  -- What the load test sees of a login that the limiter lets through.
  abbrev pub seen_as : Bool → Bool → ThrottleKind
  seen_as true true = throttle_account
  seen_as _ _ = throttle_none

  429-status : (s : Option ℕ) → s ≢ some 429 → (sent_status s == 429) ≡ false
  429-status none other = refl
  429-status (some code) other = elim (Bool-cases (code == 429)) [
    | inl same ↦ absurd (other (ap some ((==_iff code 429).0 same)))
    | inr differs ↦ differs
  ]

  throttle_of-none : (r : Response) → IsOpen r → throttle_of r ≡ throttle_none
  throttle_of-none r other = rw (429-status r.status other) refl

  throttle_of-locked :
      (d : ℕ) (r : Response) → r.status ≡ none → throttle_of (respond_locked d r) ≡ throttle_account
  unfolding respond_locked respond_json
  throttle_of-locked d r e =
      let json =
        get_header-set_header "Content-Type" (codes "application/json")
          (set_header "Retry-After" (decimal (d / second)) r.headers) refl in
      rw (e, json) refl

  guarded-throttle :
      (c : Credentials) (verdict : Bool × ℕ) (r : Response) (w : World p)
      → r.status ≡ none
      → throttle_of (login_guarded p h c verdict r w).0 ≡ seen_as true verdict.0
  unfolding login_guarded login_unlocked
  guarded-throttle c (true, d) r w e = throttle_of-locked d r e
  guarded-throttle c (false, d) r w e =
      throttle_of-none (login_unlocked p h c r w).0 (found-IsOpen c _ _ r _ e)

  login-throttle :
      (req : Request) (c : Credentials) (r : Response) (w : World p)
      → req.body ≡ some c
      → r.status ≡ none
      → throttle_of (Login.login p h req r w).0
        ≡ seen_as (valid_login p h c) (is_locked p c.email w).0.0
  unfolding Login.login login_decoded http_error
  login-throttle req c r w body e = elim (Bool-cases (valid_login p h c)) [
    | inl valid ↦
        rw (body, valid)
          (guarded-throttle c (is_locked p c.email w).0 r (is_locked p c.email w).1 e)
    | inr invalid ↦
        rw (body, invalid)
          (throttle_of-none (http_error "{\"error\": \"Invalid input formatting\"}" 400 r)
            (λ same. ground arith))
  ]

-- `httprate` refuses by `http.Error`, in plain text.
pub record LimiterReplies (p : Platform) : Type 0 where
  pub status : LimiterStatus p
  pub plain :
      (now : ℕ) (ip : Text) (r : Response) (s : p.Store)
      → (p.limiter now ip r s).0.0 ≡ false
      → get_header "Content-Type" (p.limiter now ip r s).0.1.headers
        ≡ some (codes "text/plain; charset=utf-8")

module _ {p : Platform} (l : LimiterReplies p) (h : AuthHandler) where
  abbrev pub seen_behind : Bool → Bool → Bool → ThrottleKind
  seen_behind false valid locked = throttle_ip
  seen_behind true valid locked = seen_as p h valid locked

  limited-throttle :
      (lets : Bool) (r : Response) (req : Request) (c : Credentials) (w : World p)
      → req.body ≡ some c
      → (lets ≡ true → r.status ≡ none)
      → (lets ≡ false → r.status ≡ some 429)
      → (lets ≡ false
          → get_header "Content-Type" r.headers ≡ some (codes "text/plain; charset=utf-8"))
      → throttle_of (limited p h (lets, r) (some login) req w).0
        ≡ seen_behind lets (valid_login p h c) (is_locked p c.email w).0.0
  unfolding limited run_endpoint
  limited-throttle true r req c w body passes refuses plain =
      login-throttle p h req c r w body (passes refl)
  limited-throttle false r req c w body passes refuses plain = rw (refuses refl, plain refl) refl

  -- The load test counts a login as throttled by address exactly if the limiter refuses it, and as
  -- throttled by account exactly if the limiter lets it through, it is well formed and its account is
  -- locked, if the limiter answers a refused request in plain text with 429 and writes no status on
  -- one that it lets through.
  pub do_request-throttle :
      (sent_at latency : ℕ) (ip : Text) (a : Credentials) (w : World p)
      → let ((lets, r), w') = limiter_call p ip (security_headers fresh_response) w in
        let res = (serve p h (seed_request "/api/v1/auth/login" ip a) w).0 in
        let locked = (is_locked p a.email w').0.0 in
        (do_request sent_at latency ip (answered res)).0.throttle
        ≡ seen_behind lets (valid_login p h a) locked
  unfolding do_request limiter_call security_headers
  do_request-throttle sent_at latency ip a w =
      let res = security_headers fresh_response in
      let ((lets, r), w') = limiter_call p ip res w in
      rw (serve-login p h ip a w) (
        limited-throttle lets r (seed_request "/api/v1/auth/login" ip a) a w' refl
          (λ yes. l.status.passes _ ip res w.store yes) (λ no. l.status.refuses _ ip res w.store no)
          (λ no. l.plain _ ip res w.store no))
