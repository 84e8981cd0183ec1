-- ===== src/Handlers/Login/Outcome.antt =====
-- `Login` (internal/handlers/auth.go), from its answer 201 back to what was checked.
use secure_auth_gateway.Prelude.{
  ℕ, ◌+◌, ◌≤◌, ◌≡◌, refl, ap, sym, inl, inr, Bool-cases, Bool, true, false, Option, none, some,
  Text, arith, ◌∙◌,
}
use secure_auth_gateway.Platform.{Platform, RedisLaws, PostgresLaws}
use secure_auth_gateway.Platform.Postgres.{User, Answer, user, find_user, respond, find_email}
use secure_auth_gateway.Platform.World.{World, redis_call, postgres_call, elapse}
use secure_auth_gateway.Platform.World.Calls.{table, postgres_call_ok}
use secure_auth_gateway.Http.{Response, Request, Credentials, respond_json, http_error}
use secure_auth_gateway.Lockout.{is_locked, check_budget}
use secure_auth_gateway.Password.{PasswordCheck, checked, hash_error, panics, verify_password}
use secure_auth_gateway.Handlers.Responses.{AuthHandler, respond_invalid_credentials}
use secure_auth_gateway.Handlers.Login.{
  login, login_decoded, login_guarded, login_unlocked, login_found, login_checked, login_accept,
  login_fail, valid_login, respond_locked,
}
use secure_auth_gateway.Handlers.Login.Opening.{IsOpened, login_accept-IsOpened}

module _ {p : Platform} (h : AuthHandler) where
  login_checked-201 :
      (c : Credentials) (start : ℕ) (u : User) (check : PasswordCheck) (res : Response)
      (w : World p)
      → res.status ≡ none
      → (login_checked p h c.email start u check res w).0.status ≡ some 201
      → (check ≡ checked true)
        × (login_checked p h c.email start u check res w ≡ login_accept p h c.email u res w)
  unfolding login_checked login_fail respond_invalid_credentials respond_json
  login_checked-201 c start u (checked true) res w empty done = (refl, refl)
  login_checked-201 c start u (checked false) res w empty done = absurd (ground arith)
  login_checked-201 c start u (hash_error e) res w empty done = absurd (ground arith)
  login_checked-201 c start u panics res w empty done = absurd (ground arith)

  login_found-201 :
      (c : Credentials) (start : ℕ) (a : Answer) (res : Response) (w : World p)
      → res.status ≡ none
      → (login_found p h c start a res w).0.status ≡ some 201
      → (u : User) × (a ≡ user u)
        × (verify_password p c.password u.password_hash ≡ checked true)
        × (login_found p h c start a res w ≡ login_accept p h c.email u res (elapse p w))
        × ((login_accept p h c.email u res (elapse p w)).0.status ≡ some 201)
  unfolding login_found login_fail respond_invalid_credentials respond_json http_error
  login_found-201 c start (user u) res w empty done =
      let (right, same) =
        login_checked-201 c start u (verify_password p c.password u.password_hash) res (elapse p w)
          empty done in
      (u, refl, right, same, rw same at done)
  login_found-201 c start _ res w empty done = absurd (ground arith)

  login_guarded-201 :
      (c : Credentials) (verdict : Bool × ℕ) (res : Response) (w : World p)
      → res.status ≡ none
      → (login_guarded p h c verdict res w).0.status ≡ some 201
      → (verdict.0 ≡ false)
        × (login_guarded p h c verdict res w ≡ login_unlocked p h c res w)
        × ((login_unlocked p h c res w).0.status ≡ some 201)
  unfolding login_guarded respond_locked respond_json
  login_guarded-201 c (true, d) res w empty done = absurd (ground arith)
  login_guarded-201 c (false, d) res w empty done = (refl, refl, done)

  login_decoded-201 :
      (body : Option Credentials) (res : Response) (w : World p)
      → res.status ≡ none
      → (login_decoded p h body res w).0.status ≡ some 201
      → (c : Credentials) × (body ≡ some c)
        × (valid_login p h c ≡ true)
        × (let (verdict, w') = is_locked p c.email w in
            (login_decoded p h body res w ≡ login_guarded p h c verdict res w')
            × ((login_guarded p h c verdict res w').0.status ≡ some 201))
  unfolding login_decoded http_error
  login_decoded-201 none res w empty done = absurd (ground arith)
  login_decoded-201 (some c) res w empty done = elim (Bool-cases (valid_login p h c)) [
    | inl valid ↦
        (c, refl, valid, (rw (valid, login_decoded) refl, rw (valid, login_decoded) at done))
    | inr invalid ↦ absurd (ground arith)
  ]

module _ {p : Platform} where
  is_locked-tables : (email : Text) (w : World p) → (is_locked p email w).1.tables ≡ w.tables
  unfolding is_locked check_budget redis_call
  is_locked-tables email w = ground arith

  is_locked-now : (email : Text) (w : World p) → w.now ≤ (is_locked p email w).1.now
  unfolding is_locked check_budget redis_call
  is_locked-now email w = ground arith

  find_user-now : (e : Text) (w : World p) → w.now ≤ (postgres_call p (find_user e) w).1.now
  unfolding postgres_call
  find_user-now e w = omega arith

  user_found :
      (q : PostgresLaws p) (e : Text) (w : World p) (u : User)
      → (postgres_call p (find_user e) w).0 ≡ user u
      → find_email e (table q w) ≡ some u
  unfolding respond
  user_found q e w u found = ground (arith, postgres_call_ok q (find_user e) w)

-- What a success means: an account that is not locked, found by its exact address, whose stored
-- hash accepts the password, and a session that is opened for it.
pub record IsLoggedIn {p : Platform} (r : RedisLaws p) (q : PostgresLaws p) (h : AuthHandler)
    (req : Request) (res answer : Response) (w w' : World p) : Type 0 where
  pub c : Credentials
  pub account : User
  pub decoded : req.body ≡ some c
  pub well_formed : valid_login p h c ≡ true
  pub unlocked : (is_locked p c.email w).0.0 ≡ false
  pub found : find_email c.email (table q w) ≡ some account
  pub right : verify_password p c.password account.password_hash ≡ checked true
  pub opened : IsOpened r h account w.now res answer w'

-- A login that answers 201 was well formed and not locked, has checked the password of the account
-- with exactly its address, and has opened a session for that account: an access token with its
-- identifier and role that lasts fifteen minutes or longer from its time of issue, and a refresh
-- token whose key is stored for thirty days.
pub login-IsLoggedIn :
    {p : Platform} (r : RedisLaws p) (q : PostgresLaws p) (h : AuthHandler) (req : Request)
    (res : Response) (w : World p)
    → res.status ≡ none
    → (login p h req res w).0.status ≡ some 201
    → IsLoggedIn r q h req res (login p h req res w).0 w (login p h req res w).1
unfolding login login_unlocked
login-IsLoggedIn {p} r q h req res w empty finished =
    let (c, decoded, valid, (same1, done1)) = login_decoded-201 h req.body res w empty finished in
    let (verdict, w1) = is_locked p c.email w in
    let (open_account, same2, done2) = login_guarded-201 h c verdict res w1 empty done1 in
    let w2 = elapse p w1 in
    let (answer, w3) = postgres_call p (find_user c.email) w2 in
    let (u, found, right, same3, done3) =
      login_found-201 h c (w1.now + p.lag w1.tick) answer res w3 empty done2 in
    rw (same1, same2, same3)
      (record {
        c = c;
        account = u;
        decoded = decoded;
        well_formed = valid;
        unlocked = open_account;
        found =
            ap (λ b. find_email c.email (q.rows b)) (sym (is_locked-tables c.email w))
            ∙ user_found q c.email w2 u found;
        right = right;
        opened =
            login_accept-IsOpened r h c.email u w.now res (elapse p w3)
              (omega (arith, is_locked-now c.email w, find_user-now c.email w2)) empty done3;
      })
