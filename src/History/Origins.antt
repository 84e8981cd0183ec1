-- ===== src/History/Origins.antt =====
-- Where the accounts that a history of requests adds come from: `Register` of
-- internal/handlers/auth.go, through every route.
use secure_auth_gateway.Prelude.{◌≤◌, ◌≡◌, refl, true, codes, List, length, arith}
use secure_auth_gateway.Platform.{Platform, PostgresLaws}
use secure_auth_gateway.Platform.Postgres.{
  User, Query, email_exists, find_user, insert_user, find_role,
}
use secure_auth_gateway.Platform.World.{World, redis_call, limiter_call}
use secure_auth_gateway.Platform.World.Calls.{table}
use secure_auth_gateway.Http.{Request, Credentials}
use secure_auth_gateway.Password.{checked, verify_password}
use secure_auth_gateway.Password.RoundTrip.{Argon2Laws}
use secure_auth_gateway.Handlers.Responses.{AuthHandler}
use secure_auth_gateway.Handlers.Register.Outcome.{SaltsAreBytes, accepts_own}
use secure_auth_gateway.History.Keeps.{Kept, IsReading}
use secure_auth_gateway.History.Requests.{serve_all, serve_all-Asked, Registers}
use secure_auth_gateway.History.Accounts.{
  Grows, Grows-refl, Grows-trans, Admits, postgres_call-Grows,
}

module _ (p : Platform) (reqs : List Request) where
  -- An account comes from a valid registration among the requests.
  pub record IsMade (u : User) : Type 0 where
    pub c : Credentials
    pub registered : Registers reqs c
    pub well_formed : p.valid_email c.email ≡ true
    pub long_enough : 15 ≤ length c.password
    pub short_enough : length c.password ≤ 72
    pub email : u.email ≡ c.email
    pub role : u.role ≡ codes "user"
    pub accepted : verify_password p c.password u.password_hash ≡ checked true

  reading-Admits : (query : Query) → IsReading query → Admits IsMade query
  reading-Admits (insert_user e h) reads = absurd reads
  reading-Admits (email_exists e) reads = tt
  reading-Admits (find_user e) reads = tt
  reading-Admits (find_role i) reads = tt

  module _ (q : PostgresLaws p) (a : Argon2Laws p) (salts : SaltsAreBytes p) where
    -- The accounts of before are there, and the others come from registrations.
    abbrev Grown : List User → World p → Type 0
    Grown before w = Grows IsMade before (table q w)

    Grown-Kept : (before : List User) → Kept p (Grown before) (λ id. Unit {0}) (Registers reqs)
    unfolding redis_call limiter_call
    Grown-Kept before = record {
      elapsing = λ w i. i;
      waiting = λ d w i. i;
      calibrating = λ b pos w i. i;
      drawing = λ w i. tt;
      counting = λ email w i. i;
      bounding = λ email w i. i;
      reading = λ email w i. i;
      timing = λ email w i. i;
      clearing = λ email w i. i;
      storing = λ id user_id d fresh w i. i;
      claiming = λ id w i. i;
      querying = λ query reads w i.
          Grows-trans IsMade i (postgres_call-Grows q IsMade query w (reading-Admits query reads));
      inserting = λ c hash made valid asked w i. Grows-trans IsMade i (
          postgres_call-Grows q IsMade (insert_user c.email hash) w (λ now id. record {
            c = c;
            registered = asked;
            well_formed = ground arith;
            long_enough = ground arith;
            short_enough = ground arith;
            email = refl;
            role = refl;
            accepted = accepts_own a salts c.password made.0 hash made.1;
          }));
      limiting = λ ip r w i. i;
    }

    -- No history of requests changes or removes an account, and each account that it adds has the
    -- address of a valid registration that one of the requests brought to the route of
    -- registrations, the role "user" and a hash that accepts the password of that registration,
    -- which has 15 to 72 characters; if Argon2id and Postgres keep their laws and salts are bytes.
    pub serve_all-Grows :
        (h : AuthHandler) (w : World p) → Grows IsMade (table q w) (table q (serve_all p h reqs w))
    serve_all-Grows h w =
        serve_all-Asked (Grown-Kept (table q w)) h reqs w (λ c asked. asked)
          (Grows-refl IsMade (table q w))
