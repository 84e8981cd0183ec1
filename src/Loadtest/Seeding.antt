-- ===== src/Loadtest/Seeding.antt =====
-- cmd/loadtest/seed.go, `seed`, against the modelled gateway: the answers of `postJSON` are those of
-- `serve`, and each of them arrives.
pub mod Outcome
use secure_auth_gateway.Prelude.{
  ℕ, suc, ◌+◌, ◌≡◌, refl, ap, ◌∙◌, sym, inl, inr, Bool, true, false, ◌||◌, Bool-cases, Option, none,
  some, List, [], ◌∷◌, ◌++◌, String, Text, text_eq, ◌==◌, ==_iff, All, arith,
}
use secure_auth_gateway.Platform.{Platform, RedisLaws, PostgresLaws}
use secure_auth_gateway.Platform.Postgres.{User, find_email}
use secure_auth_gateway.Platform.World.{World, M, branch, ◌>>=◌, pure, limiter_call}
use secure_auth_gateway.Platform.World.Calls.{table}
use secure_auth_gateway.Http.{Request, Response, Credentials}
use secure_auth_gateway.Password.{verify_password, checked}
use secure_auth_gateway.Gate.{security_headers}
use secure_auth_gateway.Handlers.Responses.{AuthHandler}
use secure_auth_gateway.Handlers.Login
use secure_auth_gateway.Handlers.Login.Outcome.{IsLoggedIn, login-IsLoggedIn}
use secure_auth_gateway.Routes.{
  login, serve, route, limited, run_endpoint, find_route, group_of, fresh_response,
}
use secure_auth_gateway.History.Requests.{serve_all}
use secure_auth_gateway.History.Accounts.{Extends, serve_all-Extends}
use secure_auth_gateway.Loadtest.Seed.{accounts, seed_ip}

pub data SeedError : Type 0 where
  register_failed login_failed : Text → ℕ → SeedError

-- `http.Client` sees 200 where the handler has written no status.
abbrev pub sent_status : Option ℕ → ℕ
sent_status none = 200
sent_status (some code) = code

abbrev pub seed_request : String → Text → Credentials → Request
seed_request path ip a = record {
  method = "POST";
  path = path;
  body = some a;
  cookie = none;
  authorization = [];
  client_ip = ip;
}

module _ (p : Platform) (h : AuthHandler) where
  unfoldable pub post : String → Text → Credentials → M p ℕ
  post path ip a w =
      let (r, w') = serve p h (seed_request path ip a) w in (sent_status r.status, w')

  unfoldable pub register_all : ℕ → List Credentials → M p (Option SeedError)
  unfolding post
  register_all i [] = pure none
  register_all i (a ∷ rest) = post "/api/v1/auth/register" (seed_ip i) a >>= λ status.
      branch (status == 201 || status == 409) (register_all (suc i) rest)
        (pure (some (register_failed a.email status)))

  unfoldable pub login_all : ℕ → List Credentials → M p (Option SeedError)
  unfolding post
  login_all i [] = pure none
  login_all i (a ∷ rest) = post "/api/v1/auth/login" (seed_ip i) a >>= λ status.
      branch (status == 201) (login_all (suc i) rest) (pure (some (login_failed a.email status)))

  abbrev then_login : Option SeedError → M p (Option SeedError)
  then_login (some e) = pure (some e)
  then_login none = login_all 0 accounts

  -- `none` is a seeding that went through.
  unfoldable pub seed : M p (Option SeedError)
  unfolding register_all login_all
  seed = register_all 0 accounts >>= then_login

  -- A login goes through the limiter.
  pub serve-login :
      (ip : Text) (a : Credentials) (w : World p)
      → serve p h (seed_request "/api/v1/auth/login" ip a) w ≡ (
          let ((lets, res), w') = limiter_call p ip (security_headers fresh_response) w in
          limited p h (lets, res) (some login) (seed_request "/api/v1/auth/login" ip a) w')
  unfolding serve route group_of find_route
  serve-login ip a w = refl

-- `httprate` answers a refused request with 429, and writes no status on one that it lets through.
pub record LimiterStatus (p : Platform) : Type 0 where
  pub passes :
      (now : ℕ) (ip : Text) (r : Response) (s : p.Store)
      → (p.limiter now ip r s).0.0 ≡ true
      → (p.limiter now ip r s).0.1.status ≡ r.status
  pub refuses :
      (now : ℕ) (ip : Text) (r : Response) (s : p.Store)
      → (p.limiter now ip r s).0.0 ≡ false
      → (p.limiter now ip r s).0.1.status ≡ some 429

-- The table has an account with the address, whose hash accepts the password.
pub record HasAccount (p : Platform) (rows : List User) (a : Credentials) : Type 0 where
  pub account : User
  pub found : find_email a.email rows ≡ some account
  pub accepts : verify_password p a.password account.password_hash ≡ checked true
