-- ===== src/Loadtest/Seeding/Outcome.antt =====
-- cmd/loadtest/seed.go, `seed`: what a seeding that goes through leaves in the gateway's table.
use secure_auth_gateway.Prelude.{
  ℕ, suc, ◌≡◌, refl, ◌∙◌, sym, inl, inr, Bool, true, false, Bool-cases, Option, none, some,
  Option-cases, List, [], ◌∷◌, ◌++◌, String, Text, text_eq, ◌==◌, ==_iff, All, same_of_some, arith,
}
use mathlib.Core.Path.{subst}
use secure_auth_gateway.Platform.{Platform, RedisLaws, PostgresLaws}
use secure_auth_gateway.Platform.Postgres.{User, find_email}
use secure_auth_gateway.Platform.World.{World, limiter_call}
use secure_auth_gateway.Platform.World.Calls.{table}
use secure_auth_gateway.Http.{Request, Response, Credentials}
use secure_auth_gateway.Gate.{security_headers}
use secure_auth_gateway.Handlers.Responses.{AuthHandler}
use secure_auth_gateway.Handlers.Login.Outcome.{login-IsLoggedIn}
use secure_auth_gateway.Routes.{login, serve, limited, run_endpoint, fresh_response}
use secure_auth_gateway.History.Requests.{serve_all}
use secure_auth_gateway.History.Accounts.{Extends, Extends-refl, Extends-trans, serve_all-Extends}
use secure_auth_gateway.Loadtest.Seed.{accounts, seed_ip}
use secure_auth_gateway.Loadtest.Seeding.{
  sent_status, seed_request, post, register_all, login_all, seed, LimiterStatus, serve-login,
  HasAccount,
}

find_email-append :
    (e : Text) (rows added : List User) (u : User)
    → find_email e rows ≡ some u
    → find_email e (rows ++ added) ≡ some u
unfolding find_email
find_email-append e [] added u found = absurd (ground arith)
find_email-append e (v ∷ rows) added u found = elim (Bool-cases (text_eq v.email e)) [
  | inl same ↦ rw (same, find_email) (rw (same, find_email) at found)
  | inr differs ↦
      rw (differs, find_email)
        (find_email-append e rows added u (rw (differs, find_email) at found))
]

HasAccount-Extends :
    {p : Platform} {rows after : List User} (a : Credentials)
    → Extends rows after
    → HasAccount p rows a
    → HasAccount p after a
HasAccount-Extends {p} {rows} a ext has = record {
  account = has.account;
  found = rw ext.extended (find_email-append a.email rows ext.added has.account has.found);
  accepts = has.accepts;
}

module _ {p : Platform} (r : RedisLaws p) (q : PostgresLaws p) (l : LimiterStatus p)
    (h : AuthHandler) where
  post-Extends :
      (path : String) (ip : Text) (a : Credentials) (w : World p)
      → Extends (table q w) (table q (post p h path ip a w).1)
  unfolding post serve_all
  post-Extends path ip a w = serve_all-Extends q h (seed_request path ip a ∷ []) w

  201-status : (status : Option ℕ) → (sent_status status == 201) ≡ true → status ≡ some 201
  201-status none e = absurd (ground arith)
  201-status (some code) e = ground (arith, ==_iff code 201)

  limited-login :
      (lets : Bool) (res : Response) (req : Request) (a : Credentials) (w : World p)
      → req.body ≡ some a
      → (lets ≡ true → res.status ≡ none)
      → (lets ≡ false → res.status ≡ some 429)
      → (limited p h (lets, res) (some login) req w).0.status ≡ some 201
      → HasAccount p (table q w) a
  unfolding limited run_endpoint
  limited-login false res req a w body passes refuses done = absurd (ground (arith, refuses refl))
  limited-login true res req a w body passes refuses done =
      let li = login-IsLoggedIn r q h req res w (passes refl) done in
      let e : li.c ≡ a = same_of_some (sym li.decoded ∙ body) in
      record { account = li.account; found = rw (← e) li.found; accepts = rw (← e) li.right }

  post-HasAccount :
      (ip : Text) (a : Credentials) (w : World p)
      → ((post p h "/api/v1/auth/login" ip a w).0 == 201) ≡ true
      → HasAccount p (table q w) a
  unfolding post limiter_call security_headers
  post-HasAccount ip a w ok =
      let req = seed_request "/api/v1/auth/login" ip a in
      let res = security_headers fresh_response in
      let done : (serve p h req w).0.status ≡ some 201 = 201-status _ ok in
      limited-login (limiter_call p ip res w).0.0 (limiter_call p ip res w).0.1 req a
        (limiter_call p ip res w).1 refl (λ lets. l.passes _ ip res w.store lets)
        (λ lets. l.refuses _ ip res w.store lets) (rw (serve-login p h ip a w) at done)

  login_all-Extends :
      (i : ℕ) (as' : List Credentials) (w : World p)
      → Extends (table q w) (table q (login_all p h i as' w).1)
  unfolding login_all
  login_all-Extends i [] w = Extends-refl (table q w)
  login_all-Extends i (a ∷ rest) w =
      let (status, w') = post p h "/api/v1/auth/login" (seed_ip i) a w in
      let step = post-Extends "/api/v1/auth/login" (seed_ip i) a w in
      elim (Bool-cases (status == 201)) [
        | inl ok ↦ rw (ok, login_all) (Extends-trans step (login_all-Extends (suc i) rest w'))
        | inr bad ↦ rw (bad, login_all) step
      ]

  -- A login that fails ends the loop with its error.
  login_all-none :
      (i : ℕ) (a : Credentials) (rest : List Credentials) (w : World p)
      → (login_all p h i (a ∷ rest) w).0 ≡ none
      → let (status, w') = post p h "/api/v1/auth/login" (seed_ip i) a w in
        ((status == 201) ≡ true) × (login_all p h i (a ∷ rest) w ≡ login_all p h (suc i) rest w')
  unfolding login_all
  login_all-none i a rest w through =
      elim (Bool-cases ((post p h "/api/v1/auth/login" (seed_ip i) a w).0 == 201)) [
        | inl ok ↦ (ok, rw (ok, login_all) refl)
        | inr bad ↦ absurd (ground arith)
      ]

  login_all-All :
      (i : ℕ) (as' : List Credentials) (w : World p)
      → (login_all p h i as' w).0 ≡ none
      → All (HasAccount p (table q (login_all p h i as' w).1)) as'
  login_all-All i [] w through = tt
  login_all-All i (a ∷ rest) w through =
      let w' = (post p h "/api/v1/auth/login" (seed_ip i) a w).1 in
      let (ok, same) = login_all-none i a rest w through in
      let kept =
        Extends-trans (post-Extends "/api/v1/auth/login" (seed_ip i) a w)
          (login_all-Extends (suc i) rest w') in
      let others = login_all-All (suc i) rest w' (rw same at through) in
      (
        rw same (HasAccount-Extends a kept (post-HasAccount (seed_ip i) a w ok)),
        subst (λ x. All (HasAccount p (table q x.1)) rest) (sym same) others,
      )

  -- After a seeding that went through, the gateway has for each account of the load test one with
  -- its address whose stored hash accepts its password, if the limiter answers a request that it
  -- refuses with 429 and writes no status on one that it lets through.
  pub seed-All :
      (w : World p) → (seed p h w).0 ≡ none → All (HasAccount p (table q (seed p h w).1)) accounts
  unfolding seed
  seed-All w through =
      let (error, w') = register_all p h 0 accounts w in
      elim (Option-cases error) [
        | inl fine ↦ rw (fine, seed) (login_all-All 0 accounts w' (rw (fine, seed) at through))
        | inr (e, failed) ↦ absurd (ground arith)
      ]
