-- ===== src/Routes/Journey.antt =====
-- A login (internal/handlers/auth.go) followed by a request for the admin endpoint
-- (internal/handlers/admin.go) with the token that it gave out.
use secure_auth_gateway.Prelude.{
  ℕ, ◌+◌, ◌*◌, ◌≤◌, ◌≡◌, ◌↔◌, refl, sym, ap, ◌∙◌, false, Option, none, some, List, [], ◌∷◌, ◌++◌,
  String, Text, codes, fields, ltb, same_of_some, if◌then◌else◌, arith,
}
use text.Mathlib.Text.{◌==◌ as string_eq}
use secure_auth_gateway.Platform.{Platform, RedisLaws, PostgresLaws, PasetoLaws}
use secure_auth_gateway.Platform.Payload.{AccessTokenPayload}
use secure_auth_gateway.Platform.Postgres.{User, find_email}
use secure_auth_gateway.Platform.World.{World}
use secure_auth_gateway.Platform.World.Calls.{table}
use secure_auth_gateway.Http.{
  Request, Response, Credentials, Body, raw, object, Field, txt, respond_json,
}
use secure_auth_gateway.Lockout.{to_lower}
use secure_auth_gateway.Tokens.{Verifier, AccessTokenSigner, verifier, new_verifier}
use secure_auth_gateway.Handlers.Responses.{AuthHandler, minute}
use secure_auth_gateway.Handlers.Login.{login, respond_token}
use secure_auth_gateway.Handlers.Login.Opening.{IsOpened}
use secure_auth_gateway.Handlers.Login.Outcome.{login-IsLoggedIn}
use secure_auth_gateway.Routes.{serve}
use secure_auth_gateway.Routes.Access.{IsAuthorized, serve-admin_health}

-- What a client reads of the answer: the field "access_token" of the last object.
abbrev text_of : Field → Option Text
text_of (txt t) = some t
text_of _ = none

abbrev pub field_of : String → List (String × Field) → Option Text
field_of k [] = none
field_of k ((j, f) ∷ fs) = if string_eq j k then text_of f else field_of k fs

abbrev token_in : Body → Option Text
token_in (raw s) = none
token_in (object fs) = field_of "access_token" fs

abbrev last_token : Option Text → List Body → Option Text
last_token t [] = t
last_token t (b ∷ bs) = last_token (token_in b) bs

unfoldable pub token_of : Response → Option Text
token_of r = last_token none r.body

last_token-append :
    (t : Option Text) (bs : List Body) (b : Body) → last_token t (bs ++ b ∷ []) ≡ token_in b
last_token-append t [] b = refl
last_token-append t (c ∷ bs) b = last_token-append (token_in c) bs b

token_of-respond_token :
    (message token : Text) (r : Response) → token_of (respond_token message token r) ≡ some token
unfolding token_of respond_json
token_of-respond_token message token r = last_token-append none r.body _

verifier-key :
    (p : Platform) (s : AccessTokenSigner) (v : Verifier)
    → verifier p s ≡ some v
    → v.public_key ≡ p.public_half s.private_key
unfolding verifier new_verifier
verifier-key p s v e = ground arith

module _ {p : Platform} (r : RedisLaws p) (q : PostgresLaws p) (laws : PasetoLaws p)
    (h : AuthHandler) (v : Verifier) (by : verifier p h.access_token_maker ≡ some v) where
  -- The token of a session that a login has opened is read back with its claims.
  opened-read :
      (u : User) (since : ℕ) (res answer : Response) (w' : World p) (access : Text)
      (o : IsOpened r h u since res answer w')
      → token_of answer ≡ some access
      → p.verify access v.public_key ≡ some o.claims
  opened-read u since res answer w' access o given =
      let same : some o.access ≡ some access =
        sym (token_of-respond_token _ o.access _) ∙ ap token_of (sym o.answered) ∙ given in
      let e = same_of_some same in
      rw (← e, verifier-key p h.access_token_maker v by)
        (laws.sign-verify h.access_token_maker.private_key o.claims o.access o.signed)

  -- The token of an authorized request is the only one that its header carries.
  same_token :
      {allowed : Text} {ask : Request} {u : World p} (a : IsAuthorized p h allowed ask u)
      {scheme : Text} (access : Text) (more : List Text) (claims : AccessTokenPayload)
      → fields ask.authorization ≡ scheme ∷ access ∷ more
      → p.verify access v.public_key ≡ some claims
      → claims ≡ a.claims
  same_token a access more claims header read =
      let words = sym header ∙ a.header in
      let token : access ≡ a.token = cc in
      let key : v ≡ a.v = same_of_some (sym by ∙ a.verified_by) in
      same_of_some (sym read ∙ rw (token, key) a.read)

  -- After a login that answered 201, a request for the admin endpoint with the token that it gave
  -- out, at most fifteen minutes after the login began, is answered with 200 exactly if the
  -- account with the address of the login has the role "admin".
  pub admin_after_login :
      (req ask : Request) (res : Response) (w u : World p) (c : Credentials) (account : User)
      (scheme access : Text) (more : List Text)
      → res.status ≡ none
      → (login p h req res w).0.status ≡ some 201
      → token_of (login p h req res w).0 ≡ some access
      → req.body ≡ some c
      → find_email c.email (table q w) ≡ some account
      → ask.method ≡ "GET"
      → ask.path ≡ "/api/v1/admin/health"
      → fields ask.authorization ≡ scheme ∷ access ∷ more
      → to_lower p scheme ≡ codes "bearer"
      → u.now + p.lag u.tick ≤ w.now + 15 * minute
      → ((serve p h ask u).0.status ≡ some 200) ↔ (account.role ≡ codes "admin")
  admin_after_login req ask res w u c account scheme access more empty done given body found method
        path header bearer soon =
      let li = login-IsLoggedIn r q h req res w empty done in
      let o = li.opened in
      let read = opened-read li.account w.now res _ _ access o given in
      let same_c : li.c ≡ c = same_of_some (sym li.decoded ∙ body) in
      let same_account : li.account ≡ account =
        same_of_some (
          sym li.found ∙ ap (λ (x : Credentials). find_email x.email (table q w)) same_c ∙ found) in
      let role : o.claims.role ≡ account.role = o.role ∙ ap (λ (x : User). x.role) same_account in
      let in_time : ltb o.claims.meta.expired_at (u.now + p.lag u.tick) ≡ false =
        ground (arith, o.issued, o.lasting) in
      let (back, forth) = serve-admin_health h ask u method path in
      (
        λ ok.
            sym role
            ∙ ap (λ (x : AccessTokenPayload). x.role)
                (same_token (back ok) access more o.claims header read)
            ∙ (back ok).role,
        λ admin. forth (record {
          v = v;
          scheme = scheme;
          token = access;
          more = more;
          claims = o.claims;
          verified_by = by;
          header = header;
          bearer = bearer;
          read = read;
          in_time = in_time;
          role = role ∙ admin;
        }),
      )
