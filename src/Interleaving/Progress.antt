-- ===== src/Interleaving/Progress.antt =====
-- The stages of a refresh (internal/handlers/auth.go), and the calls of other requests, against an
-- invariant of the state.
use secure_auth_gateway.Prelude.{ℕ, ◌≤◌, inl, inr, Bool-cases, Option, none, some, Text, text_eq, ℤ}
use secure_auth_gateway.Platform.{Platform}
use secure_auth_gateway.Platform.Redis.{Reply}
use secure_auth_gateway.Platform.Postgres.{Query, role, find_role}
use secure_auth_gateway.Platform.World.{postgres_call, World}
use secure_auth_gateway.Http.{Credentials, Response}
use secure_auth_gateway.Lockout.{is_ok}
use secure_auth_gateway.Tokens.{ok, err}
use secure_auth_gateway.Handlers.Responses.{AuthHandler, access_lifetime, set_refresh_cookie}
use secure_auth_gateway.History.Keeps.{Keeps, Kept}
use secure_auth_gateway.History.Logins.{create_access_token-Keeps, create_refresh_token-Keeps}
use secure_auth_gateway.History.Sessions.{verify_refresh_token-Keeps}
use secure_auth_gateway.Interleaving.{
  Stage, arrived, verified, claimed, answered, signed, lasting, created, stored, finished, advance,
  begin, conclude,
}
use secure_auth_gateway.Interleaving.System.{
  Call, elapsing, waiting, counting, bounding, reading, timing, clearing, storing, claiming,
  querying, limiting,
}

-- The identifier that a stage is about to store was just drawn.
abbrev pub HoldsFresh : (Text → Type 0) → Stage → Type 0
HoldsFresh Fresh (created c access d made r) = Fresh made.1
HoldsFresh Fresh _ = Unit

module _ {p : Platform} {I : World p → Type 0} {Fresh : Text → Type 0}
    {Asked : Credentials → Type 0} (k : Kept p I Fresh Asked) where
  module _ (h : AuthHandler) where
    conclude-Keeps :
        (access refresh : Text) (d : ℤ) (reply : Reply) (r : Response)
        → Keeps I (conclude p h access refresh d reply r)
    unfolding set_refresh_cookie
    conclude-Keeps access refresh d reply r w i = elim (Bool-cases (is_ok reply)) [
      | inl done ↦ rw (done, conclude) (k.elapsing w i)
      | inr failed ↦ rw (failed, conclude) i
    ]

    begin-Keeps : (cookie : Option Text) (r : Response) → Keeps I (begin p h cookie r)
    begin-Keeps none r w i = i
    begin-Keeps (some token) r w i = verify_refresh_token-Keeps k h token w i

    pub advance-Keeps : (st : Stage) → HoldsFresh Fresh st → Keeps I (advance p h st)
    unfolding advance
    advance-Keeps (arrived req r) f w i = begin-Keeps req.cookie r w i
    advance-Keeps (verified (err e) r) f w i = i
    advance-Keeps (verified (ok c) r) f w i = k.claiming c.token_id w i
    advance-Keeps (claimed c none r) f w i = i
    advance-Keeps (claimed c (some id) r) f w i = elim (Bool-cases (text_eq id c.user_id)) [
      | inl same ↦ rw same (k.querying (find_role c.user_id) tt w i)
      | inr differs ↦ rw differs i
    ]
    advance-Keeps (answered c (role name) r) f w i =
        create_access_token-Keeps k h c.user_id name access_lifetime w i
    advance-Keeps (answered c _ r) f w i = i
    advance-Keeps (signed c none r) f w i = i
    advance-Keeps (signed c (some access) r) f w i = k.elapsing w i
    advance-Keeps (lasting c access d r) f w i = (create_refresh_token-Keeps k h c.user_id d w i).0
    advance-Keeps (created c access d (none, id) r) f w i = i
    advance-Keeps (created c access d (some t, id) r) f w i = k.storing id c.user_id d f w i
    advance-Keeps (stored access t d reply r) f w i = conclude-Keeps access t d reply r w i
    advance-Keeps (finished r) f w i = i

    conclude-HoldsFresh :
        (access refresh : Text) (d : ℤ) (reply : Reply) (r : Response) (w : World p)
        → HoldsFresh Fresh (conclude p h access refresh d reply r w).0
    unfolding set_refresh_cookie
    conclude-HoldsFresh access refresh d reply r w = elim (Bool-cases (is_ok reply)) [
      | inl done ↦ rw (done, conclude) tt
      | inr failed ↦ rw (failed, conclude) tt
    ]

    begin-HoldsFresh :
        (cookie : Option Text) (r : Response) (w : World p)
        → HoldsFresh Fresh (begin p h cookie r w).0
    begin-HoldsFresh none r w = tt
    begin-HoldsFresh (some token) r w = tt

    pub advance-HoldsFresh :
        (st : Stage) (w : World p) → I w → HoldsFresh Fresh (advance p h st w).0
    unfolding advance
    advance-HoldsFresh (arrived req r) w i = begin-HoldsFresh req.cookie r w
    advance-HoldsFresh (verified (err e) r) w i = tt
    advance-HoldsFresh (verified (ok c) r) w i = tt
    advance-HoldsFresh (claimed c none r) w i = tt
    advance-HoldsFresh (claimed c (some id) r) w i = elim (Bool-cases (text_eq id c.user_id)) [
      | inl same ↦ rw same tt
      | inr differs ↦ rw differs tt
    ]
    advance-HoldsFresh (answered c (role name) r) w i = tt
    advance-HoldsFresh (answered c _ r) w i = tt
    advance-HoldsFresh (signed c none r) w i = tt
    advance-HoldsFresh (signed c (some access) r) w i = tt
    advance-HoldsFresh (lasting c access d r) w i =
        (create_refresh_token-Keeps k h c.user_id d w i).1
    advance-HoldsFresh (created c access d (none, id) r) w i = tt
    advance-HoldsFresh (created c access d (some t, id) r) w i = tt
    advance-HoldsFresh (stored access t d reply r) w i = conclude-HoldsFresh access t d reply r w
    advance-HoldsFresh (finished r) w i = tt

  pub Call-Keeps :
      {since : ℕ} {w u : World p}
      → ((call : ℕ) → since ≤ call → Fresh (p.uuid call))
      → ((q : Query) → Keeps I (postgres_call p q))
      → Call p since w u
      → I w
      → I u
  Call-Keeps drawn any elapsing i = k.elapsing _ i
  Call-Keeps drawn any (waiting d) i = k.waiting d _ i
  Call-Keeps drawn any (counting email) i = k.counting email _ i
  Call-Keeps drawn any (bounding email) i = k.bounding email _ i
  Call-Keeps drawn any (reading email) i = k.reading email _ i
  Call-Keeps drawn any (timing email) i = k.timing email _ i
  Call-Keeps drawn any (clearing email) i = k.clearing email _ i
  Call-Keeps drawn any (storing call user_id d le) i =
      k.storing (p.uuid call) user_id d (drawn call le) _ i
  Call-Keeps drawn any (claiming id) i = k.claiming id _ i
  Call-Keeps drawn any (querying q) i = any q _ i
  Call-Keeps drawn any (limiting ip r) i = k.limiting ip r _ i
