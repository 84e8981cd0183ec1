-- ===== src/History/Accounts.antt =====
-- The table of accounts over a history of requests.
use secure_auth_gateway.Prelude.{
  ℕ, ◌+◌, ◌≡◌, refl, sym, ap, ◌∙◌, inl, inr, Option, none, some, Text, codes, List, [], ◌∷◌, ◌++◌,
  All, All-append, Bool-cases, length, ltb,
}
use mathlib.Core.List.{append_assoc, append-nil}
use secure_auth_gateway.Platform.{Platform, PostgresLaws}
use secure_auth_gateway.Platform.Postgres.{
  User, Query, email_exists, find_user, insert_user, find_role, find_email, find_id, respond,
  max_email, inserted, new_user,
}
use secure_auth_gateway.Platform.World.{World, postgres_call, redis_call, limiter_call}
use secure_auth_gateway.Platform.World.Calls.{table}
use secure_auth_gateway.Http.{Request}
use secure_auth_gateway.Handlers.Responses.{AuthHandler}
use secure_auth_gateway.History.Keeps.{Kept}
use secure_auth_gateway.History.Requests.{serve_all, serve_all-Keeps}

-- The accounts are those of before and behind them new ones with the property.
pub record Grows (P : User → Type 0) (before after : List User) : Type 0 where
  pub added : List User
  pub extended : after ≡ before ++ added
  pub users : All P added

module _ (P : User → Type 0) where
  pub Grows-refl : (rows : List User) → Grows P rows rows
  Grows-refl rows = record { added = []; extended = sym (append-nil rows); users = tt }

  pub Grows-trans : {a b c : List User} → Grows P a b → Grows P b c → Grows P a c
  Grows-trans {a} f g = record {
    added = f.added ++ g.added;
    extended = g.extended ∙ ap (λ l. l ++ g.added) f.extended ∙ append_assoc a f.added g.added;
    users = All-append _ f.added g.added f.users g.users;
  }

  inserted-Grows :
      (u : User) (found same : Option User) (rows : List User)
      → P u
      → Grows P rows (inserted u found same rows).1
  inserted-Grows u none none rows h = record { added = u ∷ []; extended = refl; users = (h, tt) }
  inserted-Grows u none (some v) rows h = Grows-refl rows
  inserted-Grows u (some v) _ rows h = Grows-refl rows

abbrev pub IsUser : User → Type 0
IsUser u = u.role ≡ codes "user"

abbrev pub Extends : List User → List User → Type 0
Extends = Grows IsUser

pub Extends-refl : (rows : List User) → Extends rows rows
Extends-refl = Grows-refl IsUser

pub Extends-trans : {a b c : List User} → Extends a b → Extends b c → Extends a c
Extends-trans f g = Grows-trans IsUser f g

-- Every account that the query can add has the property.
abbrev pub Admits : (User → Type 0) → Query → Type 0
Admits P (insert_user e h) = (now : ℕ) (id : Text) → P (new_user now id e h)
Admits P _ = Unit

respond-Grows :
    (P : User → Type 0) (now : ℕ) (id : Text) (q : Query) (rows : List User)
    → Admits P q
    → Grows P rows (respond now id q rows).1
unfolding respond
respond-Grows P now id (email_exists e) rows admitted = Grows-refl P rows
respond-Grows P now id (find_user e) rows admitted = Grows-refl P rows
respond-Grows P now id (find_role i) rows admitted = Grows-refl P rows
respond-Grows P now id (insert_user e h) rows admitted =
    elim (Bool-cases (ltb max_email (length e))) [
      | inl long ↦ rw long (Grows-refl P rows)
      | inr fits ↦ rw fits (
          inserted-Grows P (new_user now id e h) (find_email e rows) (find_id id rows) rows
            (admitted now id))
    ]

any_query-Admits : (q : Query) → Admits IsUser q
any_query-Admits (insert_user e h) = λ now id. refl
any_query-Admits (email_exists e) = tt
any_query-Admits (find_user e) = tt
any_query-Admits (find_role i) = tt

module _ {p : Platform} (q : PostgresLaws p) where
  pub postgres_call-Grows :
      (P : User → Type 0) (query : Query) (w : World p)
      → Admits P query
      → Grows P (table q w) (table q (postgres_call p query w).1)
  unfolding postgres_call
  postgres_call-Grows P query w admitted =
      let t = w.now + p.lag w.tick in
      let step = respond-Grows P t (q.new_id w.tables) query (table q w) admitted in
      elim (q.postgres_law t query w.tables) [
        | inl h ↦ rw h.1 step
        | inr h ↦ elim h.1 [ inl same ↦ rw same (Grows-refl P (table q w)) | inr run ↦ rw run step ]
      ]

  postgres_call-Extends :
      (query : Query) (w : World p) → Extends (table q w) (table q (postgres_call p query w).1)
  postgres_call-Extends query w = postgres_call-Grows IsUser query w (any_query-Admits query)

  Extends-Kept :
      (before : List User)
      → Kept p (λ w. Extends before (table q w)) (λ id. Unit {0}) (λ c. Unit {0})
  unfolding redis_call limiter_call
  Extends-Kept before = record {
    elapsing = λ w i. i;
    waiting = λ d w i. i;
    calibrating = λ b pos w i. i;
    drawing = λ w i. tt;
    counting = λ email w i. i;
    bounding = λ email w i. i;
    reading = λ email w i. i;
    timing = λ email w i. i;
    clearing = λ email w i. i;
    storing = λ id user_id d fresh w i. i;
    claiming = λ id w i. i;
    querying = λ query reads w i. Extends-trans i (postgres_call-Extends query w);
    inserting = λ c hash made valid asked w i. Extends-trans i (postgres_call-Extends _ w);
    limiting = λ ip r w i. i;
  }

  -- No history of requests changes or removes an account, and every account that it adds has the
  -- role "user".
  pub serve_all-Extends :
      (h : AuthHandler) (reqs : List Request) (w : World p)
      → Extends (table q w) (table q (serve_all p h reqs w))
  serve_all-Extends h reqs w =
      serve_all-Keeps (Extends-Kept (table q w)) h reqs w (Extends-refl (table q w))
