-- ===== src/Handlers/Register/Outcome.antt =====
-- `Register` (internal/handlers/auth.go), from its answer 201 back to what was done.
use secure_auth_gateway.Prelude.{
  ℕ, ◌+◌, ◌≤◌, ◌≡◌, refl, ap, Bool-cases, inl, inr, true, Option, none, some, Text, codes, List, [],
  ◌∷◌, ◌++◌, length, arith, All, ◌∙◌, text_eq_refl,
}
use secure_auth_gateway.Platform.{Platform, PostgresLaws}
use secure_auth_gateway.Platform.Postgres.{
  User, Answer, one, user, no_rows, email_exists, insert_user, find_email, respond, max_email,
  new_user,
}
use secure_auth_gateway.Platform.World.{World, postgres_call}
use secure_auth_gateway.Platform.World.Calls.{table, postgres_call_ok}
use secure_auth_gateway.Http.{Response, Request, Credentials, respond_json, http_error}
use secure_auth_gateway.Password.{checked, hash_password, verify_password, digest}
use secure_auth_gateway.Password.Base64.RoundTrip.{IsByte}
use secure_auth_gateway.Password.RoundTrip.{Argon2Laws, verify_password-hash_password}
use secure_auth_gateway.Handlers.Register.{
  register, register_decoded, after_check, store_user, after_insert, valid_registration,
  respond_created,
}

-- The random source gives bytes.
abbrev pub SaltsAreBytes : Platform → Type 0
SaltsAreBytes p = (call : ℕ) (salt : List ℕ) → p.salt call ≡ some salt → All IsByte salt

module _ {p : Platform} (q : PostgresLaws p) where
  hash_password-tables :
      (password : Text) (w : World p) → (hash_password p password w).1.tables ≡ w.tables
  unfolding hash_password
  hash_password-tables password w = ground arith

  -- An `INSERT` that gives back a row has added that row.
  insert_adds :
      (e hash : Text) (w : World p) (u : User)
      → (postgres_call p (insert_user e hash) w).0 ≡ user u
      → (u ≡ new_user (w.now + p.lag w.tick) (q.new_id w.tables) e hash)
        × (find_email e (table q w) ≡ none)
        × (table q (postgres_call p (insert_user e hash) w).1 ≡ table q w ++ u ∷ [])
        × (length e ≤ max_email)
  unfolding respond
  insert_adds e hash w u made = ground (arith, postgres_call_ok q (insert_user e hash) w)

after_insert-201 :
    (a : Answer) (r : Response)
    → r.status ≡ none
    → (after_insert a r).status ≡ some 201
    → (u : User) × (a ≡ user u) × (after_insert a r ≡ respond_created u r)
unfolding after_insert http_error respond_json
after_insert-201 (user u) r empty done = (u, refl, refl)
after_insert-201 _ r empty done = absurd (ground arith)

module _ {p : Platform} where
  store_user-201 :
      (email : Text) (hash : Option Text) (r : Response) (w : World p)
      → r.status ≡ none
      → (store_user p email hash r w).0.status ≡ some 201
      → (h : Text) × (u : User) × (hash ≡ some h)
        × ((postgres_call p (insert_user email h) w).0 ≡ user u)
        × ((store_user p email hash r w).0 ≡ respond_created u r)
        × ((store_user p email hash r w).1 ≡ (postgres_call p (insert_user email h) w).1)
  unfolding store_user http_error
  store_user-201 email none r w empty done = absurd (ground arith)
  store_user-201 email (some h) r w empty done =
      let (u, made, answered) =
        after_insert-201 (postgres_call p (insert_user email h) w).0 r empty done in
      (h, u, refl, made, answered, refl)

  after_check-201 :
      (c : Credentials) (a : Answer) (r : Response) (w : World p)
      → r.status ≡ none
      → (after_check p c a r w).0.status ≡ some 201
      → let (hash, w') = hash_password p c.password w in
        (a ≡ no_rows)
        × (after_check p c a r w ≡ store_user p c.email hash r w')
        × ((store_user p c.email hash r w').0.status ≡ some 201)
  unfolding after_check respond_json http_error
  after_check-201 c no_rows r w empty done = (refl, refl, done)
  after_check-201 c one r w empty done = absurd (ground arith)
  after_check-201 c _ r w empty done = absurd (ground arith)

  -- What a success means: a valid body, and behind the accounts of before a new one with the
  -- address, the role "user" and a hash that accepts the password; the answer describes it.
  pub record IsRegistered (q : PostgresLaws p) (req : Request) (r answer : Response)
      (w w' : World p) : Type 0 where
    pub c : Credentials
    pub account : User
    pub decoded : req.body ≡ some c
    pub well_formed : p.valid_email c.email ≡ true
    pub long_enough : 15 ≤ length c.password
    pub short_enough : length c.password ≤ 72
    pub unknown : find_email c.email (table q w) ≡ none
    pub added : table q w' ≡ table q w ++ account ∷ []
    pub email : account.email ≡ c.email
    pub role : account.role ≡ codes "user"
    pub accepted : verify_password p c.password account.password_hash ≡ checked true
    pub answered : answer ≡ respond_created account r

  -- The state when the password is hashed.
  abbrev checked_state : Credentials → World p → World p
  checked_state c w = (postgres_call p (email_exists c.email) w).1

  register_decoded-201 :
      (body : Option Credentials) (r : Response) (w : World p)
      → r.status ≡ none
      → (register_decoded p body r w).0.status ≡ some 201
      → (c : Credentials) × (body ≡ some c)
        × (valid_registration p c ≡ true)
        × (register_decoded p body r w
            ≡ after_check p c (postgres_call p (email_exists c.email) w).0 r (checked_state c w))
        × ((after_check p c
              (postgres_call p (email_exists c.email) w).0
              r
              (checked_state c w)).0.status
            ≡ some 201)
  unfolding register_decoded http_error respond_json
  register_decoded-201 none r w empty done = absurd (ground arith)
  register_decoded-201 (some c) r w empty done = elim (Bool-cases (valid_registration p c)) [
    | inl valid ↦
        (c, refl, valid, rw (valid, register_decoded), rw (valid, register_decoded) at done)
    | inr invalid ↦ absurd (ground arith)
  ]

  hash_password-salt :
      (password : Text) (w : World p) (h : Text)
      → (hash_password p password w).0 ≡ some h
      → (salt : List ℕ) × (p.salt w.tick ≡ some salt)
  unfolding hash_password
  hash_password-salt password w h made = ground arith

  -- A hash accepts the password that it was made of.
  pub accepts_own :
      Argon2Laws p
      → SaltsAreBytes p
      → (password : Text) (w : World p) (h : Text) → (hash_password p password w).0 ≡ some h
      → verify_password p password h ≡ checked true
  accepts_own a salts password w h made =
      let (salt, drawn) = hash_password-salt password w h made in
      verify_password-hash_password p a password password salt w h drawn (salts w.tick salt drawn)
        made
      ∙ ap checked (text_eq_refl (digest p password salt))

  checked_state-table :
      (q : PostgresLaws p) (c : Credentials) (w : World p)
      → (postgres_call p (email_exists c.email) w).0 ≡ no_rows
      → table q (hash_password p c.password (checked_state c w)).1 ≡ table q w
  unfolding respond
  checked_state-table q c w ans =
      ap q.rows (hash_password-tables q c.password (checked_state c w))
      ∙ (postgres_call_ok q (email_exists c.email) w (ground arith)).1

-- A registration that answers 201 was well formed and has added exactly the account that it reports.
pub register-IsRegistered :
    {p : Platform} (q : PostgresLaws p) (a : Argon2Laws p) (salts : SaltsAreBytes p) (req : Request)
    (r : Response) (w : World p)
    → r.status ≡ none
    → (register p req r w).0.status ≡ some 201
    → IsRegistered q req r (register p req r w).0 w (register p req r w).1
unfolding register
register-IsRegistered {p} q a salts req r w empty done =
    let (c, decoded, valid, same, done1) = register_decoded-201 req.body r w empty done in
    let w1 = checked_state c w in
    let (ans, same2, done2) =
      after_check-201 c (postgres_call p (email_exists c.email) w).0 r w1 empty done1 in
    let hashed = hash_password p c.password w1 in
    let (h, u, hash, made, answered, ended) =
      store_user-201 c.email hashed.0 r hashed.1 empty done2 in
    let (new, unknown, added, fits) = insert_adds q c.email h hashed.1 u made in
    let unchanged : table q hashed.1 ≡ table q w = checked_state-table q c w ans in
    rw (same, same2)
      (record {
        c = c;
        account = u;
        decoded = decoded;
        well_formed = ground arith;
        long_enough = ground arith;
        short_enough = ground arith;
        unknown = rw unchanged at unknown;
        added = ap (table q) ended ∙ added ∙ ap (λ t. t ++ u ∷ []) unchanged;
        email = ap (λ x. x.email) new;
        role = ap (λ x. x.role) new;
        accepted =
            ap (λ x. verify_password p c.password x.password_hash) new
            ∙ accepts_own a salts c.password w1 h hash;
        answered = answered;
      })
