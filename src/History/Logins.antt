-- ===== src/History/Logins.antt =====
-- `Register` and `Login` (internal/handlers/auth.go), step by step, against an invariant.
use secure_auth_gateway.Prelude.{
  ℕ, ◌≡◌, refl, inl, inr, Bool, true, false, Bool-cases, Option, none, some, Text, ℤ,
}
use secure_auth_gateway.Platform.{Platform}
use secure_auth_gateway.Platform.Postgres.{
  User, Answer, one, user, no_rows, find_user, email_exists,
}
use secure_auth_gateway.Platform.World.{World, elapse, postgres_call}
use secure_auth_gateway.Http.{Response, Credentials}
use secure_auth_gateway.Lockout.{is_locked, reset_failures}
use secure_auth_gateway.Password.{PasswordCheck, checked, hash_error, panics, hash_password}
use secure_auth_gateway.Tokens.{create_access_token, create_refresh_token}
use secure_auth_gateway.Handlers.Responses.{AuthHandler, access_lifetime, refresh_lifetime}
use secure_auth_gateway.Handlers.Responses
use secure_auth_gateway.Handlers.Register
use secure_auth_gateway.Handlers.Login
use secure_auth_gateway.History.Keeps.{Keeps, Kept, IsHashOf}
use secure_auth_gateway.History.Parts.{
  record_failure-Keeps, is_locked-Keeps, reset_failures-Keeps, hash_password-Keeps,
  pad_failure-Keeps,
}

module _ {p : Platform} {I : World p → Type 0} {Fresh : Text → Type 0}
    {Asked : Credentials → Type 0} (k : Kept p I Fresh Asked) (h : AuthHandler) where
  store_user-Keeps :
      (c : Credentials) (hash : Option Text) (r : Response)
      → ((h' : Text) → hash ≡ some h' → IsHashOf p c.password h')
      → Register.valid_registration p c ≡ true
      → Asked c
      → Keeps I (Register.store_user p c.email hash r)
  unfolding Register.store_user
  store_user-Keeps c none r made valid asked w i = i
  store_user-Keeps c (some hash) r made valid asked w i =
      k.inserting c hash (made hash refl) valid asked w i

  after_check-Keeps :
      (c : Credentials) (a : Answer) (r : Response)
      → Register.valid_registration p c ≡ true
      → Asked c
      → Keeps I (Register.after_check p c a r)
  unfolding Register.after_check
  after_check-Keeps c one r valid asked w i = i
  after_check-Keeps c no_rows r valid asked w i =
      store_user-Keeps c (hash_password p c.password w).0 r (λ h' e. (w, e)) valid asked _
        (hash_password-Keeps k c.password w i)
  after_check-Keeps c _ r valid asked w i = i

  pub register_decoded-Keeps :
      (body : Option Credentials) (r : Response)
      → ((c : Credentials) → body ≡ some c → Asked c)
      → Keeps I (Register.register_decoded p body r)
  unfolding Register.register_decoded
  register_decoded-Keeps none r asked w i = i
  register_decoded-Keeps (some c) r asked w i =
      elim (Bool-cases (Register.valid_registration p c)) [
        | inl valid ↦ rw valid (
            after_check-Keeps c (postgres_call p (email_exists c.email) w).0 r valid (asked c refl)
              _ (k.querying (email_exists c.email) tt w i))
        | inr invalid ↦ rw invalid i
      ]

  login_store-Keeps :
      (user_id access : Text) (made : Option Text × Text) (r : Response)
      → Fresh made.1
      → Keeps I (Login.login_store p h user_id access made r)
  unfolding Login.login_store Responses.set_refresh_cookie
  login_store-Keeps user_id access (none, id) r fresh w i = i
  login_store-Keeps user_id access (some t, id) r fresh w i =
      k.storing id user_id refresh_lifetime fresh _ (k.elapsing w i)

  -- A refresh token has a fresh identifier.
  pub create_refresh_token-Keeps :
      (user_id : Text) (d : ℤ) (w : World p)
      → I w
      → let made = create_refresh_token p h.refresh_token_maker user_id d w in
        I made.1 × Fresh made.0.1
  unfolding create_refresh_token
  create_refresh_token-Keeps user_id d w i =
      (k.elapsing _ (k.elapsing _ (k.elapsing _ (k.elapsing w i))), k.drawing w i)

  pub create_access_token-Keeps :
      (user_id role_name : Text) (d : ℤ)
      → Keeps I (create_access_token p h.access_token_maker user_id role_name d)
  unfolding create_access_token
  create_access_token-Keeps user_id role_name d w i = k.elapsing _ (k.elapsing w i)

  login_refresh-Keeps :
      (user_id : Text) (access : Option Text) (r : Response)
      → Keeps I (Login.login_refresh p h user_id access r)
  unfolding Login.login_refresh
  login_refresh-Keeps user_id none r w i = i
  login_refresh-Keeps user_id (some access) r w i =
      let (i', fresh) = create_refresh_token-Keeps user_id refresh_lifetime w i in
      login_store-Keeps user_id access
        (create_refresh_token p h.refresh_token_maker user_id refresh_lifetime w).0 r fresh _ i'

  login_accept-Keeps :
      (email : Text) (u : User) (r : Response) → Keeps I (Login.login_accept p h email u r)
  unfolding Login.login_accept
  login_accept-Keeps email u r w i =
      let w' = (reset_failures p email w).1 in
      login_refresh-Keeps u.id
        (create_access_token p h.access_token_maker u.id u.role access_lifetime w').0 r _
        (create_access_token-Keeps u.id u.role access_lifetime _ (reset_failures-Keeps k email w i))

  login_fail-Keeps :
      (email : Text) (start : ℕ) (r : Response) → Keeps I (Login.login_fail p h email start r)
  unfolding Login.login_fail
  login_fail-Keeps email start r w i =
      pad_failure-Keeps k start _ (record_failure-Keeps k email w i)

  login_checked-Keeps :
      (email : Text) (start : ℕ) (u : User) (check : PasswordCheck) (r : Response)
      → Keeps I (Login.login_checked p h email start u check r)
  unfolding Login.login_checked
  login_checked-Keeps email start u (checked true) r w i = login_accept-Keeps email u r w i
  login_checked-Keeps email start u (checked false) r w i = login_fail-Keeps email start r w i
  login_checked-Keeps email start u (hash_error e) r w i = login_fail-Keeps email start r w i
  login_checked-Keeps email start u panics r w i = i

  login_found-Keeps :
      (c : Credentials) (start : ℕ) (a : Answer) (r : Response)
      → Keeps I (Login.login_found p h c start a r)
  unfolding Login.login_found
  login_found-Keeps c start (user u) r w i =
      login_checked-Keeps c.email start u _ r _ (k.elapsing w i)
  login_found-Keeps c start no_rows r w i = login_fail-Keeps c.email start r w i
  login_found-Keeps c start _ r w i = i

  login_guarded-Keeps :
      (c : Credentials) (lock : Bool × ℕ) (r : Response)
      → Keeps I (Login.login_guarded p h c lock r)
  unfolding Login.login_guarded Login.login_unlocked
  login_guarded-Keeps c (true, d) r w i = i
  login_guarded-Keeps c (false, d) r w i =
      let w' = elapse p w in
      login_found-Keeps c w'.now (postgres_call p (find_user c.email) w').0 r _
        (k.querying (find_user c.email) tt _ (k.elapsing w i))

  pub login_decoded-Keeps :
      (c : Option Credentials) (r : Response) → Keeps I (Login.login_decoded p h c r)
  unfolding Login.login_decoded
  login_decoded-Keeps none r w i = i
  login_decoded-Keeps (some c) r w i = elim (Bool-cases (Login.valid_login p h c)) [
    | inl valid ↦
        rw valid
          (login_guarded-Keeps c (is_locked p c.email w).0 r _ (is_locked-Keeps k c.email w i))
    | inr invalid ↦ rw invalid i
  ]
