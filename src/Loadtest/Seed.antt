-- ===== src/Loadtest/Seed.antt =====
-- cmd/loadtest/seed.go: the accounts of a load test and the clearing of their login lockouts.
use secure_auth_gateway.Prelude.{
  ℕ, zero, suc, ◌+◌, ◌≡◌, ◌≢◌, refl, inl, inr, ap, ◌∙◌, Bool, true, false, Bool-cases, none, List,
  [], ◌∷◌, ◌++◌, map, Text, codes, decimal, text_eq_refl, text_eq_iff, All, arith,
}
use secure_auth_gateway.Platform.{Platform, RedisLaws}
use secure_auth_gateway.Platform.Redis.{
  Reply, ping, del_all, fail, Keyspace, put, remove_all, perform, live,
}
use secure_auth_gateway.Platform.World.{World, M, branch, ◌>>=◌, pure, redis_call}
use secure_auth_gateway.Platform.World.Calls.{seen, redis_call_ok}
use secure_auth_gateway.Http.{Credentials}
use secure_auth_gateway.Lockout.{lockout_key, is_locked, is_ok}
use secure_auth_gateway.Handlers.Register.{valid_registration}
use secure_auth_gateway.Handlers.Responses.{AuthHandler}
use secure_auth_gateway.Handlers.Login.{valid_login}
use secure_auth_gateway.Lockout.Faults.{is_locked_only}

abbrev pub account_count : ℕ
account_count = 5

abbrev pub account_password : Text
account_password = codes "LoadTest-Passw0rd-2026!"

-- `account`: an address and a password, as in a request.
unfoldable pub account : ℕ → Credentials
account i = record {
  email = codes "loadtest-user-" ++ (decimal (i + 1) ++ codes "@loadtest.local");
  password = account_password;
}

abbrev accounts_from : ℕ → ℕ → List Credentials
accounts_from zero i = []
accounts_from (suc n) i = account i ∷ accounts_from n (suc i)

abbrev pub accounts : List Credentials
accounts = accounts_from account_count 0

abbrev pub seed_ip : ℕ → Text
seed_ip i = codes "198.19.0." ++ decimal (i + 1)

module _ (p : Platform) where
  abbrev pub keys_of : List Credentials → List Text
  keys_of = map (λ a. lockout_key p a.email)

  -- `clearLockouts`; `false` is an error.
  unfoldable pub clear_lockouts : List Credentials → M p Bool
  clear_lockouts accts = do
    pong ← redis_call p ping
    branch (is_ok pong) (redis_call p (del_all (keys_of accts)) >>= λ reply. pure (is_ok reply))
        (pure false)

-- Removing keys removes them, and nothing else.
remove_all-kept :
    (ks : List Text) (s : Keyspace) (k : Text) → All (λ j. j ≢ k) ks → remove_all ks s k ≡ s k
unfolding remove_all put
remove_all-kept [] s k h = refl
remove_all-kept (j ∷ ks) s k (ne, h) =
    remove_all-kept ks (put j none s) k h ∙ ground (arith, text_eq_iff j k)

remove_all-gone : (ks : List Text) (s : Keyspace) (k : Text) → s k ≡ none → remove_all ks s k ≡ none
unfolding remove_all put
remove_all-gone [] s k gone = gone
remove_all-gone (j ∷ ks) s k gone = remove_all-gone ks (put j none s) k (ground arith)

remove_all-All : (ks : List Text) (s : Keyspace) → All (λ k. remove_all ks s k ≡ none) ks
unfolding remove_all put
remove_all-All [] s = tt
remove_all-All (j ∷ ks) s = (
  remove_all-gone ks (put j none s) j (ground (arith, text_eq_refl j)),
  remove_all-All ks (put j none s),
)

module _ {p : Platform} (r : RedisLaws p) where
  not_fail : (reply : Reply) → is_ok reply ≡ true → reply ≢ fail
  not_fail reply up failed = ground arith

  -- What a clearing without an error leaves.
  cleared :
      (accts : List Credentials) (w : World p)
      → (clear_lockouts p accts w).0 ≡ true
      → seen r (clear_lockouts p accts w).1
        ≡ remove_all (keys_of p accts) (seen r (redis_call p ping w).1)
  unfolding clear_lockouts perform
  cleared accts w up =
      let (pong, w') = redis_call p ping w in
      elim (Bool-cases (is_ok pong)) [
        | inl answers ↦
            let run : is_ok (redis_call p (del_all (keys_of p accts)) w').0 ≡ true = ground arith in
            rw answers (redis_call_ok r (del_all (keys_of p accts)) w' (not_fail _ run)).1
        | inr failed ↦ absurd (ground arith)
      ]

  pinged :
      (accts : List Credentials) (w : World p)
      → (clear_lockouts p accts w).0 ≡ true
      → seen r (redis_call p ping w).1 ≡ seen r w
  unfolding clear_lockouts perform
  pinged accts w up = elim (Bool-cases (is_ok (redis_call p ping w).0)) [
    | inl answers ↦ (redis_call_ok r ping w (not_fail _ answers)).1
    | inr failed ↦ absurd (ground arith)
  ]

  unlocked :
      (email : Text) (w : World p)
      → seen r w (lockout_key p email) ≡ none
      → (is_locked p email w).0.0 ≡ false
  unfolding live
  unlocked email w gone = elim (Bool-cases (is_locked p email w).0.0) [
    | inl locked ↦
        let (n, e, found, spent) = is_locked_only r email w locked in absurd (ground arith)
    | inr free ↦ free
  ]

  unlocked_each :
      (accts : List Credentials) (w : World p)
      → All (λ k. seen r w k ≡ none) (keys_of p accts)
      → All (λ a. (is_locked p a.email w).0.0 ≡ false) accts
  unlocked_each [] w gone = tt
  unlocked_each (a ∷ accts) w (gone, rest) = (unlocked a.email w gone, unlocked_each accts w rest)

  -- A clearing of lockouts that reports no error leaves none of the accounts locked, and every key
  -- of Redis as it was but for the counters of these accounts.
  pub clear_lockouts-All :
      (accts : List Credentials) (w : World p)
      → (clear_lockouts p accts w).0 ≡ true
      → let w' = (clear_lockouts p accts w).1 in
        All (λ a. (is_locked p a.email w').0.0 ≡ false) accts
        × ((k : Text) → All (λ j. j ≢ k) (keys_of p accts) → seen r w' k ≡ seen r w k)
  clear_lockouts-All accts w up =
      let ks = keys_of p accts in
      let s = seen r (redis_call p ping w).1 in
      (
        unlocked_each accts _ (rw (cleared accts w up) (remove_all-All ks s)),
        λ k others.
            ap (λ (t : Keyspace). t k) (cleared accts w up)
            ∙ remove_all-kept ks s k others
            ∙ ap (λ (t : Keyspace). t k) (pinged accts w up),
      )

module _ (p : Platform) (h : AuthHandler) where
  account-valid :
      (i : ℕ)
      → p.valid_email (account i).email ≡ true
      → (valid_registration p (account i) ≡ true) × (valid_login p h (account i) ≡ true)
  unfolding account
  account-valid i taken = (rw taken refl, rw taken refl)

  accounts_from-All :
      (n i : ℕ)
      → All (λ a. p.valid_email a.email ≡ true) (accounts_from n i)
      → All (λ a. (valid_registration p a ≡ true) × (valid_login p h a ≡ true)) (accounts_from n i)
  accounts_from-All zero i taken = tt
  accounts_from-All (suc n) i (first, rest) =
      (account-valid i first, accounts_from-All n (suc i) rest)

  -- The accounts pass the checks of the gateway's `Register` and `Login`, if the validator takes
  -- their addresses.
  pub accounts-All :
      All (λ a. p.valid_email a.email ≡ true) accounts
      → All (λ a. (valid_registration p a ≡ true) × (valid_login p h a ≡ true)) accounts
  accounts-All taken = accounts_from-All account_count 0 taken
