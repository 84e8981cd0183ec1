-- ===== src/History/Absence.antt =====
-- The key of a refresh token (internal/redis_db/refresh.go) in the store, as an invariant.
use secure_auth_gateway.Prelude.{
  ℕ, ◌+◌, ◌≤◌, ◌≡◌, refl, ap, ◌∙◌, ◌≢◌, inl, inr, false, none, Text, ℤ, text_eq, text_eq_iff,
  append-cancel_left, [], ◌∷◌, ◌++◌, codes, arith,
}
use secure_auth_gateway.Platform.{Platform, RedisLaws, LimiterLaws}
use secure_auth_gateway.Platform.Redis.{
  Command, incr, expire, get, ttl, del, set, get_del, Keyspace, perform, put,
}
use secure_auth_gateway.Platform.Postgres.{Query, insert_user}
use secure_auth_gateway.Platform.World.{World, redis_call, postgres_call, limiter_call}
use secure_auth_gateway.Platform.World.Calls.{seen, redis_call-tick}
use secure_auth_gateway.Lockout.{lockout_key, lockout_window}
use secure_auth_gateway.Handlers.Login.{refresh_key, refresh_prefix}
use secure_auth_gateway.History.Keeps.{Keeps, Kept}

pub lockout-ne-refresh :
    (p : Platform) (email id : Text) → text_eq (lockout_key p email) (refresh_key id) ≡ false
unfolding lockout_key refresh_key text_eq
lockout-ne-refresh p email id = refl

refresh_key-ne : (i j : Text) → i ≢ j → text_eq (refresh_key i) (refresh_key j) ≡ false
unfolding refresh_key
refresh_key-ne i j h = ground (
  arith,
  text_eq_iff (refresh_prefix ++ i) (refresh_prefix ++ j),
  append-cancel_left refresh_prefix i j,
)

abbrev first_code : Text → ℕ
first_code [] = 0
first_code (c ∷ s) = c

pub refresh-ne-httprate : (id rest : Text) → refresh_key id ≢ codes "httprate" ++ rest
unfolding refresh_key
refresh-ne-httprate id rest e = absurd (omega (arith, ap first_code e))

-- The command leaves an absent key absent.
abbrev pub Spares : Text → Command → Type 0
Spares k c = (now : ℕ) (s : Keyspace) → s k ≡ none → (perform now c s).1 k ≡ none

module _ (p : Platform) (id email : Text) where
  incr-Spares : Spares (refresh_key id) (incr (lockout_key p email))
  unfolding perform put
  incr-Spares now s gone = rw (lockout-ne-refresh p email id, put) gone

  expire-Spares : Spares (refresh_key id) (expire (lockout_key p email) lockout_window)
  unfolding perform put
  expire-Spares now s gone = rw (lockout-ne-refresh p email id, put) gone

  del-Spares : Spares (refresh_key id) (del (lockout_key p email))
  unfolding perform put
  del-Spares now s gone = rw (lockout-ne-refresh p email id, put) gone

get-Spares : (k key : Text) → Spares k (get key)
unfolding perform
get-Spares k key now s gone = gone

ttl-Spares : (k key : Text) → Spares k (ttl key)
unfolding perform
ttl-Spares k key now s gone = gone

set-Spares :
    (id other user_id : Text) (d : ℤ)
    → other ≢ id
    → Spares (refresh_key id) (set (refresh_key other) user_id d)
unfolding perform put
set-Spares id other user_id d ne now s gone = rw (refresh_key-ne other id ne, put) gone

get_del-Spares : (k key : Text) → Spares k (get_del key)
unfolding perform put
get_del-Spares k key now s gone = ground arith

module _ {p : Platform} (r : RedisLaws p) where
  absent_after :
      (c : Command) (w : World p) (k : Text)
      → Spares k c
      → seen r w k ≡ none
      → seen r (redis_call p c w).1 k ≡ none
  unfolding redis_call
  absent_after c w k keep gone =
      let t = w.now + p.lag w.tick in
      elim (r.redis_law t c w.store) [
        | inl h ↦ ap (λ s. s k) h.1 ∙ keep t (seen r w) gone
        | inr h ↦ elim h.1 [
          | inl same ↦ ap (λ s. s k) same ∙ gone
          | inr run ↦ ap (λ s. s k) run ∙ keep t (seen r w) gone
        ]
      ]

  -- The key of a token is absent, and no later identifier is that of the token.
  abbrev pub Gone : Text → World p → Type 0
  Gone id w = (seen r w (refresh_key id) ≡ none) × ((call : ℕ) → w.tick ≤ call → p.uuid call ≢ id)

  Gone-redis_call :
      (id : Text) (c : Command) (w : World p)
      → Spares (refresh_key id) c
      → Gone id w
      → Gone id (redis_call p c w).1
  Gone-redis_call id c w keep (gone, fresh) = (
    absent_after c w (refresh_key id) keep gone,
    λ n h. fresh n (omega (arith, redis_call-tick p c w)),
  )

  pub Gone-query : (id : Text) (q : Query) → Keeps {p = p} (Gone id) (postgres_call p q)
  unfolding postgres_call
  Gone-query id q w i = (i.0, λ n h. i.1 n (omega arith))

  pub Gone-Kept :
      LimiterLaws p r.view → (id : Text) → Kept p (Gone id) (λ other. other ≢ id) (λ c. Unit {0})
  unfolding postgres_call limiter_call
  Gone-Kept l id = record {
    elapsing = λ w i. (i.0, λ n h. i.1 n (omega arith));
    waiting = λ d w i. (i.0, λ n h. i.1 n (omega arith));
    calibrating = λ b pos w i. i;
    drawing = λ w i. i.1 w.tick (omega arith);
    counting = λ email w. Gone-redis_call id _ w (incr-Spares p id email);
    bounding = λ email w. Gone-redis_call id _ w (expire-Spares p id email);
    reading = λ email w. Gone-redis_call id _ w (get-Spares _ _);
    timing = λ email w. Gone-redis_call id _ w (ttl-Spares _ _);
    clearing = λ email w. Gone-redis_call id _ w (del-Spares p id email);
    storing = λ other user_id d ne w. Gone-redis_call id _ w (set-Spares id other user_id d ne);
    claiming = λ other w. Gone-redis_call id _ w (get_del-Spares _ _);
    querying = λ q reads. Gone-query id q;
    inserting = λ c hash made valid asked. Gone-query id (insert_user c.email hash);
    limiting = λ ip res w i. (
      l.limiter_law _ ip res w.store (refresh_key id) (refresh-ne-httprate id) ∙ i.0,
      λ n h. i.1 n (omega arith),
    );
  }
