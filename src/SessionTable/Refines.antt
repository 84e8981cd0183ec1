-- ===== src/SessionTable/Refines.antt =====
-- The gateway (internal/handlers/routes.go) on Redis against the table of sessions.
use secure_auth_gateway.Prelude.{
  ℕ, ◌+◌, ◌≤◌, ◌≡◌, ◌⊎◌, refl, inl, inr, ap, none, some, Text, text_eq, ℤ, List, arith,
}
use mathlib.Core.Path.{fun_ext}
use secure_auth_gateway.Platform.{Platform, RedisLaws, LimiterLaws}
use secure_auth_gateway.Platform.Redis.{
  Entry, Command, incr, expire, get, ttl, del, set, get_del, Keyspace, perform, put, deadline_of,
}
use secure_auth_gateway.Platform.World.{World, redis_call, postgres_call, limiter_call}
use secure_auth_gateway.Platform.World.Calls.{seen, redis_call-tick}
use secure_auth_gateway.Http.{Request}
use secure_auth_gateway.Lockout.{lockout_key, lockout_window}
use secure_auth_gateway.Handlers.Responses.{AuthHandler}
use secure_auth_gateway.Handlers.Login.{refresh_key}
use secure_auth_gateway.History.Keeps.{Kept}
use secure_auth_gateway.History.Absence.{lockout-ne-refresh, refresh-ne-httprate}
use secure_auth_gateway.History.Requests.{serve_all, serve_all-Keeps}
use secure_auth_gateway.SessionTable.{
  Table, session, with_entry, Evolves, same, next, opens, ends, Evolves-origin,
}

text_eq-refresh_key : (i j : Text) → text_eq (refresh_key i) (refresh_key j) ≡ text_eq i j
unfolding text_eq refresh_key
text_eq-refresh_key i j = refl

-- The sessions in a keyspace.
abbrev pub sessions_in : Keyspace → Table
sessions_in s id = s (refresh_key id)

-- The command touches no session.
abbrev Ignores : Command → Type 0
Ignores c = (now : ℕ) (s : Keyspace) → sessions_in (perform now c s).1 ≡ sessions_in s

-- The identifier of a call since the start.
abbrev pub IsDrawn : Platform → ℕ → Text → Type 0
IsDrawn p since id = (call : ℕ) × (since ≤ call) × (id ≡ p.uuid call)

module _ (p : Platform) (email : Text) where
  incr-Ignores : Ignores (incr (lockout_key p email))
  unfolding perform put
  incr-Ignores now s = fun_ext λ id. rw (lockout-ne-refresh p email id, put) refl

  expire-Ignores : Ignores (expire (lockout_key p email) lockout_window)
  unfolding perform put
  expire-Ignores now s = fun_ext λ id. rw (lockout-ne-refresh p email id, put) refl

  del-Ignores : Ignores (del (lockout_key p email))
  unfolding perform put
  del-Ignores now s = fun_ext λ id. rw (lockout-ne-refresh p email id, put) refl

get-Ignores : (k : Text) → Ignores (get k)
unfolding perform
get-Ignores k now s = refl

ttl-Ignores : (k : Text) → Ignores (ttl k)
unfolding perform
ttl-Ignores k now s = refl

set-sessions :
    (now : ℕ) (id user_id : Text) (d : ℤ) (s : Keyspace)
    → sessions_in (perform now (set (refresh_key id) user_id d) s).1
      ≡ with_entry id (session user_id (deadline_of now d)) (sessions_in s)
unfolding perform put
set-sessions now id user_id d s = fun_ext λ j. rw (text_eq-refresh_key id j, put) refl

get_del-sessions :
    (now : ℕ) (id : Text) (s : Keyspace)
    → sessions_in (perform now (get_del (refresh_key id)) s).1 ≡ with_entry id none (sessions_in s)
unfolding perform put
get_del-sessions now id s = fun_ext λ j. rw (text_eq-refresh_key id j, put) refl

module _ {p : Platform} (r : RedisLaws p) where
  abbrev pub sessions : World p → Table
  sessions w = sessions_in (seen r w)

  -- A call of Redis has run or has not, whatever it replies.
  ran_or_not :
      (c : Command) (w : World p)
      → (sessions (redis_call p c w).1 ≡ sessions w)
        ⊎ (sessions (redis_call p c w).1
            ≡ sessions_in (perform (w.now + p.lag w.tick) c (seen r w)).1)
  unfolding redis_call
  ran_or_not c w = elim (r.redis_law (w.now + p.lag w.tick) c w.store) [
    | inl h ↦ inr (ap sessions_in h.1)
    | inr h ↦ elim h.1 [ inl kept ↦ inl (ap sessions_in kept) | inr run ↦ inr (ap sessions_in run) ]
  ]

  module _ (since : ℕ) (before : Table) where
    abbrev Follows : World p → Type 0
    Follows w = Evolves (IsDrawn p since) before (sessions w) × (since ≤ w.tick)

    ignored : (c : Command) → Ignores c → (w : World p) → Follows w → Follows (redis_call p c w).1
    ignored c ig w (e, le) = (
      elim (ran_or_not c w) [
        | inl kept ↦ rw kept e
        | inr run ↦ rw (run, ig (w.now + p.lag w.tick) (seen r w)) e
      ],
      omega (arith, redis_call-tick p c w),
    )

    opened :
        (id user_id : Text) (d : ℤ)
        → IsDrawn p since id
        → (w : World p) → Follows w
        → Follows (redis_call p (set (refresh_key id) user_id d) w).1
    opened id user_id d new w (e, le) = (
      elim (ran_or_not (set (refresh_key id) user_id d) w) [
        | inl kept ↦ rw kept e
        | inr run ↦
            rw (run, set-sessions (w.now + p.lag w.tick) id user_id d (seen r w))
              (next e (opens id user_id _ new))
      ],
      omega (arith, redis_call-tick p (set (refresh_key id) user_id d) w),
    )

    ended :
        (id : Text) (w : World p)
        → Follows w
        → Follows (redis_call p (get_del (refresh_key id)) w).1
    ended id w (e, le) = (
      elim (ran_or_not (get_del (refresh_key id)) w) [
        | inl kept ↦ rw kept e
        | inr run ↦
            rw (run, get_del-sessions (w.now + p.lag w.tick) id (seen r w)) (next e (ends id))
      ],
      omega (arith, redis_call-tick p (get_del (refresh_key id)) w),
    )

    Follows-Kept : LimiterLaws p r.view → Kept p Follows (IsDrawn p since) (λ c. Unit {0})
    unfolding postgres_call limiter_call
    Follows-Kept l = record {
      elapsing = λ w i. (i.0, omega arith);
      waiting = λ d w i. (i.0, omega arith);
      calibrating = λ b pos w i. i;
      drawing = λ w i. (w.tick, i.1, refl);
      counting = λ email. ignored _ (incr-Ignores p email);
      bounding = λ email. ignored _ (expire-Ignores p email);
      reading = λ email. ignored _ (get-Ignores _);
      timing = λ email. ignored _ (ttl-Ignores _);
      clearing = λ email. ignored _ (del-Ignores p email);
      storing = λ id user_id d new. opened id user_id d new;
      claiming = λ id. ended id;
      querying = λ q reads w i. (i.0, omega arith);
      inserting = λ c hash made valid asked w i. (i.0, omega arith);
      limiting = λ ip res w i. (
        rw
            (fun_ext (λ id.
              l.limiter_law (w.now + p.lag w.tick) ip res w.store (refresh_key id)
                (refresh-ne-httprate id)))
            i.0,
        omega arith,
      );
    }

  -- What a sequence of requests does to the sessions in Redis is a run of the table: it opens
  -- sessions under identifiers drawn during the requests and ends sessions, and nothing else,
  -- whatever errors Redis and Postgres give, if the limiter keeps to its own keys.
  pub serve_all-Evolves :
      LimiterLaws p r.view
      → (h : AuthHandler) (reqs : List Request) (w : World p)
      → Evolves (IsDrawn p w.tick) (sessions w) (sessions (serve_all p h reqs w))
  serve_all-Evolves l h reqs w =
      (serve_all-Keeps (Follows-Kept w.tick (sessions w) l) h reqs w (same, omega arith)).0

  -- So a session that is there after some requests was there before them, unchanged, or its
  -- identifier was drawn during them.
  pub session_origin :
      LimiterLaws p r.view
      → (h : AuthHandler) (reqs : List Request) (w : World p) (id : Text) (e : Entry)
      → sessions (serve_all p h reqs w) id ≡ some e
      → (sessions w id ≡ some e) ⊎ IsDrawn p w.tick id
  session_origin l h reqs w id e found = Evolves-origin id e (serve_all-Evolves l h reqs w) found
