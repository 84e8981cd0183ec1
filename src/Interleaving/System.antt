-- ===== src/Interleaving/System.antt =====
-- Refreshes (internal/handlers/auth.go) that run at the same time, each in a goroutine of its own,
-- among the calls that other requests make.
use secure_auth_gateway.Prelude.{ℕ, suc, ◌+◌, ◌≤◌, ◌≡◌, ◌≢◌, ◌⊎◌, inl, inr, Text, ℤ, List, [], ◌∷◌}
use mathlib.Core.Logic.{ite, if_pos, if_neg}
use native.Mathlib.Decide.{ℕ_discrete}
use secure_auth_gateway.Platform.{Platform}
use secure_auth_gateway.Platform.Redis.{incr, expire, get, ttl, del, set, get_del}
use secure_auth_gateway.Platform.Postgres.{Query}
use secure_auth_gateway.Platform.World.{World, elapse, redis_call, postgres_call, limiter_call}
use secure_auth_gateway.Http.{Request, Response}
use secure_auth_gateway.Lockout.{lockout_key, lockout_window}
use secure_auth_gateway.Handlers.Responses.{AuthHandler}
use secure_auth_gateway.Handlers.Login.{refresh_key}
use secure_auth_gateway.Interleaving.{Stage, arrived, advance}

-- One call of any other request. A refresh token that another request stores has an identifier
-- that was drawn since the call `since`.
pub data Call (p : Platform) (since : ℕ) (w : World p) : World p → Type 0 where
  elapsing : Call p since w (elapse p w)
  waiting :
      (d : ℕ) → Call p since w (record w { now = w.now + d + p.lag w.tick; tick = suc w.tick })
  counting : (email : Text) → Call p since w (redis_call p (incr (lockout_key p email)) w).1
  bounding :
      (email : Text)
      → Call p since w (redis_call p (expire (lockout_key p email) lockout_window) w).1
  reading : (email : Text) → Call p since w (redis_call p (get (lockout_key p email)) w).1
  timing : (email : Text) → Call p since w (redis_call p (ttl (lockout_key p email)) w).1
  clearing : (email : Text) → Call p since w (redis_call p (del (lockout_key p email)) w).1
  storing :
      (call : ℕ) (user_id : Text) (d : ℤ)
      → since ≤ call
      → Call p since w (redis_call p (set (refresh_key (p.uuid call)) user_id d) w).1
  claiming : (id : Text) → Call p since w (redis_call p (get_del (refresh_key id)) w).1
  querying : (q : Query) → Call p since w (postgres_call p q w).1
  limiting : (ip : Text) (r : Response) → Call p since w (limiter_call p ip r w).1

pub record System (p : Platform) : Type 0 where
  pub world : World p
  pub stage : ℕ → Stage

abbrev pub update : (ℕ → Stage) → ℕ → Stage → ℕ → Stage
update f i st j = ite (ℕ_discrete i j) st (f j)

pub update-cases :
    (f : ℕ → Stage) (i : ℕ) (st : Stage) (j : ℕ)
    → ((i ≡ j) × (update f i st j ≡ st)) ⊎ ((i ≢ j) × (update f i st j ≡ f j))
update-cases f i st j = elim (ℕ_discrete i j) [
  | yes same ↦ inl (same, if_pos (ℕ_discrete i j) same st (f j))
  | no other ↦ inr (other, if_neg (ℕ_discrete i j) other st (f j))
]

-- A goroutine runs to its next access, or another request makes a call.
pub data Step (p : Platform) (h : AuthHandler) (since : ℕ) (s : System p) : System p → Type 0 where
  turn :
      (i : ℕ)
      → Step p h since s (record {
        world = (advance p h (s.stage i) s.world).1;
        stage = update s.stage i (advance p h (s.stage i) s.world).0;
      })
  other : {w : World p} → Call p since s.world w → Step p h since s (record s { world = w })

-- The requests `reqs`, all of which have arrived, in the state `w`, when other requests may have
-- drawn identifiers since the call `since` that they have not stored yet.
abbrev pub initial : {p : Platform} → (ℕ → Request) → Response → World p → System p
initial reqs res w = record { world = w; stage = λ i. arrived (reqs i) res }

pub data Reach (p : Platform) (h : AuthHandler) (reqs : ℕ → Request) (res : Response) (since : ℕ)
    (w : World p) : System p → Type 0 where
  start : Reach p h reqs res since w (initial reqs res w)
  later :
      {s t : System p}
      → Reach p h reqs res since w s
      → Step p h since s t
      → Reach p h reqs res since w t

module _ (p : Platform) (h : AuthHandler) where
  -- The goroutines take turns in the given order, and nothing else runs.
  unfoldable pub turns : List ℕ → System p → System p
  turns [] s = s
  turns (i ∷ is) s = turns is (record {
    world = (advance p h (s.stage i) s.world).1;
    stage = update s.stage i (advance p h (s.stage i) s.world).0;
  })

  pub turns-Reach :
      (reqs : ℕ → Request) (res : Response) (since : ℕ) (w : World p) (is : List ℕ) (s : System p)
      → Reach p h reqs res since w s
      → Reach p h reqs res since w (turns is s)
  unfolding turns
  turns-Reach reqs res since w [] s reach = reach
  turns-Reach reqs res since w (i ∷ is) s reach =
      turns-Reach reqs res since w is _ (later reach (turn i))
