-- ===== src/Interleaving/Single.antt =====
-- Refreshes (internal/handlers/auth.go) with one and the same token that run at the same time.
use secure_auth_gateway.Prelude.{ℕ, ◌≤◌, ◌≡◌, ◌≢◌, ◌⊎◌, inl, inr, none, some, Text, arith, sym, ◌∙◌}
use secure_auth_gateway.Platform.{Platform, RedisLaws, LimiterLaws}
use secure_auth_gateway.Platform.Payload.{RefreshTokenPayload}
use secure_auth_gateway.Platform.Postgres.{Query}
use secure_auth_gateway.Platform.World.{World, redis_call, postgres_call, limiter_call}
use secure_auth_gateway.Platform.World.Calls.{seen}
use secure_auth_gateway.Http.{Request, Response}
use secure_auth_gateway.Handlers.Responses.{AuthHandler}
use secure_auth_gateway.Handlers.Login.{refresh_key}
use secure_auth_gateway.History.Keeps.{Keeps, Kept}
use secure_auth_gateway.History.Absence.{Gone, Gone-query, Gone-Kept}
use secure_auth_gateway.Interleaving.{Stage, finished, advance}
use secure_auth_gateway.Interleaving.System.{
  System, update, update-cases, Step, turn, other, Reach, start, later,
}
use secure_auth_gateway.Interleaving.Progress.{
  HoldsFresh, advance-Keeps, advance-HoldsFresh, Call-Keeps,
}
use secure_auth_gateway.Interleaving.Claims.{
  carried, HasClaimed, IsFor, advance-IsFor, advance-HasClaimed,
}

-- The number of calls does not go back.
Ticking-Kept :
    (p : Platform) (since : ℕ) (Fresh : Text → Type 0)
    → ((call : ℕ) → since ≤ call → Fresh (p.uuid call))
    → Kept p (λ w. since ≤ w.tick) Fresh (λ c. Unit {0})
unfolding redis_call postgres_call limiter_call
Ticking-Kept p since Fresh drawn = record {
  elapsing = λ w i. omega arith;
  waiting = λ d w i. omega arith;
  calibrating = λ b pos w i. i;
  drawing = λ w i. drawn w.tick i;
  counting = λ email w i. omega arith;
  bounding = λ email w i. omega arith;
  reading = λ email w i. omega arith;
  timing = λ email w i. omega arith;
  clearing = λ email w i. omega arith;
  storing = λ id user_id d f w i. omega arith;
  claiming = λ id w i. omega arith;
  querying = λ q reads w i. omega arith;
  inserting = λ c hash made valid asked w i. omega arith;
  limiting = λ ip r w i. omega arith;
}

Ticking-query :
    (p : Platform) (since : ℕ) (q : Query) → Keeps {p = p} (λ w. since ≤ w.tick) (postgres_call p q)
unfolding postgres_call
Ticking-query p since q w i = omega arith

-- `Carries i`: the request of goroutine `i` carries the token.
pub record Inv {p : Platform} (r : RedisLaws p) (h : AuthHandler) (since : ℕ)
    (c : RefreshTokenPayload) (Carries : ℕ → Type 0) (s : System p) : Type 0 where
  pub started : since ≤ s.world.tick
  pub fresh : (i : ℕ) → HoldsFresh (λ id. id ≢ c.token_id) (s.stage i)
  pub about : (i : ℕ) → Carries i → IsFor p h c (s.stage i)
  pub absent :
      (i : ℕ) → Carries i → HasClaimed (s.stage i) → seen r s.world (refresh_key c.token_id) ≡ none
  pub unique :
      (i j : ℕ) → Carries i → Carries j → HasClaimed (s.stage i) → HasClaimed (s.stage j) → i ≡ j

module _ {p : Platform} (r : RedisLaws p) (l : LimiterLaws p r.view) (h : AuthHandler) (since : ℕ)
    (c : RefreshTokenPayload) (late : (call : ℕ) → since ≤ call → p.uuid call ≢ c.token_id) where
  abbrev key : Text
  key = refresh_key c.token_id

  ticking : Kept p (λ w. since ≤ w.tick) (λ id. id ≢ c.token_id) (λ a. Unit {0})
  ticking = Ticking-Kept p since _ late

  absent_lasts : (w : World p) → since ≤ w.tick → seen r w key ≡ none → Gone r c.token_id w
  absent_lasts w i absent = (absent, λ call le. late call (omega arith))

  module _ (Carries : ℕ → Type 0) (s : System p) (inv : Inv r h since c Carries s) (i : ℕ)
      (st : Stage) (w : World p)
      (claims : Carries i
        → HasClaimed st
        → HasClaimed (s.stage i) ⊎ ((seen r s.world key ≢ none) × (seen r w key ≡ none))) where
    -- After goroutine `i` has moved to `st`: one that has claimed and is not `i` had before.
    claimed_before :
        (j : ℕ)
        → Carries j
        → HasClaimed (update s.stage i st j)
        → (HasClaimed (s.stage j)) ⊎ ((i ≡ j) × (seen r s.world key ≢ none) × (seen r w key ≡ none))
    claimed_before j carries done = elim (update-cases s.stage i st j) [
      | inl (same, e) ↦ elim (claims (rw same carries) (rw e at done)) [
        | inl old ↦ inl (rw (← same) old)
        | inr new ↦ inr (same, new.0, new.1)
      ]
      | inr (differs, e) ↦ inl (rw e at done)
    ]

    one_claim :
        (a b : ℕ)
        → Carries a
        → Carries b
        → HasClaimed (update s.stage i st a)
        → HasClaimed (update s.stage i st b)
        → a ≡ b
    one_claim a b ca cb da db = elim (claimed_before a ca da) [
      | inl old ↦ elim (claimed_before b cb db) [
        | inl old' ↦ inv.unique a b ca cb old old'
        | inr new' ↦ absurd (new'.1 (inv.absent a ca old))
      ]
      | inr new ↦ elim (claimed_before b cb db) [
        | inl old' ↦ absurd (new.1 (inv.absent b cb old'))
        | inr new' ↦ sym new.0 ∙ new'.0
      ]
    ]

    move-Inv :
        since ≤ w.tick
        → HoldsFresh (λ id. id ≢ c.token_id) st
        → (Carries i → IsFor p h c st)
        → (seen r s.world key ≡ none → seen r w key ≡ none)
        → Inv r h since c Carries (record { world = w; stage = update s.stage i st })
    move-Inv ticks fresh about kept = record {
      started = ticks;
      fresh = λ j. elim (update-cases s.stage i st j) [
        | inl (same, e) ↦ rw e fresh
        | inr (differs, e) ↦ rw e (inv.fresh j)
      ];
      about = λ j carries. elim (update-cases s.stage i st j) [
        | inl (same, e) ↦ rw e (about (rw same carries))
        | inr (differs, e) ↦ rw e (inv.about j carries)
      ];
      absent = λ j carries done. elim (claimed_before j carries done) [
        | inl old ↦ kept (inv.absent j carries old)
        | inr new ↦ new.2
      ];
      unique = one_claim;
    }

  Step-Inv :
      (Carries : ℕ → Type 0) {s t : System p}
      → Step p h since s t
      → Inv r h since c Carries s
      → Inv r h since c Carries t
  Step-Inv Carries {s} (turn i) inv =
      let st = s.stage i in
      let fresh = inv.fresh i in
      move-Inv Carries s inv i (advance p h st s.world).0 (advance p h st s.world).1
        (λ carries. advance-HasClaimed p h c r st s.world (inv.about i carries))
        (advance-Keeps ticking h st fresh s.world inv.started)
        (advance-HoldsFresh ticking h st s.world inv.started)
        (λ carries. advance-IsFor p h c st s.world (inv.about i carries))
        (λ absent.
          (advance-Keeps (Gone-Kept r l c.token_id) h st fresh s.world
            (absent_lasts s.world inv.started absent)).0)
  Step-Inv Carries {s} (other call) inv = record {
    started = Call-Keeps ticking late (Ticking-query p since) call inv.started;
    fresh = inv.fresh;
    about = inv.about;
    absent = λ i carries done.
        (Call-Keeps (Gone-Kept r l c.token_id) late (Gone-query r c.token_id) call
          (absent_lasts s.world inv.started (inv.absent i carries done))).0;
    unique = inv.unique;
  }

module _ {p : Platform} (r : RedisLaws p) (l : LimiterLaws p r.view) (h : AuthHandler)
    (c : RefreshTokenPayload) (reqs : ℕ → Request) (res : Response) where
  Reach-Inv :
      {since : ℕ} {w : World p} {s : System p}
      → since ≤ w.tick
      → ((call : ℕ) → since ≤ call → p.uuid call ≢ c.token_id)
      → res.status ≡ none
      → Reach p h reqs res since w s
      → Inv r h since c (λ i. carried p h (reqs i).cookie ≡ some c) s
  Reach-Inv {since} {w} begun late empty start = record {
    started = begun;
    fresh = λ i. tt;
    about = λ i carries. (carries, empty);
    absent = λ i carries done. absurd done;
    unique = λ i j ci cj di dj. absurd di;
  }
  Reach-Inv {since} {w} begun late empty (later reach step) =
      Step-Inv r l h since c late _ step (Reach-Inv begun late empty reach)

  -- Of the goroutines that refresh with a token of the same claims at the same time at most one
  -- answers 201, in whatever order their stages run, whatever calls other requests make in between
  -- and whatever errors Redis and Postgres give, provided the limiter keeps to its own keys and the
  -- identifiers that other requests store, some of which may have been drawn before the start, and
  -- all that are drawn later are not that of the token.
  pub at_most_one_refresh :
      {since : ℕ} {w : World p} {s : System p}
      → since ≤ w.tick
      → ((call : ℕ) → since ≤ call → p.uuid call ≢ c.token_id)
      → res.status ≡ none
      → Reach p h reqs res since w s
      → (i j : ℕ) (one another : Response) → carried p h (reqs i).cookie ≡ some c
      → carried p h (reqs j).cookie ≡ some c
      → s.stage i ≡ finished one
      → s.stage j ≡ finished another
      → one.status ≡ some 201
      → another.status ≡ some 201
      → i ≡ j
  at_most_one_refresh begun late empty reach i j one another ci cj ei ej di dj =
      (Reach-Inv begun late empty reach).unique i j ci cj (rw ei di) (rw ej dj)
