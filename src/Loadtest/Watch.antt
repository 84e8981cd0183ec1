-- ===== src/Loadtest/Watch.antt =====
-- cmd/loadtest/main.go, `runOpenLoop`: the watch that ends a run whose queue stays near its limit.
use secure_auth_gateway.Prelude.{
  ℕ, zero, suc, ◌+◌, ◌*◌, ◌≤◌, ◌<◌, ◌≡◌, ◌↔◌, refl, ap, sym, inl, inr, ◌⊎◌, Bool, true, false,
  Bool-cases, List, [], ◌∷◌, ◌++◌, length, All, ltb, leb, arith,
}
use mathlib.Core.Path.{subst}

-- `float64(n) > 0.9*float64(cap)`: below 2 ^ 40 this is the comparison of whole numbers.
unfoldable pub is_pegged : ℕ → ℕ → Bool
is_pegged max_in_fl n = ltb (9 * max_in_fl) (10 * n)

-- `over` is the number of seconds in a row at which the queue was near its limit; a list of the
-- requests in flight, one for each second. `true` is an abort.
module _ (max_in_fl : ℕ) where
  unfoldable pub watch : ℕ → List ℕ → Bool
  unfolding is_pegged
  watch over [] = false
  watch over (n ∷ ns) = elim (is_pegged max_in_fl n) [
    | true ↦ elim (leb 5 (suc over)) [ true ↦ true | false ↦ watch (suc over) ns ]
    | false ↦ watch 0 ns
  ]

  -- More than nine tenths of the limit.
  abbrev pub IsPegged : ℕ → Type 0
  IsPegged n = 9 * max_in_fl < 10 * n

  is_pegged-IsPegged : (n : ℕ) → (is_pegged max_in_fl n ≡ true) ↔ IsPegged n
  unfolding is_pegged
  is_pegged-IsPegged n = ground arith

  -- A run of five such seconds.
  pub record HasRun (ns : List ℕ) : Type 0 where
    pub before : List ℕ
    pub run : List ℕ
    pub after : List ℕ
    pub split : ns ≡ before ++ (run ++ after)
    pub long : length run ≡ 5
    pub pegged : All IsPegged run

  -- The list begins with k of them.
  record Leads (k : ℕ) (ns : List ℕ) : Type 0 where
    pub run : List ℕ
    pub after : List ℕ
    pub split : ns ≡ run ++ after
    pub long : length run ≡ k
    pub pegged : All IsPegged run

  HasRun-cons : (n : ℕ) {ns : List ℕ} → HasRun ns → HasRun (n ∷ ns)
  HasRun-cons n h = record {
    before = n ∷ h.before;
    run = h.run;
    after = h.after;
    split = ap (λ xs. n ∷ xs) h.split;
    long = h.long;
    pegged = h.pegged;
  }

  Leads-cons : (n k : ℕ) {ns : List ℕ} → IsPegged n → Leads k ns → Leads (suc k) (n ∷ ns)
  Leads-cons n k peg h = record {
    run = n ∷ h.run;
    after = h.after;
    split = ap (λ xs. n ∷ xs) h.split;
    long = omega (arith, h.long);
    pegged = (peg, h.pegged);
  }

  skipped-HasRun : (n : ℕ) {ns : List ℕ} → Leads 5 ns ⊎ HasRun ns → HasRun (n ∷ ns)
  skipped-HasRun n (inl h) = record {
    before = n ∷ [];
    run = h.run;
    after = h.after;
    split = ap (λ xs. n ∷ xs) h.split;
    long = h.long;
    pegged = h.pegged;
  }
  skipped-HasRun n (inr has) = HasRun-cons n has

  watch-Leads :
      (k over : ℕ) (ns : List ℕ)
      → k + over ≡ 4
      → watch over ns ≡ true
      → Leads (suc k) ns ⊎ HasRun ns
  unfolding watch
  watch-Leads k over [] left stops = absurd (ground arith)
  watch-Leads zero over (n ∷ ns) left stops = elim (Bool-cases (is_pegged max_in_fl n)) [
    | inl peg ↦ inl (record {
      run = n ∷ [];
      after = ns;
      split = refl;
      long = refl;
      pegged = ((is_pegged-IsPegged n).0 peg, tt);
    })
    | inr fine ↦ inr (skipped-HasRun n (watch-Leads 4 0 ns refl (rw (fine, watch) at stops)))
  ]
  watch-Leads (suc k) over (n ∷ ns) left stops = elim (Bool-cases (is_pegged max_in_fl n)) [
    | inl peg ↦
        let on : leb 5 (suc over) ≡ false = ground arith in
        let later = watch-Leads k (suc over) ns (omega arith) (rw (peg, on, watch) at stops) in
        elim later [
          | inl lead ↦ inl (Leads-cons n (suc k) ((is_pegged-IsPegged n).0 peg) lead)
          | inr has ↦ inr (HasRun-cons n has)
        ]
    | inr fine ↦ inr (skipped-HasRun n (watch-Leads 4 0 ns refl (rw (fine, watch) at stops)))
  ]

  run-watch :
      (run after : List ℕ) (over : ℕ)
      → All IsPegged run
      → 5 ≤ length run + over
      → over < 5
      → watch over (run ++ after) ≡ true
  unfolding watch
  run-watch [] after over peg long low = absurd (omega arith)
  run-watch (n ∷ run) after over (peg, pegs) long low =
      let test = (is_pegged-IsPegged n).1 peg in
      elim (Bool-cases (leb 5 (suc over))) [
        | inl stop ↦ rw (test, stop, watch) refl
        | inr on ↦
            rw (test, on, watch) (run-watch run after (suc over) pegs (omega arith) (ground arith))
      ]

  HasRun-watch :
      (before run after : List ℕ) (over : ℕ)
      → All IsPegged run
      → length run ≡ 5
      → over < 5
      → watch over (before ++ (run ++ after)) ≡ true
  unfolding watch
  HasRun-watch [] run after over pegs long low = run-watch run after over pegs (omega arith) low
  HasRun-watch (n ∷ before) run after over pegs long low =
      elim (Bool-cases (is_pegged max_in_fl n)) [
        | inl peg ↦ elim (Bool-cases (leb 5 (suc over))) [
          | inl stop ↦ rw (peg, stop, watch) refl
          | inr on ↦
              rw (peg, on, watch)
                (HasRun-watch before run after (suc over) pegs long (ground arith))
        ]
        | inr fine ↦ rw (fine, watch) (HasRun-watch before run after 0 pegs long (omega arith))
      ]

  -- The watch ends a run exactly if at five seconds in a row more than nine tenths of the limit
  -- were in flight.
  pub watch-HasRun : (ns : List ℕ) → (watch 0 ns ≡ true) ↔ HasRun ns
  watch-HasRun ns = (
    λ stops. elim (watch-Leads 4 0 ns refl stops) [
      | inl lead ↦ record {
        before = [];
        run = lead.run;
        after = lead.after;
        split = lead.split;
        long = lead.long;
        pegged = lead.pegged;
      }
      | inr has ↦ has
    ],
    λ h.
        subst (λ xs. watch 0 xs ≡ true) (sym h.split)
          (HasRun-watch h.before h.run h.after 0 h.pegged h.long (omega arith)),
  )
