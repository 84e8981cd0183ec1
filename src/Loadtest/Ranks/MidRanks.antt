-- ===== src/Loadtest/Ranks/MidRanks.antt =====
-- cmd/loadtest/timing.go, `mannWhitney`: the ranks against their definition. The mid-rank of a value
-- counts the smaller samples, half the equal ones, and a half.
use secure_auth_gateway.Prelude.{
  ℕ, zero, suc, ◌+◌, ◌*◌, ◌≤◌, ◌<◌, ◌≡◌, refl, ap, sym, ◌∙◌, inl, inr, true, false, Bool-cases,
  Option, some, List, [], ◌∷◌, ◌++◌, map, length, ltb, leb, leb→le, ◌==◌, ==_iff, if◌then◌else◌,
  arith,
}
use secure_auth_gateway.Loadtest.Ranks.{
  Obs, tied, drop, replicate, Ranked, tie_loop, insert_obs, sort_obs, tagged, pooled, length-drop,
  tied-le, length-pooled,
}

abbrev pub less : ℕ → List Obs → ℕ
less v [] = 0
less v (o ∷ os) = (if ltb o.v v then 1 else 0) + less v os

abbrev pub equal : ℕ → List Obs → ℕ
equal v [] = 0
equal v (o ∷ os) = (if o.v == v then 1 else 0) + equal v os

-- Doubled, for a value among `os` when i smaller samples stand in front of them.
abbrev pub mid_rank : ℕ → List Obs → ℕ → ℕ
mid_rank i os v = 2 * (i + less v os) + equal v os + 1

abbrev IsAbove : ℕ → List Obs → Type 0
IsAbove v [] = Unit
IsAbove v (o ∷ os) = (v ≤ o.v) × IsAbove v os

abbrev pub IsSorted : List Obs → Type 0
IsSorted [] = Unit
IsSorted (o ∷ os) = IsAbove o.v os × IsSorted os

-- What the values above v count below and at v.
less-zero : (v : ℕ) (os : List Obs) → IsAbove v os → less v os ≡ 0
less-zero v [] h = refl
less-zero v (o ∷ os) (h, rest) = ground (arith, less-zero v os rest)

equal-zero : (v w : ℕ) (os : List Obs) → v < w → IsAbove w os → equal v os ≡ 0
equal-zero v w [] lt h = refl
equal-zero v w (o ∷ os) lt (h, rest) = ground (arith, equal-zero v w os lt rest)

IsAbove-le : (v w : ℕ) (os : List Obs) → v ≤ w → IsAbove w os → IsAbove v os
IsAbove-le v w [] le h = tt
IsAbove-le v w (o ∷ os) le (h, rest) = (omega (arith, h), IsAbove-le v w os le rest)

-- After the ties of v, everything is larger.
drop-IsAbove :
    (v : ℕ) (os : List Obs) → IsAbove v os → IsSorted os → IsAbove (suc v) (drop (tied v os) os)
unfolding tied
drop-IsAbove v [] h s = tt
drop-IsAbove v (o ∷ os) (h, rest) (first, s) = elim (Bool-cases (o.v == v)) [
  | inl same ↦ rw (same, tied) (drop-IsAbove v os rest s)
  | inr differs ↦
      let lt : suc v ≤ o.v = ground (arith, ==_iff o.v v) in
      rw (differs, tied) (lt, IsAbove-le (suc v) o.v os lt first)
]

drop-IsSorted : (n : ℕ) (os : List Obs) → IsSorted os → IsSorted (drop n os)
drop-IsSorted zero os s = s
drop-IsSorted (suc n) [] s = tt
drop-IsSorted (suc n) (o ∷ os) (first, s) = drop-IsSorted n os s

equal-tied : (v : ℕ) (os : List Obs) → IsAbove v os → IsSorted os → equal v os ≡ tied v os
unfolding tied
equal-tied v [] h s = refl
equal-tied v (o ∷ os) (h, rest) (first, s) = elim (Bool-cases (o.v == v)) [
  | inl same ↦ rw (same, tied) (omega (arith, equal-tied v os rest s))
  | inr differs ↦
      let lt : v < o.v = ground (arith, ==_iff o.v v) in
      rw (differs, tied) (omega (arith, equal-zero v o.v os lt first))
]

-- A larger value has the ties among the smaller samples, and none of them among the equal ones.
less-drop : (v w : ℕ) (os : List Obs) → v < w → less w os ≡ tied v os + less w (drop (tied v os) os)
unfolding tied
less-drop v w [] lt = refl
less-drop v w (o ∷ os) lt = elim (Bool-cases (o.v == v)) [
  | inl same ↦
      let below : ltb o.v w ≡ true = ground (arith, ==_iff o.v v) in
      rw (same, tied, below) (omega (arith, less-drop v w os lt))
  | inr differs ↦ rw (differs, tied) (omega arith)
]

equal-drop : (v w : ℕ) (os : List Obs) → v < w → equal w os ≡ equal w (drop (tied v os) os)
unfolding tied
equal-drop v w [] lt = refl
equal-drop v w (o ∷ os) lt = elim (Bool-cases (o.v == v)) [
  | inl same ↦
      let other : (o.v == w) ≡ false = ground (arith, ==_iff o.v v) in
      rw (same, tied, other) (omega (arith, equal-drop v w os lt))
  | inr differs ↦ rw (differs, tied) refl
]

-- A function of the value gives the same for each of the ties.
map-tied :
    (g : ℕ → ℕ) (v : ℕ) (os : List Obs)
    → map (λ o. g o.v) os ≡ replicate (tied v os) (g v) ++ map (λ o. g o.v) (drop (tied v os) os)
unfolding tied
map-tied g v [] = refl
map-tied g v (o ∷ os) = elim (Bool-cases (o.v == v)) [
  | inl same ↦
      rw (same, tied)
        (ap (λ r. r ∷ map (λ o'. g o'.v) os) (ap g ((==_iff o.v v).0 same))
          ∙ ap (λ rs. g v ∷ rs) (map-tied g v os))
  | inr differs ↦ rw (differs, tied) refl
]

map-above :
    (g h : ℕ → ℕ) (v : ℕ) (os : List Obs)
    → ((w : ℕ) → v < w → g w ≡ h w)
    → IsAbove (suc v) os
    → map (λ o. g o.v) os ≡ map (λ o. h o.v) os
map-above g h v [] agree above = refl
map-above g h v (o ∷ os) agree (lt, above) =
    ap (λ r. r ∷ map (λ o'. g o'.v) os) (agree o.v (omega (arith, lt)))
    ∙ ap (λ rs. h o.v ∷ rs) (map-above g h v os agree above)

module _ (i : ℕ) (o : Obs) (os : List Obs) (first : IsAbove o.v os) (sorted : IsSorted os) where
  abbrev ties : ℕ
  ties = suc (tied o.v os)

  mid_rank-first : mid_rank i (o ∷ os) o.v ≡ i + (i + ties) + 1
  mid_rank-first = ground (arith, less-zero o.v os first, equal-tied o.v os first sorted)

  mid_rank-later :
      (w : ℕ) → o.v < w → mid_rank i (o ∷ os) w ≡ mid_rank (i + ties) (drop (tied o.v os) os) w
  mid_rank-later w lt = ground (arith, less-drop o.v w os lt, equal-drop o.v w os lt)

  -- The ranks of a group of ties and of what follows it.
  mid_rank-split :
      map (λ x. mid_rank i (o ∷ os) x.v) (o ∷ os)
      ≡ replicate ties (i + (i + ties) + 1)
        ++ map (λ x. mid_rank (i + ties) (drop (tied o.v os) os) x.v) (drop (tied o.v os) os)
  mid_rank-split =
      let g = mid_rank i (o ∷ os) in
      let rank = i + (i + ties) + 1 in
      let later =
        map-above g (mid_rank (i + ties) (drop (tied o.v os) os)) o.v (drop (tied o.v os) os)
          mid_rank-later (drop-IsAbove o.v os first sorted) in
      ap (λ rs. g o.v ∷ rs) (map-tied g o.v os) ∙ rw (mid_rank-first, later) refl

-- What the loop gives for a sorted list.
pub record HasMidRanks (i : ℕ) (os : List Obs) (result : Option Ranked) : Type 0 where
  pub ranked : Ranked
  pub ended : result ≡ some ranked
  pub mid_ranks : ranked.ranks ≡ map (λ o. mid_rank i os o.v) os

tie_loop-HasMidRanks :
    (fuel i : ℕ) (os : List Obs)
    → length os ≤ fuel
    → IsSorted os
    → HasMidRanks i os (tie_loop fuel i os)
unfolding tie_loop
tie_loop-HasMidRanks fuel i [] h s = record { ranked = _; ended = refl; mid_ranks = refl }
tie_loop-HasMidRanks zero i (o ∷ os) h s = absurd (omega arith)
tie_loop-HasMidRanks (suc fuel) i (o ∷ os) h (first, sorted) =
    let t = tied o.v os in
    let left = length-drop t os (tied-le o.v os) in
    let rest =
      tie_loop-HasMidRanks fuel (i + suc t) (drop t os) (omega arith) (drop-IsSorted t os sorted) in
    rw rest.ended (record {
      ranked = _;
      ended = refl;
      mid_ranks = rw rest.mid_ranks (sym (mid_rank-split i o os first sorted));
    })

insert_obs-IsAbove :
    (v : ℕ) (o : Obs) (os : List Obs) → v ≤ o.v → IsAbove v os → IsAbove v (insert_obs o os)
insert_obs-IsAbove v o [] le h = (le, tt)
insert_obs-IsAbove v o (x ∷ xs) le (h, rest) = elim (Bool-cases (leb o.v x.v)) [
  | inl before ↦ rw before (le, (h, rest))
  | inr after ↦ rw after (h, insert_obs-IsAbove v o xs le rest)
]

insert_obs-IsSorted : (o : Obs) (os : List Obs) → IsSorted os → IsSorted (insert_obs o os)
insert_obs-IsSorted o [] s = (tt, tt)
insert_obs-IsSorted o (x ∷ xs) (first, s) = elim (Bool-cases (leb o.v x.v)) [
  | inl before ↦
      let le : o.v ≤ x.v = leb→le o.v x.v before in
      rw before ((le, IsAbove-le o.v x.v xs le first), (first, s))
  | inr after ↦
      let le : x.v ≤ o.v = ground arith in
      rw after (insert_obs-IsAbove x.v o xs le first, insert_obs-IsSorted o xs s)
]

sort_obs-IsSorted : (os : List Obs) → IsSorted (sort_obs os)
sort_obs-IsSorted [] = tt
sort_obs-IsSorted (o ∷ os) = insert_obs-IsSorted o (sort_obs os) (sort_obs-IsSorted os)

-- The loop over the ties of two groups of m and n samples ends after m + n rounds at most, and has
-- given each sample its mid-rank: doubled, twice the number of smaller samples of both groups, and
-- the number of equal ones and one.
pub tie_loop-mid_ranks :
    (a w : List ℕ) → HasMidRanks 0 (pooled a w) (tie_loop (length a + length w) 0 (pooled a w))
unfolding pooled
tie_loop-mid_ranks a w =
    tie_loop-HasMidRanks (length a + length w) 0 (pooled a w) (omega (arith, length-pooled a w))
      (sort_obs-IsSorted (tagged true a ++ tagged false w))
