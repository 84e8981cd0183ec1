-- ===== src/Loadtest/Ranks.antt =====
-- cmd/loadtest/timing.go, `mannWhitney`, up to U: the ranks of the pooled samples, with one average
-- rank for each group of ties. A rank is a multiple of a half, which float64 holds exactly: ranks,
-- their sums and U are doubled here.
pub mod MidRanks
use secure_auth_gateway.Prelude.{
  ℕ, zero, suc, ◌+◌, ◌-◌, ◌*◌, ◌≤◌, ◌≡◌, refl, ap, ◌∙◌, inl, inr, Bool, true, false, Bool-cases,
  Option, none, some, List, [], ◌∷◌, ◌++◌, length, length-append, ltb, leb, ◌==◌, if◌then◌else◌,
  arith,
}

-- `obs`: a duration, and whether it is one of the group "unknown email".
pub record Obs : Type 0 where
  pub v : ℕ
  pub of_absent : Bool

abbrev pub tagged : Bool → List ℕ → List Obs
tagged b [] = []
tagged b (v ∷ vs) = record { v = v; of_absent = b } ∷ tagged b vs

abbrev pub insert_obs : Obs → List Obs → List Obs
insert_obs o [] = o ∷ []
insert_obs o (x ∷ xs) = if leb o.v x.v then o ∷ x ∷ xs else x ∷ insert_obs o xs

abbrev pub sort_obs : List Obs → List Obs
sort_obs [] = []
sort_obs (o ∷ os) = insert_obs o (sort_obs os)

unfoldable pub pooled : List ℕ → List ℕ → List Obs
pooled a w = sort_obs (tagged true a ++ tagged false w)

-- The inner loop: how many observations in front have the value.
unfoldable pub tied : ℕ → List Obs → ℕ
tied v [] = 0
tied v (o ∷ os) = let rest = tied v os in if o.v == v then suc rest else 0

abbrev pub drop : ℕ → List Obs → List Obs
drop zero os = os
drop (suc n) [] = []
drop (suc n) (o ∷ os) = drop n os

abbrev pub replicate : ℕ → ℕ → List ℕ
replicate zero r = []
replicate (suc n) r = r ∷ replicate n r

-- The ranks so far, and the tie correction.
pub record Ranked : Type 0 where
  pub ranks : List ℕ
  pub correction : ℕ

abbrev pub correct : ℕ → ℕ
correct t = if ltb 1 t then t * t * t - t else 0

abbrev pub with_group : ℕ → ℕ → Option Ranked → Option Ranked
with_group t rank none = none
with_group t rank (some r) =
    some (record { ranks = replicate t rank ++ r.ranks; correction = correct t + r.correction })

-- The loop over the groups of ties, at index i; `none` is a loop that has not ended after `fuel`
-- groups.
unfoldable pub tie_loop : ℕ → ℕ → List Obs → Option Ranked
unfolding tied
tie_loop fuel i [] = some (record { ranks = []; correction = 0 })
tie_loop zero i (o ∷ os) = none
tie_loop (suc fuel) i (o ∷ os) =
    let t = suc (tied o.v os) in
    let j = i + t in with_group t (i + j + 1) (tie_loop fuel j (drop (tied o.v os) os))

unfoldable pub rank_sum : Bool → List Obs → List ℕ → ℕ
rank_sum b [] rs = 0
rank_sum b (o ∷ os) [] = 0
rank_sum true (o ∷ os) (r ∷ rs) = (if o.of_absent then r else 0) + rank_sum true os rs
rank_sum false (o ∷ os) (r ∷ rs) = (if o.of_absent then 0 else r) + rank_sum false os rs

abbrev sum : List ℕ → ℕ
sum [] = 0
sum (r ∷ rs) = r + sum rs

sum-append : (rs ss : List ℕ) → sum (rs ++ ss) ≡ sum rs + sum ss
sum-append [] ss = omega arith
sum-append (r ∷ rs) ss = omega (arith, sum-append rs ss)

sum-replicate : (n r : ℕ) → sum (replicate n r) ≡ n * r
sum-replicate zero r = omega arith
sum-replicate (suc n) r = grind (arith, sum-replicate n r)

length-replicate : (n r : ℕ) → length (replicate n r) ≡ n
length-replicate zero r = refl
length-replicate (suc n) r = ap suc (length-replicate n r)

tied-le : (v : ℕ) (os : List Obs) → tied v os ≤ length os
unfolding tied
tied-le v [] = omega arith
tied-le v (o ∷ os) = elim (Bool-cases (o.v == v)) [
  | inl same ↦ rw (same, tied) (omega (arith, tied-le v os))
  | inr differs ↦ rw (differs, tied) (omega arith)
]

length-drop : (n : ℕ) (os : List Obs) → n ≤ length os → length (drop n os) + n ≡ length os
length-drop zero os h = omega arith
length-drop (suc n) [] h = absurd (omega arith)
length-drop (suc n) (o ∷ os) h = omega (arith, length-drop n os (omega arith))

-- Doubled, the ranks i + 1 to i + n add up to this.
abbrev block : ℕ → ℕ → ℕ
block i n = n * (i + i + n + 1)

block-add : (i t n : ℕ) → t * (i + (i + t) + 1) + block (i + t) n ≡ block i (t + n)
block-add i t n = grind arith

block-zero : (n : ℕ) → block 0 n ≡ n * (n + 1)
block-zero n = grind arith

pub record IsRanked (i : ℕ) (os : List Obs) (result : Option Ranked) : Type 0 where
  pub ranked : Ranked
  pub ended : result ≡ some ranked
  pub each : length ranked.ranks ≡ length os
  pub sums : sum ranked.ranks ≡ block i (length os)

with_group-IsRanked :
    (i : ℕ) (o : Obs) (os : List Obs) (t : ℕ) (rest : List Obs) (result : Option Ranked)
    → length rest + t ≡ suc (length os)
    → IsRanked (i + t) rest result
    → IsRanked i (o ∷ os) (with_group t (i + (i + t) + 1) result)
with_group-IsRanked i o os t rest result split r =
    let rank = i + (i + t) + 1 in
    let ranks = r.ranked.ranks in
    rw r.ended (record {
      ranked = record {
        ranks = replicate t rank ++ ranks;
        correction = correct t + r.ranked.correction;
      };
      ended = refl;
      each = omega (arith, length-append (replicate t rank) ranks, length-replicate t rank, r.each);
      sums =
          let n : t + length rest ≡ suc (length os) = omega arith in
          rw (sum-append (replicate t rank) ranks, sum-replicate t rank, r.sums, block-add i t _, n)
            refl;
    })

tie_loop-IsRanked :
    (fuel i : ℕ) (os : List Obs) → length os ≤ fuel → IsRanked i os (tie_loop fuel i os)
unfolding tie_loop
tie_loop-IsRanked fuel i [] h = record { ranked = _; ended = refl; each = refl; sums = omega arith }
tie_loop-IsRanked zero i (o ∷ os) h = absurd (omega arith)
tie_loop-IsRanked (suc fuel) i (o ∷ os) h =
    let t = tied o.v os in
    let left = length-drop t os (tied-le o.v os) in
    with_group-IsRanked i o os (suc t) (drop t os) _ (omega arith)
      (tie_loop-IsRanked fuel (i + suc t) (drop t os) (omega arith))

rank_sum-add :
    (os : List Obs) (rs : List ℕ)
    → length rs ≡ length os
    → rank_sum true os rs + rank_sum false os rs ≡ sum rs
unfolding rank_sum
rank_sum-add [] [] h = refl
rank_sum-add [] (r ∷ rs) h = absurd (omega arith)
rank_sum-add (o ∷ os) [] h = absurd (omega arith)
rank_sum-add (o ∷ os) (r ∷ rs) h = elim (Bool-cases o.of_absent) [
  | inl absent ↦ rw absent (omega (arith, rank_sum-add os rs (omega arith)))
  | inr wrong ↦ rw wrong (omega (arith, rank_sum-add os rs (omega arith)))
]

length-insert_obs : (o : Obs) (os : List Obs) → length (insert_obs o os) ≡ suc (length os)
length-insert_obs o [] = refl
length-insert_obs o (x ∷ xs) = elim (Bool-cases (leb o.v x.v)) [
  | inl first ↦ rw first refl
  | inr later ↦ rw later (ap suc (length-insert_obs o xs))
]

length-sort_obs : (os : List Obs) → length (sort_obs os) ≡ length os
length-sort_obs [] = refl
length-sort_obs (o ∷ os) = length-insert_obs o (sort_obs os) ∙ ap suc (length-sort_obs os)

length-tagged : (b : Bool) (vs : List ℕ) → length (tagged b vs) ≡ length vs
length-tagged b [] = refl
length-tagged b (v ∷ vs) = ap suc (length-tagged b vs)

length-pooled : (a w : List ℕ) → length (pooled a w) ≡ length a + length w
unfolding pooled
length-pooled a w = omega (
  arith,
  length-sort_obs (tagged true a ++ tagged false w),
  length-append (tagged true a) (tagged false w),
  length-tagged true a,
  length-tagged false w,
)

-- The loop over the ties of two groups of m and n samples ends after m + n rounds at most, with a
-- rank for each sample, and the doubled rank sums of the two groups add up to (m + n)(m + n + 1),
-- whatever samples are tied.
pub tie_loop-rank_sum :
    (a w : List ℕ)
    → let n = length a + length w in
      (r : Ranked) × (tie_loop n 0 (pooled a w) ≡ some r)
      × (length r.ranks ≡ n)
      × (rank_sum true (pooled a w) r.ranks + rank_sum false (pooled a w) r.ranks ≡ n * (n + 1))
tie_loop-rank_sum a w =
    let os = pooled a w in
    let n = length a + length w in
    let size = length-pooled a w in
    let r = tie_loop-IsRanked n 0 os (omega arith) in
    (
      r.ranked,
      r.ended,
      r.each ∙ size,
      rank_sum-add os r.ranked.ranks r.each ∙ r.sums ∙ rw size (block-zero n),
    )
