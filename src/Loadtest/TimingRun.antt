-- ===== src/Loadtest/TimingRun.antt =====
-- cmd/loadtest/timing.go: the requests of the timing check, their addresses, and which of them
-- give a sample.
use secure_auth_gateway.Prelude.{
  ℕ, zero, suc, ◌+◌, ◌-◌, ◌/◌, ◌%◌, ◌^◌, ◌<◌, ◌≡◌, ◌≢◌, refl, ap, ◌∙◌, inl, inr, Bool, true, false,
  Bool-cases, Option, none, some, List, [], ◌∷◌, ◌++◌, length, length-append, Text, codes, ltb,
  ◌==◌, if◌then◌else◌, arith, decimal_digit,
}
use secure_auth_gateway.Loadtest.Seed.{account, account_count}

abbrev pub timing_warmup : ℕ
timing_warmup = 20

-- The last `width` decimal digits of a number, which `%0*d` prints of a smaller one.
unfoldable pub zero_padded : ℕ → ℕ → Text
zero_padded zero n = []
zero_padded (suc width) n = zero_padded width (n / 10) ++ ((b'0' + n % 10) ∷ [])

-- `absentEmailFor`, for a time after the epoch: the number is below `1e8`.
unfoldable pub absent_email_for : ℕ → ℕ → Text
unfolding zero_padded
absent_email_for run_id idx =
    codes "absent-" ++ (zero_padded 8 ((run_id / 10 ^ 6 + idx) % 10 ^ 8) ++ codes "@loadtest.local")

-- What `postJSON` gives: `none` is an error, otherwise the status and the time that it took.
abbrev pub PostResult : Type 0
PostResult = Option (ℕ × ℕ)

unfoldable pub time_login : PostResult → Option ℕ
time_login none = none
time_login (some (status, elapsed)) =
    if status == 429 then none else if status == 401 then some elapsed else none

-- The two groups: the samples that are kept, and the number of requests so far.
pub record TimingGroup : Type 0 where
  pub samples : List ℕ
  pub seen : ℕ

pub record Groups : Type 0 where
  pub absent : TimingGroup
  pub wrong : TimingGroup

unfoldable pub add_sample : ℕ → TimingGroup → TimingGroup
add_sample elapsed g = record {
  samples = if ltb timing_warmup (suc g.seen) then g.samples ++ (elapsed ∷ []) else g.samples;
  seen = suc g.seen;
}

abbrev pub after_wrong : Groups → Option ℕ → Option Groups
after_wrong g none = none
after_wrong g (some elapsed) = some (record g { wrong = add_sample elapsed g.wrong })

abbrev pub after_absent : Groups → Option ℕ → Option Groups
after_absent g none = none
after_absent g (some elapsed) = some (record g { absent = add_sample elapsed g.absent })

-- `answer n email` is the answer to request n for an address, and `cleared n` whether the lockout
-- counter could be deleted in front of it. `true` is the kind "wrong password".
module _ (run_id : ℕ) (answer : ℕ → Text → PostResult) (cleared : ℕ → Bool) where
  unfoldable pub request : ℕ → Bool → Groups → Option Groups
  unfolding time_login add_sample account absent_email_for
  request idx false g = after_absent g (time_login (answer idx (absent_email_for run_id idx)))
  request idx true g =
      if cleared idx
      then after_wrong g (time_login (answer idx (account (idx % account_count)).email))
      else none

  -- The loop over the shuffled kinds; `none` is an error.
  unfoldable pub measure : ℕ → List Bool → Option Groups → Option Groups
  unfolding request
  measure idx kinds none = none
  measure idx [] (some g) = some g
  measure idx (kind ∷ kinds) (some g) = measure (suc idx) kinds (request idx kind g)

-- A balanced sequence of the two kinds, to be shuffled.
unfoldable pub balanced : ℕ → List Bool
balanced zero = []
balanced (suc n) = false ∷ true ∷ balanced n

abbrev pub no_groups : Groups
no_groups = record {
  absent = record { samples = []; seen = 0 };
  wrong = record { samples = []; seen = 0 };
}

abbrev pub count_if : Bool → List Bool → ℕ
count_if b [] = 0
count_if true (true ∷ ks) = suc (count_if true ks)
count_if true (false ∷ ks) = count_if true ks
count_if false (true ∷ ks) = count_if false ks
count_if false (false ∷ ks) = suc (count_if false ks)

-- A group keeps what comes after its warmup.
abbrev IsKept : TimingGroup → Type 0
IsKept g = length g.samples ≡ g.seen - timing_warmup

add_sample-IsKept : (elapsed : ℕ) (g : TimingGroup) → IsKept g → IsKept (add_sample elapsed g)
unfolding add_sample
add_sample-IsKept elapsed g h = elim (Bool-cases (ltb timing_warmup (suc g.seen))) [
  | inl kept ↦ rw kept (ground (arith, length-append g.samples (elapsed ∷ [])))
  | inr early ↦ rw early (ground arith)
]

-- What the groups of a loop have seen, and what they keep.
record IsMeasured (absent wrong : ℕ) (g : Groups) : Type 0 where
  kept_absent : IsKept g.absent
  kept_wrong : IsKept g.wrong
  seen_absent : g.absent.seen ≡ absent
  seen_wrong : g.wrong.seen ≡ wrong

abbrev Measured : ℕ → ℕ → Option Groups → Type 0
Measured absent wrong none = Unit
Measured absent wrong (some g) = IsMeasured absent wrong g

after_absent-Measured :
    (a w : ℕ) (g : Groups) (o : Option ℕ) → IsMeasured a w g → Measured (suc a) w (after_absent g o)
unfolding add_sample
after_absent-Measured a w g none m = tt
after_absent-Measured a w g (some elapsed) m = record {
  kept_absent = add_sample-IsKept elapsed g.absent m.kept_absent;
  kept_wrong = m.kept_wrong;
  seen_absent = ap suc m.seen_absent;
  seen_wrong = m.seen_wrong;
}

after_wrong-Measured :
    (a w : ℕ) (g : Groups) (o : Option ℕ) → IsMeasured a w g → Measured a (suc w) (after_wrong g o)
unfolding add_sample
after_wrong-Measured a w g none m = tt
after_wrong-Measured a w g (some elapsed) m = record {
  kept_absent = m.kept_absent;
  kept_wrong = add_sample-IsKept elapsed g.wrong m.kept_wrong;
  seen_absent = m.seen_absent;
  seen_wrong = ap suc m.seen_wrong;
}

module _ (run_id : ℕ) (answer : ℕ → Text → PostResult) (cleared : ℕ → Bool) where
  request_wrong-Measured :
      (idx a w : ℕ) (g : Groups)
      → IsMeasured a w g
      → Measured a (suc w) (request run_id answer cleared idx true g)
  unfolding request
  request_wrong-Measured idx a w g m = elim (Bool-cases (cleared idx)) [
    | inl gone ↦ rw (gone, request) (after_wrong-Measured a w g _ m)
    | inr failed ↦ rw (failed, request) tt
  ]

  measure-Measured :
      (idx a w absent wrong : ℕ) (kinds : List Bool) (o : Option Groups)
      → a + count_if false kinds ≡ absent
      → w + count_if true kinds ≡ wrong
      → Measured a w o
      → Measured absent wrong (measure run_id answer cleared idx kinds o)
  unfolding measure request
  measure-Measured idx a w absent wrong kinds none ea ew m = tt
  measure-Measured idx a w absent wrong [] (some g) ea ew m =
      let a' : a ≡ absent = omega arith in let w' : w ≡ wrong = omega arith in rw (← a', ← w') m
  measure-Measured idx a w absent wrong (false ∷ kinds) (some g) ea ew m =
      measure-Measured (suc idx) (suc a) w absent wrong kinds
        (request run_id answer cleared idx false g) (omega arith) (omega arith)
        (after_absent-Measured a w g _ m)
  measure-Measured idx a w absent wrong (true ∷ kinds) (some g) ea ew m =
      measure-Measured (suc idx) a (suc w) absent wrong kinds
        (request run_id answer cleared idx true g) (omega arith) (omega arith)
        (request_wrong-Measured idx a w g m)

balanced-count : (b : Bool) (n : ℕ) → count_if b (balanced n) ≡ n
unfolding balanced
balanced-count b zero = refl
balanced-count true (suc n) = ap suc (balanced-count true n)
balanced-count false (suc n) = ap suc (balanced-count false n)

-- A timing check that goes through has `samples` samples of each kind, whatever order the shuffle
-- gives, if the shuffle keeps the number of requests of each kind.
pub measure-length :
    (run_id samples : ℕ) (answer : ℕ → Text → PostResult) (cleared : ℕ → Bool)
    (shuffle : List Bool → List Bool) (g : Groups)
    → ((b : Bool) (ks : List Bool) → count_if b (shuffle ks) ≡ count_if b ks)
    → measure run_id answer cleared 0
        (shuffle (balanced (samples + timing_warmup)))
        (some no_groups)
      ≡ some g
    → (length g.absent.samples ≡ samples) × (length g.wrong.samples ≡ samples)
measure-length run_id samples answer cleared shuffle g keeps through =
    let total = samples + timing_warmup in
    let kinds = shuffle (balanced total) in
    let start : IsMeasured 0 0 no_groups = record {
      kept_absent = refl;
      kept_wrong = refl;
      seen_absent = refl;
      seen_wrong = refl;
    } in
    let n : (b : Bool) → count_if b kinds ≡ total =
      λ b. keeps b (balanced total) ∙ balanced-count b total in
    let m : IsMeasured total total g = rw through at (
      measure-Measured run_id answer cleared 0 0 0 total total kinds (some no_groups)
        (omega (arith, n false)) (omega (arith, n true)) start) in
    (omega (arith, m.kept_absent, m.seen_absent), omega (arith, m.kept_wrong, m.seen_wrong))

length-zero_padded : (width n : ℕ) → length (zero_padded width n) ≡ width
unfolding zero_padded
length-zero_padded zero n = refl
length-zero_padded (suc width) n = omega (
  arith,
  length-append (zero_padded width (n / 10)) ((b'0' + n % 10) ∷ []),
  length-zero_padded width (n / 10),
)

first_code : Text → ℕ
first_code [] = 0
first_code (c ∷ s) = c

-- The address of an absent account is none of the load test's accounts, and is as long as each of
-- them, as far as their numbers have one digit.
pub absent_email_for_lem :
    (run_id idx i : ℕ)
    → i < 9
    → (absent_email_for run_id idx ≢ (account i).email)
      × (length (absent_email_for run_id idx) ≡ length (account i).email)
unfolding absent_email_for account first_code
absent_email_for_lem run_id idx i small = (
  λ e. absurd (omega (arith, ap first_code e)),
  rw (decimal_digit (i + 1) (omega arith)) (
      omega (
        arith,
        length-append (zero_padded 8 ((run_id / 10 ^ 6 + idx) % 10 ^ 8)) (codes "@loadtest.local"),
        length-zero_padded 8 ((run_id / 10 ^ 6 + idx) % 10 ^ 8),
      )),
)
