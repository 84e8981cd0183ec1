-- ===== src/Loadtest/Distributions.antt =====
-- `percentile` and the latencies of a phase (cmd/loadtest/stats.go).
use secure_auth_gateway.Prelude.{
  ℕ, zero, suc, ◌+◌, ◌-◌, ◌≤◌, ◌≡◌, refl, ◌&&◌, List, [], ◌∷◌, leb, length, arith, Bool-cases, inl,
  inr, All,
}
use secure_auth_gateway.Loadtest.Samples.{
  Sample, PhaseResult, keep_if, insert_sorted, sort_ascending, values, timed, sched_lag,
  all_latencies, corrected_latencies,
}
use secure_auth_gateway.Loadtest.Percentile.{Float, element, percentile, ceiling, rank_float}

-- One list is below another of the same length, place by place.
abbrev Below : List ℕ → List ℕ → Type 0
Below [] [] = Unit {0}
Below [] (y ∷ ys) = ⊥
Below (x ∷ xs) [] = ⊥
Below (x ∷ xs) (y ∷ ys) = (x ≤ y) × Below xs ys

abbrev Ascending : List ℕ → Type 0
Ascending [] = Unit {0}
Ascending (x ∷ xs) = All (λ y. x ≤ y) xs × Ascending xs

insert_sorted-least : (x : ℕ) (xs : List ℕ) → All (λ y. x ≤ y) xs → insert_sorted x xs ≡ x ∷ xs
insert_sorted-least x [] h = refl
insert_sorted-least x (y ∷ ys) h = ground arith

All-insert : (P : ℕ → Type 0) (x : ℕ) (xs : List ℕ) → P x → All P xs → All P (insert_sorted x xs)
All-insert P x [] px h = (px, tt)
All-insert P x (y ∷ ys) px h = elim (Bool-cases (leb x y)) [
  | inl below ↦ rw below (px, h)
  | inr above ↦ rw above (h.0, All-insert P x ys px h.1)
]

All-weaken : (a b : ℕ) (xs : List ℕ) → a ≤ b → All (λ y. b ≤ y) xs → All (λ y. a ≤ y) xs
All-weaken a b [] h k = tt
All-weaken a b (x ∷ xs) h k = (omega arith, All-weaken a b xs h k.1)

insert_sorted-Ascending : (x : ℕ) (xs : List ℕ) → Ascending xs → Ascending (insert_sorted x xs)
insert_sorted-Ascending x [] h = (tt, tt)
insert_sorted-Ascending x (y ∷ ys) h = elim (Bool-cases (leb x y)) [
  | inl below ↦ rw below ((ground arith, All-weaken x y ys (ground arith) h.0), h)
  | inr above ↦
      rw above (All-insert (λ z. y ≤ z) x ys (ground arith) h.0, insert_sorted-Ascending x ys h.1)
]

sort_ascending-Ascending : (xs : List ℕ) → Ascending (sort_ascending xs)
sort_ascending-Ascending [] = tt
sort_ascending-Ascending (x ∷ xs) =
    insert_sorted-Ascending x (sort_ascending xs) (sort_ascending-Ascending xs)

insert_sorted-Below :
    (x y : ℕ) (xs ys : List ℕ)
    → x ≤ y
    → Ascending xs
    → Ascending ys
    → Below xs ys
    → Below (insert_sorted x xs) (insert_sorted y ys)
insert_sorted-Below x y [] [] h ax ay b = (h, tt)
insert_sorted-Below x y [] (c ∷ ys) h ax ay b = absurd b
insert_sorted-Below x y (a ∷ xs) [] h ax ay b = absurd b
insert_sorted-Below x y (a ∷ xs) (c ∷ ys) h ax ay b = elim (Bool-cases (leb x a)) [
  | inl left ↦ elim (Bool-cases (leb y c)) [
    | inl right ↦ rw (left, right) (h, b)
    | inr right ↦
        let rest = insert_sorted-Below a y xs ys (ground arith) ax.1 ay.1 b.1 in
        rw (left, right) (ground arith, rw (insert_sorted-least a xs ax.0) at rest)
  ]
  | inr left ↦ elim (Bool-cases (leb y c)) [
    | inl right ↦
        let rest = insert_sorted-Below x c xs ys (ground arith) ax.1 ay.1 b.1 in
        rw (left, right) (ground arith, rw (insert_sorted-least c ys ay.0) at rest)
    | inr right ↦ rw (left, right) (b.0, insert_sorted-Below x y xs ys h ax.1 ay.1 b.1)
  ]
]

sort_ascending-Below :
    (xs ys : List ℕ) → Below xs ys → Below (sort_ascending xs) (sort_ascending ys)
sort_ascending-Below [] [] b = tt
sort_ascending-Below [] (y ∷ ys) b = absurd b
sort_ascending-Below (x ∷ xs) [] b = absurd b
sort_ascending-Below (x ∷ xs) (y ∷ ys) b =
    insert_sorted-Below x y (sort_ascending xs) (sort_ascending ys) b.0
      (sort_ascending-Ascending xs) (sort_ascending-Ascending ys) (sort_ascending-Below xs ys b.1)

Below-length : (xs ys : List ℕ) → Below xs ys → length xs ≡ length ys
Below-length [] [] b = refl
Below-length [] (y ∷ ys) b = absurd b
Below-length (x ∷ xs) [] b = absurd b
Below-length (x ∷ xs) (y ∷ ys) b = omega (arith, Below-length xs ys b.1)

element-Below :
    (i last low : ℕ) (xs ys : List ℕ)
    → low ≤ last
    → Below xs ys
    → element low i xs ≤ element last i ys
element-Below i last low [] [] h b = h
element-Below i last low [] (y ∷ ys) h b = absurd b
element-Below zero last low (x ∷ xs) [] h b = absurd b
element-Below (suc i) last low (x ∷ xs) [] h b = absurd b
element-Below zero last low (x ∷ xs) (y ∷ ys) h b = b.0
element-Below (suc i) last low (x ∷ xs) (y ∷ ys) h b = element-Below i y x xs ys b.0 b.1

values-Below :
    (f g : Sample → ℕ) (ss : List Sample)
    → ((s : Sample) → f s ≤ g s)
    → Below (values f ss) (values g ss)
values-Below f g [] h = tt
values-Below f g (s ∷ ss) h = (h s, values-Below f g ss h)

-- Correcting for late dispatch never makes a percentile smaller.
pub percentile-corrected :
    (p : Float) (r : PhaseResult)
    → percentile p (all_latencies r) ≤ percentile p (corrected_latencies r)
unfolding percentile all_latencies corrected_latencies
percentile-corrected p r =
    let sent = keep_if (λ s. s.in_window && timed s) r.samples in
    let below =
      sort_ascending-Below (values (λ s. s.latency) sent)
        (values (λ s. s.latency + sched_lag s) sent)
        (values-Below (λ s. s.latency) (λ s. s.latency + sched_lag s) sent (λ s. omega arith)) in
    rw (Below-length (all_latencies r) (corrected_latencies r) below)
      (element-Below _ 0 0 (all_latencies r) (corrected_latencies r) (omega arith) below)

element-All :
    (P : ℕ → Type 0) (last i : ℕ) (xs : List ℕ) → P last → All P xs → P (element last i xs)
element-All P last i [] h all = h
element-All P last zero (x ∷ xs) h all = all.0
element-All P last (suc i) (x ∷ xs) h all = element-All P x i xs all.0 all.1

first_or_later :
    (P : ℕ → Type 0) (i x : ℕ) (xs : List ℕ) → All P (x ∷ xs) → P (element 0 i (x ∷ xs))
first_or_later P zero x xs all = all.0
first_or_later P (suc i) x xs all = element-All P x i xs all.0 all.1

-- A percentile of a list that is not empty is one of its elements: it has each property that they
-- share.
pub percentile-All :
    (P : ℕ → Type 0) (p : Float) (x : ℕ) (xs : List ℕ) → All P (x ∷ xs) → P (percentile p (x ∷ xs))
unfolding percentile
percentile-All P p x xs all =
    first_or_later P (ceiling (rank_float p (length (x ∷ xs))) - 1) x xs all
