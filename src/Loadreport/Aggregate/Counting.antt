-- ===== src/Loadreport/Aggregate/Counting.antt =====
-- cmd/loadreport/input.go, `aggregate`: which samples it counts, and how often.
use secure_auth_gateway.Prelude.{
  ℕ, ◌+◌, ◌≤◌, ◌<◌, ◌≡◌, ◌⊎◌, refl, ◌∙◌, inl, inr, true, false, ◌&&◌, Bool-cases, List, [], ◌∷◌,
  map, length, length-append, Text, text_eq, text_eq_iff, if◌then◌else◌, ltb, leb, ltb→lt, All,
  arith,
}
use native.Mathlib.Nat.{zero-add}
use secure_auth_gateway.Loadreport.Aggregate.{
  Floats, CpuSample, ContainerAgg, CpuAgg, in_window, counted, add_value, by_container, by_time,
  container_agg, insert_agg, sort_aggs, aggregate,
}
use secure_auth_gateway.Loadreport.Aggregate.Times.{
  HasTime, IsDistinct, HasSample, by_time-IsDistinct, by_time-All, by_time-back,
}

module _ (fl : Floats) where
  open fl use {F}

  -- How many values a container has in the map, how many polls the rows of the table report for
  -- it, and how many samples it has.
  abbrev values_in : Text → List (Text × List F) → ℕ
  values_in name [] = 0
  values_in name ((other, vs) ∷ groups) =
      (if text_eq other name then length vs else 0) + values_in name groups

  abbrev pub reported : Text → List (ContainerAgg fl) → ℕ
  reported name [] = 0
  reported name (a ∷ rest) = (if text_eq a.name name then a.n else 0) + reported name rest

  abbrev pub samples_of : Text → List (CpuSample fl) → ℕ
  samples_of name [] = 0
  samples_of name (s ∷ ss) = (if text_eq s.container name then 1 else 0) + samples_of name ss

  values_in-add_value :
      (name one : Text) (v : F) (groups : List (Text × List F))
      → values_in name (add_value fl one v groups)
        ≡ (if text_eq one name then 1 else 0) + values_in name groups
  unfolding add_value
  values_in-add_value name one v [] = ground arith
  values_in-add_value name one v ((other, vs) ∷ groups) = elim (Bool-cases (text_eq other one)) [
    | inl same ↦
        let e : other ≡ one = (text_eq_iff other one).0 same in
        rw (same, add_value, e) (ground (arith, length-append vs (v ∷ [])))
    | inr differs ↦ rw (differs, add_value) (omega (arith, values_in-add_value name one v groups))
  ]

  values_in-by_container :
      (name : Text) (groups : List (Text × List F)) (ss : List (CpuSample fl))
      → values_in name (by_container fl groups ss) ≡ values_in name groups + samples_of name ss
  unfolding by_container
  values_in-by_container name groups [] = omega arith
  values_in-by_container name groups (s ∷ ss) = omega (
    arith,
    values_in-by_container name (add_value fl s.container s.cpu groups) ss,
    values_in-add_value name s.container s.cpu groups,
  )

  reported-insert_agg :
      (name : Text) (a : ContainerAgg fl) (rest : List (ContainerAgg fl))
      → reported name (insert_agg fl a rest) ≡ reported name (a ∷ rest)
  unfolding insert_agg
  reported-insert_agg name a [] = refl
  reported-insert_agg name a (b ∷ rest) = elim (Bool-cases (fl.above b.avg a.avg)) [
    | inl higher ↦ rw (higher, insert_agg) (omega (arith, reported-insert_agg name a rest))
    | inr lower ↦ rw (lower, insert_agg) refl
  ]

  reported-sort_aggs :
      (name : Text) (groups : List (Text × List F))
      → reported name (sort_aggs fl (map (container_agg fl) groups)) ≡ values_in name groups
  unfolding sort_aggs
  reported-sort_aggs name [] = refl
  reported-sort_aggs name ((other, vs) ∷ groups) = omega (
    arith,
    reported-insert_agg name (container_agg fl (other, vs))
        (sort_aggs fl (map (container_agg fl) groups)),
    reported-sort_aggs name groups,
  )

  -- The samples of a window, both ends included, in their order, and no others.
  pub data Selects (start end : ℕ) : List (CpuSample fl) → List (CpuSample fl) → Type 0 where
    nothing : Selects start end [] []
    keeps :
        {s : CpuSample fl} {ss inside : List (CpuSample fl)}
        → start ≤ s.at
        → s.at ≤ end
        → Selects start end ss inside
        → Selects start end (s ∷ ss) (s ∷ inside)
    skips :
        {s : CpuSample fl} {ss inside : List (CpuSample fl)}
        → (s.at < start) ⊎ (end < s.at)
        → Selects start end ss inside
        → Selects start end (s ∷ ss) inside

  in_window-Selects :
      (start end : ℕ) (ss : List (CpuSample fl)) → Selects start end ss (in_window fl start end ss)
  unfolding in_window
  in_window-Selects start end [] = nothing
  in_window-Selects start end (s ∷ ss) = elim (Bool-cases (leb start s.at && leb s.at end)) [
    | inl inside ↦
        rw (inside, in_window)
          (keeps (ground arith) (ground arith) (in_window-Selects start end ss))
    | inr outside ↦ rw (outside, in_window) (skips (ground arith) (in_window-Selects start end ss))
  ]

  -- What the aggregate of a window counts.
  pub record IsCounted (samples : List (CpuSample fl)) (start end : ℕ) (agg : CpuAgg fl)
      : Type 0 where
    pub inside : List (CpuSample fl)
    pub selected : Selects start end samples inside
    pub used : List (CpuSample fl)
    pub choice :
        ((3 ≤ length inside) × (agg.windowed ≡ true) × (used ≡ inside))
        ⊎ ((length inside < 3) × (agg.windowed ≡ false) × (used ≡ samples))
    pub rows : (name : Text) → reported name agg.per_container ≡ samples_of name used
    pub times : List (ℕ × F)
    pub polls : agg.polls ≡ length times
    pub distinct : IsDistinct fl times
    pub all_times : All (λ s. HasTime fl s.at times) used
    pub no_others : (t : ℕ) → HasTime fl t times → HasSample fl t used

  used-cases :
      (start end : ℕ) (samples : List (CpuSample fl))
      → ((3 ≤ length (in_window fl start end samples))
          × ((aggregate fl samples start end).windowed ≡ true)
          × (counted fl start end samples ≡ in_window fl start end samples))
        ⊎ ((length (in_window fl start end samples) < 3)
            × ((aggregate fl samples start end).windowed ≡ false)
            × (counted fl start end samples ≡ samples))
  unfolding aggregate counted
  used-cases start end samples =
      elim (Bool-cases (ltb (length (in_window fl start end samples)) 3)) [
        | inl few ↦ inr (ltb→lt _ _ few, rw few refl, rw (few, counted) refl)
        | inr many ↦ inl (ground arith, rw many refl, rw (many, counted) refl)
      ]

  -- If three samples or more are in the window, both ends included, the aggregate is marked as
  -- windowed and uses exactly these; otherwise it is marked as not windowed and uses all samples.
  -- For each container the rows of the table report as many polls as it has samples that are used,
  -- and the combined number of polls is that of the different times of the samples that are used.
  pub aggregate-IsCounted :
      (samples : List (CpuSample fl)) (start end : ℕ)
      → IsCounted samples start end (aggregate fl samples start end)
  unfolding aggregate
  aggregate-IsCounted samples start end = record {
    inside = in_window fl start end samples;
    selected = in_window-Selects start end samples;
    used = counted fl start end samples;
    choice = used-cases start end samples;
    rows = λ name.
        reported-sort_aggs name (by_container fl [] (counted fl start end samples))
        ∙ values_in-by_container name [] (counted fl start end samples)
        ∙ zero-add _;
    times = by_time fl [] (counted fl start end samples);
    polls = refl;
    distinct = by_time-IsDistinct fl [] (counted fl start end samples) tt;
    all_times = by_time-All fl [] (counted fl start end samples);
    no_others = λ t found. elim (by_time-back fl t [] (counted fl start end samples) found) [
      | inl sample ↦ sample
      | inr none_before ↦ absurd none_before
    ];
  }
