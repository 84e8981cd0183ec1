-- ===== src/Loadreport/Aggregate.antt =====
-- cmd/loadreport/input.go, `aggregate`: the CPU samples of one window. The arithmetic on float64
-- is a parameter: addition, division by a count, and the order.
pub mod Times
pub mod Counting
use secure_auth_gateway.Prelude.{
  ℕ, zero, suc, ◌+◌, ◌-◌, ◌/◌, ◌≤◌, ◌<◌, ◌≡◌, ◌≢◌, refl, ap, ◌∙◌, inl, inr, Bool, true, false, ◌&&◌,
  Bool-cases, List, [], ◌∷◌, ◌++◌, map, length, length-append, Text, text_eq, ltb, leb, ◌==◌,
  ==_iff, if◌then◌else◌, arith,
}

-- float64, as far as `aggregate` uses it.
pub record Floats : Type 1 where
  pub F : Type 0
  pub zero_float : F
  pub add : F → F → F
  pub over : F → ℕ → F
  pub above : F → F → Bool

module _ (fl : Floats) where
  open fl use {F, zero_float, add, over, above}

  -- `cpuSample`; times are nanoseconds.
  pub record CpuSample : Type 0 where
    pub at : ℕ
    pub container : Text
    pub cpu : F

  pub record ContainerAgg : Type 0 where
    pub name : Text
    pub avg : F
    pub peak : F
    pub n : ℕ

  pub record CpuAgg : Type 0 where
    pub per_container : List ContainerAgg
    pub combined_avg : F
    pub combined_peak : F
    pub polls : ℕ
    pub interval : ℕ
    pub windowed : Bool
    pub first : ℕ
    pub last : ℕ

  -- Both ends of the window belong to it.
  unfoldable pub in_window : ℕ → ℕ → List CpuSample → List CpuSample
  in_window start end [] = []
  in_window start end (s ∷ ss) =
      let rest = in_window start end ss in if leb start s.at && leb s.at end then s ∷ rest else rest

  -- The samples that are counted: all of them where fewer than three are in the window.
  unfoldable pub counted : ℕ → ℕ → List CpuSample → List CpuSample
  unfolding in_window
  counted start end samples =
      let inside = in_window start end samples in if ltb (length inside) 3 then samples else inside

  -- The map from containers to values, in the order of their first samples.
  unfoldable pub add_value : Text → F → List (Text × List F) → List (Text × List F)
  add_value name v [] = (name, v ∷ []) ∷ []
  add_value name v ((other, vs) ∷ groups) =
      let rest = add_value name v groups in
      if text_eq other name then (other, vs ++ (v ∷ [])) ∷ groups else (other, vs) ∷ rest

  unfoldable pub by_container : List (Text × List F) → List CpuSample → List (Text × List F)
  unfolding add_value
  by_container groups [] = groups
  by_container groups (s ∷ ss) = by_container (add_value s.container s.cpu groups) ss

  -- The map from times to sums.
  unfoldable pub add_at : ℕ → F → List (ℕ × F) → List (ℕ × F)
  add_at t v [] = (t, add zero_float v) ∷ []
  add_at t v ((u, sum) ∷ sums) =
      let rest = add_at t v sums in if u == t then (u, add sum v) ∷ sums else (u, sum) ∷ rest

  unfoldable pub by_time : List (ℕ × F) → List CpuSample → List (ℕ × F)
  unfolding add_at
  by_time sums [] = sums
  by_time sums (s ∷ ss) = by_time (add_at s.at s.cpu sums) ss

  abbrev sum_from : F → List F → F
  sum_from acc [] = acc
  sum_from acc (v ∷ vs) = sum_from (add acc v) vs

  abbrev peak_from : F → List F → F
  peak_from peak [] = peak
  peak_from peak (v ∷ vs) = peak_from (if above v peak then v else peak) vs

  abbrev container_agg : Text × List F → ContainerAgg
  container_agg (name, vs) = record {
    name = name;
    avg = over (sum_from zero_float vs) (length vs);
    peak = peak_from zero_float vs;
    n = length vs;
  }

  -- By average, the highest first.
  unfoldable pub insert_agg : ContainerAgg → List ContainerAgg → List ContainerAgg
  insert_agg a [] = a ∷ []
  insert_agg a (b ∷ bs) =
      let rest = insert_agg a bs in if above b.avg a.avg then b ∷ rest else a ∷ b ∷ bs

  unfoldable pub sort_aggs : List ContainerAgg → List ContainerAgg
  unfolding insert_agg
  sort_aggs [] = []
  sort_aggs (a ∷ as') = insert_agg a (sort_aggs as')

  unfoldable pub insert_time : ℕ × F → List (ℕ × F) → List (ℕ × F)
  insert_time a [] = a ∷ []
  insert_time a (b ∷ bs) =
      let rest = insert_time a bs in if ltb b.0 a.0 then b ∷ rest else a ∷ b ∷ bs

  unfoldable pub sort_times : List (ℕ × F) → List (ℕ × F)
  unfolding insert_time
  sort_times [] = []
  sort_times (a ∷ as') = insert_time a (sort_times as')

  abbrev values_of : List (ℕ × F) → List F
  values_of = map (λ x. x.1)

  abbrev first_of : List (ℕ × F) → ℕ
  first_of [] = 0
  first_of (a ∷ as') = a.0

  abbrev last_of : ℕ → List (ℕ × F) → ℕ
  last_of t [] = t
  last_of t (a ∷ as') = last_of a.0 as'

  abbrev mean_of : List (ℕ × F) → F
  mean_of [] = zero_float
  mean_of (a ∷ as') = over (sum_from zero_float (values_of (a ∷ as'))) (length (a ∷ as'))

  abbrev interval_of : List (ℕ × F) → ℕ
  interval_of [] = 0
  interval_of (a ∷ []) = 0
  interval_of (a ∷ b ∷ rest) = (last_of b.0 rest - a.0) / (length rest + 1)

  unfoldable pub aggregate : List CpuSample → ℕ → ℕ → CpuAgg
  unfolding counted by_container by_time sort_aggs sort_times
  aggregate samples start end =
      let used = counted start end samples in
      let times = sort_times (by_time [] used) in
      record {
        per_container = sort_aggs (map container_agg (by_container [] used));
        combined_avg = mean_of times;
        combined_peak = peak_from zero_float (values_of times);
        polls = length (by_time [] used);
        interval = interval_of times;
        windowed = if ltb (length (in_window start end samples)) 3 then false else true;
        first = first_of times;
        last = last_of 0 times;
      }
