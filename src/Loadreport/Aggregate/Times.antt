-- ===== src/Loadreport/Aggregate/Times.antt =====
-- cmd/loadreport/input.go, `aggregate`: the times in the map from times to sums.
use secure_auth_gateway.Prelude.{
  ℕ, ◌≡◌, ◌⊎◌, refl, inl, inr, Bool-cases, List, [], ◌∷◌, ◌==◌, ==_iff, All, arith,
}
use secure_auth_gateway.Loadreport.Aggregate.{Floats, CpuSample, add_at, by_time}

module _ (fl : Floats) where
  open fl use {F}

  abbrev pub HasTime : ℕ → List (ℕ × F) → Type 0
  HasTime t [] = ⊥
  HasTime t ((u, sum) ∷ sums) = (u ≡ t) ⊎ HasTime t sums

  abbrev pub IsDistinct : List (ℕ × F) → Type 0
  IsDistinct [] = Unit
  IsDistinct ((u, sum) ∷ sums) = (¬ HasTime u sums) × IsDistinct sums

  HasTime-add_at : (t : ℕ) (v : F) (sums : List (ℕ × F)) → HasTime t (add_at fl t v sums)
  unfolding add_at
  HasTime-add_at t v [] = inl refl
  HasTime-add_at t v ((u, sum) ∷ sums) = elim (Bool-cases (u == t)) [
    | inl same ↦ rw (same, add_at) (inl ((==_iff u t).0 same))
    | inr differs ↦ rw (differs, add_at) (inr (HasTime-add_at t v sums))
  ]

  HasTime-kept :
      (s t : ℕ) (v : F) (sums : List (ℕ × F)) → HasTime s sums → HasTime s (add_at fl t v sums)
  unfolding add_at
  HasTime-kept s t v [] h = absurd h
  HasTime-kept s t v ((u, sum) ∷ sums) h = elim (Bool-cases (u == t)) [
    | inl same ↦ rw (same, add_at) (elim h [ inl e ↦ inl e | inr rest ↦ inr rest ])
    | inr differs ↦
        rw (differs, add_at)
          (elim h [ inl e ↦ inl e | inr rest ↦ inr (HasTime-kept s t v sums rest) ])
  ]

  HasTime-back :
      (s t : ℕ) (v : F) (sums : List (ℕ × F))
      → HasTime s (add_at fl t v sums)
      → (t ≡ s) ⊎ HasTime s sums
  unfolding add_at
  HasTime-back s t v [] (inl e) = inl e
  HasTime-back s t v [] (inr h) = absurd h
  HasTime-back s t v ((u, sum) ∷ sums) h = elim (Bool-cases (u == t)) [
    | inl same ↦ inr (rw (same, add_at) at h)
    | inr differs ↦
        let h' : (u ≡ s) ⊎ HasTime s (add_at fl t v sums) = rw (differs, add_at) at h in
        let back = HasTime-back s t v sums in
        elim h' [
          | inl e ↦ inr (inl e)
          | inr rest ↦ elim (back rest) [ inl e ↦ inl e | inr old ↦ inr (inr old) ]
        ]
  ]

  IsDistinct-add_at :
      (t : ℕ) (v : F) (sums : List (ℕ × F)) → IsDistinct sums → IsDistinct (add_at fl t v sums)
  unfolding add_at
  IsDistinct-add_at t v [] h = (λ e. e, tt)
  IsDistinct-add_at t v ((u, sum) ∷ sums) (new, rest) = elim (Bool-cases (u == t)) [
    | inl same ↦ rw (same, add_at) (new, rest)
    | inr differs ↦
        rw (differs, add_at)
          (
            λ found. elim (HasTime-back u t v sums found) [
              | inl e ↦ absurd (ground (arith, ==_iff u t))
              | inr old ↦ new old
            ],
            IsDistinct-add_at t v sums rest,
          )
  ]

  pub by_time-IsDistinct :
      (sums : List (ℕ × F)) (ss : List (CpuSample fl))
      → IsDistinct sums
      → IsDistinct (by_time fl sums ss)
  unfolding by_time
  by_time-IsDistinct sums [] h = h
  by_time-IsDistinct sums (s ∷ ss) h =
      by_time-IsDistinct (add_at fl s.at s.cpu sums) ss (IsDistinct-add_at s.at s.cpu sums h)

  by_time-kept :
      (t : ℕ) (sums : List (ℕ × F)) (ss : List (CpuSample fl))
      → HasTime t sums
      → HasTime t (by_time fl sums ss)
  unfolding by_time
  by_time-kept t sums [] h = h
  by_time-kept t sums (s ∷ ss) h =
      by_time-kept t (add_at fl s.at s.cpu sums) ss (HasTime-kept t s.at s.cpu sums h)

  pub by_time-All :
      (sums : List (ℕ × F)) (ss : List (CpuSample fl))
      → All (λ s. HasTime s.at (by_time fl sums ss)) ss
  unfolding by_time
  by_time-All sums [] = tt
  by_time-All sums (s ∷ ss) = (
    by_time-kept s.at (add_at fl s.at s.cpu sums) ss (HasTime-add_at s.at s.cpu sums),
    by_time-All (add_at fl s.at s.cpu sums) ss,
  )

  abbrev pub HasSample : ℕ → List (CpuSample fl) → Type 0
  HasSample t [] = ⊥
  HasSample t (s ∷ ss) = (s.at ≡ t) ⊎ HasSample t ss

  pub by_time-back :
      (t : ℕ) (sums : List (ℕ × F)) (ss : List (CpuSample fl))
      → HasTime t (by_time fl sums ss)
      → HasSample t ss ⊎ HasTime t sums
  unfolding by_time
  by_time-back t sums [] h = inr h
  by_time-back t sums (s ∷ ss) h = elim (by_time-back t (add_at fl s.at s.cpu sums) ss h) [
    | inl later ↦ inl (inr later)
    | inr old ↦ elim (HasTime-back t s.at s.cpu sums old) [
      | inl e ↦ inl (inl e)
      | inr before ↦ inr before
    ]
  ]
