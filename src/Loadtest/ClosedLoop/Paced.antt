-- ===== src/Loadtest/ClosedLoop/Paced.antt =====
-- cmd/loadtest/main.go, `runPhase`: each user waits for its answer and for its think time.
use secure_auth_gateway.Prelude.{
  ℕ, suc, ◌+◌, ◌≤◌, ◌<◌, ◌≡◌, ◌↔◌, true, Option, some, List, [], ◌∷◌, ◌++◌, All, length, ◌==◌,
  if◌then◌else◌,
}
use secure_auth_gateway.Loadtest.Samples.{Sample}
use secure_auth_gateway.Loadtest.Addresses.{mark_window}
use secure_auth_gateway.Loadtest.ClosedLoop.{
  PhaseSettings, User, ramp_delay, window_start, deadline,
}

module _ (s : PhaseSettings) where
  -- How long a user waits after its request n.
  abbrev pub waited : User → ℕ → ℕ
  waited user n = if s.think == 0 then 0 else user.pause n

  -- Each sample was sent in time, and not before the one in front of it was answered and the
  -- think time was over.
  abbrev pub IsPaced : User → ℕ → ℕ → List Sample → Type 0
  IsPaced user n now [] = Unit
  IsPaced user n now (x ∷ xs) =
      (now ≤ x.at)
      × (x.at < deadline s)
      × IsPaced user (suc n) (x.at + user.took n + waited user n) xs

  pub record UserDone (user : User) (n now : ℕ) (result : Option (List Sample)) : Type 0 where
    pub samples : List Sample
    pub ended : result ≡ some samples
    pub paced : IsPaced user n now samples

  -- When a user begins.
  abbrev pub begins : ℕ → ℕ
  begins u = s.start + (if s.ramp == 0 then 0 else ramp_delay s u)

  abbrev pub flat : List (List Sample) → List Sample
  flat [] = []
  flat (xs ∷ rest) = xs ++ flat rest

  abbrev pub AllPaced : (ℕ → User) → ℕ → List (List Sample) → Type 0
  AllPaced who u [] = Unit
  AllPaced who u (xs ∷ rest) = IsPaced (who u) 0 (begins u) xs × AllPaced who (suc u) rest

  record UsersDone (who : ℕ → User) (left u : ℕ) (result : Option (List Sample)) : Type 0 where
    pub parts : List (List Sample)
    pub ended : result ≡ some (flat parts)
    pub each : length parts ≡ left
    pub paced : AllPaced who u parts

  pub record IsPhase (who : ℕ → User) (result : Option (List Sample)) : Type 0 where
    pub parts : List (List Sample)
    pub ended : result ≡ some (mark_window (window_start s) s.duration (flat parts))
    pub each : length parts ≡ s.users
    pub paced : AllPaced who 0 parts
    pub marked :
        All
          (λ x. (x.in_window ≡ true) ↔ (window_start s ≤ x.at))
          (mark_window (window_start s) s.duration (flat parts))
