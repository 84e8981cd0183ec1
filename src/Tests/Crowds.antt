-- ===== src/Tests/Crowds.antt =====
-- A small phase of the closed loop: two users with a ramp and a think time.
use secure_auth_gateway.Prelude.{
  ℕ, ◌+◌, ◌≡◌, refl, Option, none, some, List, Bool, [], ◌∷◌, true, false, map,
}
use secure_auth_gateway.Routes.{fresh_response}
use secure_auth_gateway.Loadtest.Samples.{Sample}
use secure_auth_gateway.Loadtest.Addresses.{unique_next}
use secure_auth_gateway.Loadtest.Requests.{answered, do_request}
use secure_auth_gateway.Loadtest.ClosedLoop.{PhaseSettings, User, run_phase}

abbrev phase : PhaseSettings
phase = record { start = 100; ramp = 10; warmup = 5; duration = 20; think = 4; users = 2 }

-- User u takes u nanoseconds more than three.
abbrev visitor : ℕ → User
visitor u = record {
  took = λ n. 3 + u;
  ip = unique_next;
  exchange = λ n. answered fresh_response;
  pause = λ n. 4;
}

abbrev shown : Option (List Sample) → List (ℕ × Bool)
shown none = []
shown (some xs) = map (λ x. (x.at, x.in_window)) xs

sent_at :
    shown (run_phase phase visitor 36)
    ≡ (100, false)
      ∷ (107, false)
      ∷ (114, false)
      ∷ (121, true)
      ∷ (128, true)
      ∷ (105, false)
      ∷ (113, false)
      ∷ (121, true)
      ∷ (129, true)
      ∷ []
unfolding run_phase do_request
sent_at = refl

-- A request that is sent in the window and answered after its end at 135 is in the window.
abbrev slow : ℕ → User
slow u = record (visitor u) { took = λ n. 30 }

counts_late_answers :
    shown (run_phase (record phase { users = 1 }) slow 36) ≡ (100, false) ∷ (134, true) ∷ []
unfolding run_phase do_request
counts_late_answers = refl
