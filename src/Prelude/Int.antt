-- ===== src/Prelude/Int.antt =====
-- Signed durations: the integers over the native numbers, with a point in time moved by one.
use Prim.Native.Nat.{ℕ, suc, ◌+◌, ◌-◌}
use secure_auth_gateway.Prelude.Tests.{leb, if◌then◌else◌}

-- `negsuc n` is -(n + 1).
pub data ℤ : Type 0 where
  pos : ℕ → ℤ
  negsuc : ℕ → ℤ

-- a - b, as an integer.
abbrev pub sub_ℕ : ℕ → ℕ → ℤ
sub_ℕ a b = if leb b a then pos (a - b) else negsuc (b - a - 1)

-- `t.Add(d)`, for a time at or after the epoch.
abbrev pub add_duration : ℕ → ℤ → ℕ
add_duration t (pos d) = t + d
add_duration t (negsuc d) = t - suc d
