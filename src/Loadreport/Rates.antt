-- ===== src/Loadreport/Rates.antt =====
-- cmd/loadreport/report.go, `rps`: a rate with one decimal and with commas.
use secure_auth_gateway.Prelude.{
  ℕ, suc, ◌+◌, ◌*◌, ◌/◌, ◌%◌, Bool, true, false, [], ◌∷◌, ◌++◌, Text, decimal, ltb, ◌==◌,
  if◌then◌else◌, pos,
}
use secure_auth_gateway.Loadreport.Commas.{commas}

-- `strconv.FormatFloat(part / d, 'f', 1, 64)` rounds to the nearest tenth, and a tie to the even one.
unfoldable pub nearest_tenth : ℕ → ℕ → ℕ
nearest_tenth part d =
    let q = 10 * part / d in
    let left = 10 * part % d in
    if ltb d (2 * left) then suc q else if 2 * left == d then q + q % 2 else q

abbrev pub fixed : ℕ → Text
fixed tenths = decimal (tenths / 10) ++ b'.' ∷ decimal (tenths % 10)

-- `strings.TrimPrefix(s, "0")`
abbrev pub trim_zero : Text → Text
trim_zero [] = []
trim_zero (c ∷ s) = if c == b'0' then s else c ∷ s

abbrev pub minus_sign : Bool → Text
minus_sign true = b'-' ∷ []
minus_sign false = []

-- The rate is whole + part / d, below 0 if `negative`; the difference of the floats is exact.
unfoldable pub rps : Bool → ℕ → ℕ → ℕ → Text
unfolding commas nearest_tenth
rps negative whole part d =
    minus_sign negative ++ (commas (pos whole) ++ trim_zero (fixed (nearest_tenth part d)))
