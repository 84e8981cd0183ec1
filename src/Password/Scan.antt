-- ===== src/Password/Scan.antt =====
-- `strings.Split` at one character and the part of `fmt.Sscanf` that reads a stored hash.
use secure_auth_gateway.Prelude.{
  ℕ, ◌+◌, ◌-◌, ◌*◌, ◌^◌, Bool, true, false, ◌&&◌, Option, none, some, List, [], ◌∷◌, Text, codes,
  is_space, ltb, leb, ◌==◌, if◌then◌else◌,
}

abbrev pub on_head : (Text → Text) → List Text → List Text
on_head f [] = []
on_head f (part ∷ parts) = f part ∷ parts

-- `strings.Split(s, sep)`
unfoldable pub split : ℕ → Text → List Text
split sep [] = [] ∷ []
split sep (c ∷ s) =
    let parts = split sep s in if c == sep then [] ∷ parts else on_head (◌∷◌ c) parts

-- The characters of the format outside its verbs.
unfoldable pub literal : Text → Text → Option Text
literal [] s = some s
literal (c ∷ f) [] = none
literal (c ∷ f) (d ∷ s) = if c == d then literal f s else none

-- Before a verb spaces are skipped, but a line end (with or without a return) is an error.
unfoldable pub skip_space : Text → Option Text
skip_space [] = some []
skip_space (c ∷ s) =
    let rest = skip_space s in if c == 10 then none else if is_space c then rest else some (c ∷ s)

abbrev pub is_digit : ℕ → Bool
is_digit c = leb b'0' c && leb c b'9'

-- The value of the digits in front and what follows them.
unfoldable pub digits : ℕ → Text → ℕ × Text
digits acc [] = (acc, [])
digits acc (c ∷ s) =
    let rest = digits (acc * 10 + (c - b'0')) s in if is_digit c then rest else (acc, c ∷ s)

abbrev pub starts_with_digit : Text → Bool
starts_with_digit [] = false
starts_with_digit (c ∷ s) = is_digit c

abbrev pub within : ℕ → ℕ × Text → Option (ℕ × Text)
within bound (n, s) = if ltb n bound then some (n, s) else none

-- A number with at least one digit and below a bound.
unfoldable pub number_below : ℕ → Text → Option (ℕ × Text)
unfolding digits
number_below bound s = if starts_with_digit s then within bound (digits 0 s) else none

infixl 5 ◌>>=◌
abbrev pub ◌>>=◌ {ℓ κ} : {A : Type ℓ} {B : Type κ} → Option A → (A → Option B) → Option B
none >>= k = none
some a >>= k = k a

-- `%d` into an unsigned variable of `bits` bits.
unfoldable pub scan_uint : ℕ → Text → Option (ℕ × Text)
unfolding skip_space number_below
scan_uint bits s = do number_below (2 ^ bits) (← skip_space s)

-- `%d` into an `int`: a sign may stand in front. The result is the sign and the absolute value.
abbrev pub signed : Bool → Option (ℕ × Text) → Option (Bool × ℕ × Text)
signed negative none = none
signed negative (some (n, s)) = some (negative, n, s)

unfoldable pub scan_sign : Text → Option (Bool × ℕ × Text)
unfolding number_below
scan_sign [] = none
scan_sign (c ∷ s) =
    if c == b'-'
    then signed true (number_below (2 ^ 63 + 1) s)
    else signed false (if c == b'+' then number_below (2 ^ 63) s else number_below (2 ^ 63) (c ∷ s))

unfoldable pub scan_int : Text → Option (Bool × ℕ × Text)
unfolding skip_space scan_sign
scan_int s = do scan_sign (← skip_space s)

-- `Sscanf(s, "v=%d", &version)`
unfoldable pub scan_version : Text → Option (Bool × ℕ × Text)
unfolding literal scan_int is_space
scan_version s = do scan_int (← literal (codes "v=") s)

-- `Sscanf(s, "m=%d,t=%d,p=%d", &memory, &timeCost, &parallelism)`
unfoldable pub scan_parameters : Text → Option (ℕ × ℕ × ℕ)
unfolding literal scan_uint is_space
scan_parameters s = do
  (memory, s1) ← scan_uint 32 (← literal (codes "m=") s)
  (time, s2) ← scan_uint 32 (← literal (codes ",t=") s1)
  (parallelism, s3) ← scan_uint 8 (← literal (codes ",p=") s2)
  some (memory, time, parallelism)
