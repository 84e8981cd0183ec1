-- ===== src/Prelude/Strings.antt =====
-- Go strings as lists of code points, with a test for equality and the literals.
use Prim.Native.Char.{code}
use Prim.Native.String.{String}
use Prim.Native.Nat.{ℕ, zero, suc, ◌+◌, ◌/◌, ◌%◌, ◌*◌, ◌-◌, ◌≤◌, ◌<◌}
use mathlib.Core.Path.{◌≡◌, ◌∙◌, refl}
use mathlib.Core.Logic.{◌↔◌, inl, inr}
use mathlib.Core.Bool.{Bool, true, false, ◌&&◌, ◌||◌}
use mathlib.Core.List.{List, [], ◌∷◌, ◌++◌, reverse}
use native.Mathlib.Omega.{arith}
use secure_auth_gateway.Prelude.Lists.{length}
use secure_auth_gateway.Prelude.Tests.{◌==◌, ltb, leb, lt→ltb, Bool-cases, if◌then◌else◌}

abbrev pub Text : Type 0
Text = List ℕ

abbrev pub codes : String → Text
codes String.[] = []
codes (String.◌∷◌ c s) = code c ∷ codes s

unfoldable pub text_eq : Text → Text → Bool
text_eq [] [] = true
text_eq (a ∷ s) (b ∷ t) = a == b && text_eq s t
text_eq _ _ = false

pub text_eq_refl : (s : Text) → text_eq s s ≡ true
unfolding text_eq
text_eq_refl [] = refl
text_eq_refl (a ∷ s) = ground (arith, text_eq_refl s)

eq_of_text_eq : (s t : Text) → text_eq s t ≡ true → s ≡ t
unfolding text_eq
eq_of_text_eq [] [] h = refl
eq_of_text_eq (a ∷ s) (b ∷ t) h = ground (arith, eq_of_text_eq s t)
eq_of_text_eq [] (b ∷ t) h = cc
eq_of_text_eq (a ∷ s) [] h = cc

text_eq_of_eq : (s t : Text) → s ≡ t → text_eq s t ≡ true
text_eq_of_eq s t e = rw e (text_eq_refl t)

pub text_eq_iff : (s t : Text) → (text_eq s t ≡ true) ↔ (s ≡ t)
text_eq_iff s t = (eq_of_text_eq s t, text_eq_of_eq s t)

pub append-cancel_left : (p s t : Text) → p ++ s ≡ p ++ t → s ≡ t
append-cancel_left [] s t e = e
append-cancel_left (a ∷ p) s t e = append-cancel_left p s t (cc)

-- `strconv.Itoa` of a number that is not negative.
decimal_from : ℕ → ℕ → Text → Text
decimal_from zero n acc = acc
decimal_from (suc fuel) n acc =
    let acc' = (b'0' + n % 10) ∷ acc in
    let rest = decimal_from fuel (n / 10) acc' in if ltb n 10 then acc' else rest

-- A number has at most as many digits as its value, plus one.
unfoldable pub decimal : ℕ → Text
unfolding decimal_from
decimal n = decimal_from (suc n) n []

pub decimal_digit : (n : ℕ) → n < 10 → decimal n ≡ (b'0' + n % 10) ∷ []
unfolding decimal decimal_from
decimal_digit n h = let small : ltb n 10 ≡ true = lt→ltb n 10 h in rw small refl

-- The digits of a number are '0' to '9'.
abbrev pub IsDigits : Text → Type 0
IsDigits [] = Unit
IsDigits (c ∷ s) = (48 ≤ c) × (c < 58) × IsDigits s

decimal_from-IsDigits :
    (fuel n : ℕ) (acc : Text) → IsDigits acc → IsDigits (decimal_from fuel n acc)
unfolding decimal_from
decimal_from-IsDigits zero n acc h = h
decimal_from-IsDigits (suc fuel) n acc h =
    let acc' = (b'0' + n % 10) ∷ acc in
    let longer : IsDigits acc' = (omega arith, omega arith, h) in
    elim (Bool-cases (ltb n 10)) [
      | inl small ↦ rw (small, decimal_from) longer
      | inr large ↦ rw (large, decimal_from) (decimal_from-IsDigits fuel (n / 10) acc' longer)
    ]

pub decimal-IsDigits : (n : ℕ) → IsDigits (decimal n)
unfolding decimal
decimal-IsDigits n = decimal_from-IsDigits (suc n) n [] tt

decimal_from-longer : (fuel n : ℕ) (acc : Text) → length acc ≤ length (decimal_from fuel n acc)
unfolding decimal_from
decimal_from-longer zero n acc = omega arith
decimal_from-longer (suc fuel) n acc =
    let acc' = (b'0' + n % 10) ∷ acc in
    elim (Bool-cases (ltb n 10)) [
      | inl small ↦ rw (small, decimal_from) (omega arith)
      | inr large ↦ rw (large, decimal_from) (omega (arith, decimal_from-longer fuel (n / 10) acc'))
    ]

-- A number has a digit.
pub length-decimal_pos : (n : ℕ) → 0 < length (decimal n)
unfolding decimal decimal_from
length-decimal_pos n = elim (Bool-cases (ltb n 10)) [
  | inl small ↦ rw (small, decimal_from) (omega arith)
  | inr large ↦
      rw (large, decimal_from)
        (omega (arith, decimal_from-longer n (n / 10) ((b'0' + n % 10) ∷ [])))
]

-- The number that the digits of a text make behind the number n; what is no digit is left out.
unfoldable pub number : ℕ → Text → ℕ
number n [] = n
number n (c ∷ s) =
    let rest = number n s in if leb 48 c && ltb c 58 then number (10 * n + (c - 48)) s else rest

pub number-append : (n : ℕ) (s t : Text) → number n (s ++ t) ≡ number (number n s) t
unfolding number
number-append n [] t = refl
number-append n (c ∷ s) t = elim (Bool-cases (leb 48 c && ltb c 58)) [
  | inl digit ↦ rw (digit, number) (number-append (10 * n + (c - 48)) s t)
  | inr other ↦ rw (other, number) (number-append n s t)
]

number-decimal_from :
    (fuel n : ℕ) (acc : Text) → n < fuel → number 0 (decimal_from fuel n acc) ≡ number n acc
unfolding number decimal_from
number-decimal_from zero n acc low = absurd (omega arith)
number-decimal_from (suc fuel) n acc low =
    let acc' = (b'0' + n % 10) ∷ acc in
    let digit : (leb 48 (b'0' + n % 10) && ltb (b'0' + n % 10) 58) ≡ true = ground arith in
    elim (Bool-cases (ltb n 10)) [
      | inl small ↦
          let same : 10 * 0 + (b'0' + n % 10 - 48) ≡ n = ground arith in
          rw (small, decimal_from, digit, number, same) refl
      | inr large ↦
          let same : 10 * (n / 10) + (b'0' + n % 10 - 48) ≡ n = omega arith in
          rw (large, decimal_from)
            (number-decimal_from fuel (n / 10) acc' (ground arith) ∙ rw (digit, number, same) refl)
    ]

pub number-decimal : (n : ℕ) → number 0 (decimal n) ≡ n
unfolding decimal number
number-decimal n = number-decimal_from (suc n) n [] (omega arith)

-- `unicode.IsSpace`, which `strings.TrimSpace` and `strings.Fields` use.
unfoldable pub is_space : ℕ → Bool
is_space c =
    (leb 0x9 c && leb c 0xd)
    || c == 0x20
    || c == 0x85
    || c == 0xa0
    || c == 0x1680
    || (leb 0x2000 c && leb c 0x200a)
    || c == 0x2028
    || c == 0x2029
    || c == 0x202f
    || c == 0x205f
    || c == 0x3000

unfoldable pub trim_left : Text → Text
trim_left [] = []
trim_left (c ∷ s) = if is_space c then trim_left s else c ∷ s

-- `strings.TrimSpace`
unfoldable pub trim_space : Text → Text
unfolding trim_left
trim_space s = reverse (trim_left (reverse (trim_left s)))

-- `strings.Fields`: the words in front of a position, with the one that is open there.
abbrev push_word : Text → List Text → List Text
push_word [] words = words
push_word (c ∷ w) words = (c ∷ w) ∷ words

fields_from : Text → Text → List Text
fields_from word [] = push_word (reverse word) []
fields_from word (c ∷ s) =
    let closed = push_word (reverse word) (fields_from [] s) in
    let longer = fields_from (c ∷ word) s in if is_space c then closed else longer

unfoldable pub fields : Text → List Text
unfolding fields_from is_space
fields s = fields_from [] s
