-- ===== src/Loadreport/Commas.antt =====
-- cmd/loadreport/report.go, `commas`: a whole number with its digits in groups of three.
use secure_auth_gateway.Prelude.{
  ℕ, suc, ◌+◌, ◌-◌, ◌%◌, ◌≡◌, refl, ap, inl, inr, ◌&&◌, Bool-cases, [], ◌∷◌, length, ◌<◌, ◌≤◌, ◌++◌,
  List, All, length-decimal_pos, Text, decimal, ltb, ◌==◌, if◌then◌else◌, ℤ, pos, negsuc, arith,
}

-- The loop over the digits, at index i of `len`.
unfoldable pub grouped : ℕ → ℕ → Text → Text
grouped len i [] = []
grouped len i (c ∷ s) =
    let rest = c ∷ grouped len (suc i) s in
    if ltb 0 i && (len - i) % 3 == 0 then b',' ∷ rest else rest

abbrev grouped_digits : Text → Text
grouped_digits s = grouped (length s) 0 s

unfoldable pub commas : ℤ → Text
unfolding grouped
commas (pos n) = grouped_digits (decimal n)
commas (negsuc n) = b'-' ∷ grouped_digits (decimal (suc n))

abbrev pub flat : List Text → Text
flat [] = []
flat (g ∷ gs) = g ++ flat gs

-- The groups, each with a comma in front.
abbrev pub behind : List Text → Text
behind [] = []
behind (g ∷ gs) = b',' ∷ (g ++ behind gs)

-- The digits in groups of three from the right, of which the first may be shorter.
pub record IsGrouped (digits text : Text) : Type 0 where
  pub first : Text
  pub groups : List Text
  pub written : text ≡ first ++ behind groups
  pub whole : digits ≡ first ++ flat groups
  pub some_digit : 0 < length first
  pub at_most_three : length first ≤ 3
  pub threes : All (λ g. length g ≡ 3) groups

-- What the loop writes from an index behind the first digit on: the rest of a group, and groups.
record Rest (s text : Text) : Type 0 where
  pub head : Text
  pub groups : List Text
  pub written : text ≡ head ++ behind groups
  pub whole : s ≡ head ++ flat groups
  pub left : length head ≡ length s % 3
  pub threes : All (λ g. length g ≡ 3) groups

grouped-Rest : (len i : ℕ) (s : Text) → i + 1 + length s ≡ len → Rest s (grouped len (suc i) s)
unfolding grouped
grouped-Rest len i [] h = record {
  head = [];
  groups = [];
  written = refl;
  whole = refl;
  left = refl;
  threes = tt;
}
grouped-Rest len i (c ∷ s) h =
    let r = grouped-Rest len (suc i) s (omega arith) in
    elim (Bool-cases (ltb 0 (suc i) && (len - suc i) % 3 == 0)) [
      | inl comma ↦
          rw (comma, grouped)
            (record {
              head = [];
              groups = (c ∷ r.head) ∷ r.groups;
              written = ap (λ (t : Text). b',' ∷ c ∷ t) r.written;
              whole = ap (λ (t : Text). c ∷ t) r.whole;
              left = ground (arith, r.left);
              threes = (ground (arith, r.left), r.threes);
            })
      | inr none_here ↦
          rw (none_here, grouped)
            (record {
              head = c ∷ r.head;
              groups = r.groups;
              written = ap (λ (t : Text). c ∷ t) r.written;
              whole = ap (λ (t : Text). c ∷ t) r.whole;
              left = ground (arith, r.left);
              threes = r.threes;
            })
    ]

grouped_digits-IsGrouped : (s : Text) → 0 < length s → IsGrouped s (grouped_digits s)
unfolding grouped
grouped_digits-IsGrouped [] has = absurd (omega arith)
grouped_digits-IsGrouped (c ∷ s) has =
    let r = grouped-Rest (suc (length s)) 0 s (omega arith) in
    record {
      first = c ∷ r.head;
      groups = r.groups;
      written = ap (λ (t : Text). c ∷ t) r.written;
      whole = ap (λ (t : Text). c ∷ t) r.whole;
      some_digit = omega arith;
      at_most_three = omega (arith, r.left);
      threes = r.threes;
    }

-- The plain number without its sign, and the sign.
abbrev pub magnitude : ℤ → ℕ
magnitude (pos n) = n
magnitude (negsuc n) = suc n

abbrev pub signed : ℤ → Text → Text
signed (pos n) s = s
signed (negsuc n) s = b'-' ∷ s

-- The text is the sign and the digits of the number in groups with commas between them: each group
-- has three digits, but for the first one, which has one to three.
pub commas-IsGrouped :
    (n : ℤ) → (text : Text) × (commas n ≡ signed n text) × IsGrouped (decimal (magnitude n)) text
unfolding commas
commas-IsGrouped (pos n) = (_, refl, grouped_digits-IsGrouped (decimal n) (length-decimal_pos n))
commas-IsGrouped (negsuc n) =
    (_, refl, grouped_digits-IsGrouped (decimal (suc n)) (length-decimal_pos (suc n)))
