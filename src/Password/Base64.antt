-- ===== src/Password/Base64.antt =====
-- `base64.RawStdEncoding` of the standard library, as internal/auth/password.go uses it.
pub mod RoundTrip
use mathlib.Core.Option
use secure_auth_gateway.Prelude.{
  ℕ, ◌+◌, ◌-◌, ◌*◌, ◌/◌, ◌%◌, ◌<◌, ◌≡◌, refl, ap, ◌≢◌, Bool, ◌&&◌, ◌||◌, Option, none, some, List,
  [], ◌∷◌, Text, All, ltb, leb, ◌==◌, if◌then◌else◌, arith,
}

-- The character of a six-bit value.
unfoldable pub encode_sextet : ℕ → ℕ
encode_sextet v =
    if ltb v 26
    then v + 65
    else if ltb v 52
    then v + 71
    else if ltb v 62
    then v - 4
    else if v == 62
    then 43
    else 47

unfoldable pub encode : List ℕ → Text
encode [] = []
encode (a ∷ []) = encode_sextet (a / 4) ∷ encode_sextet ((a % 4) * 16) ∷ []
encode (a ∷ b ∷ []) =
    encode_sextet (a / 4)
    ∷ encode_sextet ((a % 4) * 16 + b / 16)
    ∷ encode_sextet ((b % 16) * 4)
    ∷ []
encode (a ∷ b ∷ c ∷ rest) =
    encode_sextet (a / 4)
    ∷ encode_sextet ((a % 4) * 16 + b / 16)
    ∷ encode_sextet ((b % 16) * 4 + c / 64)
    ∷ encode_sextet (c % 64)
    ∷ encode rest

unfoldable pub decode_sextet : ℕ → Option ℕ
decode_sextet c =
    if leb 65 c && leb c 90
    then some (c - 65)
    else if leb 97 c && leb c 122
    then some (c - 71)
    else if leb 48 c && leb c 57
    then some (c + 4)
    else if c == 43
    then some 62
    else if c == 47
    then some 63
    else none

-- The values of the characters; line ends are skipped, any other character is an error.
unfoldable pub sextets : Text → Option (List ℕ)
sextets [] = some []
sextets (c ∷ s) =
    let rest = sextets s in
    if c == 10 || c == 13
    then rest
    else elim (decode_sextet c) [ none ↦ none | some v ↦ Option.map (◌∷◌ v) rest ]

-- Three bytes from four values; a single value left over is an error, unused low bits are not.
unfoldable pub join_sextets : List ℕ → Option (List ℕ)
join_sextets [] = some []
join_sextets (x ∷ []) = none
join_sextets (x ∷ y ∷ []) = some ((x * 4 + y / 16) ∷ [])
join_sextets (x ∷ y ∷ z ∷ []) = some ((x * 4 + y / 16) ∷ ((y % 16) * 16 + z / 4) ∷ [])
join_sextets (x ∷ y ∷ z ∷ u ∷ rest) =
    Option.map (λ bs. (x * 4 + y / 16) ∷ ((y % 16) * 16 + z / 4) ∷ ((z % 4) * 64 + u) ∷ bs)
      (join_sextets rest)

unfoldable pub decode : Text → Option (List ℕ)
unfolding sextets join_sextets
decode s = elim (sextets s) [ none ↦ none | some vs ↦ join_sextets vs ]
