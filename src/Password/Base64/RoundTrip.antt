-- ===== src/Password/Base64/RoundTrip.antt =====
-- Unpadded base64 of bytes, as internal/auth/password.go writes and reads it.
use mathlib.Core.Option
use secure_auth_gateway.Prelude.{
  ℕ, ◌+◌, ◌*◌, ◌/◌, ◌%◌, ◌<◌, ◌≡◌, refl, ◌≢◌, some, List, [], ◌∷◌, Text, All, arith,
}
use secure_auth_gateway.Password.Base64.{
  encode_sextet, encode, decode_sextet, sextets, join_sextets, decode,
}

sextets-encode_sextet :
    (v : ℕ) (s : Text) → v < 64 → sextets (encode_sextet v ∷ s) ≡ Option.map (◌∷◌ v) (sextets s)
unfolding encode_sextet decode_sextet sextets
sextets-encode_sextet v s h = ground arith

abbrev pub IsByte : ℕ → Type 0
IsByte b = b < 256

-- What the values of an encoded list are, and that they join to the list.
abbrev Joins : Text → List ℕ → Type 0
Joins s bs = (vs : List ℕ) × (sextets s ≡ some vs) × (join_sextets vs ≡ some bs)

sextets-cons :
    (v : ℕ) (s : Text) (vs : List ℕ)
    → v < 64
    → sextets s ≡ some vs
    → sextets (encode_sextet v ∷ s) ≡ some (v ∷ vs)
sextets-cons v s vs h e = rw (sextets-encode_sextet v s h, e)

sextets-nil : sextets [] ≡ some []
unfolding sextets
sextets-nil = refl

encode-Joins : (bs : List ℕ) → All IsByte bs → Joins (encode bs) bs
unfolding encode join_sextets
encode-Joins [] h = ([], sextets-nil, refl)
encode-Joins (a ∷ []) h = (
  a / 4 ∷ (a % 4) * 16 ∷ [],
  sextets-cons _ _ _ (omega arith) (sextets-cons _ _ _ (omega arith) sextets-nil),
  ground arith,
)
encode-Joins (a ∷ b ∷ []) h = (
  a / 4 ∷ ((a % 4) * 16 + b / 16) ∷ (b % 16) * 4 ∷ [],
  sextets-cons _ _ _ (omega arith)
      (sextets-cons _ _ _ (omega arith) (sextets-cons _ _ _ (omega arith) sextets-nil)),
  ground arith,
)
encode-Joins (a ∷ b ∷ c ∷ rest) h =
    let (vs, read, joined) = encode-Joins rest h.1.1.1 in
    (
      a / 4 ∷ ((a % 4) * 16 + b / 16) ∷ ((b % 16) * 4 + c / 64) ∷ (c % 64) ∷ vs,
      sextets-cons _ _ _ (omega arith) (
          sextets-cons _ _ _ (omega arith)
            (sextets-cons _ _ _ (omega arith) (sextets-cons _ _ _ (omega arith) read))),
      ground arith,
    )

-- Decoding what was encoded gives the bytes back.
pub decode-encode : (bs : List ℕ) → All IsByte bs → decode (encode bs) ≡ some bs
unfolding decode
decode-encode bs h = let (vs, read, joined) = encode-Joins bs h in rw (read, decode) joined

dollar-free : (v : ℕ) → v < 64 → encode_sextet v ≢ b'$'
unfolding encode_sextet
dollar-free v h = ground arith

-- The encoded form has no dollar sign, which separates the parts of a stored hash.
pub encode-NoDollar : (bs : List ℕ) → All IsByte bs → All (λ c. c ≢ b'$') (encode bs)
unfolding encode
encode-NoDollar [] h = tt
encode-NoDollar (a ∷ []) h = (dollar-free _ (omega arith), (dollar-free _ (omega arith), tt))
encode-NoDollar (a ∷ b ∷ []) h =
    (dollar-free _ (omega arith), (dollar-free _ (omega arith), (dollar-free _ (omega arith), tt)))
encode-NoDollar (a ∷ b ∷ c ∷ rest) h = (
  dollar-free _ (omega arith),
  (
    dollar-free _ (omega arith),
    (dollar-free _ (omega arith), (dollar-free _ (omega arith), encode-NoDollar rest h.1.1.1)),
  ),
)
