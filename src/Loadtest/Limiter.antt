-- ===== src/Loadtest/Limiter.antt =====
-- `reportLimiter` (cmd/loadtest/stats.go): what a phase shows of the limiter, by address.
use secure_auth_gateway.Prelude.{
  ℕ, suc, ◌≤◌, ◌≡◌, refl, sym, ◌∙◌, true, Bool-cases, inl, inr, Option, none, some, List, [], ◌∷◌,
  Text, text_eq, text_eq_refl, text_eq_iff, ltb, ◌==◌, if◌then◌else◌, arith, All, ap,
}
use secure_auth_gateway.Loadtest.Samples.{Sample, Failure}

abbrev pub ByIp : Type 0
ByIp = List (Text × ℕ)

unfoldable pub at_ip : Text → ByIp → Option ℕ
at_ip ip [] = none
at_ip ip ((k, n) ∷ rest) = let later = at_ip ip rest in if text_eq k ip then some n else later

unfoldable pub assign : Text → ℕ → ByIp → ByIp
assign ip v [] = (ip, v) ∷ []
assign ip v ((k, n) ∷ rest) =
    let later = assign ip v rest in if text_eq k ip then (ip, v) ∷ rest else (k, n) ∷ later

abbrev pub or_zero : Option ℕ → ℕ
or_zero none = 0
or_zero (some n) = n

-- `admitted[ip]++`
abbrev pub admit : Text → ByIp → ByIp
admit ip m = assign ip (suc (or_zero (at_ip ip m))) m

abbrev pub noted : Option ℕ → Text → ℕ → ByIp → ByIp
noted none ip time m = assign ip time m
noted (some t) ip time m = if ltb time t then assign ip time m else m

-- The earliest time that was seen of an address.
unfoldable pub note_first : Text → ℕ → ByIp → ByIp
unfolding at_ip assign
note_first ip time m = noted (at_ip ip m) ip time m

pub record LimiterMaps : Type 0 where
  pub admitted : ByIp
  pub first_req : ByIp
  pub first_429 : ByIp

unfoldable pub limiter_sample : ℕ → Option Failure → Sample → LimiterMaps → LimiterMaps
unfolding note_first
limiter_sample ok (some e) s m = m
limiter_sample ok none s m =
    let seen = record m { first_req = note_first s.ip s.at m.first_req } in
    if s.status == ok
    then record seen { admitted = admit s.ip m.admitted }
    else if s.status == 429
    then record seen { first_429 = note_first s.ip s.at m.first_429 }
    else seen

unfoldable pub limiter_maps : ℕ → List Sample → LimiterMaps → LimiterMaps
unfolding limiter_sample
limiter_maps ok [] m = m
limiter_maps ok (s ∷ ss) m = limiter_maps ok ss (limiter_sample ok s.err s m)

-- An address has an entry that is at most a bound.
abbrev pub Bounded : Text → ℕ → ByIp → Type 0
Bounded ip b m = (t : ℕ) × (at_ip ip m ≡ some t) × (t ≤ b)

at_ip-assign :
    (j ip : Text) (v : ℕ) (m : ByIp)
    → at_ip j (assign ip v m) ≡ (if text_eq ip j then some v else at_ip j m)
unfolding at_ip assign
at_ip-assign j ip v [] = refl
at_ip-assign j ip v ((k, n) ∷ rest) = elim (Bool-cases (text_eq k ip)) [
  | inl same ↦
      let key : text_eq k j ≡ text_eq ip j = ap (λ x. text_eq x j) ((text_eq_iff k ip).0 same) in
      elim (Bool-cases (text_eq ip j)) [
        | inl hit ↦ rw (same, key, hit) refl
        | inr miss ↦ rw (same, key, miss) refl
      ]
  | inr other ↦ elim (Bool-cases (text_eq k j)) [
    | inr miss ↦ rw (other, miss) (at_ip-assign j ip v rest)
    | inl hit ↦ elim (Bool-cases (text_eq ip j)) [
      | inr ip_miss ↦ rw (other, hit, ip_miss) refl
      | inl ip_hit ↦
          let e : k ≡ ip = (text_eq_iff k j).0 hit ∙ sym ((text_eq_iff ip j).0 ip_hit) in
          let contradiction : text_eq k ip ≡ true = (text_eq_iff k ip).1 e in absurd (ground arith)
    ]
  ]
]

noted-Bounded :
    (o : Option ℕ) (ip : Text) (time : ℕ) (m : ByIp)
    → at_ip ip m ≡ o
    → Bounded ip time (noted o ip time m)
noted-Bounded none ip time m e =
    (time, rw (at_ip-assign ip ip time m, text_eq_refl ip) refl, omega arith)
noted-Bounded (some t) ip time m e = elim (Bool-cases (ltb time t)) [
  | inl earlier ↦
      rw earlier ((time, rw (at_ip-assign ip ip time m, text_eq_refl ip) refl, omega arith))
  | inr later ↦ rw later (t, e, ground arith)
]

-- An entry that is there only gets earlier.
noted-kept :
    (o : Option ℕ) (j ip : Text) (b time : ℕ) (m : ByIp)
    → at_ip ip m ≡ o
    → Bounded j b m
    → Bounded j b (noted o ip time m)
noted-kept none j ip b time m e (t, entry, h) = elim (Bool-cases (text_eq ip j)) [
  | inr miss ↦ (t, rw (at_ip-assign j ip time m, miss) entry, h)
  | inl hit ↦
      let missing : at_ip j m ≡ none = ap (λ x. at_ip x m) (sym ((text_eq_iff ip j).0 hit)) ∙ e in
      absurd (ground arith)
]
noted-kept (some old) j ip b time m e (t, entry, h) = elim (Bool-cases (ltb time old)) [
  | inr later ↦ rw later (t, entry, h)
  | inl earlier ↦ elim (Bool-cases (text_eq ip j)) [
    | inr miss ↦ rw earlier (t, rw (at_ip-assign j ip time m, miss) entry, h)
    | inl hit ↦
        let same : at_ip j m ≡ some old =
          ap (λ x. at_ip x m) (sym ((text_eq_iff ip j).0 hit)) ∙ e in
        rw earlier (time, rw (at_ip-assign j ip time m, hit) refl, ground arith)
  ]
]

sample-kept :
    (ok : ℕ) (e : Option Failure) (s : Sample) (m : LimiterMaps) (j : Text) (b : ℕ)
    → Bounded j b m.first_req
    → Bounded j b (limiter_sample ok e s m).first_req
unfolding limiter_sample
sample-kept ok (some e) s m j b h = h
sample-kept ok none s m j b h = elim (Bool-cases (s.status == ok)) [
  | inl accepted ↦
      rw accepted (noted-kept (at_ip s.ip m.first_req) j s.ip b s.at m.first_req refl h)
  | inr other ↦ elim (Bool-cases (s.status == 429)) [
    | inl rejected ↦
        rw (other, rejected) (noted-kept (at_ip s.ip m.first_req) j s.ip b s.at m.first_req refl h)
    | inr neither ↦
        rw (other, neither) (noted-kept (at_ip s.ip m.first_req) j s.ip b s.at m.first_req refl h)
  ]
]

sample-noted :
    (ok : ℕ) (s : Sample) (m : LimiterMaps)
    → Bounded s.ip s.at (limiter_sample ok none s m).first_req
unfolding limiter_sample
sample-noted ok s m = elim (Bool-cases (s.status == ok)) [
  | inl accepted ↦ rw accepted (noted-Bounded (at_ip s.ip m.first_req) s.ip s.at m.first_req refl)
  | inr other ↦ elim (Bool-cases (s.status == 429)) [
    | inl rejected ↦
        rw (other, rejected) (noted-Bounded (at_ip s.ip m.first_req) s.ip s.at m.first_req refl)
    | inr neither ↦
        rw (other, neither) (noted-Bounded (at_ip s.ip m.first_req) s.ip s.at m.first_req refl)
  ]
]

maps-kept :
    (ok : ℕ) (ss : List Sample) (m : LimiterMaps) (j : Text) (b : ℕ)
    → Bounded j b m.first_req
    → Bounded j b (limiter_maps ok ss m).first_req
unfolding limiter_maps
maps-kept ok [] m j b h = h
maps-kept ok (s ∷ ss) m j b h =
    maps-kept ok ss (limiter_sample ok s.err s m) j b (sample-kept ok s.err s m j b h)

-- Of each address that a request without an error used, the first request is noted, and at a time
-- that is no later than that request.
pub limiter_maps-All :
    (ok : ℕ) (ss : List Sample) (m : LimiterMaps)
    → All (λ s. s.err ≡ none → Bounded s.ip s.at (limiter_maps ok ss m).first_req) ss
unfolding limiter_maps
limiter_maps-All ok [] m = tt
limiter_maps-All ok (s ∷ ss) m =
    let m' = limiter_sample ok s.err s m in
    (
      λ sent. maps-kept ok ss m' s.ip s.at (rw sent (sample-noted ok s m)),
      limiter_maps-All ok ss m',
    )
