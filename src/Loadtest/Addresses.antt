-- ===== src/Loadtest/Addresses.antt =====
-- cmd/loadtest/main.go: the client addresses that a load test claims (`ipFor`, `bucketAddrs` and the
-- two sources), and `markWindow`.
use secure_auth_gateway.Prelude.{
  ℕ, zero, suc, ◌+◌, ◌/◌, ◌%◌, ◌^◌, ◌≤◌, ◌<◌, ◌≡◌, ◌↔◌, ap, refl, true, ◌&&◌, List, [], ◌∷◌, ◌++◌,
  Text, codes, decimal, ltb, leb, arith, All, map,
}
use secure_auth_gateway.Loadtest.Samples.{Sample}

-- The last three numbers of an address in 198.18.0.0/15.
pub record Octets : Type 0 where
  pub second : ℕ
  pub third : ℕ
  pub fourth : ℕ

abbrev pub octets_below : ℕ → Octets
octets_below n = record { second = 18 + n / 65536; third = n / 256 % 256; fourth = n % 256 }

unfoldable pub octets : ℕ → Octets
octets n = octets_below (n % 2 ^ 17)

abbrev pub printed : Octets → Text
printed o =
    codes "198."
    ++ decimal o.second
    ++ codes "."
    ++ decimal o.third
    ++ codes "."
    ++ decimal o.fourth

unfoldable pub ip_for : ℕ → Text
unfolding octets
ip_for n = printed (octets n)

abbrev pub addresses_from : ℕ → ℕ → List Text
addresses_from zero i = []
addresses_from (suc n) i = ip_for i ∷ addresses_from n (suc i)

abbrev pub bucket_addrs : ℕ → List Text
bucket_addrs n = addresses_from n 0

-- The sources: the number of the request, counted by an atomic 64-bit counter, gives its address.
unfoldable pub bucket_next : ℕ → ℕ → Text
bucket_next n request = ip_for (request % n)

unfoldable pub unique_next : ℕ → Text
unique_next request = ip_for request

unfoldable pub mark_window : ℕ → ℕ → List Sample → List Sample
mark_window from width [] = []
mark_window from width (s ∷ ss) =
    record s { in_window = leb from s.at && ltb s.at (from + width) } ∷ mark_window from width ss

-- Up to 131072 requests have addresses that differ, and each is in the range.
pub octets_lem :
    (m n : ℕ)
    → m < 2 ^ 17
    → n < 2 ^ 17
    → ((octets m ≡ octets n) ↔ (m ≡ n)) × ((octets n).second ≤ 19) × (18 ≤ (octets n).second)
unfolding octets
octets_lem m n hm hn = (
  (λ e. omega (arith, ap (λ o. o.second) e, ap (λ o. o.third) e, ap (λ o. o.fourth) e), ap octets),
  ground arith,
  ground arith,
)

-- Marking keeps all samples in their order and marks exactly those that were sent in the window.
pub mark_window-All :
    (from width : ℕ) (ss : List Sample)
    → (map (λ s. s.at) (mark_window from width ss) ≡ map (λ s. s.at) ss)
      × All
          (λ s. (s.in_window ≡ true) ↔ ((from ≤ s.at) × (s.at < from + width)))
          (mark_window from width ss)
unfolding mark_window
mark_window-All from width [] = (refl, tt)
mark_window-All from width (s ∷ ss) =
    let (kept, marked) = mark_window-All from width ss in
    (ap (λ xs. s.at ∷ xs) kept, (ground arith, marked))
