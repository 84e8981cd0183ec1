-- ===== src/Startup/Steps.antt =====
-- The steps of the start (cmd/api/main.go), from the last to the first, and its hexadecimal keys.
use secure_auth_gateway.Prelude.{
  ℕ, zero, suc, ◌/◌, ◌%◌, ◌<◌, ◌≡◌, refl, true, false, inl, inr, Bool-cases, arith, none, some,
  List, [], ◌∷◌, length, All, Bool, ap, ◌∙◌,
}
use secure_auth_gateway.Platform.{Platform}
use secure_auth_gateway.Platform.World.{World, redis_call, elapse}
use secure_auth_gateway.Platform.Redis.{ping}
use secure_auth_gateway.Password.Base64.RoundTrip.{IsByte}
use secure_auth_gateway.Timing.{calibrate_verify_cost}
use secure_auth_gateway.Timing.Bounds.{calibrate_verify_cost_pos}
use secure_auth_gateway.Tokens.{
  AccessTokenSigner, RefreshTokenMaker, new_access_token_signer, new_refresh_token_maker,
  private_key_size, symmetric_key_size,
}
use secure_auth_gateway.Handlers.Responses.{AuthHandler, new_auth_handler}
use secure_auth_gateway.Handlers.PublicKey.{hex, hex_digit}
use secure_auth_gateway.Startup.{
  hex_value, decode_hex, Environment, started, start_services, start_handler, connect_redis,
  run_migrations, ping_redis, open_pool, back_off, sleep, connect_backoff, connect_retries,
}

hex_value-hex_digit : (v : ℕ) → v < 16 → hex_value (hex_digit v) ≡ some v
hex_value-hex_digit v h = ground arith

-- Decoding the hexadecimal form of a list of bytes gives the list back.
pub decode_hex-hex : (bs : List ℕ) → All IsByte bs → decode_hex (hex bs) ≡ some bs
unfolding decode_hex hex
decode_hex-hex [] h = refl
decode_hex-hex (b ∷ bs) h =
    rw
      (
        hex_value-hex_digit (b / 16) (omega (arith, h.0)),
        hex_value-hex_digit (b % 16) (omega arith),
        decode_hex-hex bs h.1,
      )
      (ap (λ c. some (c ∷ bs)) (omega arith))

pub new_signer_lem :
    (key : List ℕ) (s : AccessTokenSigner)
    → new_access_token_signer key ≡ some s
    → (s.private_key ≡ key) × (length key ≡ private_key_size)
unfolding new_access_token_signer
new_signer_lem key s made = ground arith

pub new_maker_lem :
    (key : List ℕ) (m : RefreshTokenMaker)
    → new_refresh_token_maker key ≡ some m
    → (m.key ≡ key) × (length key ≡ symmetric_key_size)
unfolding new_refresh_token_maker
new_maker_lem key m made = ground arith

module _ {p : Platform} where
  ping_redis-baseline : (left : ℕ) (w : World p) → (ping_redis p left w).1.baseline ≡ w.baseline
  unfolding ping_redis redis_call back_off
  ping_redis-baseline zero w = refl
  ping_redis-baseline (suc zero) w = ground arith
  ping_redis-baseline (suc (suc left)) w =
      let w' = sleep p connect_backoff (redis_call p ping w).1 in
      ground (arith, ping_redis-baseline (suc left) w')

  pub open_pool-baseline :
      (env : Environment) (left : ℕ) (w : World p)
      → (open_pool p env left w).1.baseline ≡ w.baseline
  unfolding open_pool back_off
  open_pool-baseline env zero w = refl
  open_pool-baseline env (suc zero) w = ground arith
  open_pool-baseline env (suc (suc left)) w =
      let w' = sleep p connect_backoff (elapse p w) in
      ground (arith, open_pool-baseline env (suc left) w')

  start_handler-started :
      (signer : AccessTokenSigner) (maker : RefreshTokenMaker) (ok : Bool) (h : AuthHandler)
      (w : World p)
      → (start_handler p signer maker ok w).0 ≡ started h
      → (ok ≡ true)
        × (new_auth_handler signer maker ≡ h)
        × ((start_handler p signer maker ok w).1 ≡ (calibrate_verify_cost p w).1)
  unfolding start_handler
  start_handler-started signer maker false h w e = absurd (ground arith)
  start_handler-started signer maker true h w e = (refl, ground arith, refl)

  pub start_services-started :
      (env : Environment) (signer : AccessTokenSigner) (maker : RefreshTokenMaker) (ok : Bool)
      (h : AuthHandler) (w : World p)
      → w.baseline ≡ none
      → (start_services p env signer maker ok w).0 ≡ started h
      → (ok ≡ true)
        × (run_migrations env ≡ true)
        × ((connect_redis p env w).0 ≡ true)
        × (new_auth_handler signer maker ≡ h)
        × ((c : ℕ) × ((start_services p env signer maker ok w).1.baseline ≡ some c) × (0 < c))
  unfolding start_services connect_redis
  start_services-started env signer maker false h w fresh e = absurd (ground arith)
  start_services-started env signer maker true h w fresh e =
      elim (Bool-cases (run_migrations env)) [
        | inr failed ↦ absurd (ground arith)
        | inl migrated ↦
            let (ok, w') = connect_redis p env w in
            let (up, same, ended) =
              start_handler-started signer maker ok h w' (rw (migrated, start_services) at e) in
            let kept : w'.baseline ≡ none = ping_redis-baseline connect_retries w ∙ fresh in
            let (c, set, pos) = calibrate_verify_cost_pos p w' (rw kept tt) in
            (refl, migrated, up, same, (c, rw (migrated, start_services, ended) set, pos))
      ]
