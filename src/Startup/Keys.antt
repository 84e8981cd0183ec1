-- ===== src/Startup/Keys.antt =====
-- The keys of cmd/keygen/main.go and cmd/api/main.go, and what a start comes from.
use secure_auth_gateway.Prelude.{
  ℕ, ◌<◌, ◌≡◌, refl, true, inl, inr, Option-cases, arith, none, some, List, ◌∷◌, ◌++◌, Text, length,
  All, ap, sym, codes, append-cancel_left, ◌∙◌,
}
use secure_auth_gateway.Platform.{Platform}
use secure_auth_gateway.Platform.World.{World}
use secure_auth_gateway.Password.Base64.RoundTrip.{IsByte}
use secure_auth_gateway.Tokens.{
  AccessTokenSigner, RefreshTokenMaker, new_access_token_signer, new_refresh_token_maker,
  private_key_size, symmetric_key_size,
}
use secure_auth_gateway.Handlers.Responses.{AuthHandler, new_auth_handler}
use secure_auth_gateway.Handlers.PublicKey.{hex}
use secure_auth_gateway.Startup.{
  decode_hex, Environment, started, start, start_maker, start_services, start_handler,
  connect_postgres, connect_redis, run_migrations, keygen, connect_retries,
}
use secure_auth_gateway.Startup.Steps.{
  decode_hex-hex, new_signer_lem, new_maker_lem, open_pool-baseline, start_services-started,
}

module _ {p : Platform} where
  -- What a start has checked: both keys are hexadecimal and have their sizes, the services are
  -- there, the migrations have run, and the delay target is measured and positive.
  pub record IsStarted (env : Environment) (h : AuthHandler) (w w' : World p) : Type 0 where
    pub private_key :
        decode_hex env.access_token_private_key ≡ some h.access_token_maker.private_key
    pub private_size : length h.access_token_maker.private_key ≡ private_key_size
    pub refresh_key : decode_hex env.refresh_token_key ≡ some h.refresh_token_maker.key
    pub refresh_size : length h.refresh_token_maker.key ≡ symmetric_key_size
    pub postgres : (connect_postgres p env w).0 ≡ true
    pub migrated : run_migrations env ≡ true
    pub redis : (connect_redis p env (connect_postgres p env w).1).0 ≡ true
    pub calibrated : (c : ℕ) × (w'.baseline ≡ some c) × (0 < c)

  start_maker-started :
      (env : Environment) (signer : AccessTokenSigner) (h : AuthHandler) (w : World p)
      → (start_maker p env signer w).0 ≡ started h
      → (key : List ℕ) × (maker : RefreshTokenMaker) × (decode_hex env.refresh_token_key ≡ some key)
        × (new_refresh_token_maker key ≡ some maker)
        × (let (ok, w') = connect_postgres p env w in
            start_maker p env signer w ≡ start_services p env signer maker ok w')
  unfolding start_maker
  start_maker-started env signer h w e = elim (Option-cases (decode_hex env.refresh_token_key)) [
    | inl unread ↦ absurd (ground arith)
    | inr (key, read) ↦ elim (Option-cases (new_refresh_token_maker key)) [
      | inl refused ↦ absurd (ground arith)
      | inr (maker, made) ↦ (key, maker, read, made, rw (read, start_maker, made) refl)
    ]
  ]

  start-maker :
      (env : Environment) (h : AuthHandler) (w : World p)
      → (start p env w).0 ≡ started h
      → (key : List ℕ) × (signer : AccessTokenSigner) × (decode_hex env.access_token_private_key
          ≡ some key)
        × (new_access_token_signer key ≡ some signer)
        × (start p env w ≡ start_maker p env signer w)
  unfolding start
  start-maker env h w e = elim (Option-cases (decode_hex env.access_token_private_key)) [
    | inl unread ↦ absurd (ground arith)
    | inr (key, read) ↦ elim (Option-cases (new_access_token_signer key)) [
      | inl refused ↦ absurd (ground arith)
      | inr (signer, made) ↦ (key, signer, read, made, rw (read, start, made) refl)
    ]
  ]

  -- A process that starts has decoded both keys and checked their sizes, reached Postgres and Redis,
  -- run the migrations, and measured a positive delay target.
  pub start-IsStarted :
      (env : Environment) (h : AuthHandler) (w : World p)
      → w.baseline ≡ none
      → (start p env w).0 ≡ started h
      → IsStarted env h w (start p env w).1
  unfolding connect_postgres
  start-IsStarted env h w fresh e =
      let (key1, signer, read1, made1, same1) = start-maker env h w e in
      let (key2, maker, read2, made2, same2) = start_maker-started env signer h w (rw same1 at e) in
      let (ok, w') = connect_postgres p env w in
      let (up, migrated, redis, same, calibrated) =
        start_services-started env signer maker ok h w'
          (open_pool-baseline env connect_retries w ∙ fresh) (rw (same1, same2) at e) in
      let (is_key1, size1) = new_signer_lem key1 signer made1 in
      let (is_key2, size2) = new_maker_lem key2 maker made2 in
      rw (same1, same2, ← same)
        (record {
          private_key = read1 ∙ ap some (sym is_key1);
          private_size = ap length is_key1 ∙ size1;
          refresh_key = read2 ∙ ap some (sym is_key2);
          refresh_size = ap length is_key2 ∙ size2;
          postgres = up;
          migrated = migrated;
          redis = redis;
          calibrated = calibrated;
        })

  -- Keys of the right sizes in the form that `keygen` prints are accepted: with the services there,
  -- the gateway starts with these keys.
  start-hex :
      (env : Environment) (private refresh_key : List ℕ) (w : World p)
      → All IsByte private
      → All IsByte refresh_key
      → length private ≡ private_key_size
      → length refresh_key ≡ symmetric_key_size
      → env.access_token_private_key ≡ hex private
      → env.refresh_token_key ≡ hex refresh_key
      → (connect_postgres p env w).0 ≡ true
      → run_migrations env ≡ true
      → (connect_redis p env (connect_postgres p env w).1).0 ≡ true
      → (start p env w).0
        ≡ started
            (new_auth_handler (record { private_key = private }) (record { key = refresh_key }))
  unfolding start start_maker start_services start_handler new_access_token_signer
      new_refresh_token_maker
  start-hex env private refresh_key w bytes1 bytes2 size1 size2 set1 set2 postgres migrated redis =
      let read1 = ap decode_hex set1 ∙ decode_hex-hex private bytes1 in
      let read2 = ap decode_hex set2 ∙ decode_hex-hex refresh_key bytes2 in
      rw (read1, start, size1, read2, start_maker, size2, postgres, start_services, migrated, redis)
        refl

  -- A process whose environment has the two lines that `keygen` prints starts with those keys, if
  -- they have their sizes and the services are there.
  pub start-keygen :
      (env : Environment) (public private refresh_key : List ℕ) (more : List Text) (w : World p)
      → All IsByte private
      → All IsByte refresh_key
      → length private ≡ private_key_size
      → length refresh_key ≡ symmetric_key_size
      → keygen (some (public, private)) (some refresh_key)
        ≡ some (
            (codes "ACCESS_TOKEN_PRIVATE_KEY=" ++ env.access_token_private_key)
            ∷ (codes "REFRESH_TOKEN_KEY=" ++ env.refresh_token_key)
            ∷ more)
      → (connect_postgres p env w).0 ≡ true
      → run_migrations env ≡ true
      → (connect_redis p env (connect_postgres p env w).1).0 ≡ true
      → (start p env w).0
        ≡ started
            (new_auth_handler (record { private_key = private }) (record { key = refresh_key }))
  unfolding keygen
  start-keygen env public private refresh_key more w bytes1 bytes2 size1 size2 printed =
      let line1 : codes "ACCESS_TOKEN_PRIVATE_KEY=" ++ hex private
          ≡ codes "ACCESS_TOKEN_PRIVATE_KEY=" ++ env.access_token_private_key =
        cc in
      let line2 : codes "REFRESH_TOKEN_KEY=" ++ hex refresh_key
          ≡ codes "REFRESH_TOKEN_KEY=" ++ env.refresh_token_key =
        cc in
      start-hex env private refresh_key w bytes1 bytes2 size1 size2
        (sym (append-cancel_left (codes "ACCESS_TOKEN_PRIVATE_KEY=") _ _ line1))
        (sym (append-cancel_left (codes "REFRESH_TOKEN_KEY=") _ _ line2))
