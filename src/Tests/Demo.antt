-- ===== src/Tests/Demo.antt =====
-- A gateway whose services are functions that can be run.
use secure_auth_gateway.Prelude.{
  ℕ, zero, suc, ◌+◌, ◌%◌, ◌≡◌, ◌≢◌, ◌<◌, refl, Bool, true, false, ◌||◌, ◌&&◌, Option, none, some,
  List, [], ◌∷◌, ◌++◌, Text, String, codes, length, arith, leb, ◌==◌, if◌then◌else◌, inl, All,
}
use secure_auth_gateway.Platform.{Platform, RedisLaws, LimiterLaws, PostgresLaws, PasetoLaws}
use secure_auth_gateway.Platform.Payload.{AccessTokenPayload, RefreshTokenPayload}
use secure_auth_gateway.Platform.Redis.{Keyspace, perform, Value, value, fail}
use secure_auth_gateway.Platform.Postgres.{User, respond}
use secure_auth_gateway.Platform.World.{World}
use secure_auth_gateway.Http.{Request, Credentials}
use secure_auth_gateway.Password.Base64.RoundTrip.{IsByte}
use secure_auth_gateway.Password.RoundTrip.{Argon2Laws}
use secure_auth_gateway.Handlers.Responses.{AuthHandler}

abbrev pub take : ℕ → List ℕ → List ℕ
take zero xs = []
take (suc n) [] = []
take (suc n) (x ∷ xs) = x ∷ take n xs

abbrev pub drop : ℕ → List ℕ → List ℕ
drop zero xs = xs
drop (suc n) [] = []
drop (suc n) (x ∷ xs) = drop n xs

pub take-append : (xs ys : List ℕ) → take (length xs) (xs ++ ys) ≡ xs
take-append [] ys = refl
take-append (x ∷ xs) ys = rw (take-append xs ys) refl

pub drop-append : (xs ys : List ℕ) → drop (length xs) (xs ++ ys) ≡ ys
drop-append [] ys = refl
drop-append (x ∷ xs) ys = drop-append xs ys

abbrev pub replicate : ℕ → ℕ → List ℕ
replicate zero b = []
replicate (suc n) b = b ∷ replicate n b

pub length-replicate : (n b : ℕ) → length (replicate n b) ≡ n
length-replicate zero b = refl
length-replicate (suc n) b = omega (arith, length-replicate n b)

pub replicate-IsByte : (n b : ℕ) → b < 256 → All IsByte (replicate n b)
replicate-IsByte zero b h = tt
replicate-IsByte (suc n) b h = (h, replicate-IsByte n b h)

abbrev pub sum : List ℕ → ℕ
sum [] = 0
sum (x ∷ xs) = x + sum xs

abbrev contains : ℕ → Text → Bool
contains c [] = false
contains c (x ∷ xs) = (x == c) || contains c xs

-- A token is its claims, written one behind the other.
abbrev written : ℕ → ℕ → Text → Text → Text
written issued expired one other = length one ∷ issued ∷ expired ∷ (one ++ other)

abbrev read_access : Text → Option AccessTokenPayload
read_access (n ∷ issued ∷ expired ∷ rest) = some (record {
  user_id = take n rest;
  role = drop n rest;
  meta = record { issued_at = issued; expired_at = expired };
})
read_access _ = none

abbrev read_refresh : Text → Option RefreshTokenPayload
read_refresh (n ∷ issued ∷ expired ∷ rest) = some (record {
  token_id = take n rest;
  user_id = drop n rest;
  meta = record { issued_at = issued; expired_at = expired };
})
read_refresh _ = none

abbrev sign_demo : List ℕ → AccessTokenPayload → Option Text
sign_demo key c = some (written c.meta.issued_at c.meta.expired_at c.user_id c.role)

abbrev encrypt_demo : ℕ → List ℕ → RefreshTokenPayload → Option Text
encrypt_demo call key c = some (written c.meta.issued_at c.meta.expired_at c.token_id c.user_id)

-- Every call takes one nanosecond, and the identifier of a call is its number.
abbrev pub demo : Platform
demo = record {
  Store = Keyspace;
  redis = perform;
  Tables = List User;
  postgres = λ now q rows. respond now ((length rows + 100) ∷ []) q rows;
  limiter = λ now ip r s. ((true, r), s);
  unrouted = λ req r. r;
  lag = λ call. 1;
  uuid = λ call. call ∷ [];
  salt = λ call. some (replicate 16 7);
  rand_int = λ call bound. elim bound [ zero ↦ none | suc n ↦ some n ];
  hung_up = λ call. none;
  valid_email = contains 64;
  lower = λ c. if leb 65 c && leb c 90 then c + 32 else c;
  id_key =
      λ password salt time memory threads size. replicate size ((sum password + sum salt) % 256);
  public_half = drop 32;
  sign = sign_demo;
  verify = λ t key. read_access t;
  encrypt = encrypt_demo;
  decrypt = λ t key. read_refresh t;
}

abbrev pub redis_laws : RedisLaws demo
redis_laws = record { view = λ s. s; redis_law = λ now c s. inl (refl, refl) }

abbrev pub limiter_laws : LimiterLaws demo (λ s. s)
limiter_laws = record { limiter_law = λ now ip r s k own. refl }

abbrev pub postgres_laws : PostgresLaws demo
postgres_laws = record {
  rows = λ b. b;
  new_id = λ b. (length b + 100) ∷ [];
  postgres_law = λ now q b. inl (refl, refl);
}

pub paseto_laws : PasetoLaws demo
paseto_laws = record {
  sign-verify =
      λ key c t made. ground (arith, take-append c.user_id c.role, drop-append c.user_id c.role);
  encrypt-decrypt = λ call key c t made.
      ground (arith, take-append c.token_id c.user_id, drop-append c.token_id c.user_id);
}

pub argon2_laws : Argon2Laws demo
argon2_laws = record {
  id_key-length = λ password salt time memory threads size. length-replicate size _;
  id_key-IsByte = λ password salt time memory threads size. replicate-IsByte size _ (omega arith);
}

-- An account, and the handler with its keys.
abbrev pub ann : User
ann = record {
  id = codes "1";
  email = codes "ann@x.org";
  password_hash = codes "";
  created_at = 0;
  role = codes "user";
}

abbrev pub handler : AuthHandler
handler = record {
  access_token_maker = record { private_key = replicate 64 1 };
  refresh_token_maker = record { key = replicate 32 2 };
}

abbrev pub start : World demo
start = record { now = 1000; tick = 1; store = λ k. none; tables = ann ∷ []; baseline = some 250 }

abbrev pub auth_request : String → Option Credentials → Option Text → Request
auth_request path body cookie = record {
  method = "POST";
  path = path;
  body = body;
  cookie = cookie;
  authorization = [];
  client_ip = codes "10.0.0.1";
}

abbrev pub bob : Credentials
bob = record { email = codes "bob@x.org"; password = codes "correct horse battery" }

pub value-fail : (v : Value) → value v ≢ fail
value-fail v e = ground arith
