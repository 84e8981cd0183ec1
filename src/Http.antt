-- ===== src/Http.antt =====
-- The parts of `net/http` that the handlers use: a request, and the response as it is written.
use secure_auth_gateway.Prelude.{
  ℕ, Bool, Option, none, some, List, [], ◌∷◌, ◌++◌, String, Text, codes, ℤ, if◌then◌else◌,
}
use text.Mathlib.Text.{◌==◌}

-- A decoded JSON body with the fields that the handlers read; a missing field is "".
pub record Credentials : Type 0 where
  pub email : Text
  pub password : Text

-- `body` is `none` where it is no JSON object with texts in these fields; `cookie` is the one named
-- "refresh_token"; `authorization` is "" without such a header.
pub record Request : Type 0 where
  pub method : String
  pub path : String
  pub body : Option Credentials
  pub cookie : Option Text
  pub authorization : Text
  pub client_ip : Text

pub record UserResponse : Type 0 where
  pub id : Text
  pub role : Text
  pub email : Text
  pub created_at : ℕ

pub data Field : Type 0 where
  str : String → Field
  txt : Text → Field
  user : UserResponse → Field

-- What is written: text as it stands, or an encoded map.
pub data Body : Type 0 where
  raw : String → Body
  object : List (String × Field) → Body

pub record Cookie : Type 0 where
  pub name : String
  pub value : Text
  pub path : String
  pub expires : ℕ
  pub max_age : ℤ
  pub http_only : Bool
  pub secure : Bool
  pub same_site_strict : Bool

pub record Response : Type 0 where
  pub headers : List (String × Text)
  pub cookies : List Cookie
  pub status : Option ℕ
  pub body : List Body

unfoldable pub set_header : String → Text → List (String × Text) → List (String × Text)
set_header k v [] = (k, v) ∷ []
set_header k v ((j, w) ∷ hs) = if j == k then (k, v) ∷ hs else (j, w) ∷ set_header k v hs

unfoldable pub get_header : String → List (String × Text) → Option Text
get_header k [] = none
get_header k ((j, w) ∷ hs) = if j == k then some w else get_header k hs

-- `w.Header().Set(k, v)`
abbrev pub header : String → Text → Response → Response
header k v r = record r { headers = set_header k v r.headers }

-- `http.SetCookie`
abbrev pub add_cookie : Cookie → Response → Response
add_cookie c r = record r { cookies = r.cookies ++ c ∷ [] }

abbrev pub first_status : Option ℕ → ℕ → Option ℕ
first_status none code = some code
first_status (some old) code = some old

-- `w.WriteHeader(code)`: the first status stands.
abbrev pub write_header : ℕ → Response → Response
write_header code r = record r { status = first_status r.status code }

-- A body without a status sends 200.
abbrev pub write : Body → Response → Response
write b r = record r { status = first_status r.status 200; body = r.body ++ b ∷ [] }

-- `http.Error(w, msg, code)`
unfoldable pub http_error : String → ℕ → Response → Response
http_error msg code r = write (raw msg) (
    write_header code (
      header "X-Content-Type-Options" (codes "nosniff")
        (header "Content-Type" (codes "text/plain; charset=utf-8") r)))

-- The three lines with which the handlers answer in JSON.
unfoldable pub respond_json : ℕ → List (String × Field) → Response → Response
respond_json code fields r =
    write (object fields) (write_header code (header "Content-Type" (codes "application/json") r))
