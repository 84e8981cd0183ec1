-- ===== src/History/Sends.antt =====
-- What the handlers may write to a response, as an interface.
use secure_auth_gateway.Prelude.{ℕ, Bool, true, false, List, String, Text, codes}
use secure_auth_gateway.Platform.{Platform}
use secure_auth_gateway.Platform.World.{World, M, branch}
use secure_auth_gateway.Http.{
  Response, Cookie, Body, Field, header, add_cookie, write_header, write, http_error, respond_json,
}

-- What the handlers do to a response.
pub record Written (P : Response → Type 0) : Type 0 where
  pub content_type : (v : Text) (r : Response) → P r → P (header "Content-Type" v r)
  pub no_sniff : (r : Response) → P r → P (header "X-Content-Type-Options" (codes "nosniff") r)
  pub retry_after : (v : Text) (r : Response) → P r → P (header "Retry-After" v r)
  pub cookie : (c : Cookie) (r : Response) → P r → P (add_cookie c r)
  pub status : (code : ℕ) (r : Response) → P r → P (write_header code r)
  pub body : (b : Body) (r : Response) → P r → P (write b r)

module _ {P : Response → Type 0} (k : Written P) where
  pub http_error-Sends : (msg : String) (code : ℕ) (r : Response) → P r → P (http_error msg code r)
  unfolding http_error
  http_error-Sends msg code r h = k.body _ _ (k.status code _ (k.no_sniff _ (k.content_type _ r h)))

  pub respond_json-Sends :
      (code : ℕ) (fields : List (String × Field)) (r : Response)
      → P r
      → P (respond_json code fields r)
  unfolding respond_json
  respond_json-Sends code fields r h = k.body _ _ (k.status code _ (k.content_type _ r h))

-- From a response with the property a computation gives one.
abbrev pub Sends : {p : Platform} → (Response → Type 0) → (Response → M p Response) → Type 0
Sends {p} P m = (r : Response) (w : World p) → P r → P (m r w).0

pub branch-Sends :
    {p : Platform} {P : Response → Type 0} (b : Bool) (m n : Response → M p Response)
    → Sends P m
    → Sends P n
    → Sends P (λ r. branch b (m r) (n r))
branch-Sends true m n hm hn r w h = hm r w h
branch-Sends false m n hm hn r w h = hn r w h
