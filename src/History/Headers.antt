-- ===== src/History/Headers.antt =====
-- pkg/pasetoauth/security_headers.go: the four headers, on the responses of internal/handlers.
use secure_auth_gateway.Prelude.{
  ◌≡◌, refl, ap, ◌∙◌, true, false, some, List, [], ◌∷◌, String, Text, codes, Bool-cases, inl, inr,
  if◌then◌else◌,
}
use text.Mathlib.Text.{◌==◌}
use text.Mathlib.TextEquality.{eq_iff}
use secure_auth_gateway.Platform.{Platform}
use secure_auth_gateway.Platform.World.{World}
use secure_auth_gateway.Http.{Response, Request, get_header, set_header, header}
use secure_auth_gateway.Gate.{security_headers}
use secure_auth_gateway.Handlers.Responses.{AuthHandler}
use secure_auth_gateway.Routes.{serve, fresh_response, group_of, find_route, routes}
use secure_auth_gateway.History.Sends.{Written}
use secure_auth_gateway.History.RouteReplies.{Outside, route-Sends}

pub get_header-set_header :
    (k : String) (v : Text) (hs : List (String × Text))
    → (k == k) ≡ true
    → get_header k (set_header k v hs) ≡ some v
unfolding get_header set_header
get_header-set_header k v [] e = rw e refl
get_header-set_header k v ((j, w) ∷ hs) e = elim (Bool-cases (j == k)) [
  | inl same ↦ rw (same, e) refl
  | inr other ↦ rw (other, other) (get_header-set_header k v hs e)
]

-- Setting one header leaves another as it is.
get_header-other :
    (k j : String) (v : Text) (hs : List (String × Text))
    → (k == j) ≡ false
    → get_header j (set_header k v hs) ≡ get_header j hs
unfolding get_header set_header
get_header-other k j v [] e = rw e refl
get_header-other k j v ((i, w) ∷ hs) e = elim (Bool-cases (i == k)) [
  | inl same ↦
      let same_test : (i == j) ≡ false = ap (λ s. s == j) ((eq_iff i k).0 same) ∙ e in
      rw (same, e, same_test) refl
  | inr other ↦ rw other (ap (λ o. if i == j then some w else o) (get_header-other k j v hs e))
]

pub record IsSecured (r : Response) : Type 0 where
  pub transport :
      get_header "Strict-Transport-Security" r.headers
      ≡ some (codes "max-age=63072000; includeSubDomains")
  pub sniffing : get_header "X-Content-Type-Options" r.headers ≡ some (codes "nosniff")
  pub framing :
      get_header "Content-Security-Policy" r.headers ≡ some (codes "frame-ancestors 'none';")
  pub frames : get_header "X-Frame-Options" r.headers ≡ some (codes "DENY")

-- Setting a header of another name keeps the four.
header-IsSecured :
    (k : String) (v : Text) (r : Response)
    → (k == "Strict-Transport-Security") ≡ false
    → (k == "X-Content-Type-Options") ≡ false
    → (k == "Content-Security-Policy") ≡ false
    → (k == "X-Frame-Options") ≡ false
    → IsSecured r
    → IsSecured (header k v r)
header-IsSecured k v r a b c d s = record {
  transport = get_header-other k "Strict-Transport-Security" v r.headers a ∙ s.transport;
  sniffing = get_header-other k "X-Content-Type-Options" v r.headers b ∙ s.sniffing;
  framing = get_header-other k "Content-Security-Policy" v r.headers c ∙ s.framing;
  frames = get_header-other k "X-Frame-Options" v r.headers d ∙ s.frames;
}

sniff-IsSecured :
    (r : Response) → IsSecured r → IsSecured (header "X-Content-Type-Options" (codes "nosniff") r)
sniff-IsSecured r s =
    let k : String = "X-Content-Type-Options" in
    record {
      transport = get_header-other k "Strict-Transport-Security" _ r.headers refl ∙ s.transport;
      sniffing = get_header-set_header k (codes "nosniff") r.headers refl;
      framing = get_header-other k "Content-Security-Policy" _ r.headers refl ∙ s.framing;
      frames = get_header-other k "X-Frame-Options" _ r.headers refl ∙ s.frames;
    }

-- No handler takes one of the four away.
IsSecured-Written : Written IsSecured
IsSecured-Written = record {
  content_type = λ v r s. header-IsSecured "Content-Type" v r refl refl refl refl s;
  no_sniff = sniff-IsSecured;
  retry_after = λ v r s. header-IsSecured "Retry-After" v r refl refl refl refl s;
  cookie = λ c r s. record {
    transport = s.transport;
    sniffing = s.sniffing;
    framing = s.framing;
    frames = s.frames;
  };
  status = λ c r s. record {
    transport = s.transport;
    sniffing = s.sniffing;
    framing = s.framing;
    frames = s.frames;
  };
  body = λ b r s. record {
    transport = s.transport;
    sniffing = s.sniffing;
    framing = s.framing;
    frames = s.frames;
  };
}

security_headers-IsSecured : IsSecured (security_headers fresh_response)
unfolding security_headers get_header set_header
security_headers-IsSecured = record {
  transport = refl;
  sniffing = refl;
  framing = refl;
  frames = refl;
}

-- Every response carries the four security headers, if the router and the limiter keep them on what
-- they write themselves.
pub serve-IsSecured :
    {p : Platform}
    → Outside p IsSecured
    → (h : AuthHandler) (req : Request) (w : World p) → IsSecured (serve p h req w).0
unfolding serve
serve-IsSecured {p} o h req w =
    route-Sends IsSecured-Written o h (group_of req.path) (find_route req routes) req
      (security_headers fresh_response) w security_headers-IsSecured
