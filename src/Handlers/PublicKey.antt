-- ===== src/Handlers/PublicKey.antt =====
-- internal/handlers/publickey.go, health.go, admin.go and user.go.
use secure_auth_gateway.Prelude.{
  ℕ, ◌+◌, ◌-◌, ◌/◌, ◌%◌, List, [], ◌∷◌, Text, codes, String, ltb, if◌then◌else◌,
}
use secure_auth_gateway.Http.{Response, Field, str, txt, raw, object, header, write}

-- `hex.EncodeToString`
abbrev pub hex_digit : ℕ → ℕ
hex_digit v = if ltb v 10 then b'0' + v else b'a' + (v - 10)

unfoldable pub hex : List ℕ → Text
hex [] = []
hex (b ∷ bs) = hex_digit (b / 16) ∷ hex_digit (b % 16) ∷ hex bs

abbrev pub json_type : Response → Response
json_type = header "Content-Type" (codes "application/json")

abbrev pub public_key_response : List ℕ → List (String × Field)
public_key_response key =
    ("algorithm", str "ed25519")
    ∷ ("paseto_version", str "v2.public")
    ∷ ("key_id", str "access-token-v1")
    ∷ ("public_key", txt (hex key))
    ∷ []

unfoldable pub public_key_handler : List ℕ → Response → Response
unfolding hex
public_key_handler key r = write (object (public_key_response key)) (json_type r)

unfoldable pub health : Response → Response
health r = write (raw "{\"status\":\"ok\"}") (json_type r)

unfoldable pub admin_health : Response → Response
admin_health r = write (raw "{\"message\":\"admin endpoint successfully hit.\"}") (json_type r)

unfoldable pub user_health : Response → Response
user_health r = write (raw "{\"message\":\"user endpoint successfully hit.\"}") (json_type r)
