-- ===== src/SessionTable.antt =====
-- What the gateway promises of refresh sessions (internal/handlers/auth.go and
-- internal/redis_db/refresh.go): a table from token identifiers to sessions, in which a request
-- only opens sessions under new identifiers and ends sessions.
pub mod Refines
use secure_auth_gateway.Prelude.{
  ℕ, ◌≡◌, ◌⊎◌, refl, inl, inr, Bool-cases, Option, none, some, Text, text_eq, text_eq_iff,
  if◌then◌else◌, ◌∙◌, sym, arith,
}
use secure_auth_gateway.Platform.Redis.{Entry, text}

abbrev pub Table : Type 0
Table = Text → Option Entry

-- The session of a user.
abbrev pub session : Text → Option ℕ → Option Entry
session user_id expires = some (record { value = text user_id; expires = expires })

abbrev pub with_entry : Text → Option Entry → Table → Table
with_entry id e t j = if text_eq id j then e else t j

pub data Change (IsNew : Text → Type 0) (t : Table) : Table → Type 0 where
  opens :
      (id user_id : Text) (expires : Option ℕ)
      → IsNew id
      → Change IsNew t (with_entry id (session user_id expires) t)
  ends : (id : Text) → Change IsNew t (with_entry id none t)

pub data Evolves (IsNew : Text → Type 0) (t : Table) : Table → Type 0 where
  same : Evolves IsNew t t
  next : {u v : Table} → Evolves IsNew t u → Change IsNew u v → Evolves IsNew t v

Change-origin :
    {IsNew : Text → Type 0} {t u : Table} (id : Text) (e : Entry)
    → Change IsNew t u
    → u id ≡ some e
    → (t id ≡ some e) ⊎ IsNew id
Change-origin {IsNew} {t} id e (opens new user_id expires fresh) found =
    elim (Bool-cases (text_eq new id)) [
      | inl equal ↦ inr (rw (← (text_eq_iff new id).0 equal) fresh)
      | inr differs ↦ inl (rw differs at found)
    ]
Change-origin {IsNew} {t} id e (ends old) found = elim (Bool-cases (text_eq old id)) [
  | inl equal ↦ absurd (ground arith)
  | inr differs ↦ inl (rw differs at found)
]

-- A session that is in the table was there before, unchanged, or has a new identifier.
pub Evolves-origin :
    {IsNew : Text → Type 0} {t u : Table} (id : Text) (e : Entry)
    → Evolves IsNew t u
    → u id ≡ some e
    → (t id ≡ some e) ⊎ IsNew id
Evolves-origin id e same found = inl found
Evolves-origin id e (next before change) found = elim (Change-origin id e change found) [
  | inl old ↦ Evolves-origin id e before old
  | inr new ↦ inr new
]
