-- ===== src/Platform/Redis.antt =====
-- What the gateway asks of Redis, and the documented meaning of each command on a keyspace.
use secure_auth_gateway.Prelude.{
  ℕ, zero, suc, ◌+◌, ◌-◌, ◌*◌, ◌/◌, Option, none, some, Text, text_eq, ltb, List, [], ◌∷◌,
  if◌then◌else◌, ℤ, pos, negsuc,
}

-- A stored string: `count n` is one that is the decimal number `n`, `text v` any other.
pub data Value : Type 0 where
  count : ℕ → Value
  text : Text → Value

pub record Entry : Type 0 where
  pub value : Value
  pub expires : Option ℕ

abbrev pub Keyspace : Type 0
Keyspace = Text → Option Entry

pub data Command : Type 0 where
  incr : Text → Command
  expire : Text → ℕ → Command
  get : Text → Command
  ttl : Text → Command
  del : Text → Command
  del_all : List Text → Command
  set : Text → Text → ℤ → Command
  get_del : Text → Command
  ping : Command

-- `nil` is the client's `redis.Nil`; `fail` is any other error.
pub data Reply : Type 0 where
  value : Value → Reply
  span : ℤ → Reply
  done nil fail : Reply

-- Durations are nanoseconds.
abbrev pub second : ℕ
second = 1000000000

-- An entry is gone from the moment at which it expires.
unfoldable pub live : ℕ → Option Entry → Option Entry
live now none = none
live now (some e) = elim e.expires [
  | none ↦ some e
  | some deadline ↦ if ltb now deadline then some e else none
]

unfoldable pub put : Text → Option Entry → Keyspace → Keyspace
put k e s j = if text_eq k j then e else s j

-- A `SET` whose duration is not positive stores the key with no expiry.
abbrev pub deadline_of : ℕ → ℤ → Option ℕ
deadline_of now (pos zero) = none
deadline_of now (pos (suc d)) = some (now + suc d)
deadline_of now (negsuc d) = none

abbrev pub incremented : Option Entry → Option Entry
incremented none = some (record { value = count 1; expires = none })
incremented (some e) = elim e.value [
  | count n ↦ some (record e { value = count (n + 1) })
  | text v ↦ some e
]

abbrev pub incr_reply : Option Entry → Reply
incr_reply none = value (count 1)
incr_reply (some e) = elim e.value [ count n ↦ value (count (n + 1)) | text v ↦ fail ]

abbrev pub value_reply : Option Entry → Reply
value_reply none = nil
value_reply (some e) = value e.value

-- `TTL` rounds to seconds; -2 is a missing key, -1 a key with no expiry.
abbrev pub ttl_reply : ℕ → Option Entry → Reply
ttl_reply now none = span (negsuc 1)
ttl_reply now (some e) = elim e.expires [
  | none ↦ span (negsuc 0)
  | some deadline ↦ span (pos (second * ((deadline - now + 500000000) / second)))
]

abbrev pub with_deadline : ℕ → Option Entry → Option Entry
with_deadline deadline none = none
with_deadline deadline (some e) = some (record e { expires = some deadline })

-- One `DEL` of several keys.
unfoldable pub remove_all : List Text → Keyspace → Keyspace
unfolding put
remove_all [] s = s
remove_all (k ∷ ks) s = remove_all ks (put k none s)

unfoldable pub perform : ℕ → Command → Keyspace → Reply × Keyspace
perform now (incr k) s = let old = live now (s k) in (incr_reply old, put k (incremented old) s)
perform now (expire k d) s = (done, put k (with_deadline (now + d) (live now (s k))) s)
perform now (get k) s = (value_reply (live now (s k)), s)
perform now (ttl k) s = (ttl_reply now (live now (s k)), s)
perform now (del k) s = (done, put k none s)
perform now (del_all ks) s = (done, remove_all ks s)
perform now (set k v d) s =
    (done, put k (some (record { value = text v; expires = deadline_of now d })) s)
perform now (get_del k) s = (value_reply (live now (s k)), put k none s)
perform now ping s = (done, s)
