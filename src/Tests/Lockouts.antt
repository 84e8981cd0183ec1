-- ===== src/Tests/Lockouts.antt =====
-- The lockout of the concrete gateway, and of one whose Redis fails.
use secure_auth_gateway.Prelude.{
  ltb→lt, ℕ, ◌+◌, ◌≤◌, ◌≡◌, ◌≢◌, ◌↔◌, refl, Bool, true, false, Option, none, some, Text, codes,
  arith, ◌<◌, inl, inr, ◌⊎◌, trim_space, text_eq, is_space,
}
use secure_auth_gateway.Platform.{Platform, RedisLaws}
use secure_auth_gateway.Platform.Redis.{
  Command, Keyspace, ttl, del, del_all, set, get_del, ping, expire, fail, count, perform, get, put,
  incr, live,
}
use secure_auth_gateway.Platform.World.{World, redis_call}
use secure_auth_gateway.Platform.World.Calls.{seen}
use secure_auth_gateway.Lockout.{
  to_lower, is_locked, record_failure, reset_failures, lockout_key, lockout_window,
  max_login_failures,
}
use secure_auth_gateway.Lockout.Counting.{Failures, first, later, Failures-is_locked}
use secure_auth_gateway.Lockout.Faults.{
  is_locked_only, record_failure_without_expiry, reset_failures_variants,
}
use secure_auth_gateway.Tests.Demo.{demo, start, redis_laws, value-fail}

abbrev ann : Text
ann = codes "ann@x.org"

abbrev after1 : World demo
after1 = (record_failure demo ann start).1

abbrev after2 : World demo
after2 = (record_failure demo ann after1).1

counts1 : (record_failure demo ann start).0 ≡ true
unfolding record_failure redis_call perform live
counts1 = refl

counts2 : (record_failure demo ann after1).0 ≡ true
unfolding record_failure redis_call perform live put text_eq lockout_key trim_space is_space
counts2 = refl

no_counter : seen redis_laws start (lockout_key demo ann) ≡ none
no_counter = refl

two-Failures : Failures redis_laws ann start 2 after2
two-Failures = later after1 (first counts1) (omega arith) refl counts2

in_window : after2.now + 1 < (record_failure demo ann start).1.now + lockout_window
unfolding record_failure redis_call perform live put text_eq lockout_key is_space trim_space
in_window = ltb→lt _ _ refl

reads : (redis_call demo (get (lockout_key demo ann)) after2).0 ≢ fail
unfolding redis_call perform live record_failure put text_eq lockout_key trim_space is_space
reads = value-fail (count 2)

Failures-is_locked_example : ((is_locked demo ann after2).0.0 ≡ true) ↔ (max_login_failures ≤ 2)
unfolding live
Failures-is_locked_example =
    Failures-is_locked redis_laws ann start after2 refl two-Failures (omega arith) in_window refl
      reads

-- A counter that has lost its expiry.
abbrev stuck : World demo
stuck = record start {
  store =
      put (lockout_key demo ann) (some (record { value = count 6; expires = none })) start.store;
}

stuck_entry :
    seen redis_laws stuck (lockout_key demo ann) ≡ some (record { value = count 6; expires = none })
unfolding put text_eq lockout_key trim_space is_space
stuck_entry = refl

stuck_reads : (redis_call demo (get (lockout_key demo ann)) stuck).0 ≢ fail
unfolding redis_call perform live put text_eq lockout_key trim_space is_space
stuck_reads = value-fail (count 6)

stuck_locked : (is_locked demo ann stuck).0.0 ≡ true
unfolding is_locked redis_call perform live put text_eq lockout_key trim_space is_space
stuck_locked = refl

is_locked_only_example :
    (n : ℕ) × (e : Option ℕ) × (live 1001 (seen redis_laws stuck (lockout_key demo ann))
      ≡ some (record { value = count n; expires = e }))
    × (max_login_failures ≤ n)
is_locked_only_example = is_locked_only redis_laws ann stuck stuck_locked

-- A Redis from which the client is cut off before each `EXPIRE`.
abbrev cut_off : Command → Bool
cut_off (expire k d) = true
cut_off _ = false

abbrev lossy : Platform
lossy = record demo {
  redis = λ now c s. elim (cut_off c) [ true ↦ (fail, s) | false ↦ perform now c s ];
}

lossy_law :
    (now : ℕ) (c : Command) (s : Keyspace)
    → (((lossy.redis now c s).0 ≡ (perform now c s).0)
        × ((lossy.redis now c s).1 ≡ (perform now c s).1))
      ⊎ (((lossy.redis now c s).0 ≡ fail)
          × (((lossy.redis now c s).1 ≡ s) ⊎ ((lossy.redis now c s).1 ≡ (perform now c s).1)))
lossy_law now (expire k d) s = inr (refl, inl refl)
lossy_law now (incr k) s = inl (refl, refl)
lossy_law now (get k) s = inl (refl, refl)
lossy_law now (ttl k) s = inl (refl, refl)
lossy_law now (del k) s = inl (refl, refl)
lossy_law now (del_all ks) s = inl (refl, refl)
lossy_law now (set k v d) s = inl (refl, refl)
lossy_law now (get_del k) s = inl (refl, refl)
lossy_law now ping s = inl (refl, refl)

abbrev lossy_laws : RedisLaws lossy
lossy_laws = record { view = λ s. s; redis_law = lossy_law }

abbrev lossy_start : World lossy
lossy_start = record {
  now = 1000;
  tick = 1;
  store = λ k. none;
  tables = start.tables;
  baseline = none;
}

lossy_counts : (redis_call lossy (incr (lockout_key lossy ann)) lossy_start).0 ≢ fail
unfolding redis_call perform live
lossy_counts = value-fail (count 1)

record_failure_without_expiry_example :
    ((record_failure lossy ann lossy_start).0 ≡ false)
    × (seen lossy_laws (record_failure lossy ann lossy_start).1 (lockout_key lossy ann)
        ≡ some (record { value = count 1; expires = none }))
unfolding live redis_call
record_failure_without_expiry_example =
    record_failure_without_expiry lossy_laws ann lossy_start refl lossy_counts refl refl

abbrev shouted : Text
shouted = codes " ANN@X.ORG"

same_counter : to_lower demo (trim_space shouted) ≡ to_lower demo (trim_space ann)
unfolding trim_space is_space
same_counter = refl

clears : (reset_failures demo shouted stuck).0 ≡ true
unfolding reset_failures redis_call perform
clears = refl

reset_failures_variants_example :
    (seen redis_laws (reset_failures demo shouted stuck).1 (lockout_key demo ann) ≡ none)
    × ((is_locked demo ann (reset_failures demo shouted stuck).1).0.0 ≡ false)
reset_failures_variants_example =
    reset_failures_variants redis_laws shouted ann stuck same_counter clears
