-- ===== src/Tests/Throttles.antt =====
-- A login of the load test at the concrete gateway, whose account is locked.
use secure_auth_gateway.Prelude.{
  ◌≡◌, if◌then◌else◌, refl, none, some, codes, text_eq, trim_space, is_space, arith,
}
use secure_auth_gateway.Platform.World.{World, redis_call, limiter_call}
use secure_auth_gateway.Platform.Redis.{perform, live, put, count}
use secure_auth_gateway.Http.{Credentials}
use secure_auth_gateway.Lockout.{is_locked, lockout_key}
use secure_auth_gateway.Routes.{serve}
use secure_auth_gateway.Loadtest.Samples.{throttle_account}
use secure_auth_gateway.Loadtest.Seeding.{seed_request}
use secure_auth_gateway.Loadtest.Requests.{do_request, answered}
use secure_auth_gateway.Loadtest.Requests.Throttling.{LimiterReplies, do_request-throttle}
use secure_auth_gateway.Tests.Demo.{demo, start, handler, ann}

abbrev ann_again : Credentials
ann_again = record { email = codes "ann@x.org"; password = codes "guess" }

abbrev locked : World demo
locked = record start {
  store = λ k.
      if text_eq k (lockout_key demo ann.email)
      then some (record { value = count 6; expires = some 5000 })
      else none;
}

replies : LimiterReplies demo
replies = record {
  status = record {
    passes = λ now ip r s lets. refl;
    refuses = λ now ip r s refused. absurd (ground arith);
  };
  plain = λ now ip r s refused. absurd (ground arith);
}

do_request-throttle_example :
    (do_request 5 7 (codes "198.18.0.1") (
      answered
        (serve demo handler
          (seed_request "/api/v1/auth/login" (codes "198.18.0.1") ann_again)
          locked).0)).0.throttle
    ≡ throttle_account
unfolding limiter_call is_locked redis_call perform live put text_eq lockout_key trim_space is_space
do_request-throttle_example =
    do_request-throttle replies handler 5 7 (codes "198.18.0.1") ann_again locked
