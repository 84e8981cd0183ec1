-- ===== src/Loadtest/Requests.antt =====
-- cmd/loadtest/main.go, `do`: the sample of one request, with the kind of the throttling that it met.
pub mod Throttling
use secure_auth_gateway.Prelude.{
  ℕ, false, Option, none, some, Text, String, codes, ◌==◌, if◌then◌else◌,
}
use secure_auth_gateway.Http.{Response, get_header}
use secure_auth_gateway.Loadtest.Samples.{
  Sample, Failure, ThrottleKind, throttle_none, throttle_ip, throttle_account, is_prefix,
}
use secure_auth_gateway.Loadtest.Seeding.{sent_status}

-- What the client gives: an error of the request, an error of reading the body, or a response.
pub data Exchange : Type 0 where
  failed cut_off : Failure → Exchange
  answered : Response → Exchange

-- The headers that tell how long to back off; a missing header is "".
pub record RateHeaders : Type 0 where
  pub retry_after : Text
  pub limit : Text
  pub remaining : Text
  pub reset : Text

abbrev or_empty : Option Text → Text
or_empty none = codes ""
or_empty (some v) = v

abbrev pub value_of : String → Response → Text
value_of k r = or_empty (get_header k r.headers)

-- The limiter refuses in plain text, the lockout in JSON.
abbrev pub throttle_by : Text → ThrottleKind
throttle_by content_type =
    if is_prefix (codes "application/json") content_type then throttle_account else throttle_ip

abbrev pub throttle_of : Response → ThrottleKind
throttle_of r =
    if sent_status r.status == 429 then throttle_by (value_of "Content-Type" r) else throttle_none

abbrev pub rate_headers : Response → Option RateHeaders
rate_headers r =
    if sent_status r.status == 429
    then some (record {
      retry_after = value_of "Retry-After" r;
      limit = value_of "X-RateLimit-Limit" r;
      remaining = value_of "X-RateLimit-Remaining" r;
      reset = value_of "X-RateLimit-Reset" r;
    })
    else none

abbrev error_sample : ℕ → ℕ → Text → Failure → Sample
error_sample sent_at latency ip e = record {
  at = sent_at;
  ip = ip;
  latency = latency;
  status = 0;
  err = some e;
  throttle = throttle_none;
  scheduled_at = none;
  in_window = false;
}

unfoldable pub do_request : ℕ → ℕ → Text → Exchange → Sample × Option RateHeaders
do_request sent_at latency ip (failed e) = (error_sample sent_at latency ip e, none)
do_request sent_at latency ip (cut_off e) = (error_sample sent_at latency ip e, none)
do_request sent_at latency ip (answered r) = (
  record {
    at = sent_at;
    ip = ip;
    latency = latency;
    status = sent_status r.status;
    err = none;
    throttle = throttle_of r;
    scheduled_at = none;
    in_window = false;
  },
  rate_headers r,
)
