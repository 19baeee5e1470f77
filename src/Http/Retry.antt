-- ===== src/Http/Retry.antt =====
-- `send_with_retry_inner`, `backoff_ms`, `retry_after_ms`, `reset_at`, `reset_wait_ms` and
-- `compute_throttle` (crates/pawrly-sources/http/src/typed.rs).
pub mod Laws
use Prim.Native.Nat.{min}
use pawrly.Prelude.{
  ℕ, zero, suc, ◌+◌, ◌-◌, ◌*◌, ◌^◌, ◌==◌, ltb, leb, Text, codes, Bool, ◌&&◌, ◌||◌, not, Option,
  none, some, List, [], ◌∷◌, any, if◌then◌else◌, Result, ok, err, trim, parse_unsigned,
  parse_signed,
}
use pawrly.Http.Source.{RetryConfig, RateLimitPolicy, HeaderMap, header_text}
use pawrly.Http.Auth.{Failure, request_failed, clock_overflow, time_sum}
use pawrly.Http.Paginate.Next.{u64_max}

-- The body is `none` where reading it failed.
pub record Response : Type 0 where
  pub status : ℕ
  pub headers : HeaderMap
  pub text : Option Text

-- What becomes of a request that is sent.
pub data Attempt : Type 0 where
  answered : Response → Attempt
  failed : (is_redirect : Bool) → Attempt

-- The product stops at the largest `u64`.
unfoldable pub backoff_ms : RetryConfig → ℕ → ℕ
backoff_ms retry attempt =
    let factor = if ltb attempt 64 then 2 ^ attempt else u64_max in
    min (min (retry.base_backoff_ms * factor) u64_max) retry.max_backoff_ms

unfoldable pub retry_after_ms : HeaderMap → Option ℕ
unfolding header_text parse_unsigned trim
retry_after_ms headers = elim (header_text (codes "retry-after") headers) [
  | none ↦ none
  | some s ↦ elim (parse_unsigned 18446744073709551616 (trim s)) [
    | none ↦ none
    | some secs ↦ some (min (secs * 1000) u64_max)
  ]
]

-- The second of the Unix clock that the reset header names, where the policy has one; the sum panics on
-- a second that the clock cannot show.
unfoldable pub reset_at : RateLimitPolicy → HeaderMap → Result (Option ℕ) Failure
unfolding header_text parse_unsigned trim
reset_at policy headers = elim policy.reset_header [
  | none ↦ ok none
  | some name ↦ elim (header_text name headers) [
    | none ↦ ok none
    | some s ↦ elim (parse_unsigned 18446744073709551616 (trim s)) [
      | none ↦ ok none
      | some secs ↦ elim (time_sum 0 secs) [ none ↦ err clock_overflow | some t ↦ ok (some t) ]
    ]
  ]
]

-- The milliseconds up to the reset, at a millisecond of the Unix clock.
unfoldable pub reset_wait_ms : RateLimitPolicy → ℕ → HeaderMap → Result (Option ℕ) Failure
unfolding reset_at
reset_wait_ms policy now_ms headers = elim (reset_at policy headers) [
  | err e ↦ err e
  | ok none ↦ ok none
  | ok (some target) ↦
      if leb now_ms (target * 1000) && ltb (target * 1000 - now_ms) (u64_max + 1)
      then ok (some (target * 1000 - now_ms))
      else ok none
]

unfoldable pub compute_throttle : RateLimitPolicy → HeaderMap → Result (Option ℕ) Failure
unfolding reset_at header_text parse_signed trim
compute_throttle policy headers = elim policy.remaining_header [
  | none ↦ ok none
  | some name ↦ elim (header_text name headers) [
    | none ↦ ok none
    | some s ↦ elim (parse_signed 9223372036854775808 (trim s)) [
      | none ↦ ok none
      | some (negative, n) ↦ if not negative && ltb 0 n then ok none else reset_at policy headers
    ]
  ]
]

unfoldable pub is_rate_limit : RateLimitPolicy → ℕ → Bool
is_rate_limit policy status =
    status == 429 || status == 503 || any (λ s. s == status) policy.extra_statuses

-- `is_server_error`
abbrev is_server_error : ℕ → Bool
is_server_error status = leb 500 status && ltb status 600

unfoldable pub or_else : Option ℕ → ℕ → ℕ
or_else none d = d
or_else (some n) d = n

-- The wait after a response that is to be tried again.
unfoldable pub wait_ms : RetryConfig → RateLimitPolicy → ℕ → ℕ → Response → Result ℕ Failure
unfolding is_rate_limit reset_wait_ms retry_after_ms backoff_ms or_else
wait_ms retry policy now_ms attempt resp =
    if is_rate_limit policy resp.status
    then elim (reset_wait_ms policy now_ms resp.headers) [
      | err e ↦ err e
      | ok (some ms) ↦ ok ms
      | ok none ↦ ok (or_else (retry_after_ms resp.headers) (backoff_ms retry attempt))
    ]
    else ok (backoff_ms retry attempt)

-- One logical request: how often it was sent, the waits in between, and what came of it.
pub record Sent : Type 0 where
  pub attempts : ℕ
  pub waits : List ℕ
  pub answer : Result Response Failure

-- The attempts from one on, of which `left` may be followed by another. `try` is what becomes of each,
-- and `now_ms` the clock when it is answered.
unfoldable pub attempts_from :
    RetryConfig → RateLimitPolicy → (ℕ → Attempt) → (ℕ → ℕ) → (left attempt : ℕ) → Sent
unfolding wait_ms is_rate_limit backoff_ms
attempts_from retry policy try now_ms zero attempt = elim (try attempt) [
  | answered resp ↦ record { attempts = 1; waits = []; answer = ok resp }
  | failed _ ↦ record { attempts = 1; waits = []; answer = err request_failed }
]
attempts_from retry policy try now_ms (suc left) attempt =
    let rest = attempts_from retry policy try now_ms left (suc attempt) in
    elim (try attempt) [
      | answered resp ↦
          if not (is_server_error resp.status || is_rate_limit policy resp.status)
          then record { attempts = 1; waits = []; answer = ok resp }
          else elim (wait_ms retry policy (now_ms attempt) attempt resp) [
            | err e ↦ record { attempts = 1; waits = []; answer = err e }
            | ok ms ↦ record {
              attempts = suc rest.attempts;
              waits = ms ∷ rest.waits;
              answer = rest.answer;
            }
          ]
      | failed is_redirect ↦
          if is_redirect
          then record { attempts = 1; waits = []; answer = err request_failed }
          else record {
            attempts = suc rest.attempts;
            waits = backoff_ms retry attempt ∷ rest.waits;
            answer = rest.answer;
          }
    ]

-- A request whose body cannot be cloned is sent once.
unfoldable pub send_with_retry_inner :
    RetryConfig → RateLimitPolicy → (cloneable : Bool) → (ℕ → Attempt) → (ℕ → ℕ) → Sent
unfolding attempts_from
send_with_retry_inner retry policy cloneable try now_ms =
    attempts_from retry policy try now_ms (if cloneable then retry.max_retries else 0) 0
