-- ===== src/Http/Retry/Laws.antt =====
-- How often a request is sent, and what its answer is.
use mathlib.Core.Path.{subst}
use pawrly.Prelude.{
  ℕ, zero, suc, ◌+◌, ◌≤◌, ◌<◌, ◌≡◌, refl, ap, Bool, true, false, ◌||◌, not, ◌⊎◌, inl, inr,
  Bool-cases, if◌then◌else◌, [], ◌∷◌, leb_iff, length, Result, ok, err, Result-cases, arith, leb,
}
use pawrly.Http.Source.{RetryConfig, RateLimitPolicy}
use pawrly.Http.Auth.{Failure, request_failed}
use pawrly.Http.Retry.{
  Response, Attempt, answered, failed, Sent, attempts_from, send_with_retry_inner, is_rate_limit,
  is_server_error, wait_ms,
}

-- The attempt may be followed by another: a response with a status of the server's failure or of its
-- rate limit, or a failure that is no refused redirect.
abbrev pub is_retryable : RateLimitPolicy → Attempt → Bool
is_retryable policy (answered resp) =
    is_server_error resp.status || is_rate_limit policy resp.status
is_retryable policy (failed is_redirect) = not is_redirect

Attempt-cases :
    (a : Attempt)
    → ((resp : Response) × (a ≡ answered resp)) ⊎ ((is_redirect : Bool) × (a ≡ failed is_redirect))
Attempt-cases (answered resp) = inl (resp, refl)
Attempt-cases (failed is_redirect) = inr (is_redirect, refl)

-- The run of attempts from one on, with the number that may still be followed.
pub record IsRun (policy : RateLimitPolicy) (try : ℕ → Attempt) (left attempt : ℕ) (sent : Sent)
    : Type 0 where
  pub some_sent : 0 < sent.attempts
  pub bounded : sent.attempts ≤ suc left
  pub waited : suc (length sent.waits) ≡ sent.attempts
  pub retried : (i : ℕ) → suc i < sent.attempts → is_retryable policy (try (attempt + i)) ≡ true
  pub answer_is_last :
      (resp : Response) (i : ℕ)
      → sent.answer ≡ ok resp
      → suc i ≡ sent.attempts
      → (try (attempt + i) ≡ answered resp)
        × ((sent.attempts ≤ left) → is_retryable policy (try (attempt + i)) ≡ false)

module _ (policy : RateLimitPolicy) (try : ℕ → Attempt) where
  -- What the last attempt says, where it is the given one.
  abbrev IsLast : ℕ → (more : Bool) → Response → Type 0
  IsLast k more resp =
      (try k ≡ answered resp) × ((more ≡ true) → is_retryable policy (try k) ≡ false)

  single :
      (left attempt : ℕ) (a : Result Response Failure)
      → ((resp : Response) → a ≡ ok resp → IsLast attempt (leb 1 left) resp)
      → IsRun policy try left attempt (record { attempts = 1; waits = []; answer = a })
  single left attempt a h = record {
    some_sent = omega arith;
    bounded = omega arith;
    waited = refl;
    retried = λ i lt. absurd (omega arith);
    answer_is_last = λ resp i e last.
        let (f, g) = h resp e in
        let same : attempt ≡ attempt + i = omega arith in
        subst (λ k. (try k ≡ answered resp) × ((1 ≤ left) → is_retryable policy (try k) ≡ false))
          same (f, λ le. g ((leb_iff 1 left).1 le));
  }

  longer :
      (left attempt ms : ℕ) (rest : Sent)
      → is_retryable policy (try attempt) ≡ true
      → IsRun policy try left (suc attempt) rest
      → IsRun policy try
          (suc left)
          attempt
          (record { attempts = suc rest.attempts; waits = ms ∷ rest.waits; answer = rest.answer })
  longer left attempt ms rest again run = record {
    some_sent = omega arith;
    bounded = omega (arith, run.bounded);
    waited = ap suc run.waited;
    retried = retried_from;
    answer_is_last = λ resp i e last. last_from i resp e last;
  }
    where
      retried_from :
          (i : ℕ) → suc i < suc rest.attempts → is_retryable policy (try (attempt + i)) ≡ true
      retried_from zero lt =
          let same : attempt ≡ attempt + 0 = omega arith in
          subst (λ k. is_retryable policy (try k) ≡ true) same again
      retried_from (suc i) lt =
          let same : suc attempt + i ≡ attempt + suc i = omega arith in
          subst (λ k. is_retryable policy (try k) ≡ true) same (run.retried i (omega arith))

      last_from :
          (i : ℕ) (resp : Response)
          → rest.answer ≡ ok resp
          → suc i ≡ suc rest.attempts
          → (try (attempt + i) ≡ answered resp)
            × ((suc rest.attempts ≤ suc left) → is_retryable policy (try (attempt + i)) ≡ false)
      last_from zero resp e last = absurd (omega (arith, run.some_sent))
      last_from (suc i) resp e last =
          let same : suc attempt + i ≡ attempt + suc i = omega arith in
          let (f, g) = run.answer_is_last resp i e (omega arith) in
          subst
            (λ k.
              (try k ≡ answered resp)
              × ((suc rest.attempts ≤ suc left) → is_retryable policy (try k) ≡ false))
            same (f, λ le. g (omega arith))

module _ (retry : RetryConfig) (policy : RateLimitPolicy) (try : ℕ → Attempt) (now_ms : ℕ → ℕ) where
  attempts_from-IsRun :
      (left attempt : ℕ)
      → IsRun policy try left attempt (attempts_from retry policy try now_ms left attempt)
  unfolding attempts_from
  attempts_from-IsRun zero attempt = elim (Attempt-cases (try attempt)) [
    | inl (resp, e) ↦
        rw (e, attempts_from) (single policy try 0 attempt (ok resp) (λ r q. (cc, λ h. cc)))
    | inr (b, e) ↦
        rw (e, attempts_from) (single policy try 0 attempt (err request_failed) (λ r q. cc))
  ]
  attempts_from-IsRun (suc left) attempt = elim (Attempt-cases (try attempt)) [
    | inl (resp, e) ↦
        elim (Bool-cases (is_server_error resp.status || is_rate_limit policy resp.status)) [
          | inl t ↦ elim (Result-cases (wait_ms retry policy (now_ms attempt) attempt resp)) [
            | inl (ms, w) ↦
                rw (e, attempts_from)
                  (rw t (
                    rw w (
                      longer policy try left attempt ms _ (rw e t)
                        (attempts_from-IsRun left (suc attempt)))))
            | inr (f, w) ↦
                rw (e, attempts_from)
                  (rw t (rw w (single policy try (suc left) attempt (err f) (λ r q. cc))))
          ]
          | inr f ↦
              rw (e, attempts_from)
                (rw f (single policy try (suc left) attempt (ok resp) (λ r q. (cc, λ _. rw e f))))
        ]
    | inr (true, e) ↦
        rw (e, attempts_from)
          (single policy try (suc left) attempt (err request_failed) (λ r q. cc))
    | inr (false, e) ↦
        rw (e, attempts_from)
          (longer policy try left attempt _ _ (rw e refl) (attempts_from-IsRun left (suc attempt)))
  ]

-- A request is sent at least once and at most once more than `max_retries`, once where its body cannot be
-- cloned, with one wait between any two attempts. Only an attempt that may be retried is followed by
-- another, and the response that is returned is that of the last attempt, which either could not be
-- retried or was the last one allowed. A refused redirect is never retried.
pub send_with_retry_inner-IsRun :
    (retry : RetryConfig) (policy : RateLimitPolicy) (cloneable : Bool) (try : ℕ → Attempt)
    (now_ms : ℕ → ℕ)
    → IsRun policy try
        (if cloneable then retry.max_retries else 0)
        0
        (send_with_retry_inner retry policy cloneable try now_ms)
unfolding send_with_retry_inner
send_with_retry_inner-IsRun retry policy cloneable try now_ms =
    attempts_from-IsRun retry policy try now_ms (if cloneable then retry.max_retries else 0) 0
