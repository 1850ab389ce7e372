-- ===== src/Client/Retrying.antt =====
-- frontend/src/api/client.ts, `executeWithRetry`: when it stops, how long it waits, and what the
-- response interceptor leaves for it to do.
use mathlib.Core.List.{[], ◌∷◌}
use secan.Base.{
  ℕ, zero, suc, ◌+◌, ◌*◌, ◌≤◌, ◌<◌, ◌≡◌, refl, ap, ◌∙◌, sym, List, String, Option, none, some, Bool,
  true, false, Bool-cases, inl, inr, arith, All, length,
}
use secan.Client.{
  RetryConfig, Outcome, resolved, rejected, Run, Thrown, execute_with_retry, retry_loop,
  attempt_request, is_retryable, calculate_backoff_delay, intercepted, behind, ended,
}

-- An outcome that asks for another call.
abbrev pub asks_again {ℓ} : {A : Type ℓ} → Outcome A → Bool
asks_again (resolved a) = false
asks_again (rejected e) = is_retryable e

-- The delays behind so many calls from an attempt on.
unfoldable pub delays : RetryConfig → ℕ → ℕ → List ℕ
delays config zero attempt = []
delays config (suc n) attempt =
    calculate_backoff_delay config attempt ∷ delays config n (attempt + 1)

abbrev pub total : List ℕ → ℕ
total [] = 0
total (x ∷ xs) = x + total xs

-- The run that ends with its call number `k`, counted from `attempt`.
abbrev pub run_to {ℓ} : {A : Type ℓ} → RetryConfig → (ℕ → Outcome A) → ℕ → ℕ → Run A
run_to config request attempt k = record {
  outcome = request (attempt + k);
  calls = suc k;
  sleeps = delays config k attempt;
}

-- `k` is the first attempt from `attempt` on that does not ask for another or is the last allowed.
pub record Stops {ℓ} {A : Type ℓ} (request : ℕ → Outcome A) (limit attempt k : ℕ) : Type 0 where
  pub allowed : attempt + k ≤ limit
  pub before : (j : ℕ) → j < k → asks_again (request (attempt + j)) ≡ true
  pub final : asks_again (request (attempt + k)) ≡ true → attempt + k ≡ limit

module _ {ℓ} {A : Type ℓ} (config : RetryConfig) (request : ℕ → Outcome A) where
  abbrev Answer : ℕ → Run A → Type ℓ
  Answer attempt run =
      (k : ℕ) × (run ≡ run_to config request attempt k) × Stops request config.max_retries attempt k

  -- The loop's body, by whether another call is made.
  attempt_request-ended :
      (attempt : ℕ) (o : Outcome A) (rest : Thrown → Run A)
      → asks_again o ≡ false
      → attempt_request config attempt o rest ≡ ended o
  unfolding attempt_request
  attempt_request-ended attempt (resolved a) rest h = refl
  attempt_request-ended attempt (rejected e) rest h = rw h refl

  attempt_request-spent :
      (attempt : ℕ) (o : Outcome A) (rest : Thrown → Run A)
      → config.max_retries ≤ attempt
      → attempt_request config attempt o rest ≡ ended o
  unfolding attempt_request
  attempt_request-spent attempt (resolved a) rest h = refl
  attempt_request-spent attempt (rejected e) rest h = ground arith

  attempt_request-again :
      (attempt : ℕ) (o : Outcome A) (rest : Thrown → Run A)
      → asks_again o ≡ true
      → attempt < config.max_retries
      → (e : Thrown) × (attempt_request config attempt o rest
          ≡ behind (calculate_backoff_delay config attempt) (rest e))
  unfolding attempt_request
  attempt_request-again attempt (resolved a) rest h l = cc
  attempt_request-again attempt (rejected e) rest h l = (e, rw h (ground arith))

  -- The loop stops at once.
  at_once :
      (attempt : ℕ) (run : Run A)
      → attempt ≤ config.max_retries
      → run ≡ ended (request attempt)
      → (asks_again (request attempt) ≡ true → attempt ≡ config.max_retries)
      → Answer attempt run
  unfolding delays
  at_once attempt run l e final =
      let here : attempt ≡ attempt + 0 = omega arith in
      (
        0,
        e ∙ ap ended (ap request here),
        record {
          allowed = omega arith;
          before = λ j b. absurd (omega arith);
          final = λ a. sym here ∙ final (ap asks_again (ap request here) ∙ a);
        },
      )

  asks_again-earlier :
      (attempt k j : ℕ)
      → asks_again (request attempt) ≡ true
      → ((i : ℕ) → i < k → asks_again (request (attempt + 1 + i)) ≡ true)
      → j < suc k
      → asks_again (request (attempt + j)) ≡ true
  asks_again-earlier attempt k zero again later b =
      let here : attempt + 0 ≡ attempt = omega arith in ap asks_again (ap request here) ∙ again
  asks_again-earlier attempt k (suc j) again later b =
      let moved : attempt + suc j ≡ attempt + 1 + j = omega arith in
      ap asks_again (ap request moved) ∙ later j (omega arith)

  -- One more call.
  one_more :
      (attempt : ℕ) (run rest : Run A)
      → asks_again (request attempt) ≡ true
      → run ≡ behind (calculate_backoff_delay config attempt) rest
      → Answer (attempt + 1) rest
      → Answer attempt run
  unfolding delays
  one_more attempt run rest again e (k, same, stops) =
      let moved = λ (j : ℕ). (let p : attempt + 1 + j ≡ attempt + suc j = omega arith in p) in
      (
        suc k,
        e
            ∙ ap (behind _) same
            ∙ ap
                (λ n. record {
                  outcome = request n;
                  calls = suc (suc k);
                  sleeps = delays config (suc k) attempt;
                })
                (moved k),
        record {
          allowed = omega (arith, stops.allowed);
          before = λ j b. asks_again-earlier attempt k j again stops.before b;
          final = λ a. sym (moved k) ∙ stops.final (ap asks_again (ap request (moved k)) ∙ a);
        },
      )

  retry_loop-stops :
      (rounds attempt : ℕ) (last_error : Option Thrown)
      → attempt + rounds ≡ config.max_retries
      → Answer attempt (retry_loop config request (suc rounds) attempt last_error)
  unfolding retry_loop
  retry_loop-stops zero attempt last_error h =
      at_once attempt _ (omega arith) (attempt_request-spent attempt _ _ (omega arith))
        (λ a. omega arith)
  retry_loop-stops (suc rounds) attempt last_error h =
      elim (Bool-cases (asks_again (request attempt))) [
        | inr no_more ↦
            at_once attempt _ (omega arith) (attempt_request-ended attempt _ _ no_more) (λ a. cc)
        | inl again ↦
            let step = attempt_request-again attempt (request attempt) _ again (omega arith) in
            one_more attempt _ _ again step.1
              (retry_loop-stops rounds (attempt + 1) (some step.0) (omega arith))
      ]

  -- `executeWithRetry` always ends, whatever its calls answer and with no fuel: there is one attempt k,
  -- at most `maxRetries`, such that it ends as its call number k does, after k + 1 calls and one
  -- backoff delay behind each of the first k. All calls before the last failed with a retryable
  -- error of axios; the last did not, or `maxRetries` is used up. So the throw behind the loop is
  -- never reached.
  pub execute_with_retry-Stops :
      (k : ℕ) × (execute_with_retry config request ≡ run_to config request 0 k)
      × Stops request config.max_retries 0 k
  unfolding execute_with_retry
  execute_with_retry-Stops = retry_loop-stops config.max_retries 0 none (omega arith)

calculate_backoff_delay-le :
    (config : RetryConfig) (n : ℕ) → calculate_backoff_delay config n ≤ config.max_delay_ms
unfolding calculate_backoff_delay
calculate_backoff_delay-le config n = ground arith

delays_bounds :
    (config : RetryConfig) (n attempt : ℕ)
    → (length (delays config n attempt) ≡ n)
      × All (λ d. d ≤ config.max_delay_ms) (delays config n attempt)
      × (total (delays config n attempt) ≤ n * config.max_delay_ms)
unfolding delays
delays_bounds config zero attempt = (omega arith, tt, omega arith)
delays_bounds config (suc n) attempt =
    let (l, a, t) = delays_bounds config n (attempt + 1) in
    let b = calculate_backoff_delay-le config attempt in (omega arith, (b, a), grind arith)

-- No sleep of `executeWithRetry` is longer than `maxDelayMs`, there is one sleep less than calls, at
-- most `maxRetries` of them, and together they take at most `maxRetries * maxDelayMs`.
pub sleeps_bounds {ℓ} :
    {A : Type ℓ} (config : RetryConfig) (request : ℕ → Outcome A)
    → All (λ d. d ≤ config.max_delay_ms) (execute_with_retry config request).sleeps
      × (suc (length (execute_with_retry config request).sleeps)
          ≡ (execute_with_retry config request).calls)
      × (length (execute_with_retry config request).sleeps ≤ config.max_retries)
      × (total (execute_with_retry config request).sleeps
          ≤ config.max_retries * config.max_delay_ms)
sleeps_bounds config request =
    let (k, e, stops) = execute_with_retry-Stops config request in
    let (l, a, t) = delays_bounds config k 0 in
    let p = stops.allowed in rw e (a, omega arith, omega arith, grind arith)

-- What a request does with the answer of its call.
abbrev pub and_then {ℓ κ} : {A : Type ℓ} {B : Type κ} → Outcome A → (A → Outcome B) → Outcome B
and_then (resolved a) after = after a
and_then (rejected e) after = rejected e

intercepted-asks_again {ℓ κ} :
    {A : Type ℓ} {B : Type κ} (encode : String → String) (location : String) (o : Outcome A)
    (after : A → Outcome B)
    → ((a : A) → asks_again (after a) ≡ false)
    → asks_again (and_then (intercepted encode location o) after) ≡ false
unfolding intercepted is_retryable
intercepted-asks_again encode location (resolved a) after h = h a
intercepted-asks_again encode location (rejected e) after h = refl

-- Whatever the retry configuration is, a request whose call goes through the response interceptor
-- makes one call and never sleeps, also after a network error or a status of 500 to 599, 408 or 429:
-- the interceptor has replaced the error of axios by an `ApiClientError`, which is not retryable.
-- `after` is what the request does with the answer, where that throws no error of axios that is
-- retryable.
pub execute_with_retry-intercepted {ℓ κ} :
    {A : Type ℓ} {B : Type κ} (config : RetryConfig) (encode : String → String) (location : String)
    (call : ℕ → Outcome A) (after : A → Outcome B)
    → ((a : A) → asks_again (after a) ≡ false)
    → execute_with_retry config (λ n. and_then (intercepted encode location (call n)) after)
      ≡ ended (and_then (intercepted encode location (call 0)) after)
unfolding execute_with_retry retry_loop
execute_with_retry-intercepted config encode location call after h =
    attempt_request-ended config (λ n. and_then (intercepted encode location (call n)) after) 0 _ _
      (intercepted-asks_again encode location (call 0) after h)
