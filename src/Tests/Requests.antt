-- ===== src/Tests/Requests.antt =====
-- The theorems on requests at concrete configurations, answers and errors.
use mathlib.Core.List.{[], ◌∷◌}
use secan.Base.{ℕ, zero, suc, ◌≡◌, refl, String, none, some, true, ◌+++◌, arith}
use secan.Client.{
  AxiosError, absent, RetryConfig, Outcome, resolved, rejected, axios_error, execute_with_retry,
  intercepted, ended, handle_error,
}
use secan.Client.Retrying.{
  Stops, run_to, and_then, execute_with_retry-Stops, execute_with_retry-intercepted,
}
use secan.Client.Rejection.{Says, handle_error-Says}
use secan.Client.Requests.{NodeFilters, get_nodes, url_of}
use secan.Client.Addresses.{handle_error-url_of}

abbrev unavailable : AxiosError
unavailable = record {
  response = some (record { status = 503; body = absent });
  request = true;
  code = none;
  message = some "Request failed with status code 503";
  url = some "/clusters/prod/nodes";
}

abbrev forbidden : AxiosError
forbidden = record {
  response = some (record { status = 403; body = absent });
  request = true;
  code = none;
  message = none;
  url = some "/clusters/prod/nodes";
}

abbrev everything : NodeFilters
everything = record { search = none; roles = none; nodes = none }

-- Two failures and then an answer.
flaky : ℕ → Outcome ℕ
flaky zero = rejected (axios_error unavailable)
flaky (suc zero) = rejected (axios_error unavailable)
flaky (suc (suc n)) = resolved 7

abbrev patient : RetryConfig
patient = record {
  max_retries = 3;
  initial_delay_ms = 1000;
  max_delay_ms = 1500;
  backoff_multiplier = 2;
}

patient_run :
    execute_with_retry patient flaky
    ≡ record { outcome = resolved 7; calls = 3; sleeps = 1000 ∷ 1500 ∷ [] }
unfolding execute_with_retry flaky
patient_run = refl

execute_with_retry-Stops_example :
    (k : ℕ) × (execute_with_retry patient flaky ≡ run_to patient flaky 0 k) × Stops flaky 3 0 k
execute_with_retry-Stops_example = execute_with_retry-Stops patient flaky

abbrev as_it_is : String → String
as_it_is s = s

execute_with_retry-intercepted_example :
    execute_with_retry patient (λ n. and_then (intercepted as_it_is "/" (flaky n)) resolved)
    ≡ ended (and_then (intercepted as_it_is "/" (flaky 0)) resolved)
execute_with_retry-intercepted_example =
    execute_with_retry-intercepted patient as_it_is "/" flaky resolved (λ a. refl)

handle_error-Says_example :
    Says unavailable.response (handle_error as_it_is "/clusters" unavailable)
handle_error-Says_example = handle_error-Says as_it_is "/clusters" unavailable

handle_error-url_of_example :
    (handle_error as_it_is "/" forbidden).redirect ≡ some ("/access-denied/" +++ "prod")
unfolding url_of get_nodes
handle_error-url_of_example =
    handle_error-url_of as_it_is "/" "prod" (get_nodes 1 50 everything) forbidden
      (record { status = 403; body = absent }) refl (omega arith) refl refl refl
