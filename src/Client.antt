-- ===== src/Client.antt =====
-- frontend/src/api/client.ts, the part that every request goes through: the errors of a response,
-- the redirects of `handleError`, and `executeWithRetry`. Delays are in whole milliseconds. axios
-- enters as the errors that it rejects with: `axios.isAxiosError` tests the mark that axios sets on
-- its own errors, which is the constructor here. `encodeURIComponent` is a parameter.
pub mod Rejection
pub mod Retrying
pub mod Requests
pub mod Queries
pub mod Commands
pub mod Bodies
pub mod Templates
pub mod IndexFields
pub mod Addresses
use Prim.Native.String.{[], ◌∷◌}
use mathlib.Core.List.{[], ◌∷◌}
use secan.Base.{
  ℕ, zero, suc, String, Option, none, some, List, Bool, true, false, ◌&&◌, ◌||◌, ◌+◌, ◌*◌, ◌^◌,
  if◌then◌else◌, ltb, leb, ◌==◌, ◌===◌, ◌+++◌, given, split, is_some, or_else, strip_prefix,
}

-- The `error` field of a body: left out, an object (or null), or a value of another type.
pub data ErrorField : Type 0 where
  missing : ErrorField
  structured : ErrorField
  plain : String → ErrorField

-- The body of a response: `undefined` or null, a text, or an object with what `handleError` reads.
pub data Body : Type 0 where
  absent : Body
  text : String → Body
  object : ErrorField → Option String → Body

pub record Response : Type 0 where
  pub status : ℕ
  pub body : Body

pub record AxiosError : Type 0 where
  pub response : Option Response
  pub request : Bool
  pub code : Option String
  pub message : Option String
  pub url : Option String

-- `error` is `absent` where the source passes `undefined`.
pub record ApiClientError : Type 0 where
  pub message : String
  pub status_code : ℕ
  pub error : Body

-- What a promise is rejected with.
pub data Thrown : Type 0 where
  axios_error : AxiosError → Thrown
  client_error : ApiClientError → Thrown
  other_error : String → Thrown

-- The first of the texts that is there and not empty, or the last.
abbrev pub or_text : Option String → String → String
or_text o d = or_else (given o) d

-- The body as a condition.
abbrev pub body_given : Body → Bool
body_given absent = false
body_given (text t) = is_some (given (some t))
body_given (object e m) = true

abbrev pub body_message : Body → Option String
body_message absent = none
body_message (text t) = none
body_message (object e m) = m

-- A body in the form of an Elasticsearch error: `elasticsearchError`, or null.
unfoldable pub elasticsearch_error : Body → Option Body
elasticsearch_error absent = none
elasticsearch_error (text t) = none
elasticsearch_error (object missing m) = none
elasticsearch_error (object structured m) = some (object structured m)
elasticsearch_error (object (plain t) m) = none

-- `elasticsearchError || data || { error: 'unknown', message }`.
unfoldable pub error_of : Body → String → Body
unfolding elasticsearch_error
error_of body message =
    or_else (elasticsearch_error body)
      (if body_given body then body else object (plain "unknown") (some message))

-- `url.match(/\/clusters\/([^/]+)/)`, the group of the first match.
unfoldable pub match_cluster : String → Option String
match_cluster [] = none
match_cluster (c ∷ s) =
    let rest = match_cluster s in
    elim (strip_prefix "/clusters/" (c ∷ s)) [
      | none ↦ rest
      | some behind ↦ elim (split b'/' behind) [
        | [] ↦ rest
        | name ∷ parts ↦ elim (given (some name)) [ none ↦ rest | some n ↦ some n ]
      ]
    ]

-- The value that `handleError` sets `window.location.href` to, if any, and its rejection.
pub record Handled : Type 0 where
  pub redirect : Option String
  pub rejection : ApiClientError

module _ (encode_uri_component : String → String) where
  unfoldable pub redirect_path : Option String → String
  redirect_path none = "/access-denied"
  redirect_path (some name) = "/access-denied/" +++ encode_uri_component name

  -- A response outside 2xx. `location` is the path with the search text.
  unfoldable pub handle_response : String → AxiosError → Response → Handled
  unfolding error_of match_cluster redirect_path
  handle_response location e r =
      if r.status == 401
      then record {
        redirect = some ("/login?redirect_to=" +++ encode_uri_component location);
        rejection = record {
          message = "Authentication required";
          status_code = 401;
          error = r.body;
        };
      }
      else if r.status == 403
      then record {
        redirect = some (redirect_path (match_cluster (or_else e.url "")));
        rejection = record { message = "Access forbidden"; status_code = 403; error = r.body };
      }
      else let message = or_text (body_message r.body) (or_text e.message "An error occurred") in
        record {
          redirect = none;
          rejection = record {
            message = message;
            status_code = r.status;
            error = error_of r.body message;
          };
        }

  unfoldable pub handle_error : String → AxiosError → Handled
  unfolding handle_response
  handle_error location e = elim e.response [
    | some r ↦ handle_response location e r
    | none ↦
        if e.request
        then record {
          redirect = none;
          rejection = record {
            message =
                "Network error: " +++ or_text e.code (or_text e.message "unable to reach server");
            status_code = 0;
            error = absent;
          };
        }
        else record {
          redirect = none;
          rejection = record {
            message = or_text e.message "An unexpected error occurred";
            status_code = 0;
            error = absent;
          };
        }
  ]

pub record RetryConfig : Type 0 where
  pub max_retries : ℕ
  pub initial_delay_ms : ℕ
  pub max_delay_ms : ℕ
  pub backoff_multiplier : ℕ

abbrev pub default_retry_config : RetryConfig
default_retry_config = record {
  max_retries = 0;
  initial_delay_ms = 1000;
  max_delay_ms = 10000;
  backoff_multiplier = 2;
}

unfoldable pub calculate_backoff_delay : RetryConfig → ℕ → ℕ
calculate_backoff_delay config attempt =
    let delay = config.initial_delay_ms * config.backoff_multiplier ^ attempt in
    if leb delay config.max_delay_ms then delay else config.max_delay_ms

unfoldable pub is_retryable_error : AxiosError → Bool
is_retryable_error e = elim e.response [
  | none ↦ true
  | some r ↦
      if leb 500 r.status && ltb r.status 600
      then true
      else if r.status == 408
      then true
      else if r.status == 429
      then true
      else false
]

-- `axios.isAxiosError(error) && this.isRetryableError(error)`.
unfoldable pub is_retryable : Thrown → Bool
unfolding is_retryable_error
is_retryable (axios_error e) = is_retryable_error e
is_retryable (client_error e) = false
is_retryable (other_error m) = false

-- What `handleError` reads of the value that a call of axios rejects with: only an error of axios
-- has a response and a request.
abbrev pub as_axios_error : Thrown → AxiosError
as_axios_error (axios_error e) = e
as_axios_error (client_error e) = record {
  response = none;
  request = false;
  code = none;
  message = some e.message;
  url = none;
}
as_axios_error (other_error m) = record {
  response = none;
  request = false;
  code = none;
  message = some m;
  url = none;
}

pub data Outcome {ℓ} (A : Type ℓ) : Type ℓ where
  resolved : A → Outcome A
  rejected : Thrown → Outcome A

-- What `executeWithRetry` did: how the promise ended, the calls of the request and the sleeps.
pub record Run {ℓ} (A : Type ℓ) : Type ℓ where
  pub outcome : Outcome A
  pub calls : ℕ
  pub sleeps : List ℕ

module _ {ℓ} {A : Type ℓ} where
  -- The run behind one more call and one sleep.
  abbrev pub behind : ℕ → Run A → Run A
  behind delay rest = record {
    outcome = rest.outcome;
    calls = suc rest.calls;
    sleeps = delay ∷ rest.sleeps;
  }

  abbrev pub ended : Outcome A → Run A
  ended o = record { outcome = o; calls = 1; sleeps = [] }

  -- The body of the loop, where `rest` is the loop behind `continue`.
  unfoldable pub attempt_request : RetryConfig → ℕ → Outcome A → (Thrown → Run A) → Run A
  unfolding is_retryable calculate_backoff_delay
  attempt_request config attempt (resolved a) rest = ended (resolved a)
  attempt_request config attempt (rejected e) rest =
      if is_retryable e
      then (if ltb attempt config.max_retries
          then behind (calculate_backoff_delay config attempt) (rest e)
          else ended (rejected e))
      else ended (rejected e)

  -- The loop with so many rounds left; `request n` is how the call number n ends. The last throw
  -- stands behind the loop.
  unfoldable pub retry_loop :
      RetryConfig → (ℕ → Outcome A) → (rounds : ℕ) → ℕ → Option Thrown → Run A
  unfolding attempt_request
  retry_loop config request zero attempt last_error = record {
    outcome = rejected (or_else last_error (other_error "Request failed after retries"));
    calls = 0;
    sleeps = [];
  }
  retry_loop config request (suc rounds) attempt last_error =
      let rest = λ (e : Thrown). retry_loop config request rounds (attempt + 1) (some e) in
      attempt_request config attempt (request attempt) rest

  unfoldable pub execute_with_retry : RetryConfig → (ℕ → Outcome A) → Run A
  unfolding retry_loop
  execute_with_retry config request = retry_loop config request (suc config.max_retries) 0 none

  -- A call through the response interceptor.
  unfoldable pub intercepted : (String → String) → String → Outcome A → Outcome A
  unfolding handle_error
  intercepted encode location (resolved a) = resolved a
  intercepted encode location (rejected e) =
      rejected (client_error (handle_error encode location (as_axios_error e)).rejection)
