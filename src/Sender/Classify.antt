-- ===== src/Sender/Classify.antt =====
-- What a response or an exception of the client means for a message
-- (src/app/workers/sender_worker.py).
use ai_customer_service.Prelude.{
  ◌<>◌, ℕ, ◌+◌, String, Bool, true, false, ◌||◌, Option, none, some, List, [], ◌∷◌, leb, ◌==◌,
  if◌then◌else◌, any, contains_any,
}
use ai_customer_service.Queue.Outbound.{EnvInt, unset, malformed, int, negative}
use ai_customer_service.Sender.Effects.{
  Exn, telegram_api, livechat_api, transport, other, Response, Result,
}

abbrev pub result : String → Option String → Bool → Result
result status last_error retryable = record {
  status = status;
  last_error = last_error;
  retryable = retryable;
  delivery_mode = none;
  caption_result = none;
}

abbrev pub default_max_retries : ℕ
default_max_retries = 20

abbrev pub config_failure_statuses : List ℕ
config_failure_statuses = 401 ∷ 403 ∷ []

abbrev pub retryable_statuses : List ℕ
retryable_statuses = 429 ∷ 500 ∷ 502 ∷ 503 ∷ 504 ∷ []

abbrev pub business_error_markers : List String
business_error_markers =
    "chat is closed" ∷ "chat closed" ∷ "chat not active" ∷ "thread not found"
    ∷ "thread does not exist" ∷ "cannot send" ∷ "can't send" ∷ "unable to send" ∷ []

abbrev pub has_status : ℕ → List ℕ → Bool
has_status status = any (λ s. status == s)

unfoldable pub classify_send_result : Response → Result
classify_send_result response =
    if response.success || response.event_id
    then result "SENT" none false
    else result "FAILED_UNKNOWN" (some ("send_event returned no event_id: " <> response.shown))
        false

-- `_retry_limit_reached`, with `_max_retries` of the environment; 0 and less mean no limit.
unfoldable pub retry_limit_reached : EnvInt → ℕ → Bool
retry_limit_reached unset retry_count = leb default_max_retries (retry_count + 1)
retry_limit_reached malformed retry_count = leb default_max_retries (retry_count + 1)
retry_limit_reached (int most) retry_count = if most == 0 then false else leb most (retry_count + 1)
retry_limit_reached (negative n) retry_count = false

unfoldable pub classify_send_error : EnvInt → ℕ → Exn → Result
unfolding retry_limit_reached
classify_send_error max_retries retry_count (telegram_api text retryable) =
    result (if retryable then "RETRYABLE" else "FAILED_BUSINESS") (some text) retryable
classify_send_error max_retries retry_count (livechat_api status text lowered) =
    if has_status status config_failure_statuses
    then result "FAILED_CONFIG" (some text) false
    else if has_status status retryable_statuses
    then (if retry_limit_reached max_retries retry_count
        then result "FAILED_BUSINESS" (some (text <> " (retry limit reached)")) false
        else result "RETRYABLE" (some text) true)
    else if contains_any business_error_markers lowered
    then result "FAILED_BUSINESS" (some text) false
    else result "FAILED_UNKNOWN" (some text) false
classify_send_error max_retries retry_count (transport text) = result "RETRYABLE" (some text) true
classify_send_error max_retries retry_count (other text) = result "FAILED_UNKNOWN" (some text) false
