-- ===== src/CommandWorker/Classify.antt =====
-- What the error of a client means for a command (src/app/workers/external_command_worker.py).
use ai_customer_service.Prelude.{
  ℕ, String, Bool, false, ◌||◌, Option, none, some, List, [], ◌∷◌, any, ◌==◌, if◌then◌else◌,
  contains_any,
}
use ai_customer_service.CommandWorker.Effects.{Exn, livechat_api, telegram_api, timeout, other}

abbrev pub has_status : Option ℕ → List ℕ → Bool
has_status none statuses = false
has_status (some n) statuses = any (λ m. n == m) statuses

abbrev denied_statuses : List ℕ
denied_statuses = 401 ∷ 403 ∷ []

abbrev passing_statuses : List ℕ
passing_statuses = 429 ∷ 500 ∷ 502 ∷ 503 ∷ 504 ∷ []

-- An error that is none of the client's.
abbrev classify_other : String → String
classify_other lowered =
    if contains_any ("timed out" ∷ "timeout" ∷ []) lowered then "RETRYABLE" else "FAILED_UNKNOWN"

unfoldable pub classify_handoff_error : Exn → String
classify_handoff_error (livechat_api status text lowered json) =
    if has_status (some status) denied_statuses
    then "FAILED_CONFIG"
    else if has_status (some status) passing_statuses
    then "RETRYABLE"
    else if contains_any
        ("inactive" ∷ "not active" ∷ "closed" ∷ "not found" ∷ "requester presence" ∷ "group access"
          ∷ [])
        json
    then "FAILED_BUSINESS"
    else "FAILED_UNKNOWN"
classify_handoff_error (telegram_api status code retryable text lowered json) =
    classify_other lowered
classify_handoff_error (timeout text) = "RETRYABLE"
classify_handoff_error (other text lowered) = classify_other lowered

unfoldable pub classify_telegram_error : Exn → String
classify_telegram_error (telegram_api status code retryable text lowered json) =
    if has_status status denied_statuses || has_status code denied_statuses
    then "FAILED_CONFIG"
    else if has_status status passing_statuses || retryable
    then "RETRYABLE"
    else if contains_any
        ("chat not found" ∷ "bot was blocked" ∷ "not enough rights" ∷ "message thread not found"
          ∷ "thread not found" ∷ [])
        json
    then "FAILED_BUSINESS"
    else "FAILED_UNKNOWN"
classify_telegram_error (livechat_api status text lowered json) = classify_other lowered
classify_telegram_error (timeout text) = "RETRYABLE"
classify_telegram_error (other text lowered) = classify_other lowered
