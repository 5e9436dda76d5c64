-- ===== src/Sender/Retries.antt =====
-- How often a message is tried when LiveChat fails: `classify_send_error` of the sender worker
-- (src/app/workers/sender_worker.py) with `mark_failed` of the queue (src/app/db/repositories.py).
use ai_customer_service.Prelude.{
  ◌<>◌, ℕ, zero, suc, ◌+◌, ◌≡◌, refl, ◌∙◌, ap, String, Bool, true, false, Option, some, List, [],
  ◌∷◌, ltb, ◌==◌, if◌then◌else◌, Bool-cases, inl, inr, arith, or_text, ◌≤◌, ◌<◌,
}
use ai_customer_service.Queue.Outbound.{EnvInt, int}
use ai_customer_service.Sender.{
  Exn, Result, classify_send_error, config_failure_statuses, has_status, livechat_api, result,
  retry_limit_reached, retryable_statuses,
}
use ai_customer_service.Queue.Outbound.{RetrySettings, OutboundMessage, mark_failed}

abbrev head_or : OutboundMessage → List OutboundMessage → OutboundMessage
head_or row [] = row
head_or row (r ∷ rs) = r

-- The row of a table of one, after a result is recorded.
unfoldable pub recorded : RetrySettings → ℕ → OutboundMessage → Result → OutboundMessage
unfolding mark_failed
recorded s now row r =
    head_or row (mark_failed s now row.id r.status (or_text r.last_error "") r.retryable (row ∷ []))

-- The row after an attempt that fails at `now` with an exception.
unfoldable pub failed_once : RetrySettings → EnvInt → Exn → ℕ → OutboundMessage → OutboundMessage
unfolding classify_send_error recorded
failed_once s most e now row = recorded s now row (classify_send_error most row.retry_count e)

-- The row after so many such attempts, at the times `now`.
unfoldable pub failed_times :
    RetrySettings → EnvInt → Exn → (ℕ → ℕ) → ℕ → OutboundMessage → OutboundMessage
unfolding failed_once
failed_times s most e now zero row = row
failed_times s most e now (suc k) row =
    failed_once s most e (now k) (failed_times s most e now k row)

id_refl : (n : ℕ) → n == n ≡ true
id_refl n = ground arith

recorded-retryable :
    (s : RetrySettings) (now : ℕ) (row : OutboundMessage) (error : Option String)
    → ((recorded s now row (result "RETRYABLE" error true)).status ≡ "RETRYABLE")
      × ((recorded s now row (result "RETRYABLE" error true)).retry_count ≡ suc row.retry_count)
unfolding recorded mark_failed
recorded-retryable s now row error = (rw (id_refl row.id) refl, rw (id_refl row.id) refl)

recorded-final :
    (s : RetrySettings) (now : ℕ) (row : OutboundMessage) (error : Option String)
    → (recorded s now row (result "FAILED_BUSINESS" error false)).status ≡ "FAILED_BUSINESS"
unfolding recorded mark_failed
recorded-final s now row error = rw (id_refl row.id) refl

limit-open : (most count : ℕ) → count + 1 < most → retry_limit_reached (int most) count ≡ false
unfolding retry_limit_reached
limit-open most count h = ground arith

limit-reached :
    (most count : ℕ) → 0 < most → most ≤ count + 1 → retry_limit_reached (int most) count ≡ true
unfolding retry_limit_reached
limit-reached most count h k = ground arith

count-lt : (c k most : ℕ) → c ≡ k → suc k < most → c + 1 < most
count-lt c k most h l = omega arith

count-lt_of : (c k most : ℕ) → c ≡ k → ltb (suc k) most ≡ true → c + 1 < most
count-lt_of c k most h l = ground arith

count-ge : (c k most : ℕ) → c ≡ k → ltb (suc k) most ≡ false → most ≤ c + 1
count-ge c k most h l = ground arith

module _ (s : RetrySettings) (most status : ℕ) (text lowered : String)
    (config : has_status status config_failure_statuses ≡ false)
    (retryable : has_status status retryable_statuses ≡ true) where
  abbrev failure : Exn
  failure = livechat_api status text lowered

  classified :
      (count : ℕ) (b : Bool)
      → retry_limit_reached (int most) count ≡ b
      → classify_send_error (int most) count failure ≡ (
          if b
          then result "FAILED_BUSINESS" (some (text <> " (retry limit reached)")) false
          else result "RETRYABLE" (some text) true)
  unfolding classify_send_error
  classified count b h = rw config (rw retryable (rw h refl))

  retried :
      (now : ℕ) (row : OutboundMessage)
      → row.retry_count + 1 < most
      → let row' = failed_once s (int most) failure now row in
        (row'.status ≡ "RETRYABLE") × (row'.retry_count ≡ suc row.retry_count)
  unfolding failed_once
  retried now row h =
      rw (classified row.retry_count false (limit-open most row.retry_count h))
        (recorded-retryable s now row (some text))

  given_up :
      (now : ℕ) (row : OutboundMessage)
      → 0 < most
      → most ≤ row.retry_count + 1
      → (failed_once s (int most) failure now row).status ≡ "FAILED_BUSINESS"
  unfolding failed_once
  given_up now row h k =
      rw (classified row.retry_count true (limit-reached most row.retry_count h k))
        (recorded-final s now row (some (text <> " (retry limit reached)")))

  counted :
      (now : ℕ → ℕ) (k : ℕ) (row : OutboundMessage)
      → row.retry_count ≡ 0
      → k < most
      → (failed_times s (int most) failure now k row).retry_count ≡ k
  unfolding failed_times
  counted now zero row h l = h
  counted now (suc k) row h l =
      let before = counted now k row h (omega arith) in
      (retried (now k) (failed_times s (int most) failure now k row) (count-lt _ k most before l)).1
      ∙ ap suc before

-- A message that LiveChat rejects with 429, 500, 502, 503 or 504 again and again is RETRYABLE after
-- each of its first `most - 1` failures, and FAILED_BUSINESS after `most` of them, where
-- LIVECHAT_SEND_MAX_RETRIES is `most`, at least 1.
pub failed_times-gives_up :
    (s : RetrySettings) (most status : ℕ) (text lowered : String)
    (config : has_status status config_failure_statuses ≡ false)
    (retryable : has_status status retryable_statuses ≡ true) (now : ℕ → ℕ) (k : ℕ)
    (row : OutboundMessage)
    → row.retry_count ≡ 0
    → k < most
    → (failed_times s (int most) (livechat_api status text lowered) now (suc k) row).status
      ≡ (if ltb (suc k) most then "RETRYABLE" else "FAILED_BUSINESS")
unfolding failed_times
failed_times-gives_up s most status text lowered config retryable now k row h l =
    let e = livechat_api status text lowered in
    let before = counted s most status text lowered config retryable now k row h l in
    elim (Bool-cases (ltb (suc k) most)) [
      | inl more ↦
          rw more
            (retried s most status text lowered config retryable (now k)
              (failed_times s (int most) e now k row) (count-lt_of _ k most before more)).0
      | inr last ↦ rw last (
          given_up s most status text lowered config retryable (now k)
            (failed_times s (int most) e now k row) (omega arith) (count-ge _ k most before last))
    ]
