-- ===== src/Sender/Concluding.antt =====
-- A failure, and what was sent, are recorded once (src/app/workers/sender_worker.py).
use ai_customer_service.Prelude.{
  ℕ, suc, ◌≡◌, refl, String, Bool, true, false, not, ◌&&◌, ◌||◌, Option, none, ◌∷◌, ◌==◌,
  if◌then◌else◌, ◌is◌, length, arith, or_text, eq_refl, contains_any,
}
use ai_customer_service.Queue.Outbound.{EnvInt}
use ai_customer_service.Sender.{
  Action, Answer, Call, Env, Exn, Response, Result, Task, Trace, business_error_markers,
  classify_send_error, classify_send_result, conclude, config_failure_statuses, continue, fail,
  has_status, livechat_api, marked_failed, marked_sent_with_message, other, pure, raises, result,
  retry_limit_reached, retryable_statuses, succeed, telegram_api, transport, value, writing,
}
use ai_customer_service.Sender.Recording.{
  same, is_recording, recordings, records, is_recorded, Extends, Extends-cons, Concludes,
}

-- A write, and the result where it succeeded.
after_write :
    (m : Task) (r : Result) (call : Call) (answer : Answer (Unit {0})) (env : Env) (t : Trace)
    → records m r call ≡ true
    → is_recorded m
        (continue answer (λ u. pure r) env (call ∷ t)).0
        (continue answer (λ u. pure r) env (call ∷ t)).1
      ≡ true
unfolding is_recorded
after_write m r call (value u) env t h = h
after_write m r call (raises e) env t h = refl

write_once :
    (r : Result) (call : Call) (answer : Answer (Unit {0})) (env : Env) (t : Trace)
    → is_recording call ≡ true
    → recordings (continue answer (λ u. pure r) env (call ∷ t)).1 ≡ suc (recordings t)
unfolding recordings
write_once r call (value u) env t h = rw h refl
write_once r call (raises e) env t h = rw h refl

write_grows :
    (r : Result) (call : Call) (answer : Answer (Unit {0})) (env : Env) (t : Trace)
    → Extends t (continue answer (λ u. pure r) env (call ∷ t)).1
write_grows r call (value u) env t = Extends-cons call t
write_grows r call (raises e) env t = Extends-cons call t

-- A failure that is recorded has its own status, and is retryable where the status says so.
abbrev pub IsFailure : Result → Type 0
IsFailure r = (r.status is "SENT" ≡ false) × (same r.retryable (r.status is "RETRYABLE") ≡ true)

same_refl : (b : Bool) → same b b ≡ true
same_refl true = refl
same_refl false = refl

conjunction :
    (a b c d e : Bool)
    → a ≡ true
    → b ≡ true
    → c ≡ false
    → d ≡ true
    → e ≡ true
    → (a && b && not c && d && e) ≡ true
conjunction a b c d e h k l m n = ground arith

id_refl : (n : ℕ) → n == n ≡ true
id_refl n = ground arith

failed_call :
    (m : Task) (r : Result)
    → IsFailure r
    → records m r (marked_failed m.id r.status (or_text r.last_error "") r.retryable) ≡ true
failed_call m r (h, k) =
    conjunction _ _ _ _ _ (id_refl m.id) (eq_refl r.status) h (same_refl r.retryable) k

both : (a b : Bool) → a ≡ true → b ≡ true → (a && b) ≡ true
both a b h k = ground arith

sent_call :
    (m : Task) (r : Result) (text : String) (error : Option String)
    → r.status is "SENT" ≡ true
    → records m r (marked_sent_with_message m.id text error) ≡ true
sent_call m r text error h = both _ _ (id_refl m.id) h

pub fail-Concludes : (m : Task) (r : Result) → IsFailure r → Concludes m (fail m r)
unfolding fail writing
fail-Concludes m r (h, k) env t = (
  after_write m r (marked_failed m.id r.status (or_text r.last_error "") r.retryable)
      (env.write (length t)) env t (failed_call m r (h, k)),
  write_once r _ (env.write (length t)) env t refl,
  write_grows r _ (env.write (length t)) env t,
)

pub succeed-Concludes :
    (m : Task) (text : String) (error : Option String) (r : Result)
    → r.status is "SENT" ≡ true
    → Concludes m (succeed m text error r)
unfolding succeed writing
succeed-Concludes m text error r h env t = (
  after_write m r (marked_sent_with_message m.id text error) (env.write (length t)) env t
      (sent_call m r text error h),
  write_once r (marked_sent_with_message m.id text error) (env.write (length t)) env t refl,
  write_grows r (marked_sent_with_message m.id text error) (env.write (length t)) env t,
)

if-IsFailure :
    (b : Bool) (r s : Result) → IsFailure r → IsFailure s → IsFailure (if b then r else s)
if-IsFailure true r s h k = h
if-IsFailure false r s h k = k

sent_or_failed :
    (b : Bool) (error : Option String)
    → (if b then result "SENT" none false else result "FAILED_UNKNOWN" error false).status is "SENT"
      ≡ false
    → IsFailure (if b then result "SENT" none false else result "FAILED_UNKNOWN" error false)
sent_or_failed true error h = (h, refl)
sent_or_failed false error h = (refl, refl)

pub classify_send_result-IsFailure :
    (response : Response)
    → (classify_send_result response).status is "SENT" ≡ false
    → IsFailure (classify_send_result response)
unfolding classify_send_result
classify_send_result-IsFailure response h =
    sent_or_failed (response.success || response.event_id) _ h

pub classify_send_error-IsFailure :
    (most : EnvInt) (retry_count : ℕ) (e : Exn) → IsFailure (classify_send_error most retry_count e)
unfolding classify_send_error
classify_send_error-IsFailure most retry_count (telegram_api text true) = (refl, refl)
classify_send_error-IsFailure most retry_count (telegram_api text false) = (refl, refl)
classify_send_error-IsFailure most retry_count (livechat_api status text lowered) =
    if-IsFailure (has_status status config_failure_statuses) _ _ (refl, refl)
      (if-IsFailure (has_status status retryable_statuses) _ _
        (if-IsFailure (retry_limit_reached most retry_count) _ _ (refl, refl) (refl, refl))
        (if-IsFailure (contains_any business_error_markers lowered) _ _ (refl, refl) (refl, refl)))
classify_send_error-IsFailure most retry_count (transport text) = (refl, refl)
classify_send_error-IsFailure most retry_count (other text) = (refl, refl)

pub if-Concludes :
    (b : Bool) (m : Task) (x y : Action Result)
    → (b ≡ true → Concludes m x)
    → (b ≡ false → Concludes m y)
    → Concludes m (if b then x else y)
if-Concludes true m x y h k = h refl
if-Concludes false m x y h k = k refl

pub conclude-Concludes :
    (m : Task) (text : String) (error : Option String) (r : Result)
    → (r.status is "SENT" ≡ false → IsFailure r)
    → Concludes m (conclude m text error r)
unfolding conclude
conclude-Concludes m text error r k =
    if-Concludes (r.status is "SENT") m _ _ (λ h. succeed-Concludes m text error r h)
      (λ h. fail-Concludes m r (k h))
