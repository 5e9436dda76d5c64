-- ===== src/Sender/Recording.antt =====
-- Every message that is processed is recorded once, with its result
-- (src/app/workers/sender_worker.py).
pub mod Messages
use ai_customer_service.Prelude.{
  ℕ, zero, suc, ◌+◌, ◌-◌, ◌≡◌, refl, ◌∙◌, sym, ap, String, Bool, true, false, not, ◌&&◌, ◌||◌,
  Option, none, some, List, [], ◌∷◌, ◌++◌, ltb, leb, ◌==◌, if◌then◌else◌, ◌is◌, length, Bool-cases,
  inl, inr, arith, take, filter, is_none, or_text, eq_refl, any, is_in, or_else, contains_any, ◌≤◌,
  ◌<◌, map,
}
use ai_customer_service.Queue.Outbound.{EnvInt, unset, malformed, int, negative}
use ai_customer_service.Sender.{
  Action, Answer, Call, Caption, Delivered, Env, Exn, Menu, Payload, Response, Result, Task, Trace,
  after_buttons, after_buttons_fallback, after_delivery, after_image, after_text_fallback,
  asked_human_active, attempt, business_error_markers, buttons_fallback_last_error, caption_outcome,
  classify_send_error, classify_send_result, conclude, config_failure_statuses, continue,
  default_max_retries, deliver, deliver_image, deliver_text, downloaded, downloading, fail,
  final_send_custom_id, finish_buttons, finish_delivery, first, fresh_human_active, go_on,
  has_status, image_asset_ref, image_mvp_fallback_text, image_text_fallback_enabled,
  is_conversation_human_active, is_human_active_conversation, is_mvp_fallback, is_telegram_image,
  livechat_api, marked_failed, marked_sent_with_message, message_type_of, only, other,
  plain_delivery, process_message_group, process_one, process_pending_message, pure, raises,
  relay_telegram_image, release_all, released_lease, result, result_or_release, retry_limit_reached,
  retryable_statuses, send_buttons, send_by_type, send_image, send_plain, send_text_fallback,
  sending, sent_buttons, sent_image, sent_image_content, sent_text, skipped_human_active, stripped,
  succeed, telegram_api, text_of, transport, truncated, unless_human_active, value, writing, ◌>>=◌,
  ◌>>◌,
}

abbrev pub same : Bool → Bool → Bool
same true b = b
same false b = not b

-- A call that sets the state of a message.
abbrev pub is_recording : Call → Bool
is_recording (marked_failed id status error retryable) = true
is_recording (marked_sent_with_message id text error) = true
is_recording _ = false

unfoldable pub recordings : Trace → ℕ
recordings [] = 0
recordings (call ∷ t) = let rest = recordings t in if is_recording call then suc rest else rest

-- A call that records this result of this message.
abbrev pub records : Task → Result → Call → Bool
records m r (marked_failed id status error retryable) =
    id == m.id
    && status is r.status
    && not (status is "SENT")
    && same retryable r.retryable
    && same retryable (status is "RETRYABLE")
records m r (marked_sent_with_message id text error) = id == m.id && r.status is "SENT"
records m r _ = false

-- The newest call records the result, unless there is none.
unfoldable pub is_recorded : Task → Answer Result → Trace → Bool
is_recorded m (raises e) t = true
is_recorded m (value r) [] = false
is_recorded m (value r) (call ∷ t) = records m r call

-- Every call of the one trace is in the other.
abbrev pub Extends : Trace → Trace → Type 0
Extends t t' = (p : Call → Bool) → any p t ≡ true → any p t' ≡ true

or_right : (a : Bool) {b : Bool} → b ≡ true → (a || b) ≡ true
or_right a h = ground arith

pub Extends-cons : (call : Call) (t : Trace) → Extends t (call ∷ t)
Extends-cons call t p h = or_right (p call) h

abbrev pub Concludes : Task → Action Result → Type 0
Concludes m action =
    (env : Env) (t : Trace)
    → (is_recorded m (action env t).0 (action env t).1 ≡ true)
      × (recordings (action env t).1 ≡ suc (recordings t))
      × Extends t (action env t).1

-- An action that sets no message's state.
abbrev pub Unrecorded : {A : Type 0} → Action A → Type 0
Unrecorded action =
    (env : Env) (t : Trace)
    → (recordings (action env t).1 ≡ recordings t) × Extends t (action env t).1

-- An action that makes no call, and one that makes a single call that sets no message's state.
pub no_call : (t : Trace) → (recordings t ≡ recordings t) × Extends t t
no_call t = (refl, λ p h. h)

pub one_call :
    (call : Call) (t : Trace)
    → is_recording call ≡ false
    → (recordings (call ∷ t) ≡ recordings t) × Extends t (call ∷ t)
unfolding recordings
one_call call t h = (rw h refl, Extends-cons call t)

module _ {A : Type 0} where
  pub attempt-Concludes :
      (m : Task) (action : Action A) (f : Answer A → Action Result)
      → Unrecorded action
      → ((a : Answer A) → Concludes m (f a))
      → Concludes m (attempt action >>= f)
  attempt-Concludes m action f u k env t =
      let (recorded, once, grows) = k (action env t).0 env (action env t).1 in
      let (same_count, grown) = u env t in
      (recorded, once ∙ ap suc same_count, λ p h. grows p (grown p h))

  continue-Unrecorded :
      {B : Type 0} (a : Answer A) (f : A → Action B)
      → ((x : A) → Unrecorded (f x))
      → Unrecorded (continue a f)
  continue-Unrecorded (value x) f k = k x
  continue-Unrecorded (raises e) f k = λ env t. no_call t

  pub bind-Unrecorded :
      {B : Type 0} (action : Action A) (f : A → Action B)
      → Unrecorded action
      → ((x : A) → Unrecorded (f x))
      → Unrecorded (action >>= f)
  bind-Unrecorded action f u k env t =
      let (same_count, grown) = u env t in
      let (then_same, grows) = continue-Unrecorded (action env t).0 f k env (action env t).1 in
      (then_same ∙ same_count, λ p h. grows p (grown p h))
