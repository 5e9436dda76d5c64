-- ===== src/Sender/Message.antt =====
-- `process_pending_message` with a transaction repository, as `process_next_batch` calls it
-- (src/app/workers/sender_worker.py).
use Prim.Native.Nat.{zero}
use text.Mathlib.Text.{starts_with}
use ai_customer_service.Prelude.{
  ◌<>◌, ℕ, suc, String, Bool, false, not, ◌&&◌, ◌||◌, Option, none, some, [], ◌∷◌, if◌then◌else◌,
  any, ◌is◌, or_text, or_else, upper_is, lower_is, strip,
}
use ai_customer_service.Queue.Outbound.{EnvInt}
use ai_customer_service.Sender.Effects.{
  Exn, text_of, Answer, value, raises, Payload, Task, Response, Menu, Result, sent_text,
  sent_buttons, marked_failed, marked_sent_with_message, Env, Action, pure, ◌>>=◌, ◌>>◌, attempt,
  sending, writing,
}
use ai_customer_service.Sender.Classify.{result, classify_send_result, classify_send_error}

-- `s[:n]`
abbrev pub truncated : ℕ → String → String
truncated zero s = ""
truncated (suc n) String.[] = ""
truncated (suc n) (String.◌∷◌ c s) = String.◌∷◌ c (truncated n s)

-- `(s or "").strip()`
abbrev pub stripped : Option String → String
stripped s = strip (or_text s "")

unfoldable pub is_human_active_conversation : Task → Bool
is_human_active_conversation m =
    let handed_over = or_text m.conversation_active_workflow "" is "human_handoff" in
    upper_is (or_text m.conversation_status "") "HUMAN_ACTIVE"
    || (handed_over
        && not (
            upper_is (or_text m.conversation_status "") "HANDOFF_REQUESTED"
            && handed_over
            && m.payload_json.handoff_ack))

unfoldable pub image_asset_ref : Payload → String
unfolding strip
image_asset_ref p =
    if stripped p.asset_ref is "" then stripped p.asset_key else stripped p.asset_ref

unfoldable pub image_mvp_fallback_text : Payload → String
unfolding strip
image_mvp_fallback_text p =
    let asset_ref = stripped (or_else p.asset_ref p.asset_key) in
    let caption = stripped p.caption in
    let text = if asset_ref is "" then "图片：" else "图片：" <> asset_ref in
    if caption is "" then text else text <> "\n" <> caption

unfoldable pub final_send_custom_id : Payload → Option String
unfolding strip
final_send_custom_id p =
    let custom_id = stripped p.custom_id in
    if any (starts_with custom_id) ("preview:" ∷ "preview-" ∷ "final:" ∷ "final-" ∷ [])
    then none
    else if custom_id is ""
    then none
    else some custom_id

unfoldable pub image_text_fallback_enabled : Env → Bool
unfolding strip
image_text_fallback_enabled env =
    any (lower_is (stripped env.image_text_fallback)) ("1" ∷ "true" ∷ "yes" ∷ "on" ∷ [])

unfoldable pub buttons_fallback_last_error : Exn → String
buttons_fallback_last_error e =
    "delivery_mode=buttons_text_fallback; original_error=" <> truncated 900 (text_of e)

-- Record a result that is not SENT, and return it.
unfoldable pub fail : Task → Result → Action Result
unfolding writing
fail m r = do writing (marked_failed m.id r.status (or_text r.last_error "") r.retryable); pure r

-- Record that the message was sent, with the text of its history row, and return the result.
unfoldable pub succeed : Task → String → Option String → Result → Action Result
unfolding writing
succeed m text last_error r = do writing (marked_sent_with_message m.id text last_error); pure r

-- What `mark_sent_with_message` or `mark_failed` records, by the status.
unfoldable pub conclude : Task → String → Option String → Result → Action Result
unfolding succeed fail
conclude m text last_error r = if r.status is "SENT" then succeed m text last_error r else fail m r

-- The buttons were sent; with `original`, as a text after they had failed.
unfoldable pub finish_buttons : Task → Menu → Option Exn → Response → Action Result
unfolding conclude classify_send_result buttons_fallback_last_error
finish_buttons m menu none response =
    conclude m menu.fallback_text none (classify_send_result response)
finish_buttons m menu (some e) response =
    let r = classify_send_result response in
    let error = some (buttons_fallback_last_error e) in
    if r.status is "SENT"
    then succeed m menu.fallback_text error
        (record r { delivery_mode = some "buttons_text_fallback"; last_error = error })
    else fail m r

unfoldable pub after_buttons_fallback : EnvInt → Task → Menu → Exn → Answer Response → Action Result
unfolding finish_buttons fail classify_send_error
after_buttons_fallback max_retries m menu e (value response) =
    finish_buttons m menu (some e) response
after_buttons_fallback max_retries m menu e (raises _) =
    fail m (classify_send_error max_retries m.retry_count e)

unfoldable pub after_buttons : EnvInt → Task → Menu → Answer Response → Action Result
unfolding finish_buttons after_buttons_fallback sending
after_buttons max_retries m menu (value response) = finish_buttons m menu none response
after_buttons max_retries m menu (raises e) = do
  response ← attempt (sending (sent_text m.chat_id menu.fallback_text none))
  after_buttons_fallback max_retries m menu e response

unfoldable pub send_buttons : EnvInt → Task → Answer Menu → Action Result
unfolding fail after_buttons sending
send_buttons max_retries m (raises e) = fail m (result "FAILED_UNKNOWN" (some (text_of e)) false)
send_buttons max_retries m (value menu) = do
  response ← attempt (sending (sent_buttons m.chat_id menu))
  after_buttons max_retries m menu response
