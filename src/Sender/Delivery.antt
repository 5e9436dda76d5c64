-- ===== src/Sender/Delivery.antt =====
-- `process_pending_message` with a transaction repository, as `process_next_batch` calls it: texts
-- and images, and the whole function (src/app/workers/sender_worker.py).

use ai_customer_service.Prelude.{
  ◌<>◌, String, Bool, true, false, not, ◌&&◌, ◌||◌, Option, none, some, if◌then◌else◌, ◌is◌,
  or_text, or_else, strip,
}
use ai_customer_service.Queue.Outbound.{EnvInt}
use ai_customer_service.Sender.Effects.{
  Exn, other, text_of, Answer, value, raises, Task, Response, Caption, Result, sent_text,
  sent_image, sent_image_content, Action, pure, ◌>>=◌, ◌>>◌, attempt, is_conversation_human_active,
  sending, downloading,
}
use ai_customer_service.Sender.Classify.{result, classify_send_result, classify_send_error}
use ai_customer_service.Sender.Message.{
  stripped, is_human_active_conversation, image_asset_ref, image_mvp_fallback_text,
  final_send_custom_id, image_text_fallback_enabled, fail, conclude, send_buttons,
}

-- What was sent: the response, the result of a caption, and the text of the history row.
pub record Delivered : Type 0 where
  pub response : Response
  pub caption_result : Option Caption
  pub history_text : String

unfoldable pub caption_outcome : Answer Response → Caption
unfolding classify_send_result
caption_outcome (raises e) = record { status = "FAILED_CAPTION"; error = some (text_of e) }
caption_outcome (value response) =
    let r = classify_send_result response in record { status = r.status; error = r.last_error }

unfoldable pub after_image : Task → Response → Action Delivered
unfolding sending caption_outcome strip
after_image m response =
    let p = m.payload_json in
    if stripped p.caption is ""
    then pure
        (record { response = response; caption_result = none; history_text = or_text p.caption "" })
    else (do
      answer ← attempt (sending (sent_text m.chat_id (stripped p.caption) none))
      pure (record {
        response = response;
        caption_result = some (caption_outcome answer);
        history_text = or_text p.caption "";
      }))

-- The photo of a Telegram message, fetched first.
unfoldable pub relay_telegram_image : Task → Bool → Action Response
unfolding downloading sending
relay_telegram_image m false =
    λ env t. (raises (other "telegram client is required for Telegram image outbound"), t)
relay_telegram_image m true = do
  downloading (or_text m.payload_json.telegram_file_id "")
  sending (sent_image_content m.chat_id)

abbrev pub is_telegram_image : Task → Bool
is_telegram_image m = or_text m.payload_json.asset_source "" is "telegram"

unfoldable pub send_image : Task → Bool → Action Response
unfolding relay_telegram_image sending image_asset_ref
send_image m has_telegram =
    if is_telegram_image m
    then relay_telegram_image m has_telegram
    else sending (sent_image m.chat_id (image_asset_ref m.payload_json))

unfoldable pub deliver_image : Task → Bool → Action Delivered
unfolding send_image after_image
deliver_image m has_telegram = do response ← send_image m has_telegram; after_image m response

unfoldable pub plain_delivery : String → Response → Action Delivered
plain_delivery text response =
    pure (record { response = response; caption_result = none; history_text = text })

-- A payload without a text raises a KeyError.
unfoldable pub deliver_text : Task → Option String → Action Delivered
unfolding sending final_send_custom_id plain_delivery
deliver_text m none = λ env t. (raises (other "'text'"), t)
deliver_text m (some text) = do
  response ← sending (sent_text m.chat_id text (final_send_custom_id m.payload_json))
  plain_delivery text response

-- The body of the `try`.
unfoldable pub deliver : Task → Bool → Bool → Action Delivered
unfolding deliver_image deliver_text
deliver m true has_telegram = deliver_image m has_telegram
deliver m false has_telegram = deliver_text m m.payload_json.text

unfoldable pub is_mvp_fallback : Response → Bool
is_mvp_fallback r = or_text r.delivery_mode "" is "mvp_text_fallback"

unfoldable pub finish_delivery : Task → Bool → Delivered → Action Result
unfolding conclude classify_send_result is_mvp_fallback
finish_delivery m is_image d =
    let r = classify_send_result d.response in
    let mode = if is_mvp_fallback d.response then "mvp_text_fallback" else "livechat_file" in
    conclude m d.history_text none (
      if is_image && r.status is "SENT"
      then record r { delivery_mode = some mode; caption_result = d.caption_result }
      else r)

unfoldable pub after_text_fallback : EnvInt → Task → Exn → Answer Response → Action Result
unfolding finish_delivery fail classify_send_error image_mvp_fallback_text
after_text_fallback max_retries m e (value response) = finish_delivery m true (record {
  response = record response { delivery_mode = some "mvp_text_fallback" };
  caption_result = none;
  history_text = image_mvp_fallback_text m.payload_json;
})
after_text_fallback max_retries m e (raises _) =
    fail m (classify_send_error max_retries m.retry_count e)

unfoldable pub send_text_fallback : EnvInt → Task → Exn → Action Result
unfolding sending image_mvp_fallback_text after_text_fallback
send_text_fallback max_retries m e = do
  answer ← attempt (sending (sent_text m.chat_id (image_mvp_fallback_text m.payload_json) none))
  after_text_fallback max_retries m e answer

-- The `except` of the delivery, and what comes after it.
unfoldable pub after_delivery : EnvInt → Task → Bool → Bool → Answer Delivered → Action Result
unfolding finish_delivery send_text_fallback fail classify_send_error
after_delivery max_retries m is_image fallback (value d) = finish_delivery m is_image d
after_delivery max_retries m is_image fallback (raises e) =
    if is_image && not (is_telegram_image m) && fallback
    then send_text_fallback max_retries m e
    else fail m (classify_send_error max_retries m.retry_count e)

unfoldable pub send_plain : EnvInt → Task → Bool → Action Result
unfolding deliver after_delivery image_text_fallback_enabled
send_plain max_retries m is_image env =
    (do
      d ← attempt (deliver m is_image env.has_telegram)
      after_delivery max_retries m is_image (image_text_fallback_enabled env) d)
      env

-- message_type or message_kind or "text"
unfoldable pub message_type_of : Task → String
message_type_of m = or_text (or_else m.message_type m.message_kind) "text"

unfoldable pub send_by_type : EnvInt → Task → Action Result
unfolding message_type_of send_plain send_buttons fail
send_by_type max_retries m env =
    (let type = message_type_of m in
        if type is "text"
        then send_plain max_retries m false
        else if type is "image"
        then send_plain max_retries m true
        else if type is "buttons"
        then send_buttons max_retries m (env.menu m.payload_json.menu_key m.payload_json.language)
        else fail m (
            result "SKIPPED_UNSUPPORTED" (some ("unsupported outbound message_type: " <> type))
              false))
      env

unfoldable pub skipped_human_active : Result
skipped_human_active =
    result "SKIPPED_HUMAN_ACTIVE"
      (some "conversation is HUMAN_ACTIVE or human_handoff; bot outbound skipped") false

unfoldable pub unless_human_active : EnvInt → Task → Bool → Action Result
unfolding is_human_active_conversation fail skipped_human_active send_by_type
unless_human_active max_retries m fresh =
    if is_human_active_conversation m || fresh
    then fail m skipped_human_active
    else send_by_type max_retries m

-- `is_conversation_human_active`, of a message with a conversation.
unfoldable pub fresh_human_active : Option String → Action Bool
unfolding is_conversation_human_active
fresh_human_active none = pure false
fresh_human_active (some id) = if id is "" then pure false else is_conversation_human_active id

unfoldable pub process_pending_message : EnvInt → Task → Action Result
unfolding fresh_human_active unless_human_active
process_pending_message max_retries m = do
  fresh ← fresh_human_active m.conversation_id
  unless_human_active max_retries m fresh
