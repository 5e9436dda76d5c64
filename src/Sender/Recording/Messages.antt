-- ===== src/Sender/Recording/Messages.antt =====
-- `process_pending_message` records every message once, with its result
-- (src/app/workers/sender_worker.py).
use ai_customer_service.Prelude.{
  ◌≡◌, refl, String, Bool, true, false, not, ◌&&◌, ◌||◌, Option, none, some, ◌∷◌, if◌then◌else◌,
  ◌is◌, length, or_text,
}
use ai_customer_service.Queue.Outbound.{EnvInt}
use ai_customer_service.Sender.{
  Action, Answer, Caption, Delivered, Exn, Menu, Response, Result, Task, after_buttons,
  after_buttons_fallback, after_delivery, after_image, after_text_fallback, asked_human_active,
  classify_send_result, deliver, deliver_image, deliver_text, downloading, final_send_custom_id,
  finish_buttons, finish_delivery, fresh_human_active, image_asset_ref, downloaded,
  image_mvp_fallback_text, image_text_fallback_enabled, is_conversation_human_active,
  is_human_active_conversation, is_telegram_image, message_type_of, plain_delivery,
  process_pending_message, pure, raises, relay_telegram_image, send_buttons, send_by_type,
  send_image, send_plain, send_text_fallback, sending, sent_buttons, sent_image, sent_image_content,
  sent_text, skipped_human_active, stripped, unless_human_active, value, ◌>>=◌,
}
use ai_customer_service.Sender.Recording.{
  no_call, one_call, Extends-cons, recordings, Concludes, Unrecorded, attempt-Concludes,
  bind-Unrecorded,
}
use ai_customer_service.Sender.Concluding.{
  fail-Concludes, succeed-Concludes, classify_send_result-IsFailure, classify_send_error-IsFailure,
  conclude-Concludes, if-Concludes, IsFailure,
}

sent_text-Unrecorded :
    (chat text : String) (id : Option String) → Unrecorded (sending (sent_text chat text id))
unfolding sending recordings
sent_text-Unrecorded chat text id env t = one_call (sent_text chat text id) t refl

finish_buttons-Concludes :
    (m : Task) (menu : Menu) (original : Option Exn) (response : Response)
    → Concludes m (finish_buttons m menu original response)
unfolding finish_buttons
finish_buttons-Concludes m menu none response =
    conclude-Concludes m menu.fallback_text none (classify_send_result response)
      (classify_send_result-IsFailure response)
finish_buttons-Concludes m menu (some e) response =
    let r = classify_send_result response in
    if-Concludes (r.status is "SENT") m _ _ (λ h. succeed-Concludes m menu.fallback_text _ _ h)
      (λ h. fail-Concludes m r (classify_send_result-IsFailure response h))

after_fallback-Concludes :
    (most : EnvInt) (m : Task) (menu : Menu) (e : Exn) (answer : Answer Response)
    → Concludes m (after_buttons_fallback most m menu e answer)
unfolding after_buttons_fallback
after_fallback-Concludes most m menu e (value response) =
    finish_buttons-Concludes m menu (some e) response
after_fallback-Concludes most m menu e (raises _) =
    fail-Concludes m _ (classify_send_error-IsFailure most m.retry_count e)

after_buttons-Concludes :
    (most : EnvInt) (m : Task) (menu : Menu) (answer : Answer Response)
    → Concludes m (after_buttons most m menu answer)
unfolding after_buttons
after_buttons-Concludes most m menu (value response) = finish_buttons-Concludes m menu none response
after_buttons-Concludes most m menu (raises e) =
    attempt-Concludes m (sending (sent_text m.chat_id menu.fallback_text none))
      (after_buttons_fallback most m menu e)
      (sent_text-Unrecorded m.chat_id menu.fallback_text none)
      (after_fallback-Concludes most m menu e)

buttons-Unrecorded : (chat : String) (menu : Menu) → Unrecorded (sending (sent_buttons chat menu))
unfolding sending recordings
buttons-Unrecorded chat menu env t = one_call (sent_buttons chat menu) t refl

send_buttons-Concludes :
    (most : EnvInt) (m : Task) (menu : Answer Menu) → Concludes m (send_buttons most m menu)
unfolding send_buttons
send_buttons-Concludes most m (raises e) = fail-Concludes m _ (refl, refl)
send_buttons-Concludes most m (value menu) =
    attempt-Concludes m (sending (sent_buttons m.chat_id menu)) (after_buttons most m menu)
      (buttons-Unrecorded m.chat_id menu) (after_buttons-Concludes most m menu)

if-Unrecorded :
    {A : Type 0} (b : Bool) (x y : Action A)
    → Unrecorded x
    → Unrecorded y
    → Unrecorded (if b then x else y)
if-Unrecorded true x y h k = h
if-Unrecorded false x y h k = k

after_image-Unrecorded : (m : Task) (response : Response) → Unrecorded (after_image m response)
unfolding after_image sending recordings
after_image-Unrecorded m response =
    if-Unrecorded (stripped m.payload_json.caption is "") _ _ (λ env t. no_call t)
      (λ env t. one_call (sent_text m.chat_id (stripped m.payload_json.caption) none) t refl)

downloading-Unrecorded : (id : String) → Unrecorded (downloading id)
unfolding downloading recordings
downloading-Unrecorded id env t = one_call (downloaded id) t refl

content-Unrecorded : (chat : String) → Unrecorded (sending (sent_image_content chat))
unfolding sending recordings
content-Unrecorded chat env t = one_call (sent_image_content chat) t refl

image-Unrecorded : (chat ref : String) → Unrecorded (sending (sent_image chat ref))
unfolding sending recordings
image-Unrecorded chat ref env t = one_call (sent_image chat ref) t refl

relay-Unrecorded :
    (m : Task) (has_telegram : Bool) → Unrecorded (relay_telegram_image m has_telegram)
unfolding relay_telegram_image
relay-Unrecorded m false = λ env t. no_call t
relay-Unrecorded m true =
    bind-Unrecorded (downloading (or_text m.payload_json.telegram_file_id ""))
      (λ u. sending (sent_image_content m.chat_id))
      (downloading-Unrecorded (or_text m.payload_json.telegram_file_id ""))
      (λ u. content-Unrecorded m.chat_id)

send_image-Unrecorded : (m : Task) (has_telegram : Bool) → Unrecorded (send_image m has_telegram)
unfolding send_image
send_image-Unrecorded m has_telegram =
    if-Unrecorded (is_telegram_image m) _ _ (relay-Unrecorded m has_telegram)
      (image-Unrecorded m.chat_id (image_asset_ref m.payload_json))

deliver_text-Unrecorded : (m : Task) (text : Option String) → Unrecorded (deliver_text m text)
unfolding deliver_text plain_delivery
deliver_text-Unrecorded m none = λ env t. no_call t
deliver_text-Unrecorded m (some text) =
    bind-Unrecorded (sending (sent_text m.chat_id text (final_send_custom_id m.payload_json)))
      (plain_delivery text)
      (sent_text-Unrecorded m.chat_id text (final_send_custom_id m.payload_json))
      (λ response env t. no_call t)

deliver-Unrecorded :
    (m : Task) (is_image has_telegram : Bool) → Unrecorded (deliver m is_image has_telegram)
unfolding deliver deliver_image
deliver-Unrecorded m true has_telegram =
    bind-Unrecorded (send_image m has_telegram) (after_image m)
      (send_image-Unrecorded m has_telegram) (after_image-Unrecorded m)
deliver-Unrecorded m false has_telegram = deliver_text-Unrecorded m m.payload_json.text

-- A result with a mode of delivery and a caption, where `b` says so, fails as before.
adjusted :
    (b : Bool) (r : Result) (mode : String) (caption : Option Caption)
    → (r.status is "SENT" ≡ false → IsFailure r)
    → let r' = if b then record r { delivery_mode = some mode; caption_result = caption } else r in
      r'.status is "SENT" ≡ false → IsFailure r'
adjusted true r mode caption h = h
adjusted false r mode caption h = h

finish_delivery-Concludes :
    (m : Task) (is_image : Bool) (d : Delivered) → Concludes m (finish_delivery m is_image d)
unfolding finish_delivery
finish_delivery-Concludes m is_image d =
    let r = classify_send_result d.response in
    conclude-Concludes m d.history_text none _ (
      adjusted (is_image && r.status is "SENT") r _ d.caption_result
        (classify_send_result-IsFailure d.response))

after_text_fallback-Concludes :
    (most : EnvInt) (m : Task) (e : Exn) (answer : Answer Response)
    → Concludes m (after_text_fallback most m e answer)
unfolding after_text_fallback
after_text_fallback-Concludes most m e (value response) = finish_delivery-Concludes m true (record {
  response = record response { delivery_mode = some "mvp_text_fallback" };
  caption_result = none;
  history_text = image_mvp_fallback_text m.payload_json;
})
after_text_fallback-Concludes most m e (raises _) =
    fail-Concludes m _ (classify_send_error-IsFailure most m.retry_count e)

send_text_fallback-Concludes :
    (most : EnvInt) (m : Task) (e : Exn) → Concludes m (send_text_fallback most m e)
unfolding send_text_fallback
send_text_fallback-Concludes most m e =
    attempt-Concludes m
      (sending (sent_text m.chat_id (image_mvp_fallback_text m.payload_json) none))
      (after_text_fallback most m e)
      (sent_text-Unrecorded m.chat_id (image_mvp_fallback_text m.payload_json) none)
      (after_text_fallback-Concludes most m e)

after_delivery-Concludes :
    (most : EnvInt) (m : Task) (is_image fallback : Bool) (answer : Answer Delivered)
    → Concludes m (after_delivery most m is_image fallback answer)
unfolding after_delivery
after_delivery-Concludes most m is_image fallback (value d) = finish_delivery-Concludes m is_image d
after_delivery-Concludes most m is_image fallback (raises e) =
    if-Concludes (is_image && not (is_telegram_image m) && fallback) m _ _
      (λ h. send_text_fallback-Concludes most m e)
      (λ h. fail-Concludes m _ (classify_send_error-IsFailure most m.retry_count e))

send_plain-Concludes :
    (most : EnvInt) (m : Task) (is_image : Bool) → Concludes m (send_plain most m is_image)
unfolding send_plain
send_plain-Concludes most m is_image env t =
    attempt-Concludes m (deliver m is_image env.has_telegram)
      (after_delivery most m is_image (image_text_fallback_enabled env))
      (deliver-Unrecorded m is_image env.has_telegram)
      (after_delivery-Concludes most m is_image (image_text_fallback_enabled env)) env t

send_by_type-Concludes : (most : EnvInt) (m : Task) → Concludes m (send_by_type most m)
unfolding send_by_type
send_by_type-Concludes most m env t =
    if-Concludes (message_type_of m is "text") m _ _ (λ h. send_plain-Concludes most m false)
      (λ h.
        if-Concludes (message_type_of m is "image") m _ _ (λ k. send_plain-Concludes most m true)
          (λ k.
            if-Concludes (message_type_of m is "buttons") m _ _
              (λ l.
                send_buttons-Concludes most m
                  (env.menu m.payload_json.menu_key m.payload_json.language))
              (λ l. fail-Concludes m _ (refl, refl))))
      env t

unless_human-Concludes :
    (most : EnvInt) (m : Task) (fresh : Bool) → Concludes m (unless_human_active most m fresh)
unfolding unless_human_active skipped_human_active
unless_human-Concludes most m fresh =
    if-Concludes (is_human_active_conversation m || fresh) m _ _
      (λ h. fail-Concludes m _ (refl, refl)) (λ h. send_by_type-Concludes most m)

asked-Concludes :
    (m : Task) (id : String) (f : Bool → Action Result)
    → ((b : Bool) → Concludes m (f b))
    → Concludes m (is_conversation_human_active id >>= f)
unfolding is_conversation_human_active recordings
asked-Concludes m id f k env t =
    let answer = env.human_active (length t) id in
    let (recorded, once, grows) = k answer env (asked_human_active id answer ∷ t) in
    (recorded, once, λ p h. grows p (Extends-cons (asked_human_active id answer) t p h))

unless_empty-Concludes :
    (b : Bool) (m : Task) (action : Action Bool) (f : Bool → Action Result)
    → Concludes m (f false)
    → Concludes m (action >>= f)
    → Concludes m ((if b then pure false else action) >>= f)
unless_empty-Concludes true m action f h k = h
unless_empty-Concludes false m action f h k = k

-- The state of the conversation was read, if it has one.
fresh-Concludes :
    (m : Task) (id : Option String) (f : Bool → Action Result)
    → ((b : Bool) → Concludes m (f b))
    → Concludes m (fresh_human_active id >>= f)
unfolding fresh_human_active
fresh-Concludes m none f k = k false
fresh-Concludes m (some id) f k =
    unless_empty-Concludes (id is "") m (is_conversation_human_active id) f (k false)
      (asked-Concludes m id f k)

pub process_pending_message-Concludes :
    (most : EnvInt) (m : Task) → Concludes m (process_pending_message most m)
unfolding process_pending_message
process_pending_message-Concludes most m =
    fresh-Concludes m m.conversation_id (unless_human_active most m) (unless_human-Concludes most m)
