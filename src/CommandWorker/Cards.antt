-- ===== src/CommandWorker/Cards.antt =====
-- The card of a case in Telegram, and additions to it
-- (src/app/workers/external_command_worker.py).
use ai_customer_service.Prelude.{
  ◌<>◌, String, Bool, true, false, ◌&&◌, Option, none, some, [], ◌∷◌, if◌then◌else◌, ◌is◌, Json,
  Fields, str, arr, obj, nil, get, get_or, fields, is_true, or_json,
}
use ai_customer_service.Prelude.Actions.{pure, perform, reads, raise, try_else, ◌>>=◌, value}
use ai_customer_service.Queue.Commands.{Command}
use ai_customer_service.CommandWorker.Effects.{
  Action, error, text_of, str_of, item, sent_case_card, appended_to_case,
}
use ai_customer_service.CommandWorker.Config.{Config, Settings, payload, slot_memory}
use ai_customer_service.CommandWorker.Target.{resolve_telegram_target}
use ai_customer_service.CommandWorker.Classify.{classify_telegram_error}
use ai_customer_service.CommandWorker.Reasons.{telegram_block_reason}
use ai_customer_service.CommandWorker.Records.{Item, item_of, with_insert, build_result_record}
use ai_customer_service.CommandWorker.Marking.{settle_as, settle, finish, emit, unless_blocked}

-- `payload.get("intent") or payload.get("active_workflow")`
abbrev intent_of : Command → Json
intent_of command =
    or_json (get "intent" (payload command)) (get "active_workflow" (payload command))

abbrev workflow_of : Command → Json
workflow_of command = or_json (get "active_workflow" (payload command)) (intent_of command)

unfoldable pub send_card : Command → Fields → Action (String × Fields)
send_card command target = do
  card ← reads λ env. env.case_card command target
  delivery ← perform (sent_case_card card) λ env n. env.delivery n
  message_id ← item "message_id" delivery
  case_id ← reads λ env. value ("tg:" <> str_of env message_id)
  pure (
    "telegram.case.created",
    fields (
        ("status", str "created")
        ∷ ("case_id", str case_id)
        ∷ ("telegram_message_id", message_id)
        ∷ ("target_chat_id", get "chat_id" target)
        ∷ ("message_thread_id", get "message_thread_id" target)
        ∷ ("target_source", get "target_source" target)
        ∷ ("delivery_mode", str "text_with_attachments")
        ∷ ("attachment_results", get_or (arr nil) "attachment_results" delivery)
        ∷ ("card_text", str card)
        ∷ ("intent", intent_of command)
        ∷ ("active_workflow", workflow_of command)
        ∷ []),
  )

unfoldable pub append_card : Command → Fields → Action (String × Fields)
append_card command target = do
  let replied = get "telegram_message_id" (payload command)
  let reply_to = or_json replied (get "telegram_message_id" (slot_memory command))
  addition ← reads λ env. env.case_append command target reply_to
  delivery ← perform (appended_to_case addition reply_to) λ env n. env.delivery n
  message_id ← item "message_id" delivery
  pure (
    "telegram.append_to_case.result",
    fields (
        ("status", or_json (get "status" delivery) (str "edited"))
        ∷ ("telegram_message_id", message_id)
        ∷ ("reply_to_message_id", or_json (get "reply_to_message_id" delivery) replied)
        ∷ ("target_chat_id", get "chat_id" target)
        ∷ ("message_thread_id", get "message_thread_id" target)
        ∷ ("target_source", get "target_source" target)
        ∷ ("attachment_results", get_or (arr nil) "attachment_results" delivery)
        ∷ ("card_text", or_json (get "card_text" delivery) (str addition))
        ∷ ("intent", intent_of command)
        ∷ ("active_workflow", workflow_of command)
        ∷ []),
  )

-- The result that was sent is stored, and the command is done.
unfoldable pub after_delivery : Config → Command → String × Fields → Action Item
after_delivery c command (result_type, result) = do
  inserted ← emit c.emit_result (build_result_record command result_type result none)
  finish command (
      item_of command "SENT" none
        (with_insert c.emit_result inserted (("telegram_result", obj result) ∷ [])))

unfoldable pub deliver : Config → Command → Fields → Action Item
deliver c command target =
    try_else
      (if command.command_type is "telegram.send_case_card"
        then send_card command target
        else append_card command target)
      (λ e. settle c command (classify_telegram_error e) (some (text_of e)))
      (after_delivery c command)

abbrev no_target : String
no_target = "telegram target chat_id is missing"

unfoldable pub deliver_to : Config → Command → Fields → Action Item
deliver_to c command target =
    if is_true (get "chat_id" target)
    then deliver c command target
    else settle_as c command "FAILED_CONFIG" (some no_target)

-- There are settings once the command is allowed.
unfoldable pub run_card : Option Settings → Config → Command → Action Item
run_card none c command = raise (error "settings are required")
run_card (some s) c command =
    reads (λ env. value (resolve_telegram_target env command s)) >>= deliver_to c command

-- `text.startswith(prefix)`
abbrev starts_with : String → String → Bool
starts_with text String.[] = true
starts_with String.[] (String.◌∷◌ c s) = false
starts_with (String.◌∷◌ d t) (String.◌∷◌ c s) =
    String.◌∷◌ d "" is String.◌∷◌ c "" && starts_with t s

abbrev pub blocked_card_status : String → String
blocked_card_status reason =
    if reason is "telegram append requires existing telegram_case_id and telegram_message_id"
    then "FAILED_BUSINESS"
    else if starts_with reason "unsupported"
    then "FAILED_UNSUPPORTED"
    else if reason is "--execute-telegram is required"
    then "SKIPPED_DISABLED"
    else "FAILED_CONFIG"

unfoldable pub process_real_telegram_command : Config → Command → Action Item
process_real_telegram_command c command =
    reads (λ env. value (telegram_block_reason env command c.settings c.execute_telegram))
    >>= λ reason.
        unless_blocked reason (λ why. settle_as c command (blocked_card_status why) (some why))
          (run_card c.settings c command)
