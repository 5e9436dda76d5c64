-- ===== src/CommandWorker/Reasons.antt =====
-- The reasons not to run a command (src/app/workers/external_command_worker.py).
use ai_customer_service.Prelude.{
  ◌<>◌, ℕ, String, Bool, true, false, not, ◌&&◌, ◌||◌, Option, none, some, ◌==◌, if◌then◌else◌,
  ◌is◌, is_in, truthy, strip, Json, null, bool, num, str, get, is_true, or_json,
}
use ai_customer_service.Prelude.Actions.{Answer, value, raises}
use ai_customer_service.Queue.Commands.{Command}
use ai_customer_service.CommandWorker.Effects.{Env, Exn, Number, nonnegative, error, text_of}
use ai_customer_service.CommandWorker.Config.{Settings, payload, slot_memory, telegram_types}
use ai_customer_service.CommandWorker.Target.{resolve_telegram_target}

unfoldable pub backend_block_reason : Option Settings → Bool → Option String
backend_block_reason settings false = some "--execute-backend is required"
backend_block_reason none true = some "settings are required for backend execution"
backend_block_reason (some s) true =
    if s.backend_query_enabled then none else some "backend_query_enabled is false"

-- What an addition to a case needs.
abbrev has_case_to_append : Command → Bool
has_case_to_append command =
    let p = payload command in
    let memory = slot_memory command in
    is_true (or_json (get "telegram_case_id" p) (get "telegram_case_id" memory))
    && is_true (or_json (get "telegram_message_id" p) (get "telegram_message_id" memory))

unfoldable pub card_block_reason : Env → Command → Settings → Option String
unfolding resolve_telegram_target
card_block_reason env command s =
    if command.command_type is "telegram.append_to_case" && not (has_case_to_append command)
    then some "telegram append requires existing telegram_case_id and telegram_message_id"
    else if is_true (get "chat_id" (resolve_telegram_target env command s))
    then none
    else some "telegram target chat_id is missing"

unfoldable pub telegram_block_reason_with : Env → Command → Settings → Option String
unfolding card_block_reason
telegram_block_reason_with env command s =
    let is_reminder = command.command_type is "telegram.remind_case" in
    if not s.telegram_sop_enabled
    then some "telegram_sop_enabled is false"
    else if not (truthy s.telegram_bot_token)
    then some "telegram_bot_token is required"
    else if command.conversation_id is "" || not (truthy command.chat_id)
    then some "command conversation_id and chat_id are required"
    else if not is_reminder && not (is_true (get "slot_memory" (payload command)))
    then some "command payload.slot_memory is required"
    else if is_reminder
    then (if not (is_true (get "telegram_case_id" (payload command)))
          || not (truthy command.thread_id)
        then some "telegram reminder requires telegram_case_id and source thread_id"
        else none)
    else card_block_reason env command s

abbrev with_settings : Option Settings → String → (Settings → Option String) → Option String
with_settings none missing f = some missing
with_settings (some s) missing f = f s

unfoldable pub telegram_block_reason : Env → Command → Option Settings → Bool → Option String
unfolding telegram_block_reason_with
telegram_block_reason env command settings execute_telegram =
    if not (is_in command.command_type telegram_types)
    then some ("unsupported telegram command_type: " <> command.command_type)
    else if not execute_telegram
    then some "--execute-telegram is required"
    else with_settings settings "settings are required for telegram execution"
        (telegram_block_reason_with env command)

abbrev bad_group : Answer Exn (Option ℕ)
bad_group = raises (error "command.payload_json.livechat_group_id must be a positive integer")

abbrev positive : Option Number → Answer Exn (Option ℕ)
positive (some (nonnegative n)) = if n == 0 then bad_group else value (some n)
positive _ = bad_group

-- The group of the payload, where it has one, else that of the settings.
abbrev group_of : Env → Json → Option ℕ → Answer Exn (Option ℕ)
group_of env null default = value default
group_of env (num n) default = positive (some (nonnegative n))
group_of env (str s) default = if strip s is "" then value default else positive (env.parse_int s)
group_of env (bool true) default = value (some 1)
group_of env _ default = bad_group

unfoldable pub resolve_handoff_target_group_id : Env → Command → Settings → Answer Exn (Option ℕ)
resolve_handoff_target_group_id env command s =
    group_of env (get "livechat_group_id" (payload command)) s.livechat_handoff_target_group_id

abbrev group_reason : Answer Exn (Option ℕ) → Option String
group_reason (raises e) = some (text_of e)
group_reason (value none) =
    some
      "livechat_handoff_target_group_id is required when command.payload_json.livechat_group_id is missing"
group_reason (value (some n)) = none

unfoldable pub handoff_block_reason_with : Env → Command → Settings → Option String
unfolding resolve_handoff_target_group_id
handoff_block_reason_with env command s =
    if not s.livechat_handoff_enabled
    then some "livechat_handoff_enabled is false"
    else if not (truthy command.chat_id)
    then some "command.chat_id is required"
    else group_reason (resolve_handoff_target_group_id env command s)

unfoldable pub handoff_block_reason : Env → Command → Option Settings → Bool → Option String
unfolding handoff_block_reason_with
handoff_block_reason env command settings execute_human_handoff =
    if not execute_human_handoff
    then some "--execute-human-handoff is required"
    else with_settings settings "settings are required for real human handoff"
        (handoff_block_reason_with env command)
