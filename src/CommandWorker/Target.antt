-- ===== src/CommandWorker/Target.antt =====
-- The group of Telegram that a command goes to
-- (src/app/services/telegram_target_resolver.py, src/app/config/platforms.py).
use ai_customer_service.Prelude.{
  ℕ, String, Bool, Option, none, some, [], ◌∷◌, if◌then◌else◌, ◌is◌, truthy, upper_is, strip, Json,
  Fields, null, num, str, get, fields, is_true, or_json, text_or_null,
}
use ai_customer_service.Queue.Commands.{Command}
use ai_customer_service.CommandWorker.Effects.{Env, str_of}
use ai_customer_service.CommandWorker.Config.{Settings, payload, slot_memory}

-- `normalize_platform(p) == code`
abbrev is_platform : Env → Json → String → Bool
is_platform env p code = upper_is (strip (if is_true p then str_of env p else "")) code

-- `topic_for_platform`
unfoldable pub topic_for_platform : Env → Json → Option ℕ
topic_for_platform env p =
    if is_platform env p "JUE999"
    then some 4
    else if is_platform env p "GNA777"
    then some 15372
    else if is_platform env p "CUM777"
    then some 26447
    else if is_platform env p "CON777"
    then some 29915
    else if is_platform env p "PAG99"
    then some 18565
    else if is_platform env p "JG7"
    then some 15371
    else if is_platform env p "ZAP69"
    then some 36735
    else none

abbrev target : Json → Json → String → Fields
target chat_id thread_id source =
    fields
      (("chat_id", chat_id) ∷ ("message_thread_id", thread_id) ∷ ("target_source", str source) ∷ [])

abbrev group_or : Option String → String → Json
group_or none default = str default
group_or (some s) default = if s is "" then str default else str s

abbrev number_or_null : Option ℕ → Json
number_or_null none = null
number_or_null (some n) = num n

-- `None if telegram_force_no_topic else topic`
abbrev topic_of : Settings → Option ℕ → Json
topic_of s topic = if s.telegram_force_no_topic then null else number_or_null topic

unfoldable pub general_target : Settings → Fields
general_target s =
    if truthy s.telegram_test_group
    then target (text_or_null s.telegram_test_group) null "test_group"
    else if truthy s.telegram_sop_target_chat_id
    then target (text_or_null s.telegram_sop_target_chat_id)
        (topic_of s s.telegram_sop_message_thread_id) "explicit_sop_target"
    else if truthy s.telegram_finance_group
    then target (text_or_null s.telegram_finance_group) null "finance_group"
    else target null null "missing"

unfoldable pub platform_target : Settings → Option ℕ → Fields
unfolding general_target
platform_target s none = general_target s
platform_target s (some topic) =
    target (group_or s.telegram_finance_group "-1003181576378") (topic_of s (some topic))
      "platform_finance_topic"

unfoldable pub resolve_telegram_target : Env → Command → Settings → Fields
unfolding platform_target topic_for_platform
resolve_telegram_target env command s =
    let p = payload command in
    let chat_id = or_json (get "telegram_target_chat_id" p) (get "target_chat_id" p) in
    let thread_id = or_json (get "telegram_message_thread_id" p) (get "message_thread_id" p) in
    let platform = or_json (get "platform" p) (get "platform" (slot_memory command)) in
    if is_true chat_id
    then target (str (str_of env chat_id)) thread_id "command_payload"
    else if is_platform env platform "TEST"
    then (if truthy s.telegram_test_group
        then target (text_or_null s.telegram_test_group) null "platform_test_group"
        else target null null "missing_test_group")
    else platform_target s (topic_for_platform env platform)
