-- ===== src/CommandWorker/Config.antt =====
-- The settings and arguments of the worker (src/app/workers/external_command_worker.py).
use ai_customer_service.Prelude.{
  ℕ, String, Bool, not, ◌&&◌, Option, none, some, List, [], ◌∷◌, if◌then◌else◌, ◌is◌, is_in, Fields,
  get, dict_of,
}
use ai_customer_service.Prelude.Actions.{Answer, value, raises}
use ai_customer_service.Queue.Commands.{Command}
use ai_customer_service.CommandWorker.Effects.{Exn, error}

pub record Settings : Type 0 where
  pub livechat_handoff_enabled : Bool
  pub livechat_handoff_target_group_id : Option ℕ
  pub livechat_handoff_ignore_agents_availability : Bool
  pub livechat_handoff_ignore_requester_presence : Bool
  pub telegram_sop_enabled : Bool
  pub telegram_bot_token : Option String
  pub telegram_test_group : Option String
  pub telegram_finance_group : Option String
  pub telegram_force_no_topic : Bool
  pub telegram_sop_target_chat_id : Option String
  pub telegram_sop_message_thread_id : Option ℕ
  pub backend_query_enabled : Bool

-- The arguments of `process_pending_commands` that reach the processing of a command. The
-- repositories are given, as `run_once` and `run_forever` do.
pub record Config : Type 0 where
  pub dry_run : Bool
  pub emit_result : Bool
  pub execute_human_handoff : Bool
  pub execute_telegram : Bool
  pub execute_backend : Bool
  pub execute_pending_reply_lookup : Bool
  pub settings : Option Settings
  pub max_retries : ℕ

abbrev pub human_handoff : String
human_handoff = "human_handoff.requested"

abbrev pub supported_command_types : List String
supported_command_types =
    "telegram.send_case_card" ∷ "telegram.append_to_case" ∷ "telegram.remind_case" ∷ "backend.query"
    ∷ "pending_reply.lookup" ∷ "human_handoff.requested" ∷ "rag.placeholder" ∷ []

abbrev pub telegram_types : List String
telegram_types = "telegram.send_case_card" ∷ "telegram.append_to_case" ∷ "telegram.remind_case" ∷ []

-- The dictionary `payload_json or {}` of a command.
abbrev pub payload : Command → Fields
payload command = dict_of command.payload_json

abbrev pub slot_memory : Command → Fields
slot_memory command = dict_of (get "slot_memory" (payload command))

unfoldable pub validate_execution_mode : Config → Answer Exn (Unit {0})
validate_execution_mode c =
    if not c.dry_run
      && not c.execute_human_handoff
      && not c.execute_telegram
      && not c.execute_backend
      && not c.execute_pending_reply_lookup
    then raises (
        error
          "must pass either --dry-run or --execute-human-handoff, --execute-telegram, --execute-backend, or --execute-pending-reply-lookup")
    else value tt

unfoldable pub command_limit_target : String → Option String
command_limit_target type =
    if type is "backend.query"
    then some "backend"
    else if is_in type telegram_types
    then some "telegram"
    else if type is human_handoff
    then some "handoff"
    else none
