-- ===== src/CommandWorker/Queries.antt =====
-- Queries of the backend, and look-ups of the reply to an earlier case
-- (src/app/workers/external_command_worker.py).
use ai_customer_service.Prelude.{
  String, Bool, false, Option, none, some, List, [], ◌∷◌, if◌then◌else◌, ◌is◌, or_text, Json,
  Fields, null, str, obj, get, fields, or_json,
}
use ai_customer_service.Prelude.Actions.{pure, perform, reads, ◌>>=◌, value}
use ai_customer_service.Queue.Commands.{Command}
use ai_customer_service.CommandWorker.Effects.{
  Env, Action, str_of, queried_backend, looked_up_reply,
}
use ai_customer_service.CommandWorker.Config.{Config, payload, slot_memory}
use ai_customer_service.CommandWorker.Reasons.{backend_block_reason}
use ai_customer_service.CommandWorker.Records.{
  Item, item_of, with_insert, build_result_record, copy_backend_context_to_result,
  copy_user_visible_context_to_result,
}
use ai_customer_service.CommandWorker.Marking.{
  mark_command_status, settle_as, finish, emit, unless_blocked,
}

abbrev text_option : Env → Json → Option String
text_option env null = none
text_option env j = some (str_of env j)

-- A result that says what went wrong is emitted before the command is marked.
unfoldable pub fail_query :
    Config → Command → Fields → String → Option String → List (String × Json) → Action Item
fail_query c command result status reason shown = do
  inserted ← emit c.emit_result (build_result_record command "backend.query.result" result none)
  mark_command_status c.max_retries command.id status reason >>= λ final.
      pure (item_of command status reason (with_insert c.emit_result inserted shown))

unfoldable pub finish_query : Config → Command → Fields → Action Item
finish_query c command result = do
  inserted ← emit c.emit_result (build_result_record command "backend.query.result" result none)
  finish command (
      item_of command "SENT" none
        (with_insert c.emit_result inserted (("backend_result", obj result) ∷ [])))

abbrev is_success : Json → Bool
is_success (str s) = s is "success"
is_success _ = false

unfoldable pub use_query_result : Config → Command → Fields → Action Item
use_query_result c command result =
    if is_success (get "status" result)
    then finish_query c command result
    else reads
        (λ env. value (str_of env (or_json (get "error_code" result) (str "FAILED_BACKEND_QUERY"))))
      >>= λ status.
          reads (λ env. value (text_option env (get "error_message" result))) >>= λ reason.
          fail_query c command result status reason (("backend_result", obj result) ∷ [])

unfoldable pub run_query : Config → Command → Action Item
run_query c command = do
  let tenant = or_json (get "tenant_id" (payload command)) (str command.tenant_id)
  result ←
      perform (queried_backend (payload command) tenant command.chat_id)
        λ env n. env.query_backend n
  use_query_result c command (copy_backend_context_to_result (payload command) result)

abbrev blocked_query : Command → String → Fields
blocked_query command reason = copy_backend_context_to_result (payload command) (
    fields (
      ("status", str "failed")
      ∷ ("error_code", str "FAILED_CONFIG")
      ∷ ("error_message", str reason)
      ∷ []))

unfoldable pub process_real_backend_query_command : Config → Command → Action Item
process_real_backend_query_command c command =
    unless_blocked (backend_block_reason c.settings c.execute_backend)
      (λ reason.
        fail_query c command (blocked_query command reason) "FAILED_CONFIG" (some reason) [])
      (run_query c command)

unfoldable pub run_lookup : Config → Command → Action Item
run_lookup c command = do
  let identity =
      or_json (get "pending_reply_identity" (payload command))
        (get "pending_reply_identity" (slot_memory command))
  found ←
      perform
        (looked_up_reply identity (or_text (some command.tenant_id) "default")
          command.conversation_id)
        λ env n. env.lookup_reply n
  let result = copy_user_visible_context_to_result (payload command) found
  inserted ←
      emit c.emit_result (build_result_record command "pending_reply.lookup.result" result none)
  finish command (
      item_of command "SENT" none
        (with_insert c.emit_result inserted (("pending_reply_result", obj result) ∷ [])))

unfoldable pub process_real_pending_reply_lookup_command : Config → Command → Action Item
process_real_pending_reply_lookup_command c command =
    if c.execute_pending_reply_lookup
    then run_lookup c command
    else settle_as c command "SKIPPED_DISABLED" (some "--execute-pending-reply-lookup is required")
