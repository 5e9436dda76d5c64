-- ===== src/CommandWorker/Process.antt =====
-- One command, from the check that no person handles the conversation
-- (src/app/workers/external_command_worker.py).
use ai_customer_service.Prelude.{
  ◌<>◌, String, Bool, true, false, not, Option, none, some, [], ◌∷◌, if◌then◌else◌, ◌is◌, is_in,
  upper_is, Json, Fields, end,
}
use ai_customer_service.Prelude.Actions.{pure, perform, lift, raise, try_else, ◌>>=◌, ◌>>◌}
use ai_customer_service.Queue.Commands.{Command}
use ai_customer_service.CommandWorker.Effects.{
  Action, Exn, writing, error, text_of, read_conversation, marked_dry_run_done,
  marked_processing_failed,
}
use ai_customer_service.CommandWorker.Config.{Config, human_handoff, supported_command_types}
use ai_customer_service.CommandWorker.Records.{
  Item, item_of, with_insert, build_result_record, build_mock_result_for_command,
}
use ai_customer_service.CommandWorker.Marking.{settle_as, emit}
use ai_customer_service.CommandWorker.Followups.{process_real_telegram_followup_command}
use ai_customer_service.CommandWorker.Cards.{process_real_telegram_command}
use ai_customer_service.CommandWorker.Queries.{
  process_real_backend_query_command, process_real_pending_reply_lookup_command,
}
use ai_customer_service.CommandWorker.Handoff.{process_real_handoff}

unfoldable pub emit_mock : Command → String × Fields → Action Json
emit_mock command (result_type, result) =
    emit true (build_result_record command result_type result none)

unfoldable pub process_dry_run_command : Config → Command → Action Item
process_dry_run_command c command =
    (if c.emit_result
      then lift (build_mock_result_for_command command) >>= emit_mock command
      else emit false end)
    >>= λ inserted.
        writing (marked_dry_run_done command.id)
        >> pure (item_of command "DRY_RUN_DONE" none (with_insert c.emit_result inserted []))

unfoldable pub process_real_command : Config → Command → Action Item
process_real_command c command =
    let type = command.command_type in
    if type is "telegram.remind_case"
    then process_real_telegram_followup_command c command
    else if is_in type ("telegram.send_case_card" ∷ "telegram.append_to_case" ∷ [])
    then process_real_telegram_command c command
    else if type is "backend.query"
    then process_real_backend_query_command c command
    else if type is "pending_reply.lookup"
    then process_real_pending_reply_lookup_command c command
    else if type is human_handoff
    then process_real_handoff c command
    else settle_as c command "FAILED_UNSUPPORTED"
        (some ("real execution unsupported for command_type: " <> type))

-- `_command_blocked_by_human_active`
abbrev is_human : Option String → Bool
is_human none = false
is_human (some status) = upper_is status "HUMAN_ACTIVE"

unfoldable pub command_blocked_by_human_active : Command → Action Bool
command_blocked_by_human_active command =
    if command.conversation_id is ""
    then pure false
    else perform (read_conversation command.conversation_id) (λ env n. env.conversation_status n)
      >>= λ status. pure (is_human status)

abbrev pub skip_reason : String
skip_reason = "conversation is HUMAN_ACTIVE; external command skipped"

unfoldable pub run_unless : Config → Command → Bool → Action Item
run_unless c command blocked =
    if blocked
    then settle_as c command "SKIPPED_HUMAN_ACTIVE" (some skip_reason)
    else if not (is_in command.command_type supported_command_types)
    then raise (error ("unsupported command_type: " <> command.command_type))
    else if c.dry_run
    then process_dry_run_command c command
    else process_real_command c command

unfoldable pub fail_command : Config → Command → Exn → Action Item
fail_command c command e =
    perform (marked_processing_failed command.id (text_of e) c.max_retries)
      (λ env n. env.failed_status n)
    >>= λ status. pure (item_of command "FAILED" (some (text_of e)) [])

unfoldable pub process_one_pending_command : Config → Command → Action Item
process_one_pending_command c command =
    try_else (command_blocked_by_human_active command >>= run_unless c command)
      (fail_command c command) (λ done. pure done)
