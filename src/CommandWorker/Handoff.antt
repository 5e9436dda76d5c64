-- ===== src/CommandWorker/Handoff.antt =====
-- The transfer of a chat to a person (src/app/workers/external_command_worker.py).
use ai_customer_service.Prelude.{
  ◌<>◌, ℕ, String, Bool, true, false, ◌||◌, Option, none, some, List, [], ◌∷◌, if◌then◌else◌, ◌is◌,
  is_in, upper_is, decimal, Json, Fields, null, bool, num, str, obj, end, get, put, fields, is_true,
  dict_of, text_or_null,
}
use ai_customer_service.Prelude.Actions.{
  pure, perform, reads, lift, raise, try_else, ◌>>=◌, ◌>>◌, Answer, value, raises,
}
use ai_customer_service.Queue.Commands.{Command}
use ai_customer_service.CommandWorker.Effects.{
  Exn, Ack, Action, writing, error, text_of, read_handoff_ack, released_lease,
  recorded_handoff_failure, merged_payload, transferred_chat, updated_workflow_state, marked_sent,
  marked_status,
}
use ai_customer_service.CommandWorker.Config.{Config, Settings, payload}
use ai_customer_service.CommandWorker.Reasons.{
  handoff_block_reason, resolve_handoff_target_group_id,
}
use ai_customer_service.CommandWorker.Classify.{classify_handoff_error}
use ai_customer_service.CommandWorker.Records.{Item, item_of, with_insert, build_result_record}
use ai_customer_service.CommandWorker.Marking.{
  mark_command_status, settle_as, settle, emit, unless_blocked,
}

abbrev pub failed_after_external_success : String
failed_after_external_success = "FAILED_AFTER_EXTERNAL_SUCCESS"

abbrev ack_id : Option Ack → Json
ack_id none = null
ack_id (some a) = num a.id

abbrev ack_status : Option Ack → Json
ack_status none = null
ack_status (some a) = str a.status

abbrev ack_keys : Option Ack → List (String × Json)
ack_keys ack =
    ("handoff_ack_outbound_message_id", ack_id ack) ∷ ("handoff_ack_status", ack_status ack) ∷ []

-- Why a message that is not sent, and will not be, holds the transfer up.
abbrev ack_reason : Option Ack → String
ack_reason none = "handoff ack outbound message is missing"
ack_reason (some a) =
    "handoff ack outbound_message_id=" <> decimal a.id <> " is not sendable: status=" <> a.status

abbrev ack_failure : Command → Option Ack → String → Fields
ack_failure command ack now = fields (
    ("stage", str "handoff_ack")
    ∷ ("command_id", num command.id)
    ∷ ("outbound_message_id", ack_id ack)
    ∷ ("status", str "FAILED_DEPENDENCY")
    ∷ ("error", str (ack_reason ack))
    ∷ ("recorded_at", str now)
    ∷ [])

-- The command fails, and the conversation keeps why. `_mark_command_status` has its default of
-- three attempts here, which no status but RETRYABLE reads.
unfoldable pub fail_dependency : Command → Option Ack → Action Item
fail_dependency command ack = do
  now ← reads λ env. value env.now
  writing (marked_status command.id "FAILED_DEPENDENCY" (some (ack_reason ack)))
  writing (recorded_handoff_failure command.conversation_id (ack_failure command ack now))
  pure (item_of command "FAILED_DEPENDENCY" (some (ack_reason ack)) (ack_keys ack))

abbrev waiting_reason : Ack → String
waiting_reason a =
    "waiting for handoff ack outbound_message_id=" <> decimal a.id <> " status=" <> a.status

-- `rest` is what follows where there is nothing to wait for.
unfoldable pub await_ack : Command → Action Item → Option Ack → Action Item
await_ack command rest none = fail_dependency command none
await_ack command rest (some a) =
    if upper_is a.status "SENT"
    then rest
    else if upper_is a.status "PENDING" || upper_is a.status "RETRYABLE"
    then writing (released_lease command.id)
      >> pure (item_of command "WAITING_DEPENDENCY" (some (waiting_reason a)) (ack_keys (some a)))
    else fail_dependency command (some a)

abbrev event_id : Option ℕ → Answer Exn ℕ
event_id none = raises (error "int() argument must be a string or a number")
event_id (some n) = value n

abbrev is_direct : Json → Bool
is_direct (str s) = s is "direct_notice"
is_direct _ = false

-- The message to the customer that has to be sent before the transfer.
unfoldable pub handoff_ack_dependency_status : Command → Action Item → Action Item
handoff_ack_dependency_status command rest =
    if is_direct (get "handoff_ack_mode" (payload command)) then rest else (do
      event ← lift (event_id command.inbound_event_id)
      ack ← perform (read_handoff_ack command.conversation_id event) λ env n. env.handoff_ack n
      await_ack command rest ack)

abbrev pub stage_of : Command → Fields
stage_of command = dict_of (get "human_handoff_stage" (payload command))

-- `_record_handoff_stage`
unfoldable pub record_handoff_stage : ℕ → Fields → Action (Unit {0})
record_handoff_stage id stage =
    writing (merged_payload id (fields (("human_handoff_stage", obj stage) ∷ [])))

abbrev transferred_state : Fields
transferred_state = fields (
    ("status", str "HUMAN_ACTIVE")
    ∷ ("active_workflow", str "human_handoff")
    ∷ ("workflow_stage", str "transferred")
    ∷ ("slot_memory", obj end)
    ∷ [])

abbrev group_json : Option ℕ → Json
group_json none = null
group_json (some n) = num n

abbrev transfer_result : Settings → Command → Option ℕ → Json → Fields
transfer_result s command group response = fields (
    ("status", str "TRANSFERRED")
    ∷ ("chat_id", text_or_null command.chat_id)
    ∷ ("target_group_id", group_json group)
    ∷ ("ignore_agents_availability", bool s.livechat_handoff_ignore_agents_availability)
    ∷ ("ignore_requester_presence", bool s.livechat_handoff_ignore_requester_presence)
    ∷ ("livechat_response", response)
    ∷ [])

-- The local steps after the transfer; the stage is that of the attempted transfer.
unfoldable pub complete_handoff : Config → Command → Fields → Fields → Action Json
complete_handoff c command stage result = do
  let succeeded = put "transfer_succeeded" (bool true) stage
  record_handoff_stage command.id succeeded
  writing (updated_workflow_state command.conversation_id transferred_state)
  let updated = put "conversation_state_updated" (bool true) succeeded
  record_handoff_stage command.id updated
  inserted ←
      emit c.emit_result
        (build_result_record command "human_handoff.transfer_chat.result" result (some "PROCESSED"))
  record_handoff_stage command.id (put "result_emitted" (bool c.emit_result) updated)
  writing (marked_sent command.id)
  pure inserted

unfoldable pub after_transfer : Settings → Config → Command → Option ℕ → Fields → Json → Action Item
after_transfer s c command group stage response =
    let result = transfer_result s command group response in
    let shown = ("transfer_result", obj result) ∷ [] in
    try_else (complete_handoff c command stage result)
      (λ e.
        let reason =
          "LiveChat transfer may have succeeded; local handoff completion failed and manual verification is required: "
          <> text_of e in
        mark_command_status c.max_retries command.id failed_after_external_success (some reason)
        >>= λ final. pure (item_of command failed_after_external_success (some reason) shown))
      (λ inserted. pure (item_of command "SENT" none (with_insert c.emit_result inserted shown)))

unfoldable pub transfer : Settings → Config → Command → Option ℕ → Action Item
transfer s c command group =
    let stage = put "transfer_attempted" (bool true) (stage_of command) in
    if is_true (get "transfer_succeeded" (stage_of command))
    then settle_as c command failed_after_external_success (
        some
          "LiveChat transfer may have succeeded before local completion; manual verification required before retry")
    else try_else
        (record_handoff_stage command.id stage
          >> perform
              (transferred_chat command.chat_id group s.livechat_handoff_ignore_agents_availability
                s.livechat_handoff_ignore_requester_presence)
              (λ env n. env.transfer_chat n))
        (λ e. settle c command (classify_handoff_error e) (some (text_of e)))
        (after_transfer s c command group stage)

abbrev pub blocked_handoff_status : String → String
blocked_handoff_status reason =
    if is_in reason
      ("livechat_handoff_enabled is false" ∷ "--execute-human-handoff is required" ∷ [])
    then "SKIPPED_DISABLED"
    else "FAILED_CONFIG"

-- Once a transfer is allowed. There are settings then, or the reason said otherwise.
unfoldable pub run_handoff : Option Settings → Config → Command → Action Item
run_handoff none c command = raise (error "settings are required")
run_handoff (some s) c command =
    handoff_ack_dependency_status command
      (reads (λ env. resolve_handoff_target_group_id env command s) >>= transfer s c command)

unfoldable pub process_real_handoff : Config → Command → Action Item
process_real_handoff c command =
    reads (λ env. value (handoff_block_reason env command c.settings c.execute_human_handoff))
    >>= λ reason.
        unless_blocked reason (λ why. settle_as c command (blocked_handoff_status why) (some why))
          (run_handoff c.settings c command)
