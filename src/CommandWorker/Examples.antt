-- ===== src/CommandWorker/Examples.antt =====
-- The worker on concrete commands (src/app/workers/external_command_worker.py).
use ai_customer_service.Prelude.{
  ℕ, ◌≤◌, ◌≡◌, refl, String, true, false, Option, none, some, [], ◌∷◌, map, strip, Json, leb,
  if◌then◌else◌, Fields, null, bool, num, str, obj, fields, end, get, get_or, put,
}
use ai_customer_service.Prelude.Actions.{
  Answer, value, raises, pure, perform, lift, raise, reads, try_else, ◌>>=◌, ◌>>◌,
}
use ai_customer_service.Queue.Lease.{no_lease}
use ai_customer_service.Queue.Commands.{Command, merge_payload, json_merge_patch, merge_fields}
use ai_customer_service.CommandWorker.Effects.{
  Env, Ack, Exn, other, read_conversation, read_handoff_ack, marked_status,
  marked_processing_failed, recorded_handoff_failure,
}
use ai_customer_service.CommandWorker.Config.{Config, Settings}
use ai_customer_service.CommandWorker.Target.{
  resolve_telegram_target, platform_target, topic_for_platform,
}
use ai_customer_service.CommandWorker.Reasons.{
  handoff_block_reason, handoff_block_reason_with, resolve_handoff_target_group_id,
  telegram_block_reason, telegram_block_reason_with, card_block_reason,
}
use ai_customer_service.CommandWorker.Marking.{mark_command_status, settle_as, emit, unless_blocked}
use ai_customer_service.CommandWorker.Handoff.{
  fail_dependency, await_ack, handoff_ack_dependency_status, run_handoff, process_real_handoff,
}
use ai_customer_service.CommandWorker.Cards.{
  send_card, after_delivery, deliver, deliver_to, run_card, process_real_telegram_command,
}
use ai_customer_service.CommandWorker.Process.{
  command_blocked_by_human_active, run_unless, process_real_command, fail_command,
  process_one_pending_command,
}
use ai_customer_service.CommandWorker.Counting.{settled}
use ai_customer_service.CommandWorker.Restraint.{externals, AllPermitted}
use ai_customer_service.CommandWorker.Outcome.{
  process_one_pending_command-restrained, process_one_pending_command-transfers_once,
}

abbrev settings : Settings
settings = record {
  livechat_handoff_enabled = true;
  livechat_handoff_target_group_id = some 7;
  livechat_handoff_ignore_agents_availability = true;
  livechat_handoff_ignore_requester_presence = false;
  telegram_sop_enabled = true;
  telegram_bot_token = some "token";
  telegram_test_group = none;
  telegram_finance_group = some "group";
  telegram_force_no_topic = false;
  telegram_sop_target_chat_id = none;
  telegram_sop_message_thread_id = none;
  backend_query_enabled = true;
}

abbrev everything : Config
everything = record {
  dry_run = false;
  emit_result = true;
  execute_human_handoff = true;
  execute_telegram = true;
  execute_backend = true;
  execute_pending_reply_lookup = true;
  settings = some settings;
  max_retries = 3;
}

abbrev command : String → Fields → Command
command type payload = record {
  id = 5;
  tenant_id = "default";
  conversation_id = "a";
  chat_id = some "chat";
  thread_id = some "thread";
  inbound_event_id = some 9;
  command_type = type;
  payload_json = obj payload;
  status = "PROCESSING";
  retry_count = 0;
  last_error = none;
  dedup_key = "key";
  lease = no_lease;
  attempted_at = none;
  processed_at = none;
  created_at = 0;
}

-- `write n` and `insert` are the answers of the writes and of the insertion of a result.
abbrev answers : Option String → Option Ack → (ℕ → Answer Exn (Unit {0})) → Answer Exn Json → Env
answers status ack write insert = record {
  conversation_status = λ n. value status;
  handoff_ack = λ n. value ack;
  write = write;
  failed_status = λ n. value "RETRYABLE";
  insert_result = λ n. insert;
  reservation = λ n. value end;
  transfer_chat = λ n. value null;
  delivery = λ n. value (fields (("message_id", num 3) ∷ []));
  query_backend = λ n. value end;
  lookup_reply = λ n. value end;
  case_card = λ command target. value "card";
  case_append = λ command target reply_to. value "addition";
  case_followup = λ command case followup update. value "follow-up";
  customer_update = λ raw intent. value "update";
  is_money_followup = λ raw. false;
  shown = λ j. "";
  parse_int = λ s. none;
  now = "now";
}

abbrev fine : ℕ → Answer Exn (Unit {0})
fine n = value tt

abbrev acknowledged : Option Ack
acknowledged = some (record { id = 2; status = "SENT" })

-- The writes after the third call raise.
abbrev third_fails : ℕ → Answer Exn (Unit {0})
third_fails n = if leb 3 n then raises (other "lost" "lost") else value tt

abbrev handoff : Command
handoff = command "human_handoff.requested" end

abbrev no_ack : Env
no_ack = answers (some "AI_ACTIVE") none third_fails (value null)

-- The record of the missing acknowledgment raises: the row is marked twice.
no_ack_calls :
    map (λ e. e.0) (process_one_pending_command everything handoff no_ack []).1
    ≡ marked_processing_failed 5 "lost" 3
      ∷ recorded_handoff_failure "a" (
          fields (
            ("stage", str "handoff_ack")
            ∷ ("command_id", num 5)
            ∷ ("outbound_message_id", null)
            ∷ ("status", str "FAILED_DEPENDENCY")
            ∷ ("error", str "handoff ack outbound message is missing")
            ∷ ("recorded_at", str "now")
            ∷ []))
      ∷ marked_status 5 "FAILED_DEPENDENCY" (some "handoff ack outbound message is missing")
      ∷ read_handoff_ack "a" 9
      ∷ read_conversation "a"
      ∷ []
unfolding process_one_pending_command command_blocked_by_human_active run_unless
    process_real_command process_real_handoff run_handoff handoff_ack_dependency_status await_ack
    fail_dependency unless_blocked handoff_block_reason handoff_block_reason_with
    resolve_handoff_target_group_id fail_command pure perform lift raise reads try_else ◌>>=◌ ◌>>◌
    get get_or put
no_ack_calls = refl

-- A person handles the conversation.
human_calls :
    map
      (λ e. e.0)
      (process_one_pending_command everything handoff
        (answers (some "human_active") none fine (value null))
        []).1
    ≡ marked_status 5 "SKIPPED_HUMAN_ACTIVE"
        (some "conversation is HUMAN_ACTIVE; external command skipped")
      ∷ read_conversation "a"
      ∷ []
unfolding process_one_pending_command command_blocked_by_human_active run_unless settle_as
    mark_command_status pure perform try_else ◌>>=◌ ◌>>◌
human_calls = refl

abbrev card : Command
card =
    command "telegram.send_case_card"
      (fields (("platform", str " jg7 ") ∷ ("slot_memory", obj (fields (("a", num 1) ∷ []))) ∷ []))

-- The card has been sent, and its result could not be stored.
card_calls :
    let t =
      (process_one_pending_command everything card
        (answers none none fine (raises (other "lost" "lost")))
        []).1 in
    (externals t ≡ 1) × (settled t ≡ 1)
unfolding process_one_pending_command command_blocked_by_human_active run_unless
    process_real_command process_real_telegram_command run_card deliver_to deliver send_card
    after_delivery unless_blocked telegram_block_reason telegram_block_reason_with card_block_reason
    resolve_telegram_target platform_target topic_for_platform emit fail_command pure perform lift
    raise reads try_else ◌>>=◌ ◌>>◌ get get_or put strip
card_calls = (refl, refl)

process_one_pending_command-restrained_example :
    let t =
      (process_one_pending_command everything card
        (answers none none fine (raises (other "lost" "lost")))
        []).1 in
    (externals t ≤ 1) × AllPermitted everything t
process_one_pending_command-restrained_example =
    process_one_pending_command-restrained everything card
      (answers none none fine (raises (other "lost" "lost")))

-- The handoff after a transfer whose local completion failed.
abbrev handoff_again : Command
handoff_again = record handoff {
  payload_json = obj (
      fields (
        (
          "human_handoff_stage",
          obj (fields (("transfer_attempted", bool true) ∷ ("transfer_succeeded", bool true) ∷ [])),
        )
        ∷ []));
  retry_count = 1;
}

process_one_pending_command-transfers_once_example :
    externals
      (process_one_pending_command everything handoff_again
        (answers none acknowledged fine (value null))
        []).1
    ≡ 0
unfolding merge_payload json_merge_patch merge_fields get get_or put
process_one_pending_command-transfers_once_example =
    process_one_pending_command-transfers_once everything
      (answers none acknowledged fine (value null)) handoff handoff_again
      (fields (("transfer_attempted", bool true) ∷ [])) refl refl
