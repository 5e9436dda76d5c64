-- ===== src/Database/Examples.antt =====
-- An empty database, a takeover, and an event (src/app/db/repositories.py).
use ai_customer_service.Prelude.{
  ◌≡◌, refl, String, true, false, none, some, [], ◌∷◌, All, Json, null, strip,
}
use ai_customer_service.Queue.Outbound
use ai_customer_service.Queue.Outbound.{OutboundMessage}
use ai_customer_service.Queue.Commands.{Command}
use ai_customer_service.Queue.Inbound.{InboundEvent}
use ai_customer_service.Database.{
  GraphState, conversation_id_for_chat, Database, Agent, message_in, command_in, mark_human_active,
  committed, get_or_create, update_workflow_state, process_event_transactionally,
}
use ai_customer_service.Database.Silence.{serves}
use ai_customer_service.Database.Silenced.{event, run, run-mark_human_active}
use ai_customer_service.Database.Once.{process_event_transactionally-twice}

abbrev empty : Database
empty = record {
  conversations = [];
  next_conversation_id = 1;
  inbound = record { rows = []; next_id = 1 };
  outbound = record { rows = []; next_id = 1 };
  commands = record { rows = []; next_id = 1 };
  results = record { rows = []; next_id = 1 };
  history = record { rows = []; next_id = 1 };
  cases = record { cases = []; followups = []; messages = []; next_id = 1 };
}

abbrev digest : Json → String
digest payload = "digest"

abbrev hello : InboundEvent
hello = record {
  source = "livechat_webhook";
  raw_action = "incoming_event";
  organization_id = none;
  chat_id = some "c1";
  thread_id = some "t1";
  event_id = some "e1";
  event_type = some "message";
  standard_event_type = "MESSAGE_RECEIVED";
  author_id = none;
  sender_role = "customer";
  occurred_at = none;
  dedup_key = "e1";
  payload_json = null;
  ignored = false;
  ignore_reason = none;
}

abbrev answer : Outbound.Draft
answer = record {
  tenant_id = none;
  conversation_id = none;
  inbound_event_id = some 1;
  chat_id = some "c1";
  thread_id = some "t1";
  action_type = "send_event";
  message_type = "text";
  message_kind = none;
  command_type = none;
  payload_json = null;
  status = "PENDING";
  dedup_key = none;
  block_index = none;
}

abbrev state : GraphState
state = record {
  status = some "AI_ACTIVE";
  active_workflow = none;
  workflow_stage = none;
  slot_memory = some [];
  delete_slot_memory_keys = [];
  handoff_state = none;
  telegram_case_update = none;
}

abbrev agent : Agent
agent = record { agent_id = some "a"; event_id = none; occurred_at = none }

run-mark_human_active_example :
    let after =
      run digest
        (event 6 false true 1 hello none (answer ∷ []) [] (some state) [] ∷ [])
        (mark_human_active 5 (some "c1") (some "t1") agent empty) in
    (serves "livechat:c1:t1" after.conversations ≡ true)
    × All (λ (m : OutboundMessage). message_in "livechat:c1:t1" m ≡ false) after.outbound.rows
    × All (λ (c : Command). command_in "livechat:c1:t1" c ≡ false) after.commands.rows
unfolding conversation_id_for_chat strip
run-mark_human_active_example =
    run-mark_human_active digest 5 (some "c1") (some "t1") agent empty
      (event 6 false true 1 hello none (answer ∷ []) [] (some state) [] ∷ [])

committed_test :
    (process_event_transactionally digest 5 false true 1 hello none
      (answer ∷ [])
      []
      (some state)
      []
      empty).0
    ≡ committed
unfolding process_event_transactionally get_or_create strip update_workflow_state
committed_test = refl

process_event_transactionally-twice_example :
    let after =
      (process_event_transactionally digest 5 false true 1 hello none
        (answer ∷ [])
        []
        (some state)
        []
        empty).1 in
    let again =
      (process_event_transactionally digest 9 false false 1 hello none
        (answer ∷ [])
        []
        none
        []
        after).1 in
    (again.outbound ≡ after.outbound) × (again.commands ≡ after.commands)
process_event_transactionally-twice_example =
    process_event_transactionally-twice digest hello (answer ∷ []) [] 5 9 1 false false true false
      none none (some state) none [] [] empty committed_test
