-- ===== src/Database/Tables.antt =====
-- All tables together, the takeover of a conversation by a person, and the insertions that the
-- transactions share (src/app/db/repositories.py).
use ai_customer_service.Prelude.{
  ℕ, suc, String, Bool, true, false, ◌&&◌, Option, none, some, List, [], ◌∷◌, map, if◌then◌else◌,
  ◌is◌, or_text, bool, str,
}
use ai_customer_service.Queue.Lease.{no_lease, is_open}
use ai_customer_service.Queue.Outbound
use ai_customer_service.Queue.Outbound.{OutboundMessage}
use ai_customer_service.Queue.Commands
use ai_customer_service.Queue.Commands.{Command}
use ai_customer_service.Queue.Results
use ai_customer_service.Queue.Results.{CommandResult}
use ai_customer_service.Queue.Inbound
use ai_customer_service.Queue.Inbound.{InboundEvent}
use ai_customer_service.Cases.{Store, update_case_status}
use ai_customer_service.Database.Memory.{Memory, merge, or_empty, text_json}
use ai_customer_service.Database.Conversations.{
  Conversation, conversation_id_for_chat, update_conversation, upsert, with_thread,
}
use ai_customer_service.Database.Messages.{HistoryMessage, History, insert_message}

pub record Database : Type 0 where
  pub conversations : List Conversation
  pub next_conversation_id : ℕ
  pub inbound : Inbound.Table
  pub outbound : Outbound.Table
  pub commands : Commands.Table
  pub results : Results.Table
  pub history : History
  pub cases : Store

abbrev pub with_conversations : List Conversation → Database → Database
with_conversations cs db = record db {
  conversations = cs;
  next_conversation_id = suc db.next_conversation_id;
}

-- `conversation_id = %s`, which is not true of NULL
abbrev pub same_conversation : String → Option String → Bool
same_conversation id none = false
same_conversation id (some key) = key is id

abbrev pub message_in : String → OutboundMessage → Bool
message_in id m = same_conversation id m.conversation_id && is_open m.status

abbrev pub command_in : String → Command → Bool
command_in id c = c.conversation_id is id && is_open c.status

abbrev pub cancelled_message : String → OutboundMessage → OutboundMessage
cancelled_message id m =
    if message_in id m
    then record m {
      status = "SKIPPED_HUMAN_ACTIVE";
      last_error = some "conversation is HUMAN_ACTIVE; outbound skipped";
      lease = no_lease;
    }
    else m

abbrev pub cancelled_command : String → Command → Command
cancelled_command id c =
    if command_in id c
    then record c {
      status = "SKIPPED_HUMAN_ACTIVE";
      last_error = some "conversation is HUMAN_ACTIVE; external command skipped";
      lease = no_lease;
    }
    else c

abbrev pub cancelled_result : String → CommandResult → CommandResult
cancelled_result id r =
    if r.conversation_id is id && is_open r.status
    then record r {
      status = "SKIPPED_HUMAN_ACTIVE";
      last_error = some "conversation is HUMAN_ACTIVE; external result skipped";
      lease = no_lease;
    }
    else r

-- What the event says of the agent: `human_agent_id` and `human_agent_event_id` of its payload,
-- or its own author and id.
pub record Agent : Type 0 where
  pub agent_id : Option String
  pub event_id : Option String
  pub occurred_at : Option String

abbrev pub agent_keys : Agent → Memory
agent_keys a =
    ("human_agent_detected", bool true)
    ∷ ("agent_id", text_json a.agent_id)
    ∷ ("first_agent_event_id", text_json a.event_id)
    ∷ ("detected_at", text_json a.occurred_at)
    ∷ ("source", str "livechat_agent_public_reply")
    ∷ []

abbrev pub taken_over : ℕ → Agent → Conversation → Conversation
taken_over now a c = record c {
  status = "HUMAN_ACTIVE";
  workflow_stage = some "human_active";
  slot_memory = some (or_empty c.slot_memory);
  handoff_state = some (merge (or_empty c.handoff_state) (agent_keys a));
  updated_at = now;
}

-- COALESCE(VALUES(current_thread_id), current_thread_id)
abbrev pub coalesced_thread : ℕ → Option String → Conversation → Conversation
coalesced_thread now none c = c
coalesced_thread now (some thread_id) c = with_thread now (some thread_id) c

abbrev pub cancel_all : String → Database → Database
cancel_all id db = record db {
  outbound = record db.outbound { rows = map (cancelled_message id) db.outbound.rows };
  commands = record db.commands { rows = map (cancelled_command id) db.commands.rows };
  results = record db.results { rows = map (cancelled_result id) db.results.rows };
}

-- A chat that is missing is called `unknown`.
abbrev pub chat_of : Option String → String
chat_of chat_id = or_text chat_id "unknown"

unfoldable pub mark_human_active : ℕ → Option String → Option String → Agent → Database → Database
unfolding conversation_id_for_chat
mark_human_active now chat_id thread_id agent db =
    let id = conversation_id_for_chat (chat_of chat_id) thread_id in
    let rows =
      upsert now db.next_conversation_id id (chat_of chat_id) thread_id
        (coalesced_thread now thread_id) db.conversations in
    cancel_all id (with_conversations (update_conversation id (taken_over now agent) rows) db)

abbrev pub after_insert : ℕ → InboundEvent → Option Agent → Bool → Database → Database
after_insert now event none inserted db = db
after_insert now event (some agent) false db = db
after_insert now event (some agent) true db =
    mark_human_active now event.chat_id event.thread_id agent db

-- `insert` of `InboundEventRepository`, where `agent` is what a public reply of a human agent says.
unfoldable pub receive : ℕ → InboundEvent → Option Agent → Database → Database
unfolding mark_human_active
receive now event agent db =
    let (inserted, table) = Inbound.insert event db.inbound in
    after_insert now event agent inserted (record db { inbound = table })

-- `update_case_status_on_connection`, where the state says so.
abbrev pub update_case : ℕ → Option (ℕ × String) → Store → Store
update_case now none s = s
update_case now (some (id, status)) s = update_case_status now id status s

abbrev pub insert_history : Option HistoryMessage → String → History → History
insert_history none id t = t
insert_history (some m) id t = (insert_message (record m { conversation_id = id }) t).1

abbrev pub insert_histories : List HistoryMessage → String → History → History
insert_histories [] id t = t
insert_histories (m ∷ ms) id t = insert_histories ms id (insert_history (some m) id t)

unfoldable pub insert_outbounds : ℕ → List Outbound.Draft → String → Outbound.Table → Outbound.Table
insert_outbounds now [] id t = t
insert_outbounds now (m ∷ ms) id t =
    insert_outbounds now ms id
      (Outbound.insert_idempotent now (record m { conversation_id = some id }) t).1
