-- ===== src/Database/Silenced.antt =====
-- The transactions keep a conversation silent that a person took over
-- (src/app/db/repositories.py).

use ai_customer_service.Prelude.{
  ℕ, ◌≡◌, refl, String, Bool, true, false, Option, none, some, List, [], ◌∷◌, Bool-cases, inl, inr,
  ◌is◌, All, Json,
}
use ai_customer_service.Queue.Outbound
use ai_customer_service.Queue.Outbound.{OutboundMessage}
use ai_customer_service.Queue.Commands
use ai_customer_service.Queue.Commands.{Command}
use ai_customer_service.Queue.Results.{CommandResult}
use ai_customer_service.Queue.Inbound.{InboundEvent}
use ai_customer_service.Database.{
  Conversation, GraphState, HistoryMessage, conversation_id_for_chat, get_or_create, is_locked,
  Database, Agent, chat_of, message_in, command_in, with_conversations, mark_human_active, receive,
  after_insert, process_result_transactionally, result_in, result_writes,
  process_event_transactionally, event_in, event_writes, applied_state,
}
use ai_customer_service.Database.Silence.{serves}
use ai_customer_service.Database.Takeover.{IsSilent, mark_human_active-IsSilent, takeover-IsSilent}
use ai_customer_service.Database.Quiet.{
  update_workflow_state-serves, not_locked_other, created-serves, writes-IsSilent,
}

module _ (digest : Json → String) (id : String) (now : ℕ) (changed : Bool) where
  result_writes-IsSilent :
      (result_id : ℕ) (key : String) (ms : List Outbound.Draft) (cs : List Commands.Draft)
      (summary : Option HistoryMessage) (applied : Bool) (db : Database)
      → key is id ≡ false
      → IsSilent id db
      → IsSilent id (result_writes digest now result_id key ms cs summary applied db).1
  unfolding result_writes
  result_writes-IsSilent result_id key ms cs summary false db other h = h
  result_writes-IsSilent result_id key ms cs summary true db other h =
      let w = writes-IsSilent digest id key now db ms cs other h in (h.0, w.0, w.1)

  result_in-IsSilent :
      (result_id n : ℕ) (g : GraphState) (ms : List Outbound.Draft) (cs : List Commands.Draft)
      (summary : Option HistoryMessage) (chat : String) (thread : Option String)
      (o : Option Conversation) (db : Database)
      → (get_or_create now n chat thread db.conversations).0 ≡ o
      → IsSilent id db
      → let rows = (get_or_create now n chat thread db.conversations).1 in
        IsSilent id
          (result_in digest now changed result_id g ms cs summary o db
            (with_conversations rows db)).1
  unfolding result_in
  result_in-IsSilent result_id n g ms cs summary chat thread none db e h = h
  result_in-IsSilent result_id n g ms cs summary chat thread (some c) db e (served, quiet, idle) =
      let served' = created-serves now n id chat thread db.conversations served in
      elim (Bool-cases (is_locked c.status)) [
        | inl locked ↦ rw locked (served', quiet, idle)
        | inr free ↦
            (let other = not_locked_other now n id chat thread db.conversations c served e free in
              rw free (
                result_writes-IsSilent result_id c.conversation_id ms cs summary _ _ other (
                  update_workflow_state-serves id c.conversation_id now changed _ _ other served',
                  quiet,
                  idle,
                )))
      ]

  result-IsSilent :
      (raises : Bool) (result : CommandResult) (g : GraphState) (ms : List Outbound.Draft)
      (cs : List Commands.Draft) (summary : Option HistoryMessage) (db : Database)
      → IsSilent id db
      → IsSilent id
          (process_result_transactionally digest now raises changed result g ms cs summary db).1
  unfolding process_result_transactionally
  result-IsSilent true result g ms cs summary db h = h
  result-IsSilent false result g ms cs summary db h =
      result_in-IsSilent result.id db.next_conversation_id g ms cs summary result.chat_id
        result.thread_id _ db refl h

  event_writes-IsSilent :
      (event_id : ℕ) (key : String) (customer : Option HistoryMessage)
      (assistant : List HistoryMessage) (ms : List Outbound.Draft) (cs : List Commands.Draft)
      (applied : Bool) (db : Database)
      → key is id ≡ false
      → IsSilent id db
      → IsSilent id (event_writes digest now event_id key customer assistant ms cs applied db).1
  unfolding event_writes
  event_writes-IsSilent event_id key customer assistant ms cs false db other h = h
  event_writes-IsSilent event_id key customer assistant ms cs true db other h =
      let w = writes-IsSilent digest id key now db ms cs other h in (h.0, w.0, w.1)

  applied_state-IsSilent :
      (key : String) (g : Option GraphState) (db : Database)
      → key is id ≡ false
      → IsSilent id db
      → IsSilent id (applied_state digest now changed key g db).1
  applied_state-IsSilent key none db other h = h
  applied_state-IsSilent key (some g) db other (served, quiet, idle) =
      (update_workflow_state-serves id key now changed g db.conversations other served, quiet, idle)

  event_in-IsSilent :
      (event_id n : ℕ) (customer : Option HistoryMessage) (ms : List Outbound.Draft)
      (cs : List Commands.Draft) (g : Option GraphState) (assistant : List HistoryMessage)
      (chat : String) (thread : Option String) (o : Option Conversation) (db : Database)
      → (get_or_create now n chat thread db.conversations).0 ≡ o
      → IsSilent id db
      → let rows = (get_or_create now n chat thread db.conversations).1 in
        IsSilent id
          (event_in digest now changed event_id customer ms cs g assistant o db
            (with_conversations rows db)).1
  unfolding event_in
  event_in-IsSilent event_id n customer ms cs g assistant chat thread none db e h = h
  event_in-IsSilent event_id n customer ms cs g assistant chat thread (some c) db e
        (served, quiet, idle) =
      let served' = created-serves now n id chat thread db.conversations served in
      elim (Bool-cases (is_locked c.status)) [
        | inl locked ↦ rw locked (served', quiet, idle)
        | inr free ↦
            (let other = not_locked_other now n id chat thread db.conversations c served e free in
              rw free (
                event_writes-IsSilent event_id c.conversation_id customer assistant ms cs _ _ other
                  (applied_state-IsSilent c.conversation_id g _ other (served', quiet, idle))))
      ]

  event-IsSilent :
      (raises : Bool) (event_id : ℕ) (event : InboundEvent) (customer : Option HistoryMessage)
      (ms : List Outbound.Draft) (cs : List Commands.Draft) (g : Option GraphState)
      (assistant : List HistoryMessage) (db : Database)
      → IsSilent id db
      → IsSilent id
          (process_event_transactionally digest now raises changed event_id event customer ms cs g
            assistant db).1
  unfolding process_event_transactionally
  event-IsSilent true event_id event customer ms cs g assistant db h = h
  event-IsSilent false event_id event customer ms cs g assistant db h =
      event_in-IsSilent event_id db.next_conversation_id customer ms cs g assistant
        (chat_of event.chat_id) event.thread_id _ db refl h

receive_agent-IsSilent :
    (id : String) (now : ℕ) (event : InboundEvent) (agent : Option Agent) (inserted : Bool)
    (db : Database)
    → IsSilent id db
    → IsSilent id (after_insert now event agent inserted db)
receive_agent-IsSilent id now event none inserted db h = h
receive_agent-IsSilent id now event (some a) false db h = h
receive_agent-IsSilent id now event (some a) true db h =
    takeover-IsSilent id now event.chat_id event.thread_id a db h

receive-IsSilent :
    (id : String) (now : ℕ) (event : InboundEvent) (agent : Option Agent) (db : Database)
    → IsSilent id db
    → IsSilent id (receive now event agent db)
unfolding receive
receive-IsSilent id now event agent db h = receive_agent-IsSilent id now event agent _ _ h

-- A transaction, with what it is called with; `raises` where a statement raises.
pub data Transaction : Type 0 where
  received : ℕ → InboundEvent → Option Agent → Transaction
  result :
      ℕ
      → Bool
      → Bool
      → CommandResult
      → GraphState
      → List Outbound.Draft
      → List Commands.Draft
      → Option HistoryMessage
      → Transaction
  event :
      ℕ
      → Bool
      → Bool
      → ℕ
      → InboundEvent
      → Option HistoryMessage
      → List Outbound.Draft
      → List Commands.Draft
      → Option GraphState
      → List HistoryMessage
      → Transaction

unfoldable pub step : (Json → String) → Transaction → Database → Database
unfolding receive process_result_transactionally process_event_transactionally
step digest (received now e agent) db = receive now e agent db
step digest (result now raises changed r g ms cs summary) db =
    (process_result_transactionally digest now raises changed r g ms cs summary db).1
step digest (event now raises changed id e customer ms cs g assistant) db =
    (process_event_transactionally digest now raises changed id e customer ms cs g assistant db).1

unfoldable pub run : (Json → String) → List Transaction → Database → Database
unfolding step
run digest [] db = db
run digest (t ∷ ts) db = run digest ts (step digest t db)

step-IsSilent :
    (digest : Json → String) (id : String) (t : Transaction) (db : Database)
    → IsSilent id db
    → IsSilent id (step digest t db)
unfolding step
step-IsSilent digest id (received now e agent) db h = receive-IsSilent id now e agent db h
step-IsSilent digest id (result now raises changed r g ms cs summary) db h =
    result-IsSilent digest id now changed raises r g ms cs summary db h
step-IsSilent digest id (event now raises changed event_id e customer ms cs g assistant) db h =
    event-IsSilent digest id now changed raises event_id e customer ms cs g assistant db h

run-IsSilent :
    (digest : Json → String) (id : String) (ts : List Transaction) (db : Database)
    → IsSilent id db
    → IsSilent id (run digest ts db)
unfolding run
run-IsSilent digest id [] db h = h
run-IsSilent digest id (t ∷ ts) db h =
    run-IsSilent digest id ts (step digest t db) (step-IsSilent digest id t db h)

-- After a person took a conversation over, whatever the tables held then, and after any events
-- received, events answered and results worked in since, for this conversation or others, failed
-- transactions included: the person still serves the conversation, and none of its messages and
-- none of its commands is PENDING or RETRYABLE.
pub run-mark_human_active :
    (digest : Json → String) (now : ℕ) (chat thread : Option String) (agent : Agent) (db : Database)
    (ts : List Transaction)
    → let id = conversation_id_for_chat (chat_of chat) thread in
      let after = run digest ts (mark_human_active now chat thread agent db) in
      (serves id after.conversations ≡ true)
      × All (λ (m : OutboundMessage). message_in id m ≡ false) after.outbound.rows
      × All (λ (c : Command). command_in id c ≡ false) after.commands.rows
run-mark_human_active digest now chat thread agent db ts =
    run-IsSilent digest (conversation_id_for_chat (chat_of chat) thread) ts
      (mark_human_active now chat thread agent db)
      (mark_human_active-IsSilent now chat thread agent db)
