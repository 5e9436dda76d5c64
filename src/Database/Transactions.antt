-- ===== src/Database/Transactions.antt =====
-- The transactions over all tables: a result of an external command is worked in, an inbound event
-- is answered (src/app/db/repositories.py). An exception of any statement rolls the transaction
-- back, and is raised.
use ai_customer_service.Prelude.{
  ℕ, String, Bool, true, false, Option, none, some, List, [], ◌∷◌, if◌then◌else◌, Json,
}
use ai_customer_service.Queue.Outbound
use ai_customer_service.Queue.Outbound.{OutboundMessage}
use ai_customer_service.Queue.Commands
use ai_customer_service.Queue.Commands.{Command}
use ai_customer_service.Queue.Results
use ai_customer_service.Queue.Results.{CommandResult}
use ai_customer_service.Queue.Inbound
use ai_customer_service.Queue.Inbound.{InboundEvent}
use ai_customer_service.Database.Memory.{merge, without_all, or_empty}
use ai_customer_service.Database.Conversations.{Conversation, get_or_create}
use ai_customer_service.Database.States.{GraphState, update_workflow_state, is_locked}
use ai_customer_service.Database.Messages.{HistoryMessage}
use ai_customer_service.Database.Tables.{
  Database, with_conversations, chat_of, update_case, insert_history, insert_histories,
  insert_outbounds,
}

-- How a transaction ended.
pub data Outcome : Type 0 where
  raised : Outcome
  human_active_skipped : Outcome
  committed : Outcome

-- `digest` is the SHA-256 of a payload's canonical JSON.
module _ (digest : Json → String) where
  unfoldable pub insert_commands :
      ℕ → List Commands.Draft → String → Commands.Table → Commands.Table
  insert_commands now [] id t = t
  insert_commands now (c ∷ cs) id t =
      insert_commands now cs id
        (Commands.insert_idempotent digest now (record c { conversation_id = id }) t).1

  -- The memory that the result's state is merged into, unless it writes none.
  abbrev pub merged_state : Conversation → GraphState → GraphState
  merged_state c g = elim g.slot_memory [
    | none ↦ g
    | some m ↦ record g {
      slot_memory = some (without_all g.delete_slot_memory_keys (merge (or_empty c.slot_memory) m));
    }
  ]

  abbrev pub processed_result : ℕ → ℕ → Database → Database
  processed_result now id db = record db {
    results = record db.results { rows = Results.mark_processed now id db.results.rows };
  }

  -- After the state was applied, or not.
  unfoldable pub result_writes :
      ℕ
      → ℕ
      → String
      → List Outbound.Draft
      → List Commands.Draft
      → Option HistoryMessage
      → Bool
      → Database
      → Outcome × Database
  unfolding insert_outbounds insert_commands
  result_writes now result_id id outbound commands summary false db =
      (human_active_skipped, processed_result now result_id db)
  result_writes now result_id id outbound commands summary true db = (
    committed,
    processed_result now result_id (record db {
      history = insert_history summary id db.history;
      outbound = insert_outbounds now outbound id db.outbound;
      commands = insert_commands now commands id db.commands;
    }),
  )

  unfoldable pub result_in :
      ℕ
      → Bool
      → ℕ
      → GraphState
      → List Outbound.Draft
      → List Commands.Draft
      → Option HistoryMessage
      → Option Conversation
      → Database
      → Database
      → Outcome × Database
  unfolding result_writes
  result_in now changed result_id g outbound commands summary none before db = (raised, before)
  result_in now changed result_id g outbound commands summary (some c) before db =
      if is_locked c.status
      then (human_active_skipped, processed_result now result_id db)
      else (let (applied, rows) =
            update_workflow_state now changed c.conversation_id (merged_state c g)
              db.conversations in
          result_writes now result_id c.conversation_id outbound commands summary applied
            (record db {
              conversations = rows;
              cases = update_case now g.telegram_case_update db.cases;
            }))

  -- `raises` tells whether a statement raises, and `changed` whether the UPDATE of the
  -- conversation changes a value.
  unfoldable pub process_result_transactionally :
      ℕ
      → Bool
      → Bool
      → CommandResult
      → GraphState
      → List Outbound.Draft
      → List Commands.Draft
      → Option HistoryMessage
      → Database
      → Outcome × Database
  unfolding result_in
  process_result_transactionally now raises changed result g outbound commands summary db =
      let (conversation, rows) =
        get_or_create now db.next_conversation_id result.chat_id result.thread_id
          db.conversations in
      if raises
      then (raised, db)
      else result_in now changed result.id g outbound commands summary conversation db
          (with_conversations rows db)

  abbrev pub processed_event : ℕ → ℕ → Database → Database
  processed_event now id db = record db {
    inbound = record db.inbound { rows = Inbound.mark_processed now id db.inbound.rows };
  }

  -- The customer's message is kept, also where the answer is not sent.
  abbrev pub skip_event : ℕ → ℕ → String → Option HistoryMessage → Database → Outcome × Database
  skip_event now event_id id customer db = (
    human_active_skipped,
    processed_event now event_id (record db { history = insert_history customer id db.history }),
  )

  unfoldable pub event_writes :
      ℕ
      → ℕ
      → String
      → Option HistoryMessage
      → List HistoryMessage
      → List Outbound.Draft
      → List Commands.Draft
      → Bool
      → Database
      → Outcome × Database
  unfolding insert_outbounds insert_commands
  event_writes now event_id id customer assistant outbound commands false db =
      skip_event now event_id id customer db
  event_writes now event_id id customer assistant outbound commands true db = (
    committed,
    processed_event now event_id (record db {
      history = insert_histories assistant id (insert_history customer id db.history);
      outbound = insert_outbounds now outbound id db.outbound;
      commands = insert_commands now commands id db.commands;
    }),
  )

  -- The state that the event leads to is written, where there is one.
  abbrev pub applied_state : ℕ → Bool → String → Option GraphState → Database → Bool × Database
  applied_state now changed id none db = (true, db)
  applied_state now changed id (some g) db =
      let (applied, rows) = update_workflow_state now changed id g db.conversations in
      (
        applied,
        record db { conversations = rows; cases = update_case now g.telegram_case_update db.cases },
      )

  unfoldable pub event_in :
      ℕ
      → Bool
      → ℕ
      → Option HistoryMessage
      → List Outbound.Draft
      → List Commands.Draft
      → Option GraphState
      → List HistoryMessage
      → Option Conversation
      → Database
      → Database
      → Outcome × Database
  unfolding event_writes
  event_in now changed event_id customer outbound commands g assistant none before db =
      (raised, before)
  event_in now changed event_id customer outbound commands g assistant (some c) before db =
      if is_locked c.status
      then skip_event now event_id c.conversation_id customer db
      else (let (applied, db') = applied_state now changed c.conversation_id g db in
          event_writes now event_id c.conversation_id customer assistant outbound commands applied
            db')

  unfoldable pub process_event_transactionally :
      ℕ
      → Bool
      → Bool
      → ℕ
      → InboundEvent
      → Option HistoryMessage
      → List Outbound.Draft
      → List Commands.Draft
      → Option GraphState
      → List HistoryMessage
      → Database
      → Outcome × Database
  unfolding event_in
  process_event_transactionally now raises changed event_id event customer outbound commands g
        assistant db =
      let (conversation, rows) =
        get_or_create now db.next_conversation_id (chat_of event.chat_id) event.thread_id
          db.conversations in
      if raises
      then (raised, db)
      else event_in now changed event_id customer outbound commands g assistant conversation db
          (with_conversations rows db)
