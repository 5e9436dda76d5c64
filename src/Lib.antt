-- ===== src/Lib.antt =====
-- A model of the delivery side of AI-Customer-Service, a customer service bot for LiveChat
-- (src/app), and what can be proved of it.
--
-- The program answers customers in LiveChat. A gateway turns an inbound event into rows of MySQL
-- tables: messages to send (`outbound_messages`) and commands for other systems
-- (`external_commands`). Worker processes lease rows from these tables, act on them, and record
-- the result. Another worker, the idle timer, asks a silent customer whether they are still there,
-- and later closes the chat. The parts modelled here, with the file of each:
--
-- - Queue/Lease, Queue/Outbound: `OutboundMessageRepository` of src/app/db/repositories.py. The
--   table is a list of rows in the order of their ids; a method is a function from the time, its
--   arguments and the rows to the rows and its result. Times are microseconds.
-- - Queue/Commands and Queue/Results: `ExternalCommandRepository` and
--   `ExternalCommandResultRepository` of the same file, likewise. Queue/Commands/Patches has MySQL's
--   merge patch of a payload.
-- - Queue/Inbound: `InboundEventRepository` of the same file, the events of LiveChat.
-- - Database: `ConversationRepository` of the same file and the transactions over all tables, those
--   of an inbound event, of a result and of a takeover by a person. A database is the record of the
--   tables of Queue, Cases and its own.
-- - Sender: src/app/workers/sender_worker.py. An action is a function from the answers of the
--   clients and the database (`Env`) and the calls made so far to a value or an exception and the
--   calls made then. The answers depend on the number of calls made before, so that anything may
--   change between two calls. Sender/Classify decides what a failure means, Sender/Message and
--   Sender/Delivery process one message, Sender/Group a group of them. Sender/Retries joins the
--   classification to `mark_failed` of the queue.
-- - CommandWorker: src/app/workers/external_command_worker.py, in the same style over the actions of
--   Prelude/Actions, with src/app/services/telegram_target_resolver.py and
--   src/app/config/platforms.py in Target. A command is a row of Queue/Commands, and its payload and
--   results are dictionaries of JSON values. Handoff, Followups, Cards and Queries process the kinds
--   of commands, Process chooses among them. Counting and Restraint say what an action settles and
--   calls, Rules has the rules of both for each construct, and Paths applies them to each function.
--   The repositories are those that `run_once` and `run_forever` pass.
-- - Idle: src/app/workers/livechat_idle_timer.py, in the same style; an action may also return
--   early from `process_idle_conversation`. Idle/Effects has the calls, Idle/Defs and
--   Idle/Process the parts, Idle/Timer the function itself, Idle/Candidates the loop over the
--   candidates.
-- - Language: src/app/services/language_policy.py (codes in Language/Codes, the choice of the
--   reply's language in Language/Policy) and src/app/services/ai_failure_policy.py (the notices,
--   which the idle timer sends).
-- - Dispute: src/app/workflows/backend_dispute_escalation.py, the part of a conversation's memory
--   that counts how often a customer contradicts the backend's conclusion.
-- - Sop: src/app/workflows/sop_definitions.py, src/app/workflows/sop_policy.py, and the missing
--   slots of src/app/workflows/llm_sop_dialogue_planner.py: what the bot does next in a money case.
-- - Cases: src/app/services/telegram_case_status.py and `resolve_money_case_followup` of
--   src/app/services/telegram_case_followup.py: the status of a case in Telegram, and the case that
--   a message belongs to. Cases/Tables and Cases/Updates are the methods of
--   `TelegramCaseRepository` of src/app/db/telegram_repositories.py that reserve, send and cancel a
--   follow-up of a case.
-- - Prelude: tests on native numbers and texts, lists with `All`, JSON values and dictionaries of
--   them, actions that may raise.
--
-- MySQL runs one statement or transaction at a time: `FOR UPDATE SKIP LOCKED` skips nothing. An
-- UPDATE assigns its columns from left to right. `upper` and `lower` are modelled on the ASCII
-- letters, which the compared constants consist of. No definition needs fuel but the decimal
-- numerals of Prelude/Text, where a number has at most as many digits as its successor.
--
-- Parameters stand for the search for a regular expression in a text and for hashes.
-- Not modelled: the SQL behind the reads of the idle timer and behind the reads of the command
-- worker, the texts of menus, cards and follow-ups, and the services that query the backend and look
-- up earlier replies: these are answers of the environments. Nor are the concurrency of groups in
-- one sender process and of commands in one command worker, the polling loops and the command lines;
-- the consumer of results, the answers of the gateway, the graph of the conversation, the handlers
-- of the workflows, and the calls of language models.
pub mod Cases
pub mod CommandWorker
pub mod Database
pub mod Dispute
pub mod Idle
pub mod Language
pub mod Prelude
pub mod Queue
pub mod Sender
pub mod Sop
