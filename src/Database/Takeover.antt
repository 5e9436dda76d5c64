-- ===== src/Database/Takeover.antt =====
-- After a person took a conversation over, nothing is queued for it
-- (src/app/db/repositories.py).

use ai_customer_service.Prelude.{
  ℕ, ◌≡◌, refl, String, true, false, Option, none, some, arith, Bool-cases, inl, inr, All, All-map,
  All-mono, All-of,
}
use ai_customer_service.Queue.Outbound.{OutboundMessage}
use ai_customer_service.Queue.Commands.{Command}
use ai_customer_service.Database.{
  Conversation, conversation_id_for_chat, Database, Agent, chat_of, cancelled_message,
  cancelled_command, taken_over, coalesced_thread, message_in, command_in, mark_human_active,
}
use ai_customer_service.Database.Silence.{
  serves, serves-update, serves-upsert, served_by, there-upsert,
}

-- A person serves the conversation, and no message and no command of it is open.
abbrev pub IsSilent : String → Database → Type 0
IsSilent id db =
    (serves id db.conversations ≡ true)
    × All (λ (m : OutboundMessage). message_in id m ≡ false) db.outbound.rows
    × All (λ (c : Command). command_in id c ≡ false) db.commands.rows

cancelled_message_closed :
    (id : String) (m : OutboundMessage) → message_in id (cancelled_message id m) ≡ false
cancelled_message_closed id m = elim (Bool-cases (message_in id m)) [
  | inl e ↦ rw e (ground arith)
  | inr e ↦ rw e e
]

cancelled_command_closed :
    (id : String) (c : Command) → command_in id (cancelled_command id c) ≡ false
cancelled_command_closed id c = elim (Bool-cases (command_in id c)) [
  | inl e ↦ rw e (ground arith)
  | inr e ↦ rw e e
]

-- Cancelling another conversation's rows leaves the closed rows closed.
other_message_closed :
    (id other : String) (m : OutboundMessage)
    → message_in id m ≡ false
    → message_in id (cancelled_message other m) ≡ false
other_message_closed id other m h = elim (Bool-cases (message_in other m)) [
  | inl e ↦ rw e (ground arith)
  | inr e ↦ rw e h
]

other_command_closed :
    (id other : String) (c : Command)
    → command_in id c ≡ false
    → command_in id (cancelled_command other c) ≡ false
other_command_closed id other c h = elim (Bool-cases (command_in other c)) [
  | inl e ↦ rw e (ground arith)
  | inr e ↦ rw e h
]

coalesced_keeps :
    (now : ℕ) (thread : Option String) (c : Conversation)
    → (coalesced_thread now thread c).conversation_id ≡ c.conversation_id
coalesced_keeps now none c = refl
coalesced_keeps now (some t) c = refl

coalesced_status :
    (now : ℕ) (thread : Option String) (c : Conversation)
    → (coalesced_thread now thread c).status ≡ c.status
coalesced_status now none c = refl
coalesced_status now (some t) c = refl

-- The takeover itself, whatever the tables hold.
pub mark_human_active-IsSilent :
    (now : ℕ) (chat thread : Option String) (agent : Agent) (db : Database)
    → IsSilent
        (conversation_id_for_chat (chat_of chat) thread)
        (mark_human_active now chat thread agent db)
unfolding mark_human_active
mark_human_active-IsSilent now chat thread agent db =
    let id = conversation_id_for_chat (chat_of chat) thread in
    (
      served_by id (taken_over now agent) _ (λ c. refl) (λ c. refl)
          (there-upsert now db.next_conversation_id id (chat_of chat) thread
            (coalesced_thread now thread) db.conversations (coalesced_keeps now thread)),
      All-map _ _ db.outbound.rows (All-of _ (cancelled_message_closed id) db.outbound.rows),
      All-map _ _ db.commands.rows (All-of _ (cancelled_command_closed id) db.commands.rows),
    )

-- Another takeover, of any conversation.
pub takeover-IsSilent :
    (id : String) (now : ℕ) (chat thread : Option String) (agent : Agent) (db : Database)
    → IsSilent id db
    → IsSilent id (mark_human_active now chat thread agent db)
unfolding mark_human_active
takeover-IsSilent id now chat thread agent db (served, messages, commands) =
    let other = conversation_id_for_chat (chat_of chat) thread in
    (
      serves-update id other (taken_over now agent) _ (λ c. refl) (λ c _ _ _. refl)
          (serves-upsert now db.next_conversation_id id other (chat_of chat) thread
            (coalesced_thread now thread) db.conversations (coalesced_keeps now thread)
            (coalesced_status now thread) served),
      All-map _ _ db.outbound.rows
          (All-mono _ _ (other_message_closed id other) db.outbound.rows messages),
      All-map _ _ db.commands.rows
          (All-mono _ _ (other_command_closed id other) db.commands.rows commands),
    )
