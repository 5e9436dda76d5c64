-- ===== src/Database/Quiet.antt =====
-- What inserting and updating rows of one conversation does to another
-- (src/app/db/repositories.py).

use ai_customer_service.Prelude.{
  ℕ, ◌≡◌, refl, sym, ◌∙◌, String, Bool, true, false, Option, some, List, [], ◌∷◌, any, arith,
  eq_iff, Bool-cases, inl, inr, ◌is◌, All, All-append, Json,
}
use ai_customer_service.Queue.Outbound
use ai_customer_service.Queue.Outbound.{OutboundMessage}
use ai_customer_service.Queue.Commands
use ai_customer_service.Queue.Commands.{Command}
use ai_customer_service.Database.{
  Conversation, GraphState, conversation_id_for_chat, get_or_create, with_thread,
  update_workflow_state, is_locked, Database, message_in, command_in, insert_outbounds,
  insert_commands,
}
use ai_customer_service.Database.Silence.{
  serves, serves-update, serves-upsert, created_locked, eq_of_is,
}
use ai_customer_service.Database.Takeover.{IsSilent}

abbrev QuietMessages : String → List OutboundMessage → Type 0
QuietMessages id = All (λ (m : OutboundMessage). message_in id m ≡ false)

abbrev QuietCommands : String → List Command → Type 0
QuietCommands id = All (λ (c : Command). command_in id c ≡ false)

insert_outbound-Quiet :
    (id key : String) (now : ℕ) (m : Outbound.Draft) (t : Outbound.Table)
    → key is id ≡ false
    → QuietMessages id t.rows
    → QuietMessages id
        (Outbound.insert_idempotent now (record m { conversation_id = some key }) t).1.rows
unfolding Outbound.insert_idempotent
insert_outbound-Quiet id key now m t other h =
    elim (Bool-cases (
      any
        (λ (row : OutboundMessage).
          row.dedup_key is Outbound.outbound_dedup_key (record m { conversation_id = some key }))
        t.rows)) [
          | inl e ↦ rw e h
          | inr e ↦ rw e (All-append _ t.rows _ h (ground (arith, other), tt))
        ]

insert_outbounds-Quiet :
    (id key : String) (now : ℕ) (ms : List Outbound.Draft) (t : Outbound.Table)
    → key is id ≡ false
    → QuietMessages id t.rows
    → QuietMessages id (insert_outbounds now ms key t).rows
unfolding insert_outbounds
insert_outbounds-Quiet id key now [] t other h = h
insert_outbounds-Quiet id key now (m ∷ ms) t other h =
    insert_outbounds-Quiet id key now ms _ other (insert_outbound-Quiet id key now m t other h)

module _ (digest : Json → String) where
  insert_command-Quiet :
      (id key : String) (now : ℕ) (c : Commands.Draft) (t : Commands.Table)
      → key is id ≡ false
      → QuietCommands id t.rows
      → QuietCommands id
          (Commands.insert_idempotent digest now (record c { conversation_id = key }) t).1.rows
  unfolding Commands.insert_idempotent
  insert_command-Quiet id key now c t other h =
      elim (Bool-cases (
        any
          (λ (row : Command).
            row.dedup_key is Commands.dedup_key_of digest (record c { conversation_id = key }))
          t.rows)) [
            | inl e ↦ rw e h
            | inr e ↦ rw e (All-append _ t.rows _ h (ground (arith, other), tt))
          ]

  insert_commands-Quiet :
      (id key : String) (now : ℕ) (cs : List Commands.Draft) (t : Commands.Table)
      → key is id ≡ false
      → QuietCommands id t.rows
      → QuietCommands id (insert_commands digest now cs key t).rows
  unfolding insert_commands
  insert_commands-Quiet id key now [] t other h = h
  insert_commands-Quiet id key now (c ∷ cs) t other h =
      insert_commands-Quiet id key now cs _ other (insert_command-Quiet id key now c t other h)

-- A row with another key is not that of the conversation.
not_both :
    (id key : String) (c : Conversation)
    → key is id ≡ false
    → c.conversation_id is key ≡ true
    → c.conversation_id is id ≡ true
    → false ≡ true
not_both id key c other h k =
    sym other
    ∙ (eq_iff key id).1 (sym (eq_of_is c.conversation_id key h) ∙ eq_of_is c.conversation_id id k)

pub update_workflow_state-serves :
    (id key : String) (now : ℕ) (changed : Bool) (g : GraphState) (cs : List Conversation)
    → key is id ≡ false
    → serves id cs ≡ true
    → serves id (update_workflow_state now changed key g cs).1 ≡ true
unfolding update_workflow_state
update_workflow_state-serves id key now changed g cs other h =
    serves-update id key _ cs (λ c. ground arith) (λ c k l _. cc (not_both id key c other k l)) h

-- The conversation that a transaction writes to is another one.
pub not_locked_other :
    (now n : ℕ) (id chat : String) (thread : Option String) (cs : List Conversation)
    (c : Conversation)
    → serves id cs ≡ true
    → (get_or_create now n chat thread cs).0 ≡ some c
    → is_locked c.status ≡ false
    → c.conversation_id is id ≡ false
not_locked_other now n id chat thread cs c h e free = elim (Bool-cases (c.conversation_id is id)) [
  | inl same ↦ cc (created_locked now n id chat thread cs c h e same, free)
  | inr other ↦ other
]

pub created-serves :
    (now n : ℕ) (id chat : String) (thread : Option String) (cs : List Conversation)
    → serves id cs ≡ true
    → serves id (get_or_create now n chat thread cs).1 ≡ true
unfolding get_or_create
created-serves now n id chat thread cs h =
    serves-upsert now n id (conversation_id_for_chat chat thread) chat thread
      (with_thread now thread) cs (λ c. refl) (λ c. refl) h

-- What a transaction writes for another conversation.
pub writes-IsSilent :
    (digest : Json → String) (id key : String) (now : ℕ) (db : Database) (ms : List Outbound.Draft)
    (cs : List Commands.Draft)
    → key is id ≡ false
    → IsSilent id db
    → QuietMessages id (insert_outbounds now ms key db.outbound).rows
      × QuietCommands id (insert_commands digest now cs key db.commands).rows
writes-IsSilent digest id key now db ms cs other (served, messages, commands) = (
  insert_outbounds-Quiet id key now ms db.outbound other messages,
  insert_commands-Quiet digest id key now cs db.commands other commands,
)
