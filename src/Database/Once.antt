-- ===== src/Database/Once.antt =====
-- An event that is worked off twice is answered once (src/app/db/repositories.py).
use mathlib.Core.Path.{subst}
use ai_customer_service.Prelude.{
  ℕ, ◌≡◌, refl, sym, ap, ◌∙◌, String, Bool, true, false, Option, none, some, List, if◌then◌else◌,
  Json,
}
use ai_customer_service.Queue.Outbound
use ai_customer_service.Queue.Outbound.{OutboundMessage, outbound_dedup_key}
use ai_customer_service.Queue.Commands
use ai_customer_service.Queue.Commands.{Command, dedup_key_of}
use ai_customer_service.Queue.Inbound.{InboundEvent}
use ai_customer_service.Database.{
  Conversation, GraphState, HistoryMessage, conversation_id_for_chat, find_conversation,
  get_or_create, with_thread, upsert, is_locked, Database, chat_of, insert_outbounds,
  insert_commands, Outcome, committed, process_event_transactionally, event_in, event_writes,
  applied_state,
}
use ai_customer_service.Database.Silence.{found_lem, eq_of_is, inherited_keeps, loaded_row_lem}
use ai_customer_service.Database.Inserted.{
  Has, insert_outbounds-Has, insert_outbounds_again, HasCommands, insert_commands-HasCommands,
  insert_commands_again,
}

created_id :
    (now n : ℕ) (chat : String) (thread : Option String) (cs : List Conversation) (c : Conversation)
    → (get_or_create now n chat thread cs).0 ≡ some c
    → c.conversation_id ≡ conversation_id_for_chat chat thread
unfolding get_or_create
created_id now n chat thread cs c e =
    let key = conversation_id_for_chat chat thread in
    let rows = upsert now n key chat thread (with_thread now thread) cs in
    let (r, found, is_c) = loaded_row_lem (find_conversation key rows) chat thread rows c e in
    ap (λ (x : Conversation). x.conversation_id) (sym is_c)
    ∙ inherited_keeps _ r
    ∙ eq_of_is r.conversation_id key (found_lem key rows r found).0

abbrev Queued : Database → Outbound.Table → Commands.Table → Type 0
Queued db outbound commands = (db.outbound ≡ outbound) × (db.commands ≡ commands)

choose_committed :
    (b : Bool) (x y : Outcome × Database) (outbound : Outbound.Table) (commands : Commands.Table)
    → (x.0 ≡ committed → Queued x.1 outbound commands)
    → (y.0 ≡ committed → Queued y.1 outbound commands)
    → (if b then x else y).0 ≡ committed
    → Queued (if b then x else y).1 outbound commands
choose_committed true x y outbound commands h k e = h e
choose_committed false x y outbound commands h k e = k e

choose-Queued :
    (b : Bool) (x y : Outcome × Database) (outbound : Outbound.Table) (commands : Commands.Table)
    → Queued x.1 outbound commands
    → Queued y.1 outbound commands
    → Queued (if b then x else y).1 outbound commands
choose-Queued true x y outbound commands h k = h
choose-Queued false x y outbound commands h k = k

module _ (digest : Json → String) (now : ℕ) (changed : Bool) (event_id : ℕ)
    (customer : Option HistoryMessage) (ms : List Outbound.Draft) (cs : List Commands.Draft)
    (g : Option GraphState) (assistant : List HistoryMessage) where
  applied_state_queues :
      (key : String) (o : Option GraphState) (db : Database)
      → Queued (applied_state digest now changed key o db).1 db.outbound db.commands
  applied_state_queues key none db = (refl, refl)
  applied_state_queues key (some s) db = (refl, refl)

  event_writes_committed :
      (key : String) (applied : Bool) (db : Database)
      → (event_writes digest now event_id key customer assistant ms cs applied db).0 ≡ committed
      → Queued
          (event_writes digest now event_id key customer assistant ms cs applied db).1
          (insert_outbounds now ms key db.outbound)
          (insert_commands digest now cs key db.commands)
  unfolding event_writes
  event_writes_committed key false db h = cc
  event_writes_committed key true db h = (refl, refl)

  event_in_committed :
      (o : Option Conversation) (key : String) (before db : Database)
      → ((c : Conversation) → o ≡ some c → c.conversation_id ≡ key)
      → (event_in digest now changed event_id customer ms cs g assistant o before db).0 ≡ committed
      → Queued
          (event_in digest now changed event_id customer ms cs g assistant o before db).1
          (insert_outbounds now ms key db.outbound)
          (insert_commands digest now cs key db.commands)
  unfolding event_in
  event_in_committed none key before db is_key h = cc
  event_in_committed (some c) key before db is_key h =
      let id = c.conversation_id in
      let (applied, db') = applied_state digest now changed id g db in
      let (queued, done) = applied_state_queues id g db in
      let goal = λ (k : String).
        Queued
          (event_in digest now changed event_id customer ms cs g assistant (some c) before db).1
          (insert_outbounds now ms k db.outbound) (insert_commands digest now cs k db.commands) in
      subst goal (is_key c refl) (
        choose_committed (is_locked c.status) _ _ _ _ (λ e. cc)
          (λ e.
            let w = event_writes_committed id applied db' e in
            (
              w.0 ∙ ap (insert_outbounds now ms id) queued,
              w.1 ∙ ap (insert_commands digest now cs id) done,
            ))
          h)

  event_writes_again :
      (key : String) (applied : Bool) (db : Database)
      → Has key ms db.outbound
      → HasCommands digest key cs db.commands
      → Queued
          (event_writes digest now event_id key customer assistant ms cs applied db).1
          db.outbound
          db.commands
  unfolding event_writes
  event_writes_again key false db h k = (refl, refl)
  event_writes_again key true db h k = (
    insert_outbounds_again now key ms db.outbound h,
    insert_commands_again digest now key cs db.commands k,
  )

  event_in_again :
      (o : Option Conversation) (key : String) (before db : Database)
      → ((c : Conversation) → o ≡ some c → c.conversation_id ≡ key)
      → Has key ms db.outbound
      → HasCommands digest key cs db.commands
      → Queued before db.outbound db.commands
      → Queued
          (event_in digest now changed event_id customer ms cs g assistant o before db).1
          db.outbound
          db.commands
  unfolding event_in
  event_in_again none key before db is_key h k same = same
  event_in_again (some c) key before db is_key h k same =
      let id = c.conversation_id in
      let (applied, db') = applied_state digest now changed id g db in
      let (queued, done) = applied_state_queues id g db in
      let has =
        subst (λ (t : Outbound.Table). Has id ms t) (sym queued)
          (subst (λ (i : String). Has i ms db.outbound) (sym (is_key c refl)) h) in
      let has' =
        subst (λ (t : Commands.Table). HasCommands digest id cs t) (sym done)
          (subst (λ (i : String). HasCommands digest i cs db.commands) (sym (is_key c refl)) k) in
      let w = event_writes_again id applied db' has has' in
      choose-Queued (is_locked c.status) _ _ _ _ (refl, refl) (w.0 ∙ queued, w.1 ∙ done)

module _ (digest : Json → String) (event : InboundEvent) (ms : List Outbound.Draft)
    (cs : List Commands.Draft) where
  abbrev key : String
  key = conversation_id_for_chat (chat_of event.chat_id) event.thread_id

  first_time :
      (now event_id : ℕ) (raises changed : Bool) (customer : Option HistoryMessage)
      (g : Option GraphState) (assistant : List HistoryMessage) (db : Database)
      → let (outcome, after) =
          process_event_transactionally digest now raises changed event_id event customer ms cs g
            assistant db in
        outcome ≡ committed
        → Queued after
            (insert_outbounds now ms key db.outbound)
            (insert_commands digest now cs key db.commands)
  unfolding process_event_transactionally
  first_time now event_id true changed customer g assistant db h = cc
  first_time now event_id false changed customer g assistant db h =
      event_in_committed digest now changed event_id customer ms cs g assistant _ key db _
        (created_id now db.next_conversation_id (chat_of event.chat_id) event.thread_id
          db.conversations)
        h

  second_time :
      (now event_id : ℕ) (raises changed : Bool) (customer : Option HistoryMessage)
      (g : Option GraphState) (assistant : List HistoryMessage) (db : Database)
      → Has key ms db.outbound
      → HasCommands digest key cs db.commands
      → Queued
          (process_event_transactionally digest now raises changed event_id event customer ms cs g
            assistant db).1
          db.outbound
          db.commands
  unfolding process_event_transactionally
  second_time now event_id true changed customer g assistant db h k = (refl, refl)
  second_time now event_id false changed customer g assistant db h k =
      event_in_again digest now changed event_id customer ms cs g assistant _ key db _
        (created_id now db.next_conversation_id (chat_of event.chat_id) event.thread_id
          db.conversations)
        h k (refl, refl)

-- An event whose transaction was committed, processed again with the same messages and commands,
-- at any time, whatever the second run writes to the state and the history, and whether it raises
-- or not: no message and no command is queued a second time.
pub process_event_transactionally-twice :
    (digest : Json → String) (event : InboundEvent) (ms : List Outbound.Draft)
    (cs : List Commands.Draft) (now later event_id : ℕ) (raises raises' changed changed' : Bool)
    (customer customer' : Option HistoryMessage) (g g' : Option GraphState)
    (assistant assistant' : List HistoryMessage) (db : Database)
    → let (outcome, after) =
        process_event_transactionally digest now raises changed event_id event customer ms cs g
          assistant db in
      let again =
        (process_event_transactionally digest later raises' changed' event_id event customer' ms cs
          g' assistant' after).1 in
      outcome ≡ committed → (again.outbound ≡ after.outbound) × (again.commands ≡ after.commands)
process_event_transactionally-twice digest event ms cs now later event_id raises raises' changed
      changed' customer customer' g g' assistant assistant' db h =
    let after =
      (process_event_transactionally digest now raises changed event_id event customer ms cs g
        assistant db).1 in
    let id = conversation_id_for_chat (chat_of event.chat_id) event.thread_id in
    let (queued, done) =
      first_time digest event ms cs now event_id raises changed customer g assistant db h in
    second_time digest event ms cs later event_id raises' changed' customer' g' assistant' after
      (subst (λ (t : Outbound.Table). Has id ms t) (sym queued)
        (insert_outbounds-Has now id ms db.outbound))
      (subst (λ (t : Commands.Table). HasCommands digest id cs t) (sym done)
        (insert_commands-HasCommands digest now id cs db.commands))
