-- ===== src/Idle/Waiting/Closing.antt =====
-- Before its close timer runs out the idle timer closes no chat
-- (src/app/workers/livechat_idle_timer.py).
use ai_customer_service.Prelude.{
  ℕ, ◌≡◌, refl, String, Bool, true, false, Option, none, some, ◌∷◌, if◌then◌else◌, ◌is◌, length,
}
use ai_customer_service.Language.{ai_failure_handoff_notice}
use ai_customer_service.Idle.{
  Conversation, Env, Failure, Finalized, Kind, Latest, Slots, StateRow, Step, Trace, after_notice,
  after_send, announce_handoff, deliver, failed, fetch_latest_message, fetched_latest,
  finalize_user_visible_text, finish, followup, go, handed_off, insert_assistant_message,
  is_already_closed_error, is_handoff_eligible, locked_row, mark_closed, on_latest,
  process_idle_conversation, pure, request_ai_failure_handoff, require_no_activity, send_idle_text,
  send_text, sent_status, terminal_ai_failure_reason, text_of, update_slot_memory, with_sent,
  insert_handoff, on_locked_row, record_sent, after_finalized,
}
use ai_customer_service.Idle.Waiting.{contacts, Silent, bind-Silent, if-Silent}
use ai_customer_service.Idle.Waiting.Quiet.{
  require_no_activity-Silent, after_customer-Silent, update-Silent, mark-Silent,
}
use ai_customer_service.Idle.Waiting.Timers.{is_before_close, assistant-Silent}

send_text-Silent : (text : String) → Silent false (send_text text)
unfolding send_text contacts
send_text-Silent text env t = refl

after_notice-Silent : (failure : Option Failure) → Silent false (after_notice failure)
unfolding after_notice
after_notice-Silent none = λ env t. refl
after_notice-Silent (some e) = λ env t. refl

announce-Silent : (f : Finalized) (requested : Bool) → Silent false (announce_handoff requested f)
unfolding announce_handoff
announce-Silent f false = λ env t. refl
announce-Silent f true =
    bind-Silent false (send_text (ai_failure_handoff_notice f.reply_language)) after_notice
      (send_text-Silent (ai_failure_handoff_notice f.reply_language)) after_notice-Silent

insert_handoff-Silent :
    (failure : Option Failure) (row : StateRow) (t : Trace)
    → contacts false (insert_handoff failure row t).1 ≡ contacts false t
unfolding insert_handoff contacts
insert_handoff-Silent none row t = refl
insert_handoff-Silent (some e) row t = refl

if-contacts :
    (b : Bool) (r : Step Bool × Trace) (t : Trace)
    → contacts false r.1 ≡ contacts false t
    → contacts false (if b then r else (go false, t)).1 ≡ contacts false t
if-contacts true r t h = h
if-contacts false r t h = refl

on_locked-Silent :
    (now : ℕ) (reason : String) (found : Option StateRow)
    → Silent false (on_locked_row now reason found)
unfolding on_locked_row
on_locked-Silent now reason none = λ env t. refl
on_locked-Silent now reason (some row) = λ env t.
    if-contacts (is_handoff_eligible row) _ t
      (insert_handoff-Silent (env.insert_command (length t)) (handed_off now reason row) t)

request-Silent : (now : ℕ) (reason : String) → Silent false (request_ai_failure_handoff now reason)
unfolding request_ai_failure_handoff contacts
request-Silent now reason env t =
    on_locked-Silent now reason (env.row (length t)) env (locked_row ∷ t)

insert-Silent : (text : String) → Silent false (insert_assistant_message text)
unfolding insert_assistant_message contacts
insert-Silent text env t = refl

finalize-Silent : (text : String) → Silent false (finalize_user_visible_text text)
unfolding finalize_user_visible_text contacts
finalize-Silent text env t = refl

record_sent-Silent :
    (kind : Kind) (now : ℕ) (s : Slots) (id : Option ℕ) → Silent false (record_sent kind now s id)
unfolding record_sent
record_sent-Silent kind now s id =
    bind-Silent false (update_slot_memory (with_sent kind now id s))
      (λ u. pure (
        record { status = sent_status kind; error = none; message_id = id },
        with_sent kind now id s,
      ))
      (update-Silent false (with_sent kind now id s)) (λ u env t. refl)

after_send-Silent :
    (kind : Kind) (text : String) (now : ℕ) (s : Slots) (failure : Option Failure)
    → Silent false (after_send kind text now s failure)
unfolding after_send
after_send-Silent kind text now s none =
    bind-Silent false (insert_assistant_message text) (record_sent kind now s) (insert-Silent text)
      (record_sent-Silent kind now s)
after_send-Silent kind text now s (some e) =
    if-Silent false (is_already_closed_error e) _ _
      (λ h.
        bind-Silent false (mark_closed _) (λ u. finish (failed "CLOSED_ALREADY_IN_LIVECHAT" e))
          (mark-Silent false _) (λ u env t. refl))
      (λ h.
        bind-Silent false (update_slot_memory _) (λ u. finish (failed "FAILED_SEND_TEXT" e))
          (update-Silent false _) (λ u env t. refl))

deliver-Silent :
    (kind : Kind) (f : Finalized) (now : ℕ) (s : Slots) (reason : Option String)
    → Silent false (deliver kind f now s reason)
unfolding deliver
deliver-Silent kind f now s (some reason) =
    bind-Silent false (request_ai_failure_handoff now reason)
      (λ requested. announce_handoff requested f) (request-Silent now reason) (announce-Silent f)
deliver-Silent kind f now s none =
    let text = if f.text is "" then text_of kind else f.text in
    bind-Silent false (send_text text) (after_send kind text now s) (send_text-Silent text)
      (after_send-Silent kind text now s)

after_finalized-Silent :
    (kind : Kind) (now cutoff : ℕ) (s : Slots) (f : Finalized)
    → Silent false (after_finalized kind now cutoff s f)
unfolding after_finalized
after_finalized-Silent kind now cutoff s f =
    bind-Silent false (require_no_activity cutoff "SKIPPED_CUSTOMER_ACTIVITY")
      (λ u. deliver kind f now s (terminal_ai_failure_reason f))
      (require_no_activity-Silent false cutoff "SKIPPED_CUSTOMER_ACTIVITY")
      (λ u. deliver-Silent kind f now s (terminal_ai_failure_reason f))

send_idle_text-Silent :
    (kind : Kind) (now cutoff : ℕ) (s : Slots) → Silent false (send_idle_text kind now cutoff s)
unfolding send_idle_text
send_idle_text-Silent kind now cutoff s =
    bind-Silent false (finalize_user_visible_text (text_of kind))
      (after_finalized kind now cutoff s) (finalize-Silent (text_of kind))
      (after_finalized-Silent kind now cutoff s)

on_latest-Silent :
    (c : Conversation) (followup_seconds close_seconds now : ℕ) (latest : Option Latest)
    → is_before_close close_seconds now c ≡ true
    → Silent false (on_latest c followup_seconds close_seconds now latest)
unfolding on_latest
on_latest-Silent c followup_seconds close_seconds now none h =
    after_customer-Silent false c.slot_memory
on_latest-Silent c followup_seconds close_seconds now (some latest) h =
    if-Silent false (latest.sender_role is "assistant") _ _
      (λ k.
        assistant-Silent false followup_seconds close_seconds now latest
          (λ time s l p. send_idle_text-Silent followup now time s) c h)
      (λ k. after_customer-Silent false c.slot_memory)

-- Where the closing text was not sent, and fewer than `close_seconds` have passed since the
-- follow-up or none was sent, the timer closes no chat in LiveChat, whatever the customer does and
-- whatever the database and the services answer.
pub process_idle_conversation-keeps_open :
    (c : Conversation) (followup_seconds close_seconds now : ℕ) (env : Env) (t : Trace)
    → is_before_close close_seconds now c ≡ true
    → contacts false (process_idle_conversation c followup_seconds close_seconds now env t).1
      ≡ contacts false t
unfolding process_idle_conversation fetch_latest_message contacts
process_idle_conversation-keeps_open c followup_seconds close_seconds now env t h =
    on_latest-Silent c followup_seconds close_seconds now (env.latest (length t)) h env
      (fetched_latest ∷ t)
