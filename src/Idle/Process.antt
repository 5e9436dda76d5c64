-- ===== src/Idle/Process.antt =====
-- `_send_idle_text` and `process_idle_conversation` (src/app/workers/livechat_idle_timer.py).
use ai_customer_service.Prelude.{
  ℕ, String, Bool, true, false, Option, none, some, if◌then◌else◌, ◌is◌,
}
use ai_customer_service.Language.{ai_failure_handoff_notice}
use ai_customer_service.Idle.Effects.{
  at, Slots, Failure, Finalized, Outcome, Action, pure, finish, ◌>>=◌, ◌>>◌, outcome, failed,
  finalize_user_visible_text, send_text, insert_assistant_message, update_slot_memory, mark_closed,
}
use ai_customer_service.Idle.Defs.{
  followup_text, close_text, terminal_ai_failure_reason, is_already_closed_error,
  require_no_activity, request_ai_failure_handoff,
}

-- Which of the two texts is sent: the keys and the status that depend on it.
pub data Kind : Type 0 where
  followup close : Kind

abbrev pub text_of : Kind → String
text_of followup = followup_text
text_of close = close_text

abbrev pub sent_status : Kind → String
sent_status followup = "FOLLOWUP_SENT"
sent_status close = "CLOSE_TEXT_SENT"

-- slot_memory[sent_at_key], slot_memory[message_id_key], and no `idle_close_last_error`
abbrev pub with_sent : Kind → ℕ → Option ℕ → Slots → Slots
with_sent followup now none s = record s {
  idle_followup_sent_at = some (at now);
  idle_close_last_error = none;
}
with_sent followup now (some id) s = record s {
  idle_followup_sent_at = some (at now);
  idle_followup_message_id = some id;
  idle_close_last_error = none;
}
with_sent close now none s = record s {
  idle_close_sent_at = some (at now);
  idle_close_last_error = none;
}
with_sent close now (some id) s = record s {
  idle_close_sent_at = some (at now);
  idle_close_message_id = some id;
  idle_close_last_error = none;
}

abbrev pub with_send_error : Kind → ℕ → Failure → Slots → Slots
with_send_error followup now e s = record s {
  idle_followup_last_error = some e.text;
  idle_followup_failed_at = some (at now);
  idle_last_failed_at = some (at now);
}
with_send_error close now e s = record s {
  idle_close_last_error = some e.text;
  idle_close_failed_at = some (at now);
  idle_last_failed_at = some (at now);
}

-- What sending the notice of a handoff returned, or raised.
unfoldable pub after_notice : Option Failure → Action (Outcome × Slots)
after_notice none = finish (outcome "AI_FAILURE_HANDOFF_REQUESTED")
after_notice (some e) = finish (failed "FAILED_HANDOFF_NOTICE" e)

unfoldable pub announce_handoff : Bool → Finalized → Action (Outcome × Slots)
unfolding after_notice send_text
announce_handoff false finalized = finish (outcome "SKIPPED_TERMINAL_STATE")
announce_handoff true finalized = do
  result ← send_text (ai_failure_handoff_notice finalized.reply_language)
  after_notice result

unfoldable pub record_sent : Kind → ℕ → Slots → Option ℕ → Action (Outcome × Slots)
unfolding update_slot_memory
record_sent kind now slots message_id = do
  let sent = with_sent kind now message_id slots
  update_slot_memory sent
  pure (record { status = sent_status kind; error = none; message_id = message_id }, sent)

-- What sending the text returned, or raised.
unfoldable pub after_send : Kind → String → ℕ → Slots → Option Failure → Action (Outcome × Slots)
unfolding insert_assistant_message record_sent update_slot_memory mark_closed
    is_already_closed_error
after_send kind text now slots none = do
  message_id ← insert_assistant_message text
  record_sent kind now slots message_id
after_send kind text now slots (some e) =
    if is_already_closed_error e
    then (do
      mark_closed (record slots {
        idle_closed_at = some (at now);
        idle_close_last_error = none;
        idle_followup_last_error = none;
        idle_last_failed_at = none;
      })
      finish (failed "CLOSED_ALREADY_IN_LIVECHAT" e))
    else (do
      update_slot_memory (with_send_error kind now e slots)
      finish (failed "FAILED_SEND_TEXT" e))

-- The text itself, or a handoff where composing it failed for good.
unfoldable pub deliver : Kind → Finalized → ℕ → Slots → Option String → Action (Outcome × Slots)
unfolding request_ai_failure_handoff announce_handoff send_text after_send
deliver kind finalized now slots (some reason) = do
  requested ← request_ai_failure_handoff now reason
  announce_handoff requested finalized
deliver kind finalized now slots none = do
  let text = if finalized.text is "" then text_of kind else finalized.text
  result ← send_text text
  after_send kind text now slots result

unfoldable pub after_finalized : Kind → ℕ → ℕ → Slots → Finalized → Action (Outcome × Slots)
unfolding require_no_activity deliver terminal_ai_failure_reason
after_finalized kind now cutoff slots finalized = do
  require_no_activity cutoff "SKIPPED_CUSTOMER_ACTIVITY"
  deliver kind finalized now slots (terminal_ai_failure_reason finalized)

-- `_send_idle_text`, whose cut-off is always given. Only a sent text goes on.
unfoldable pub send_idle_text : Kind → ℕ → ℕ → Slots → Action (Outcome × Slots)
unfolding finalize_user_visible_text after_finalized
send_idle_text kind now cutoff slots = do
  finalized ← finalize_user_visible_text (text_of kind)
  after_finalized kind now cutoff slots finalized
