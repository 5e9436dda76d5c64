-- ===== src/Idle/Timer.antt =====
-- `process_idle_conversation`, `process_idle_conversations` and `summarize_results`
-- (src/app/workers/livechat_idle_timer.py).
use ai_customer_service.Prelude.{
  ℕ, ◌+◌, Bool, true, false, Option, none, some, ltb, if◌then◌else◌, ◌is◌,
}
use ai_customer_service.Queue.Lease.{seconds}
use ai_customer_service.Idle.Effects.{
  Stamp, at, parse_datetime, is_set, Slots, Conversation, Latest, Failure, Answer, value, raises,
  Outcome, Action, pure, finish, ◌>>=◌, ◌>>◌, outcome, failed, fetch_latest_message,
  has_unfinished_work, has_customer_activity_after, fetch_message_created_at,
  try_update_slot_memory, mark_closed,
}
use ai_customer_service.Idle.Defs.{
  default_max_followup_backfill_seconds, is_waiting_external, clear_idle_state, require_no_activity,
  close_chat,
}
use ai_customer_service.Idle.Process.{followup, close, send_idle_text}

-- `return _result(…, "SKIPPED_MISSING_IDLE_CYCLE_CUTOFF", error=…)`
abbrev pub missing_cutoff {ℓ} : {A : Type ℓ} → Option Failure → Action A
missing_cutoff none = finish (outcome "SKIPPED_MISSING_IDLE_CYCLE_CUTOFF")
missing_cutoff (some e) = finish (failed "SKIPPED_MISSING_IDLE_CYCLE_CUTOFF" e)

unfoldable pub after_recovery : Slots → ℕ → Option Failure → Action (ℕ × Slots)
after_recovery slots time none = pure (time, slots)
after_recovery slots time (some e) = missing_cutoff (some e)

unfoldable pub recovered_cutoff : Slots → Option ℕ → Action (ℕ × Slots)
unfolding after_recovery try_update_slot_memory
recovered_cutoff slots none = missing_cutoff none
recovered_cutoff slots (some time) = do
  let recovered = record slots { idle_base_assistant_created_at = some (at time) }
  result ← try_update_slot_memory recovered
  after_recovery recovered time result

unfoldable pub message_time : Slots → Answer (Option ℕ) → Action (ℕ × Slots)
unfolding recovered_cutoff
message_time slots (raises e) = missing_cutoff (some e)
message_time slots (value time) = recovered_cutoff slots time

abbrev pub parsed : Answer (Option Stamp) → Answer (Option ℕ)
parsed (raises e) = raises e
parsed (value stamp) = value (parse_datetime stamp)

unfoldable pub lookup_cutoff : Slots → Option ℕ → Action (ℕ × Slots)
unfolding fetch_message_created_at message_time parse_datetime
lookup_cutoff slots none = missing_cutoff none
lookup_cutoff slots (some id) = do
  answer ← fetch_message_created_at id
  message_time slots (parsed answer)

unfoldable pub persisted_or_lookup : Slots → Option ℕ → Action (ℕ × Slots)
unfolding lookup_cutoff
persisted_or_lookup slots (some time) = pure (time, slots)
persisted_or_lookup slots none = lookup_cutoff slots slots.idle_base_assistant_message_id

-- `_resolve_idle_cycle_cutoff`, and the early return where it finds no time.
unfoldable pub resolve_idle_cycle_cutoff : Slots → Action (ℕ × Slots)
unfolding persisted_or_lookup parse_datetime
resolve_idle_cycle_cutoff slots =
    persisted_or_lookup slots (parse_datetime slots.idle_base_assistant_created_at)

unfoldable pub outcome_of : Outcome × Slots → Action Outcome
outcome_of (sent, _) = pure sent

-- The newest message is `created_at`, and the customer did nothing since.
unfoldable pub follow_up : Slots → ℕ → ℕ → Latest → ℕ → Action Outcome
unfolding mark_closed send_idle_text outcome_of
follow_up slots followup_seconds now latest created_at =
    if ltb (created_at + seconds default_max_followup_backfill_seconds) now
    then (do
      mark_closed (record slots {
        idle_closed_at = some (at now);
        idle_close_reason = some "stale_idle_backlog";
      })
      pure (outcome "CLOSED_STALE_BACKLOG"))
    else if ltb now (created_at + seconds followup_seconds)
    then pure (outcome "WAITING_FOR_FOLLOWUP_TIMER")
    else (do
      sent ← send_idle_text followup now created_at (record slots {
        idle_base_assistant_message_id = some latest.id;
        idle_base_assistant_created_at = some (at created_at);
      })
      outcome_of sent)

-- No follow-up has been sent in this cycle.
unfoldable pub maybe_follow_up : Slots → ℕ → ℕ → Latest → Option ℕ → Action Outcome
unfolding require_no_activity follow_up
maybe_follow_up slots followup_seconds now latest none =
    finish (outcome "SKIPPED_MISSING_LATEST_TIME")
maybe_follow_up slots followup_seconds now latest (some created_at) = do
  require_no_activity created_at "SKIPPED_PENDING_INBOUND_CUSTOMER_REPLY"
  follow_up slots followup_seconds now latest created_at

-- The closing text was sent before.
unfoldable pub close_again : ℕ → ℕ × Slots → Action Outcome
unfolding require_no_activity close_chat
close_again now (cutoff, slots) = do
  require_no_activity cutoff "SKIPPED_PENDING_INBOUND_CUSTOMER_REPLY"
  close_chat slots now (some cutoff)

unfoldable pub after_close_text : ℕ → ℕ → Outcome × Slots → Action Outcome
unfolding close_chat
after_close_text now cutoff (_, sent) = close_chat sent now (some cutoff)

unfoldable pub say_goodbye : ℕ → ℕ → Slots → Action Outcome
unfolding send_idle_text after_close_text
say_goodbye now cutoff slots = do
  sent ← send_idle_text close now cutoff slots
  after_close_text now cutoff sent

-- The follow-up was sent before, the closing text was not.
unfoldable pub close_in_time : ℕ → ℕ → ℕ → ℕ × Slots → Action Outcome
unfolding require_no_activity say_goodbye
close_in_time close_seconds now followup_sent_at (cutoff, slots) =
    if ltb now (followup_sent_at + seconds close_seconds)
    then pure (outcome "WAITING_FOR_CLOSE_TIMER")
    else (do
      require_no_activity cutoff "SKIPPED_PENDING_INBOUND_CUSTOMER_REPLY"
      say_goodbye now cutoff slots)

-- The rest of the function, given when the follow-up and the closing text were sent.
unfoldable pub idle_cycle : ℕ → ℕ → ℕ → Latest → Slots → Option ℕ → Option ℕ → Action Outcome
unfolding resolve_idle_cycle_cutoff close_again close_in_time maybe_follow_up parse_datetime
idle_cycle followup_seconds close_seconds now latest slots followup_sent_at (some close_sent_at) =
    do cutoff ← resolve_idle_cycle_cutoff slots; close_again now cutoff
idle_cycle followup_seconds close_seconds now latest slots (some followup_sent_at) none = do
  cutoff ← resolve_idle_cycle_cutoff slots
  close_in_time close_seconds now followup_sent_at cutoff
idle_cycle followup_seconds close_seconds now latest slots none none =
    maybe_follow_up slots followup_seconds now latest (parse_datetime latest.created_at)

unfoldable pub new_cycle : ℕ → ℕ → ℕ → Latest → Slots → Action Outcome
unfolding idle_cycle
new_cycle followup_seconds close_seconds now latest cleared =
    idle_cycle followup_seconds close_seconds now latest cleared none none

-- Whether the customer did something after the follow-up: then the cycle starts anew.
unfoldable pub after_activity :
    ℕ → ℕ → ℕ → Latest → Slots → ℕ → Option ℕ → Answer Bool → Action Outcome
unfolding idle_cycle new_cycle clear_idle_state
after_activity followup_seconds close_seconds now latest slots followup_sent_at close_sent_at
      (raises e) =
    finish (failed "SKIPPED_CUSTOMER_ACTIVITY_CHECK_FAILED" e)
after_activity followup_seconds close_seconds now latest slots followup_sent_at close_sent_at
      (value true) =
    do cleared ← clear_idle_state slots; new_cycle followup_seconds close_seconds now latest cleared
after_activity followup_seconds close_seconds now latest slots followup_sent_at close_sent_at
      (value false) =
    idle_cycle followup_seconds close_seconds now latest slots (some followup_sent_at) close_sent_at

unfoldable pub after_followup : ℕ → ℕ → ℕ → Latest → Slots → Option ℕ → Option ℕ → Action Outcome
unfolding idle_cycle after_activity has_customer_activity_after
after_followup followup_seconds close_seconds now latest slots none close_sent_at =
    idle_cycle followup_seconds close_seconds now latest slots none close_sent_at
after_followup followup_seconds close_seconds now latest slots (some followup_sent_at)
      close_sent_at =
    do
      answer ← has_customer_activity_after followup_sent_at
      after_activity followup_seconds close_seconds now latest slots followup_sent_at close_sent_at
          answer

-- An early return where a conversation that waits for a backend has unfinished work.
unfoldable pub unless_pending : Bool → Action (Unit {0})
unless_pending true = finish (outcome "SKIPPED_PENDING_WORK")
unless_pending false = pure tt

unfoldable pub check_pending : Conversation → Action (Unit {0})
unfolding unless_pending has_unfinished_work is_waiting_external
check_pending c =
    if is_waiting_external c
    then (do pending ← has_unfinished_work; unless_pending pending)
    else pure tt

-- The newest message is the assistant's.
unfoldable pub after_assistant : Conversation → ℕ → ℕ → ℕ → Latest → Action Outcome
unfolding check_pending after_followup parse_datetime is_set
after_assistant c followup_seconds close_seconds now latest =
    let slots = c.slot_memory in
    if is_set slots.idle_closed_at
    then pure (outcome "SKIPPED_ALREADY_CLOSED")
    else if is_set slots.ai_service_failure_handoff_at
    then pure (outcome "SKIPPED_AI_FAILURE_HANDOFF")
    else (do
      check_pending c
      after_followup followup_seconds close_seconds now latest slots
          (parse_datetime slots.idle_followup_sent_at) (parse_datetime slots.idle_close_sent_at))

-- The newest message is not the assistant's, or there is none.
unfoldable pub after_customer : Slots → Action Outcome
unfolding clear_idle_state is_set
after_customer slots =
    if is_set slots.idle_followup_sent_at
    then (do _ ← clear_idle_state slots; pure (outcome "RESET_BY_CUSTOMER"))
    else pure (outcome "SKIPPED_LATEST_NOT_ASSISTANT")

unfoldable pub on_latest : Conversation → ℕ → ℕ → ℕ → Option Latest → Action Outcome
unfolding after_assistant after_customer
on_latest c followup_seconds close_seconds now none = after_customer c.slot_memory
on_latest c followup_seconds close_seconds now (some latest) =
    if latest.sender_role is "assistant"
    then after_assistant c followup_seconds close_seconds now latest
    else after_customer c.slot_memory

unfoldable pub process_idle_conversation : Conversation → ℕ → ℕ → ℕ → Action Outcome
unfolding on_latest fetch_latest_message
process_idle_conversation c followup_seconds close_seconds now = do
  latest ← fetch_latest_message
  on_latest c followup_seconds close_seconds now latest
