-- ===== src/Idle/Guarded/Cycle.antt =====
-- `process_idle_conversation` acts only where the customer was seen to be silent
-- (src/app/workers/livechat_idle_timer.py).
use ai_customer_service.Prelude.{ℕ, ◌+◌, Bool, true, false, Option, none, some, ltb, ◌is◌}
use ai_customer_service.Queue.Lease.{seconds}
use ai_customer_service.Idle.{
  Answer, Conversation, Failure, Latest, Outcome, Slots, Stamp, after_activity, after_assistant,
  after_customer, after_followup, after_recovery, at, check_pending, clear_idle_state, close,
  close_chat, default_max_followup_backfill_seconds, fetch_latest_message, fetch_message_created_at,
  followup, has_customer_activity_after, has_unfinished_work, idle_cycle, is_set,
  is_waiting_external, lookup_cutoff, maybe_follow_up, message_time, missing_cutoff, on_latest,
  outcome, parse_datetime, parsed, process_idle_conversation, pure, raises, recovered_cutoff,
  resolve_idle_cycle_cutoff, send_idle_text, try_update_slot_memory, unless_pending, value,
  outcome_of, follow_up, close_again, after_close_text, say_goodbye, close_in_time, new_cycle,
  persisted_or_lookup,
}
use ai_customer_service.Idle.Guarded.{is_guarded, Keeps, bind-Keeps, require_no_activity-Keeps}
use ai_customer_service.Idle.Guarded.Texts.{
  if-Keeps, after_update, after_mark, close_chat-Keeps, send_idle_text-Keeps,
}

missing_cutoff-Keeps : (e : Option Failure) → Keeps (missing_cutoff {A = ℕ × Slots} e)
missing_cutoff-Keeps none = λ env t h. h
missing_cutoff-Keeps (some e) = λ env t h. h

after_recovery-Keeps : (s : Slots) (time : ℕ) (e : Option Failure) → Keeps (after_recovery s time e)
unfolding after_recovery
after_recovery-Keeps s time none = λ env t h. h
after_recovery-Keeps s time (some e) = λ env t h. h

try_update-Keeps : (s : Slots) → Keeps (try_update_slot_memory s)
unfolding try_update_slot_memory is_guarded
try_update-Keeps s env t h = h

recovered_cutoff-Keeps : (s : Slots) (time : Option ℕ) → Keeps (recovered_cutoff s time)
unfolding recovered_cutoff
recovered_cutoff-Keeps s none = missing_cutoff-Keeps none
recovered_cutoff-Keeps s (some time) =
    let recovered = record s { idle_base_assistant_created_at = some (at time) } in
    bind-Keeps (try_update_slot_memory recovered) (after_recovery recovered time)
      (try_update-Keeps recovered) (after_recovery-Keeps recovered time)

message_time-Keeps :
    (s : Slots) (answer : Answer (Option Stamp)) → Keeps (message_time s (parsed answer))
unfolding message_time
message_time-Keeps s (raises e) = missing_cutoff-Keeps (some e)
message_time-Keeps s (value stamp) = recovered_cutoff-Keeps s (parse_datetime stamp)

fetch-Keeps : (id : ℕ) → Keeps (fetch_message_created_at id)
unfolding fetch_message_created_at is_guarded
fetch-Keeps id env t h = h

lookup_cutoff-Keeps : (s : Slots) (id : Option ℕ) → Keeps (lookup_cutoff s id)
unfolding lookup_cutoff
lookup_cutoff-Keeps s none = missing_cutoff-Keeps none
lookup_cutoff-Keeps s (some id) =
    bind-Keeps (fetch_message_created_at id) (λ answer. message_time s (parsed answer))
      (fetch-Keeps id) (message_time-Keeps s)

persisted-Keeps : (s : Slots) (time : Option ℕ) → Keeps (persisted_or_lookup s time)
unfolding persisted_or_lookup
persisted-Keeps s (some time) = λ env t h. h
persisted-Keeps s none = lookup_cutoff-Keeps s s.idle_base_assistant_message_id

resolve-Keeps : (s : Slots) → Keeps (resolve_idle_cycle_cutoff s)
unfolding resolve_idle_cycle_cutoff
resolve-Keeps s = persisted-Keeps s (parse_datetime s.idle_base_assistant_created_at)

outcome_of-Keeps : (r : Outcome × Slots) → Keeps (outcome_of r)
unfolding outcome_of
outcome_of-Keeps r env t h = h

follow_up-Keeps :
    (s : Slots) (followup_seconds now : ℕ) (latest : Latest) (time : ℕ)
    → Keeps (follow_up s followup_seconds now latest time)
unfolding follow_up
follow_up-Keeps s followup_seconds now latest time =
    if-Keeps (ltb (time + seconds default_max_followup_backfill_seconds) now) _ _
      (after_mark _ _ (λ u env t h. h))
      (if-Keeps (ltb now (time + seconds followup_seconds)) _ _ (λ env t h. h)
        (bind-Keeps (send_idle_text followup now time _) outcome_of
          (send_idle_text-Keeps followup now time _) outcome_of-Keeps))

maybe_follow_up-Keeps :
    (s : Slots) (followup_seconds now : ℕ) (latest : Latest) (time : Option ℕ)
    → Keeps (maybe_follow_up s followup_seconds now latest time)
unfolding maybe_follow_up
maybe_follow_up-Keeps s followup_seconds now latest none = λ env t h. h
maybe_follow_up-Keeps s followup_seconds now latest (some time) =
    require_no_activity-Keeps time "SKIPPED_PENDING_INBOUND_CUSTOMER_REPLY"
      (follow_up s followup_seconds now latest time)
      (λ env t h q. follow_up-Keeps s followup_seconds now latest time env t h)

close_again-Keeps : (now : ℕ) (found : ℕ × Slots) → Keeps (close_again now found)
unfolding close_again
close_again-Keeps now (cutoff, s) =
    require_no_activity-Keeps cutoff "SKIPPED_PENDING_INBOUND_CUSTOMER_REPLY"
      (close_chat s now (some cutoff)) (λ env t h q. close_chat-Keeps s now (some cutoff) env t h)

after_close_text-Keeps :
    (now cutoff : ℕ) (sent : Outcome × Slots) → Keeps (after_close_text now cutoff sent)
unfolding after_close_text
after_close_text-Keeps now cutoff (o, s) = close_chat-Keeps s now (some cutoff)

say_goodbye-Keeps : (now cutoff : ℕ) (s : Slots) → Keeps (say_goodbye now cutoff s)
unfolding say_goodbye
say_goodbye-Keeps now cutoff s =
    bind-Keeps (send_idle_text close now cutoff s) (after_close_text now cutoff)
      (send_idle_text-Keeps close now cutoff s) (after_close_text-Keeps now cutoff)

close_in_time-Keeps :
    (close_seconds now sent_at : ℕ) (found : ℕ × Slots)
    → Keeps (close_in_time close_seconds now sent_at found)
unfolding close_in_time
close_in_time-Keeps close_seconds now sent_at (cutoff, s) =
    if-Keeps (ltb now (sent_at + seconds close_seconds)) _ _ (λ env t h. h)
      (require_no_activity-Keeps cutoff "SKIPPED_PENDING_INBOUND_CUSTOMER_REPLY"
        (say_goodbye now cutoff s) (λ env t h q. say_goodbye-Keeps now cutoff s env t h))

idle_cycle-Keeps :
    (followup_seconds close_seconds now : ℕ) (latest : Latest) (s : Slots)
    (followup_sent_at close_sent_at : Option ℕ)
    → Keeps (idle_cycle followup_seconds close_seconds now latest s followup_sent_at close_sent_at)
unfolding idle_cycle
idle_cycle-Keeps followup_seconds close_seconds now latest s followup_sent_at (some close_at) =
    bind-Keeps (resolve_idle_cycle_cutoff s) (close_again now) (resolve-Keeps s)
      (close_again-Keeps now)
idle_cycle-Keeps followup_seconds close_seconds now latest s (some sent_at) none =
    bind-Keeps (resolve_idle_cycle_cutoff s) (close_in_time close_seconds now sent_at)
      (resolve-Keeps s) (close_in_time-Keeps close_seconds now sent_at)
idle_cycle-Keeps followup_seconds close_seconds now latest s none none =
    maybe_follow_up-Keeps s followup_seconds now latest (parse_datetime latest.created_at)

clear-Keeps : (s : Slots) → Keeps (clear_idle_state s)
unfolding clear_idle_state
clear-Keeps s = after_update _ _ (λ u env t h. h)

after_activity-Keeps :
    (followup_seconds close_seconds now : ℕ) (latest : Latest) (s : Slots) (sent_at : ℕ)
    (close_sent_at : Option ℕ) (answer : Answer Bool)
    → Keeps
        (after_activity followup_seconds close_seconds now latest s sent_at close_sent_at answer)
unfolding after_activity new_cycle
after_activity-Keeps followup_seconds close_seconds now latest s sent_at close_sent_at (raises e) =
    λ env t h. h
after_activity-Keeps followup_seconds close_seconds now latest s sent_at close_sent_at
      (value true) =
    bind-Keeps (clear_idle_state s) (new_cycle followup_seconds close_seconds now latest)
      (clear-Keeps s)
      (λ cleared. idle_cycle-Keeps followup_seconds close_seconds now latest cleared none none)
after_activity-Keeps followup_seconds close_seconds now latest s sent_at close_sent_at
      (value false) =
    idle_cycle-Keeps followup_seconds close_seconds now latest s (some sent_at) close_sent_at

ask-Keeps : (cutoff : ℕ) → Keeps (has_customer_activity_after cutoff)
unfolding has_customer_activity_after is_guarded
ask-Keeps cutoff env t h = h

after_followup-Keeps :
    (followup_seconds close_seconds now : ℕ) (latest : Latest) (s : Slots)
    (followup_sent_at close_sent_at : Option ℕ)
    → Keeps
        (after_followup followup_seconds close_seconds now latest s followup_sent_at close_sent_at)
unfolding after_followup
after_followup-Keeps followup_seconds close_seconds now latest s none close_sent_at =
    idle_cycle-Keeps followup_seconds close_seconds now latest s none close_sent_at
after_followup-Keeps followup_seconds close_seconds now latest s (some sent_at) close_sent_at =
    bind-Keeps (has_customer_activity_after sent_at)
      (after_activity followup_seconds close_seconds now latest s sent_at close_sent_at)
      (ask-Keeps sent_at)
      (after_activity-Keeps followup_seconds close_seconds now latest s sent_at close_sent_at)

unfinished-Keeps : Keeps has_unfinished_work
unfolding has_unfinished_work is_guarded
unfinished-Keeps env t h = h

unless_pending-Keeps : (pending : Bool) → Keeps (unless_pending pending)
unfolding unless_pending
unless_pending-Keeps true = λ env t h. h
unless_pending-Keeps false = λ env t h. h

check_pending-Keeps : (c : Conversation) → Keeps (check_pending c)
unfolding check_pending
check_pending-Keeps c =
    if-Keeps (is_waiting_external c) _ _
      (bind-Keeps has_unfinished_work unless_pending unfinished-Keeps unless_pending-Keeps)
      (λ env t h. h)

after_assistant-Keeps :
    (c : Conversation) (followup_seconds close_seconds now : ℕ) (latest : Latest)
    → Keeps (after_assistant c followup_seconds close_seconds now latest)
unfolding after_assistant
after_assistant-Keeps c followup_seconds close_seconds now latest =
    let s = c.slot_memory in
    if-Keeps (is_set s.idle_closed_at) _ _ (λ env t h. h)
      (if-Keeps (is_set s.ai_service_failure_handoff_at) _ _ (λ env t h. h)
        (bind-Keeps (check_pending c)
          (λ u.
            after_followup followup_seconds close_seconds now latest s
              (parse_datetime s.idle_followup_sent_at) (parse_datetime s.idle_close_sent_at))
          (check_pending-Keeps c)
          (λ u.
            after_followup-Keeps followup_seconds close_seconds now latest s
              (parse_datetime s.idle_followup_sent_at) (parse_datetime s.idle_close_sent_at))))

after_customer-Keeps : (s : Slots) → Keeps (after_customer s)
unfolding after_customer
after_customer-Keeps s =
    if-Keeps (is_set s.idle_followup_sent_at) _ _
      (bind-Keeps (clear_idle_state s) (λ u. pure (outcome "RESET_BY_CUSTOMER")) (clear-Keeps s)
        (λ u env t h. h))
      (λ env t h. h)

on_latest-Keeps :
    (c : Conversation) (followup_seconds close_seconds now : ℕ) (latest : Option Latest)
    → Keeps (on_latest c followup_seconds close_seconds now latest)
unfolding on_latest
on_latest-Keeps c followup_seconds close_seconds now none = after_customer-Keeps c.slot_memory
on_latest-Keeps c followup_seconds close_seconds now (some latest) =
    if-Keeps (latest.sender_role is "assistant") _ _
      (after_assistant-Keeps c followup_seconds close_seconds now latest)
      (after_customer-Keeps c.slot_memory)

fetch_latest-Keeps : Keeps fetch_latest_message
unfolding fetch_latest_message is_guarded
fetch_latest-Keeps env t h = h

pub process_idle_conversation-Keeps :
    (c : Conversation) (followup_seconds close_seconds now : ℕ)
    → Keeps (process_idle_conversation c followup_seconds close_seconds now)
unfolding process_idle_conversation
process_idle_conversation-Keeps c followup_seconds close_seconds now =
    bind-Keeps fetch_latest_message (on_latest c followup_seconds close_seconds now)
      fetch_latest-Keeps (on_latest-Keeps c followup_seconds close_seconds now)
