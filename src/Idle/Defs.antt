-- ===== src/Idle/Defs.antt =====
-- `process_idle_conversation` and what it calls (src/app/workers/livechat_idle_timer.py), and
-- `terminal_ai_failure_reason` (src/app/services/ai_failure_policy.py).
use ai_customer_service.Prelude.{
  ℕ, ◌+◌, String, Bool, true, false, not, ◌&&◌, ◌||◌, Option, none, some, List, [], ◌∷◌, ltb, ◌==◌,
  if◌then◌else◌, ◌is◌, is_in, or_text, contains_any, upper_is, lower_is, take, filter, length,
}
use ai_customer_service.Queue.Lease.{seconds}
use ai_customer_service.Idle.Effects.{
  at, parse_datetime, Slots, Conversation, Failure, Answer, value, raises, Finalized, StateRow,
  locked_row, requested_handoff, rolled_back, Outcome, Step, go, raised, Trace, Action, pure,
  finish, ◌>>=◌, ◌>>◌, outcome, failed, has_customer_activity_after, deactivate_chat,
  update_slot_memory, mark_closed,
}

abbrev pub default_failure_backoff_seconds : ℕ
default_failure_backoff_seconds = 600

abbrev pub default_max_followup_backfill_seconds : ℕ
default_max_followup_backfill_seconds = 1800

abbrev pub followup_text : String
followup_text = "请问您还在吗？如果还有问题，可以继续告诉我，我会协助您处理。"

abbrev pub close_text : String
close_text = "由于暂时没有收到您的回复，本次对话将先结束。如后续仍需协助，欢迎随时重新联系我们。"

-- src/app/services/ai_failure_policy.py
unfoldable pub terminal_ai_failure_reason : Finalized → Option String
terminal_ai_failure_reason f =
    if or_text f.reply_status "" is "fallback"
    then (if is_in (or_text f.fallback_reason "")
          ("timeout" ∷ "exception" ∷ "provider_failure" ∷ [])
        then some (or_text f.fallback_reason "")
        else none)
    else none

unfoldable pub is_already_closed_error : Failure → Bool
is_already_closed_error e = elim e.status [
  | none ↦ false
  | some code ↦
      (code == 400 || code == 404 || code == 422)
      && (e.error_type is "chat_inactive"
          || contains_any
              ("chat is closed" ∷ "chat closed" ∷ "chat not active" ∷ "not active"
                ∷ "no active chat thread" ∷ [])
              e.lowered)
]

unfoldable pub is_waiting_external : Conversation → Bool
is_waiting_external c = upper_is (or_text c.status "") "WAITING_EXTERNAL"

-- `now - failed_at < 600 s`, for the time of the last failure
unfoldable pub idle_failure_backoff_active : Slots → ℕ → Bool
unfolding parse_datetime
idle_failure_backoff_active slots now = elim (parse_datetime slots.idle_last_failed_at) [
  | none ↦ false
  | some failed_at ↦ ltb now (failed_at + seconds default_failure_backoff_seconds)
]

-- The rows that `fetch_candidates` keeps of those that its query returns.
unfoldable pub candidates : ℕ → ℕ → List Conversation → List Conversation
unfolding idle_failure_backoff_active
candidates limit now rows =
    take limit (filter (λ c. not (idle_failure_backoff_active c.slot_memory now)) rows)

-- The keys of `IDLE_SLOT_KEYS` removed.
unfoldable pub without_idle_keys : Slots → Slots
without_idle_keys s = record s {
  idle_followup_sent_at = none;
  idle_followup_failed_at = none;
  idle_followup_last_error = none;
  idle_close_sent_at = none;
  idle_closed_at = none;
  idle_base_assistant_message_id = none;
  idle_base_assistant_created_at = none;
  idle_followup_message_id = none;
  idle_close_message_id = none;
  idle_close_failed_at = none;
  idle_close_last_error = none;
  idle_last_failed_at = none;
}

unfoldable pub clear_idle_state : Slots → Action Slots
unfolding without_idle_keys update_slot_memory
clear_idle_state slots = do
  let cleared = without_idle_keys slots
  update_slot_memory cleared
  pure cleared

-- An early return unless the database says that the customer did nothing after `cutoff`.
abbrev pub unless_active : Answer Bool → String → Action (Unit {0})
unless_active (raises e) status = finish (failed "SKIPPED_CUSTOMER_ACTIVITY_CHECK_FAILED" e)
unless_active (value true) status = finish (outcome status)
unless_active (value false) status = pure tt

unfoldable pub require_no_activity : ℕ → String → Action (Unit {0})
unfolding has_customer_activity_after
require_no_activity cutoff status = do
  answer ← has_customer_activity_after cutoff
  unless_active answer status

-- What `deactivate_chat` returned, or raised.
unfoldable pub after_deactivation : Slots → ℕ → Option Failure → Action Outcome
unfolding mark_closed update_slot_memory is_already_closed_error
after_deactivation slots now none = do
  mark_closed (record slots { idle_closed_at = some (at now); idle_close_last_error = none })
  pure (outcome "CLOSED")
after_deactivation slots now (some e) =
    if is_already_closed_error e
    then (do
      mark_closed (record slots { idle_closed_at = some (at now); idle_close_last_error = none })
      pure (outcome "CLOSED_ALREADY_IN_LIVECHAT"))
    else (do
      update_slot_memory (record slots { idle_close_last_error = some e.text })
      pure (failed "FAILED_CLOSE_CHAT" e))

unfoldable pub close_chat : Slots → ℕ → Option ℕ → Action Outcome
unfolding require_no_activity deactivate_chat after_deactivation
close_chat slots now none = finish (outcome "SKIPPED_MISSING_IDLE_CYCLE_CUTOFF")
close_chat slots now (some cutoff) = do
  require_no_activity cutoff "SKIPPED_CUSTOMER_ACTIVITY"
  result ← deactivate_chat
  after_deactivation slots now result

-- AI_FAILURE_HANDOFF_ELIGIBLE_STATUSES, and no handoff under way
unfoldable pub is_handoff_eligible : StateRow → Bool
is_handoff_eligible row =
    let status = or_text row.status "" in
    (upper_is status "AI_ACTIVE" || upper_is status "WAITING_EXTERNAL")
    && not (lower_is (or_text row.active_workflow "") "human_handoff")

-- The stored row after a handoff for an AI failure; `workflow_stage` becomes `handoff_requested`.
unfoldable pub handed_off : ℕ → String → StateRow → StateRow
handed_off now reason row = record {
  status = some "HANDOFF_REQUESTED";
  active_workflow = some "human_handoff";
  slot_memory = record row.slot_memory {
    ai_service_failure_handoff_at = some (at now);
    ai_service_failure_reason = some reason;
    ai_service_failure_source = some "livechat_idle_timer";
  };
}

unfoldable pub insert_handoff : Option Failure → StateRow → Trace → Step Bool × Trace
insert_handoff none row t = (go true, requested_handoff row ∷ t)
insert_handoff (some e) row t = (raised e, rolled_back ∷ t)

unfoldable pub on_locked_row : ℕ → String → Option StateRow → Action Bool
unfolding is_handoff_eligible handed_off insert_handoff
on_locked_row now reason none env t = (go false, t)
on_locked_row now reason (some row) env t =
    if is_handoff_eligible row
    then insert_handoff (env.insert_command (length t)) (handed_off now reason row) t
    else (go false, t)

-- The transaction: the row is read under a lock and set; a failing insert rolls it back and raises.
unfoldable pub request_ai_failure_handoff : ℕ → String → Action Bool
unfolding on_locked_row
request_ai_failure_handoff now reason env t =
    on_locked_row now reason (env.row (length t)) env (locked_row ∷ t)
