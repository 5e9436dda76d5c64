-- ===== src/Idle/Waiting.antt =====
-- When `process_idle_conversation` speaks to the customer or closes the chat
-- (src/app/workers/livechat_idle_timer.py).
pub mod Quiet
pub mod Timers
pub mod Due
pub mod Closing
use ai_customer_service.Prelude.{
  ℕ, suc, ◌+◌, ◌≡◌, refl, ◌∙◌, String, Bool, true, false, not, ◌&&◌, ◌||◌, Option, none, some, List,
  [], ◌∷◌, ltb, if◌then◌else◌, ◌is◌, length, Bool-cases, arith, take, filter,
}
use ai_customer_service.Queue.Lease.{seconds}
use ai_customer_service.Idle.{
  Action, Answer, Call, Conversation, Env, Failure, Finalized, Kind, Latest, Outcome, Slots, Stamp,
  StateRow, Step, Summary, Trace, after_activity, after_assistant, after_customer,
  after_deactivation, after_followup, after_notice, after_recovery, after_send, announce_handoff,
  asked_activity, asked_unfinished, at, candidates, check_pending, clear_idle_state, close,
  close_chat, close_text, continue, count_status, deactivate_chat, deactivated,
  default_failure_backoff_seconds, default_max_followup_backfill_seconds, deliver, failed,
  fetch_latest_message, fetch_message_created_at, fetched_created_at, fetched_latest,
  finalize_user_visible_text, finalized, finish, first_error_of, followup, followup_text, garbled,
  go, handed_off, has_customer_activity_after, has_unfinished_work, idle_cycle,
  idle_failure_backoff_active, insert_assistant_message, inserted_message, is_already_closed_error,
  is_handoff_eligible, is_set, is_waiting_external, locked_row, lookup_cutoff, mark_closed,
  marked_closed, maybe_follow_up, message_time, missing_cutoff, on_latest, outcome, parse_datetime,
  parsed, process_idle_conversation, process_idle_conversations, pure, raised, raises,
  recovered_cutoff, request_ai_failure_handoff, requested_handoff, require_no_activity,
  resolve_idle_cycle_cutoff, rolled_back, send_idle_text, send_text, sent_status, sent_text, stop,
  summarize_results, terminal_ai_failure_reason, text_of, try_update_slot_memory, unless_active,
  unless_pending, update_slot_memory, updated_slots, value, with_send_error, with_sent,
  without_idle_keys, ◌>>=◌, ◌>>◌, insert_handoff, on_locked_row, record_sent, after_finalized,
  outcome_of, follow_up, close_again, after_close_text, say_goodbye, close_in_time, new_cycle,
  persisted_or_lookup, add_results, process_candidates,
}

-- The calls that close a chat and, with `texts`, those that speak to the customer or hand over.
abbrev pub counts : Bool → Call → Bool
counts texts (deactivated failure) = true
counts texts (sent_text text failure) = texts
counts texts (requested_handoff row) = texts
counts texts _ = false

unfoldable pub contacts : Bool → Trace → ℕ
contacts texts [] = 0
contacts texts (call ∷ t) =
    let rest = contacts texts t in if counts texts call then suc rest else rest

module _ {ℓ} {A : Type ℓ} where
  -- An action that makes none of these calls.
  abbrev pub Silent : Bool → Action A → Type 0
  Silent texts m = (env : Env) (t : Trace) → contacts texts (m env t).1 ≡ contacts texts t

module _ {ℓ κ} {A : Type ℓ} {B : Type κ} (texts : Bool) where
  continue-Silent :
      (r : Step A) (f : A → Action B) → ((a : A) → Silent texts (f a)) → Silent texts (continue r f)
  continue-Silent (go a) f k = k a
  continue-Silent (stop o) f k = λ env t. refl
  continue-Silent (raised e) f k = λ env t. refl

  pub bind-Silent :
      (m : Action A) (f : A → Action B)
      → Silent texts m
      → ((a : A) → Silent texts (f a))
      → Silent texts (m >>= f)
  bind-Silent m f km k env t = continue-Silent (m env t).0 f k env (m env t).1 ∙ km env t

module _ {ℓ} {A : Type ℓ} (texts : Bool) where
  pub if-Silent :
      (b : Bool) (m n : Action A)
      → (b ≡ true → Silent texts m)
      → (b ≡ false → Silent texts n)
      → Silent texts (if b then m else n)
  if-Silent true m n km kn = km refl
  if-Silent false m n km kn = kn refl
