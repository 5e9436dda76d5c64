-- ===== src/Idle/Guarded.antt =====
-- The order of the calls that `process_idle_conversation` makes
-- (src/app/workers/livechat_idle_timer.py).
pub mod Texts
pub mod Cycle
pub mod Safety
use ai_customer_service.Prelude.{
  ℕ, suc, ◌≡◌, refl, String, Bool, true, false, not, ◌&&◌, ◌||◌, Option, none, some, List, [], ◌∷◌,
  ltb, if◌then◌else◌, ◌is◌, length, Bool-cases,
}
use ai_customer_service.Queue.Lease.{seconds}
use ai_customer_service.Idle.{
  Action, Answer, Call, Conversation, Env, Failure, Finalized, Kind, Latest, Outcome, Slots, Stamp,
  StateRow, Step, Summary, Trace, asked_activity, asked_unfinished, at, candidates,
  clear_idle_state, close, close_chat, close_text, continue, deactivate_chat, deactivated,
  default_failure_backoff_seconds, default_max_followup_backfill_seconds, failed,
  fetch_latest_message, fetch_message_created_at, fetched_created_at, fetched_latest,
  finalize_user_visible_text, finalized, finish, followup, followup_text, garbled, go, handed_off,
  has_customer_activity_after, has_unfinished_work, idle_failure_backoff_active,
  insert_assistant_message, inserted_message, is_already_closed_error, is_handoff_eligible, is_set,
  is_waiting_external, locked_row, mark_closed, marked_closed, outcome, parse_datetime,
  process_idle_conversation, process_idle_conversations, pure, raised, raises,
  request_ai_failure_handoff, requested_handoff, require_no_activity, resolve_idle_cycle_cutoff,
  rolled_back, send_idle_text, send_text, sent_text, stop, summarize_results,
  terminal_ai_failure_reason, try_update_slot_memory, unless_active, update_slot_memory,
  updated_slots, value, with_send_error, with_sent, without_idle_keys, ◌>>=◌, ◌>>◌,
}

-- The newest call asked for activity of the customer, and there was none.
abbrev pub is_quiet : Trace → Bool
is_quiet (asked_activity cutoff (value false) ∷ t) = true
is_quiet _ = false

abbrev pub is_locked_quiet : Trace → Bool
is_locked_quiet (locked_row ∷ t) = is_quiet t
is_locked_quiet _ = false

abbrev pub is_handed_off : Trace → Bool
is_handed_off (requested_handoff row ∷ t) = true
is_handed_off _ = false

-- What a call needs of the calls just before it.
abbrev pub may_follow : Call → Trace → Bool
may_follow (deactivated failure) t = is_quiet t
may_follow (sent_text text failure) t = is_quiet t || is_handed_off t
may_follow (requested_handoff row) t = is_locked_quiet t
may_follow _ t = true

unfoldable pub is_guarded : Trace → Bool
is_guarded [] = true
is_guarded (call ∷ t) = may_follow call t && is_guarded t

module _ {ℓ} {A : Type ℓ} where
  -- An action keeps the order of the calls.
  abbrev pub Keeps : Action A → Type 0
  Keeps m = (env : Env) (t : Trace) → is_guarded t ≡ true → is_guarded (m env t).1 ≡ true

  -- An action keeps it where the newest call saw no activity.
  abbrev pub KeepsQuiet : Action A → Type 0
  KeepsQuiet m =
      (env : Env) (t : Trace)
      → is_guarded t ≡ true
      → is_quiet t ≡ true
      → is_guarded (m env t).1 ≡ true

module _ {ℓ κ} {A : Type ℓ} {B : Type κ} where
  pub continue-Keeps :
      (r : Step A) (f : A → Action B) → ((a : A) → Keeps (f a)) → Keeps (continue r f)
  continue-Keeps (go a) f k env t h = k a env t h
  continue-Keeps (stop o) f k env t h = h
  continue-Keeps (raised e) f k env t h = h

  pub bind-Keeps :
      (m : Action A) (f : A → Action B) → Keeps m → ((a : A) → Keeps (f a)) → Keeps (m >>= f)
  bind-Keeps m f km k env t h = continue-Keeps (m env t).0 f k env (m env t).1 (km env t h)

  pub bind-KeepsQuiet :
      (m : Action A) (f : A → Action B)
      → KeepsQuiet m
      → ((a : A) → Keeps (f a))
      → KeepsQuiet (m >>= f)
  bind-KeepsQuiet m f km k env t h q = continue-Keeps (m env t).0 f k env (m env t).1 (km env t h q)

module _ {ℓ} {A : Type ℓ} where
  unless_active-Keeps :
      (cutoff : ℕ) (answer : Answer Bool) (status : String) (k : Action A)
      → KeepsQuiet k
      → (env : Env) (t : Trace) → is_guarded t ≡ true
      → is_guarded ((unless_active answer status >> k) env (asked_activity cutoff answer ∷ t)).1
        ≡ true
  unfolding is_guarded
  unless_active-Keeps cutoff (raises e) status k kq env t h = h
  unless_active-Keeps cutoff (value true) status k kq env t h = h
  unless_active-Keeps cutoff (value false) status k kq env t h =
      kq env (asked_activity cutoff (value false) ∷ t) h refl

  pub require_no_activity-Keeps :
      (cutoff : ℕ) (status : String) (k : Action A)
      → KeepsQuiet k
      → Keeps (require_no_activity cutoff status >> k)
  unfolding require_no_activity has_customer_activity_after
  require_no_activity-Keeps cutoff status k kq env t h =
      unless_active-Keeps cutoff (env.activity (length t) cutoff) status k kq env t h
