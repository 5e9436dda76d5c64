-- ===== src/Idle/Waiting/Timers.antt =====
-- The timers of `process_idle_conversation` (src/app/workers/livechat_idle_timer.py).
use ai_customer_service.Prelude.{
  ℕ, ◌+◌, ◌≡◌, refl, Bool, true, false, not, ◌&&◌, ◌||◌, Option, none, some, ltb, ◌is◌, arith,
  is_none,
}
use ai_customer_service.Queue.Lease.{seconds}
use ai_customer_service.Idle.{
  Answer, Conversation, Latest, Slots, after_activity, after_assistant, after_followup,
  check_pending, clear_idle_state, default_max_followup_backfill_seconds, followup,
  has_customer_activity_after, idle_cycle, is_set, mark_closed, maybe_follow_up, outcome,
  parse_datetime, pure, raises, require_no_activity, resolve_idle_cycle_cutoff, send_idle_text,
  value, outcome_of, follow_up, close_in_time, new_cycle,
}
use ai_customer_service.Idle.Waiting.{contacts, Silent, bind-Silent, if-Silent}
use ai_customer_service.Idle.Waiting.Quiet.{
  require_no_activity-Silent, resolve-Silent, clear-Silent, check_pending-Silent, ask-Silent,
}

-- Fewer than so many seconds after a time, if there is one.
abbrev pub is_before : ℕ → Option ℕ → ℕ → Bool
is_before now none delay = true
is_before now (some time) delay = ltb now (time + seconds delay)

abbrev pub followup_at : Conversation → Option ℕ
followup_at c = parse_datetime c.slot_memory.idle_followup_sent_at

abbrev pub close_at : Conversation → Option ℕ
close_at c = parse_datetime c.slot_memory.idle_close_sent_at

-- The closing text was not sent, and the follow-up not as long ago as the close timer says.
unfoldable pub is_before_close : ℕ → ℕ → Conversation → Bool
unfolding parse_datetime
is_before_close close_seconds now c =
    is_none (close_at c) && is_before now (followup_at c) close_seconds

-- Nothing is due: the newest message is not the assistant's, or this chat was closed or handed
-- over, or neither timer has run out.
unfoldable pub is_waiting : ℕ → ℕ → ℕ → Conversation → Option Latest → Bool
unfolding is_before_close parse_datetime is_set
is_waiting followup_seconds close_seconds now c none = true
is_waiting followup_seconds close_seconds now c (some latest) =
    not (latest.sender_role is "assistant")
    || is_set c.slot_memory.idle_closed_at
    || is_set c.slot_memory.ai_service_failure_handoff_at
    || (is_before_close close_seconds now c
        && is_before now (parse_datetime latest.created_at) followup_seconds)

in_time :
    (close_seconds now : ℕ) (c : Conversation)
    → is_before_close close_seconds now c ≡ true
    → is_before now (followup_at c) close_seconds ≡ true
unfolding is_before_close
in_time close_seconds now c h = ground arith

not_closed :
    (close_seconds now : ℕ) (c : Conversation)
    → is_before_close close_seconds now c ≡ true
    → is_none (close_at c) ≡ true
unfolding is_before_close
not_closed close_seconds now c h = ground arith

module _ (texts : Bool) (followup_seconds close_seconds now : ℕ) (latest : Latest)
    (sends : (time : ℕ) (s : Slots)
      → is_before now (some time) followup_seconds ≡ false
      → parse_datetime latest.created_at ≡ some time
      → Silent texts (send_idle_text followup now time s)) where
  follow_up-Silent :
      (s : Slots) (time : ℕ)
      → parse_datetime latest.created_at ≡ some time
      → Silent texts (follow_up s followup_seconds now latest time)
  unfolding follow_up mark_closed contacts outcome_of
  follow_up-Silent s time p =
      if-Silent texts (ltb (time + seconds default_max_followup_backfill_seconds) now) _ _
        (λ h.
          bind-Silent texts (mark_closed _) (λ u. pure (outcome "CLOSED_STALE_BACKLOG"))
            (λ env t. refl) (λ u env t. refl))
        (λ h.
          if-Silent texts (ltb now (time + seconds followup_seconds)) _ _ (λ k env t. refl)
            (λ k.
              bind-Silent texts (send_idle_text followup now time _) outcome_of (sends time _ k p)
                (λ r env t. refl)))

  maybe_follow_up-Silent :
      (s : Slots) (time : Option ℕ)
      → parse_datetime latest.created_at ≡ time
      → Silent texts (maybe_follow_up s followup_seconds now latest time)
  unfolding maybe_follow_up
  maybe_follow_up-Silent s none p = λ env t. refl
  maybe_follow_up-Silent s (some time) p =
      bind-Silent texts (require_no_activity time "SKIPPED_PENDING_INBOUND_CUSTOMER_REPLY")
        (λ u. follow_up s followup_seconds now latest time)
        (require_no_activity-Silent texts time "SKIPPED_PENDING_INBOUND_CUSTOMER_REPLY")
        (λ u. follow_up-Silent s time p)

  new_cycle-Silent :
      (s : Slots) → Silent texts (new_cycle followup_seconds close_seconds now latest s)
  unfolding new_cycle idle_cycle
  new_cycle-Silent s = maybe_follow_up-Silent s (parse_datetime latest.created_at) refl

  close_in_time-Silent :
      (sent_at : ℕ)
      → ltb now (sent_at + seconds close_seconds) ≡ true
      → (found : ℕ × Slots) → Silent texts (close_in_time close_seconds now sent_at found)
  unfolding close_in_time
  close_in_time-Silent sent_at h (cutoff, s) = rw h (λ env t. refl)

  after_activity-Silent :
      (s : Slots) (sent_at : ℕ)
      → ltb now (sent_at + seconds close_seconds) ≡ true
      → (answer : Answer Bool)
      → Silent texts
          (after_activity followup_seconds close_seconds now latest s sent_at none answer)
  unfolding after_activity idle_cycle
  after_activity-Silent s sent_at h (raises e) = λ env t. refl
  after_activity-Silent s sent_at h (value true) =
      bind-Silent texts (clear_idle_state s) (new_cycle followup_seconds close_seconds now latest)
        (clear-Silent texts s) new_cycle-Silent
  after_activity-Silent s sent_at h (value false) =
      bind-Silent texts (resolve_idle_cycle_cutoff s) (close_in_time close_seconds now sent_at)
        (resolve-Silent texts s) (close_in_time-Silent sent_at h)

  after_followup-Silent :
      (s : Slots) (sent_at close_sent_at : Option ℕ)
      → is_before now sent_at close_seconds ≡ true
      → is_none close_sent_at ≡ true
      → Silent texts
          (after_followup followup_seconds close_seconds now latest s sent_at close_sent_at)
  unfolding after_followup idle_cycle
  after_followup-Silent s none none h k = new_cycle-Silent s
  after_followup-Silent s (some sent_at) none h k =
      bind-Silent texts (has_customer_activity_after sent_at)
        (after_activity followup_seconds close_seconds now latest s sent_at none)
        (ask-Silent texts sent_at) (after_activity-Silent s sent_at h)
  after_followup-Silent s sent_at (some time) h k = λ env t. ground arith

  pub assistant-Silent :
      (c : Conversation)
      → is_before_close close_seconds now c ≡ true
      → Silent texts (after_assistant c followup_seconds close_seconds now latest)
  unfolding after_assistant
  assistant-Silent c h =
      if-Silent texts (is_set c.slot_memory.idle_closed_at) _ _ (λ k env t. refl)
        (λ k.
          if-Silent texts (is_set c.slot_memory.ai_service_failure_handoff_at) _ _ (λ l env t. refl)
            (λ l.
              bind-Silent texts (check_pending c)
                (λ u.
                  after_followup followup_seconds close_seconds now latest c.slot_memory
                    (parse_datetime c.slot_memory.idle_followup_sent_at)
                    (parse_datetime c.slot_memory.idle_close_sent_at))
                (check_pending-Silent texts c)
                (λ u.
                  after_followup-Silent c.slot_memory (followup_at c) (close_at c)
                    (in_time close_seconds now c h) (not_closed close_seconds now c h))))
