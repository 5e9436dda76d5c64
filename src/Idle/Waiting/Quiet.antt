-- ===== src/Idle/Waiting/Quiet.antt =====
-- The operations of the idle timer that neither speak to the customer nor close the chat
-- (src/app/workers/livechat_idle_timer.py).
use ai_customer_service.Prelude.{ℕ, refl, String, Bool, true, false, Option, none, some}
use ai_customer_service.Idle.{
  Answer, Conversation, Failure, Slots, Stamp, after_customer, after_recovery, at, check_pending,
  clear_idle_state, fetch_message_created_at, has_customer_activity_after, has_unfinished_work,
  is_set, is_waiting_external, lookup_cutoff, mark_closed, message_time, missing_cutoff, outcome,
  parse_datetime, parsed, pure, raises, recovered_cutoff, require_no_activity,
  resolve_idle_cycle_cutoff, try_update_slot_memory, unless_active, unless_pending,
  update_slot_memory, value, without_idle_keys, persisted_or_lookup,
}
use ai_customer_service.Idle.Waiting.{contacts, Silent, bind-Silent, if-Silent}

module _ (texts : Bool) where
  pub update-Silent : (s : Slots) → Silent texts (update_slot_memory s)
  unfolding update_slot_memory contacts
  update-Silent s env t = refl

  pub mark-Silent : (s : Slots) → Silent texts (mark_closed s)
  unfolding mark_closed contacts
  mark-Silent s env t = refl

  try_update-Silent : (s : Slots) → Silent texts (try_update_slot_memory s)
  unfolding try_update_slot_memory contacts
  try_update-Silent s env t = refl

  fetch-Silent : (id : ℕ) → Silent texts (fetch_message_created_at id)
  unfolding fetch_message_created_at contacts
  fetch-Silent id env t = refl

  pub ask-Silent : (cutoff : ℕ) → Silent texts (has_customer_activity_after cutoff)
  unfolding has_customer_activity_after contacts
  ask-Silent cutoff env t = refl

  unfinished-Silent : Silent texts has_unfinished_work
  unfolding has_unfinished_work contacts
  unfinished-Silent env t = refl

  unless_active-Silent :
      (answer : Answer Bool) (status : String) → Silent texts (unless_active answer status)
  unless_active-Silent (raises e) status = λ env t. refl
  unless_active-Silent (value true) status = λ env t. refl
  unless_active-Silent (value false) status = λ env t. refl

  pub require_no_activity-Silent :
      (cutoff : ℕ) (status : String) → Silent texts (require_no_activity cutoff status)
  unfolding require_no_activity
  require_no_activity-Silent cutoff status =
      bind-Silent texts (has_customer_activity_after cutoff) (λ a. unless_active a status)
        (ask-Silent cutoff) (λ a. unless_active-Silent a status)

  missing_cutoff-Silent : (e : Option Failure) → Silent texts (missing_cutoff {A = ℕ × Slots} e)
  missing_cutoff-Silent none = λ env t. refl
  missing_cutoff-Silent (some e) = λ env t. refl

  after_recovery-Silent :
      (s : Slots) (time : ℕ) (e : Option Failure) → Silent texts (after_recovery s time e)
  unfolding after_recovery
  after_recovery-Silent s time none = λ env t. refl
  after_recovery-Silent s time (some e) = λ env t. refl

  recovered-Silent : (s : Slots) (time : Option ℕ) → Silent texts (recovered_cutoff s time)
  unfolding recovered_cutoff
  recovered-Silent s none = missing_cutoff-Silent none
  recovered-Silent s (some time) =
      let recovered = record s { idle_base_assistant_created_at = some (at time) } in
      bind-Silent texts (try_update_slot_memory recovered) (after_recovery recovered time)
        (try_update-Silent recovered) (after_recovery-Silent recovered time)

  message_time-Silent :
      (s : Slots) (answer : Answer (Option Stamp)) → Silent texts (message_time s (parsed answer))
  unfolding message_time
  message_time-Silent s (raises e) = missing_cutoff-Silent (some e)
  message_time-Silent s (value stamp) = recovered-Silent s (parse_datetime stamp)

  lookup-Silent : (s : Slots) (id : Option ℕ) → Silent texts (lookup_cutoff s id)
  unfolding lookup_cutoff
  lookup-Silent s none = missing_cutoff-Silent none
  lookup-Silent s (some id) =
      bind-Silent texts (fetch_message_created_at id) (λ answer. message_time s (parsed answer))
        (fetch-Silent id) (message_time-Silent s)

  persisted-Silent : (s : Slots) (time : Option ℕ) → Silent texts (persisted_or_lookup s time)
  unfolding persisted_or_lookup
  persisted-Silent s (some time) = λ env t. refl
  persisted-Silent s none = lookup-Silent s s.idle_base_assistant_message_id

  pub resolve-Silent : (s : Slots) → Silent texts (resolve_idle_cycle_cutoff s)
  unfolding resolve_idle_cycle_cutoff
  resolve-Silent s = persisted-Silent s (parse_datetime s.idle_base_assistant_created_at)

  pub clear-Silent : (s : Slots) → Silent texts (clear_idle_state s)
  unfolding clear_idle_state
  clear-Silent s =
      bind-Silent texts (update_slot_memory (without_idle_keys s)) (λ u. pure (without_idle_keys s))
        (update-Silent (without_idle_keys s)) (λ u env t. refl)

  unless_pending-Silent : (pending : Bool) → Silent texts (unless_pending pending)
  unfolding unless_pending
  unless_pending-Silent true = λ env t. refl
  unless_pending-Silent false = λ env t. refl

  pub check_pending-Silent : (c : Conversation) → Silent texts (check_pending c)
  unfolding check_pending
  check_pending-Silent c =
      if-Silent texts (is_waiting_external c) _ _
        (λ h.
          bind-Silent texts has_unfinished_work unless_pending unfinished-Silent
            unless_pending-Silent)
        (λ h env t. refl)

  pub after_customer-Silent : (s : Slots) → Silent texts (after_customer s)
  unfolding after_customer
  after_customer-Silent s =
      if-Silent texts (is_set s.idle_followup_sent_at) _ _
        (λ h.
          bind-Silent texts (clear_idle_state s) (λ u. pure (outcome "RESET_BY_CUSTOMER"))
            (clear-Silent s) (λ u env t. refl))
        (λ h env t. refl)
