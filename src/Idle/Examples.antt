-- ===== src/Idle/Examples.antt =====
-- The idle timer on a concrete conversation (src/app/workers/livechat_idle_timer.py).
use ai_customer_service.Prelude.{◌≡◌, refl, ◌++◌, false, none, some, [], ◌∷◌}
use ai_customer_service.Idle.{
  Conversation, Env, Failure, Slots, after_send, at, candidates, followup, followup_text,
  is_already_closed_error, process_idle_conversation, value, with_send_error,
}
use ai_customer_service.Idle.Waiting.{contacts}
use ai_customer_service.Idle.Waiting.Timers.{is_before_close}
use ai_customer_service.Idle.Waiting.Closing.{process_idle_conversation-keeps_open}
use ai_customer_service.Idle.Backoff.{after_send-backs_off}

-- No idle key is set.
abbrev fresh : Slots
fresh = record {
  idle_followup_sent_at = none;
  idle_followup_failed_at = none;
  idle_followup_last_error = none;
  idle_close_sent_at = none;
  idle_closed_at = none;
  idle_base_assistant_message_id = none;
  idle_base_assistant_created_at = none;
  idle_followup_message_id = none;
  idle_close_message_id = none;
  idle_close_failed_at = none;
  idle_close_last_error = none;
  idle_last_failed_at = none;
  idle_close_reason = none;
  ai_service_failure_handoff_at = none;
  ai_service_failure_reason = none;
  ai_service_failure_source = none;
  others = [];
}

abbrev conversation : Slots → Conversation
conversation slots = record {
  conversation_id = "a";
  chat_id = "chat";
  thread_id = none;
  tenant_id = none;
  status = some "AI_ACTIVE";
  active_workflow = none;
  slot_memory = slots;
}

-- The follow-up was sent at second 10.
abbrev followed_up : Slots
followed_up = record fresh {
  idle_followup_sent_at = some (at 10000000);
  idle_base_assistant_created_at = some (at 0);
}

abbrev env : Env
env = record {
  latest = λ n. some (record { id = 7; sender_role = "assistant"; created_at = some (at 0) });
  unfinished = λ n. false;
  activity = λ n cutoff. value false;
  created_at = λ n id. value none;
  finalize = λ n text. record {
    text = text;
    reply_language = none;
    reply_status = some "ok";
    fallback_reason = none;
  };
  send_text = λ n text. none;
  deactivate = λ n. none;
  insert_message = λ n. some 8;
  save = λ n. none;
  row = λ n. none;
  insert_command = λ n. none;
}

-- 200 seconds after the follow-up, with a close after 300.
process_idle_conversation-keeps_open_example :
    contacts false (process_idle_conversation (conversation followed_up) 300 300 210000000 env []).1
    ≡ contacts false []
unfolding is_before_close
process_idle_conversation-keeps_open_example =
    process_idle_conversation-keeps_open (conversation followed_up) 300 300 210000000 env [] refl

abbrev timed_out : Failure
timed_out = record { text = "timed out"; lowered = "timed out"; status = none; error_type = "" }

after_send-backs_off_example :
    candidates 20 500000000 (
      []
      ++ conversation (with_send_error followup 100000000 timed_out fresh)
        ∷ conversation followed_up
        ∷ [])
    ≡ candidates 20 500000000 ([] ++ conversation followed_up ∷ [])
unfolding is_already_closed_error after_send
after_send-backs_off_example =
    after_send-backs_off followup followup_text 100000000 fresh timed_out env []
      (conversation (with_send_error followup 100000000 timed_out fresh)) []
      (conversation followed_up ∷ []) 20 500000000 refl refl refl
