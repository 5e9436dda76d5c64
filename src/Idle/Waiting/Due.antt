-- ===== src/Idle/Waiting/Due.antt =====
-- Before its timers run out the idle timer leaves the customer and the chat alone
-- (src/app/workers/livechat_idle_timer.py).
use ai_customer_service.Prelude.{Bool, ◌||◌}
use ai_customer_service.Idle.{Conversation, is_set}

-- A chat that was closed or handed over.
is_gone : Conversation → Bool
unfolding is_set
is_gone c =
    is_set c.slot_memory.idle_closed_at || is_set c.slot_memory.ai_service_failure_handoff_at
