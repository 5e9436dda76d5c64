-- ===== src/Idle/Guarded/Safety.antt =====
-- The idle timer never speaks to, or closes the chat of, a customer who was just active
-- (src/app/workers/livechat_idle_timer.py).
