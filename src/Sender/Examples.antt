-- ===== src/Sender/Examples.antt =====
-- The sender on concrete messages (src/app/workers/sender_worker.py).
use ai_customer_service.Prelude.{
  ℕ, ◌≡◌, refl, true, false, none, some, [], ◌∷◌, ltb, if◌then◌else◌, ◌is◌, arith, take, null, null,
}
use ai_customer_service.Queue.Outbound.{unset, int}
use ai_customer_service.Sender.{
  Env, Payload, Response, Result, Task, livechat_api, other, process_message_group, raises, result,
  value,
}
use ai_customer_service.Queue.Lease.{no_lease}
use ai_customer_service.Queue.Outbound.{RetrySettings, OutboundMessage}
use ai_customer_service.Sender.Reference.{
  process_each, drop_tasks, releases, is_cut, process_message_group-in_order,
}
use ai_customer_service.Sender.Retries.{failed_times, failed_times-gives_up}

abbrev payload : Payload
payload = record {
  text = some "hello";
  custom_id = none;
  handoff_ack = false;
  asset_source = none;
  telegram_file_id = none;
  asset_ref = none;
  asset_key = none;
  caption = none;
  menu_key = none;
  language = none;
}

abbrev task : ℕ → Task
task id = record {
  id = id;
  conversation_id = some "a";
  chat_id = "chat";
  thread_id = none;
  message_type = some "text";
  message_kind = none;
  payload_json = payload;
  retry_count = 0;
  conversation_status = some "AI_ACTIVE";
  conversation_active_workflow = none;
}

abbrev response : Response
response = record { success = true; event_id = true; shown = "{}"; delivery_mode = none }

-- The first text is sent, the second is refused; a person takes over in the conversation "b".
abbrev env : Env
env = record {
  human_active = λ n id. id is "b";
  menu = λ key language. raises (other "no menu");
  send = λ n. if ltb n 3 then value response else raises (livechat_api 503 "HTTP 503" "http 503");
  has_telegram = false;
  download = λ n. value tt;
  write = λ n. value tt;
  image_text_fallback = none;
}

abbrev refused : Result
refused = result "RETRYABLE" (some "HTTP 503") true

-- The second of three messages is not sent, and the third is released.
process_message_group-in_order_example :
    let ms = task 1 ∷ task 2 ∷ task 3 ∷ [] in
    let rs = result "SENT" none false ∷ refused ∷ [] in
    let each = process_each unset (take 2 ms) env [] in
    (each.0 ≡ value rs)
    × ((process_message_group unset ms env []).1 ≡ releases (drop_tasks 2 ms) each.1)
    × (is_cut rs ms ≡ true)
unfolding process_message_group
process_message_group-in_order_example =
    process_message_group-in_order unset (task 1 ∷ task 2 ∷ task 3 ∷ []) env []
      (result "SENT" none false ∷ refused ∷ []) refl

abbrev settings : RetrySettings
settings = record { base = unset; most = unset; initial = unset }

abbrev row : OutboundMessage
row = record {
  id = 1;
  conversation_id = some "a";
  inbound_event_id = none;
  chat_id = some "chat";
  thread_id = none;
  action_type = "reply";
  message_type = "text";
  message_kind = "text";
  command_type = "reply";
  payload_json = null;
  status = "PENDING";
  dedup_key = "a";
  block_index = none;
  retry_count = 0;
  last_error = none;
  lease = no_lease;
  attempted_at = none;
  sent_at = none;
  processed_at = none;
  created_at = 0;
}

failed_times-gives_up_example :
    (failed_times settings (int 3) (livechat_api 503 "HTTP 503" "http 503") (λ k. k) 3 row).status
    ≡ (if ltb 3 3 then "RETRYABLE" else "FAILED_BUSINESS")
failed_times-gives_up_example =
    failed_times-gives_up settings 3 503 "HTTP 503" "http 503" refl refl (λ k. k) 2 row refl
      (omega arith)
