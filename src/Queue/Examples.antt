-- ===== src/Queue/Examples.antt =====
-- The queues on concrete rows (src/app/db/repositories.py).
use ai_customer_service.Prelude.{
  ℕ, ◌+◌, ◌≤◌, ◌≡◌, ◌≢◌, refl, String, true, not, Option, none, some, List, [], ◌∷◌, arith, ltb,
  leb, if◌then◌else◌, map, All, null,
}
use ai_customer_service.Queue.Lease.{seconds, no_lease}
use ai_customer_service.Queue.Outbound.{
  RetrySettings, unset, Draft, OutboundMessage, Table, lease_conversation_id, is_leasable,
  retry_delay, outbound_retry_max_seconds, recover_expired_leases, lease_pending_groups, mark_sent,
  mark_failed, insert_idempotent,
}
use ai_customer_service.Queue.Outbound.Exclusion.{IsOrdered}
use ai_customer_service.Queue.Outbound.Workers.{lease_pending_groups-excludes}
use ai_customer_service.Queue.Outbound.Retry.{
  find_id, mark_failed-backs_off, retry_delay_bounds, mark_sent_final,
}
use ai_customer_service.Queue.Outbound.Recovery.{
  InBlockOrder, recover_expired_leases_neutral, lease_pending_groups-InBlockOrder,
}
use ai_customer_service.Queue.Commands.{Command, lease_pending, is_leasable as is_leasable_command}
use ai_customer_service.Queue.Commands.Leases.{IsOrdered as AreOrdered, lease_pending-excludes}
use ai_customer_service.Queue.Commands.Attempts.{
  find_id as find_command, fail_times, mark_processing_failed_gives_up,
}
use ai_customer_service.Queue.Outbound.Dedup.{IsValid, insert_idempotent-IsValid}

abbrev message : ℕ → String → Option ℕ → OutboundMessage
message id conversation block = record {
  id = id;
  conversation_id = some conversation;
  inbound_event_id = none;
  chat_id = some "chat";
  thread_id = none;
  action_type = "reply";
  message_type = "text";
  message_kind = "text";
  command_type = "reply";
  payload_json = null;
  status = "PENDING";
  dedup_key = conversation;
  block_index = block;
  retry_count = 0;
  last_error = none;
  lease = no_lease;
  attempted_at = none;
  sent_at = none;
  processed_at = none;
  created_at = 0;
}

-- Two messages of one conversation, the later first by its block, and one of another.
abbrev three_messages : List OutboundMessage
three_messages = message 1 "a" (some 1) ∷ message 2 "a" (some 0) ∷ message 3 "b" none ∷ []

three_messages-IsOrdered : IsOrdered three_messages
three_messages-IsOrdered = ((omega arith, (omega arith, tt)), ((omega arith, tt), (tt, tt)))

abbrev settings : RetrySettings
settings = record { base = unset; most = unset; initial = unset }

lease_pending_groups-excludes_example :
    let (mine, left) = lease_pending_groups 5000000 3 10 "w1" 300 5 three_messages in
    let (theirs, _) = lease_pending_groups 9000000 3 10 "w2" 300 5 left in
    All
      (All (λ m. All (All (λ m'. lease_conversation_id m ≢ lease_conversation_id m')) theirs))
      mine
lease_pending_groups-excludes_example =
    lease_pending_groups-excludes 5000000 9000000 3 10 10 5 5 300 300 "w1" "w2" three_messages
      three_messages-IsOrdered (omega arith)

mark_failed-backs_off_example :
    (m' : OutboundMessage) × (find_id 2
        (mark_failed settings 7 2 "RETRYABLE" "HTTP 503" true three_messages)
      ≡ some m')
    × (m'.retry_count ≡ 1)
    × (is_leasable 9 3 m' ≡ ltb (7 + seconds (retry_delay settings 1)) 9)
mark_failed-backs_off_example =
    mark_failed-backs_off settings 7 9 3 2 "HTTP 503" three_messages (message 2 "a" (some 0)) refl

retry_delay_bounds_example :
    (retry_delay settings 2 ≤ outbound_retry_max_seconds settings)
    × (retry_delay settings 2 ≤ retry_delay settings 3)
    × (1 ≤ retry_delay settings 2)
retry_delay_bounds_example = retry_delay_bounds settings 2

mark_sent_final_example :
    All
      (All (λ (m : OutboundMessage). m.id ≢ 2))
      (lease_pending_groups 9000000 3 10 "w1" 300 5 (mark_sent 7 2 none three_messages)).0
mark_sent_final_example =
    mark_sent_final 7 9000000 3 10 5 2 300 "w1" none three_messages three_messages-IsOrdered

recover_expired_leases_neutral_example :
    let (rows', changed) = recover_expired_leases 9 three_messages in
    (map (is_leasable 9 3) rows' ≡ map (is_leasable 9 3) three_messages)
    × (recover_expired_leases 9 rows' ≡ (rows', 0))
recover_expired_leases_neutral_example = recover_expired_leases_neutral 9 3 three_messages

lease_pending_groups-InBlockOrder_example :
    All InBlockOrder (lease_pending_groups 5000000 3 10 "w1" 300 5 three_messages).0
lease_pending_groups-InBlockOrder_example =
    lease_pending_groups-InBlockOrder 5000000 3 10 5 300 "w1" three_messages

abbrev draft : Draft
draft = record {
  tenant_id = none;
  conversation_id = some "a";
  inbound_event_id = some 12;
  chat_id = some "chat";
  thread_id = none;
  action_type = "reply";
  message_type = "text";
  message_kind = none;
  command_type = none;
  payload_json = null;
  status = "PENDING";
  dedup_key = some "a:12";
  block_index = none;
}

abbrev one_message : Table
one_message = record { rows = message 1 "b" none ∷ []; next_id = 2 }

one_message-IsValid : IsValid one_message
one_message-IsValid = record { ordered = (tt, tt); below = (omega arith, tt); distinct = (tt, tt) }

insert_idempotent-IsValid_example :
    let (_, t') = insert_idempotent 3 draft one_message in
    IsValid t' × (insert_idempotent 4 draft t' ≡ (none, t'))
insert_idempotent-IsValid_example =
    insert_idempotent-IsValid 3 4 draft one_message one_message-IsValid

abbrev command : ℕ → Command
command id = record {
  id = id;
  tenant_id = "default";
  conversation_id = "a";
  chat_id = none;
  thread_id = none;
  inbound_event_id = none;
  command_type = "human_handoff.requested";
  payload_json = null;
  status = "PENDING";
  retry_count = 0;
  last_error = none;
  dedup_key = "a";
  lease = no_lease;
  attempted_at = none;
  processed_at = none;
  created_at = 0;
}

abbrev two_commands : List Command
two_commands = command 1 ∷ command 2 ∷ []

two_commands-IsOrdered : AreOrdered two_commands
two_commands-IsOrdered = ((omega arith, tt), (tt, tt))

lease_pending-excludes_example :
    let (mine, left) = lease_pending 5 1 "w1" 300 two_commands in
    let (theirs, _) = lease_pending 9 1 "w2" 300 left in
    All (λ (c : Command). All (λ (c' : Command). c.id ≢ c'.id) theirs) mine
lease_pending-excludes_example =
    lease_pending-excludes 5 9 1 1 "w1" "w2" 300 300 two_commands two_commands-IsOrdered
      (omega arith)

-- With `max_retries` 3 the second failure is the last one.
mark_processing_failed_gives_up_example :
    (c' : Command) × (find_command 2 (fail_times 2 2 "timeout" 3 two_commands) ≡ some c')
    × (c'.status ≡ (if leb 3 3 then "FAILED" else "RETRYABLE"))
    × (is_leasable_command 9 c' ≡ not (leb 3 3))
mark_processing_failed_gives_up_example =
    mark_processing_failed_gives_up 1 2 "timeout" 3 9 two_commands (command 2) refl refl
