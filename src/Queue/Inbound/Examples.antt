-- ===== src/Queue/Inbound/Examples.antt =====
-- Three events of two chats (src/app/db/repositories.py).
use ai_customer_service.Prelude.{
  ℕ, ◌≡◌, ◌≢◌, refl, false, String, none, some, List, [], ◌∷◌, arith, map, All, null,
}
use ai_customer_service.Queue.Lease.{no_lease}
use ai_customer_service.Queue.Inbound.{InboundRow, lease_chat_id, lease_unprocessed}
use ai_customer_service.Queue.Inbound.Chats.{IsOrdered, lease_unprocessed-excludes}

abbrev row : ℕ → String → InboundRow
row id chat = record {
  id = id;
  event = record {
    source = "livechat_webhook";
    raw_action = "incoming_event";
    organization_id = none;
    chat_id = some chat;
    thread_id = none;
    event_id = none;
    event_type = none;
    standard_event_type = "MESSAGE_RECEIVED";
    author_id = none;
    sender_role = "customer";
    occurred_at = none;
    dedup_key = chat;
    payload_json = null;
    ignored = false;
    ignore_reason = none;
  };
  processed = false;
  processed_at = none;
  lease = no_lease;
  attempted_at = none;
}

abbrev three_events : List InboundRow
three_events = row 1 "a" ∷ row 2 "a" ∷ row 3 "b" ∷ []

three_events-IsOrdered : IsOrdered three_events
three_events-IsOrdered = omega arith

lease_unprocessed-excludes_example :
    let (mine, left) = lease_unprocessed 5 1 "w" 60 three_events in
    let (theirs, _) = lease_unprocessed 9 20 "v" 60 left in
    All
      (λ (r : InboundRow). All (λ (r' : InboundRow). lease_chat_id r ≢ lease_chat_id r') theirs)
      mine
lease_unprocessed-excludes_example =
    lease_unprocessed-excludes 5 9 1 20 "w" "v" 60 60 three_events three_events-IsOrdered
      (omega arith)

-- The second worker is given the event of the other chat.
other_chat_test :
    map
      (λ (r : InboundRow). r.id)
      (lease_unprocessed 9 20 "v" 60 (lease_unprocessed 5 1 "w" 60 three_events).1).0
    ≡ 3 ∷ []
unfolding lease_unprocessed
other_chat_test = refl
