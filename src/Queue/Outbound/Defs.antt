-- ===== src/Queue/Outbound/Defs.antt =====
-- The table `outbound_messages` and the statements of `OutboundMessageRepository`
-- (src/app/db/repositories.py).
use ai_customer_service.Prelude.{
  ◌<>◌, ℕ, suc, String, Bool, false, ◌&&◌, Option, none, some, List, [], ◌∷◌, ◌++◌, map, ltb, ◌==◌,
  if◌then◌else◌, take, filter, any, decimal, ◌is◌, truthy, or_text, Json,
}
use ai_customer_service.Queue.Lease.{Lease, no_lease}

-- The value of an environment variable, as `int` reads it.
pub data EnvInt : Type 0 where
  unset malformed : EnvInt
  int negative : ℕ → EnvInt

unfoldable pub positive_int_env : EnvInt → ℕ → ℕ
positive_int_env unset default = default
positive_int_env malformed default = default
positive_int_env (int n) default = if ltb 0 n then n else default
positive_int_env (negative n) default = default

-- LIVECHAT_SEND_RETRY_BASE_SECONDS, …_RETRY_MAX_SECONDS and …_INITIAL_DELAY_SECONDS
pub record RetrySettings : Type 0 where
  pub base : EnvInt
  pub most : EnvInt
  pub initial : EnvInt

unfoldable pub outbound_retry_base_seconds : RetrySettings → ℕ
unfolding positive_int_env
outbound_retry_base_seconds s = positive_int_env s.base 2

unfoldable pub outbound_retry_max_seconds : RetrySettings → ℕ
unfolding positive_int_env
outbound_retry_max_seconds s = positive_int_env s.most 15

unfoldable pub outbound_initial_delay_seconds : RetrySettings → ℕ
unfolding positive_int_env
outbound_initial_delay_seconds s = positive_int_env s.initial 3

-- The dictionary that a caller inserts. A key that is missing is `none`.
pub record Draft : Type 0 where
  pub tenant_id : Option String
  pub conversation_id : Option String
  pub inbound_event_id : Option ℕ
  pub chat_id : Option String
  pub thread_id : Option String
  pub action_type : String
  pub message_type : String
  pub message_kind : Option String
  pub command_type : Option String
  pub payload_json : Json
  pub status : String
  pub dedup_key : Option String
  pub block_index : Option ℕ

pub record OutboundMessage : Type 0 where
  pub id : ℕ
  pub conversation_id : Option String
  pub inbound_event_id : Option ℕ
  pub chat_id : Option String
  pub thread_id : Option String
  pub action_type : String
  pub message_type : String
  pub message_kind : String
  pub command_type : String
  pub payload_json : Json
  pub status : String
  pub dedup_key : String
  pub block_index : Option ℕ
  pub retry_count : ℕ
  pub last_error : Option String
  pub lease : Lease
  pub attempted_at : Option ℕ
  pub sent_at : Option ℕ
  pub processed_at : Option ℕ
  pub created_at : ℕ

pub record Table : Type 0 where
  pub rows : List OutboundMessage
  pub next_id : ℕ

abbrev event_text : Option ℕ → String
event_text none = ""
event_text (some n) = if n == 0 then "" else decimal n

pub outbound_dedup_key : Draft → String
outbound_dedup_key m =
    if truthy m.dedup_key
    then or_text m.dedup_key ""
    else or_text m.tenant_id "default"
      <> ":"
      <> or_text m.conversation_id ""
      <> ":"
      <> event_text m.inbound_event_id
      <> ":"
      <> m.action_type

-- The row that `INSERT` writes; the columns that it does not name have their defaults.
unfoldable pub inserted_row : ℕ → ℕ → Draft → OutboundMessage
unfolding outbound_dedup_key
inserted_row now id m = record {
  id = id;
  conversation_id = m.conversation_id;
  inbound_event_id = m.inbound_event_id;
  chat_id = m.chat_id;
  thread_id = m.thread_id;
  action_type = m.action_type;
  message_type = m.message_type;
  message_kind = if truthy m.message_kind then or_text m.message_kind "" else m.message_type;
  command_type = if truthy m.command_type then or_text m.command_type "" else m.action_type;
  payload_json = m.payload_json;
  status = m.status;
  dedup_key = outbound_dedup_key m;
  block_index = m.block_index;
  retry_count = 0;
  last_error = none;
  lease = no_lease;
  attempted_at = none;
  sent_at = none;
  processed_at = none;
  created_at = now;
}

-- The unique key on `dedup_key`: `ON DUPLICATE KEY UPDATE id = id` leaves the table as it is.
-- The result is the new row's id, or `none` for a duplicate.
unfoldable pub insert_idempotent : ℕ → Draft → Table → Option ℕ × Table
unfolding inserted_row
insert_idempotent now m t =
    if any (λ row. row.dedup_key is outbound_dedup_key m) t.rows then (none, t) else (
      some t.next_id,
      record { rows = t.rows ++ inserted_row now t.next_id m ∷ []; next_id = suc t.next_id },
    )

-- `UPDATE … SET … WHERE id = id`
abbrev pub update_id :
    ℕ → (OutboundMessage → OutboundMessage) → List OutboundMessage → List OutboundMessage
update_id id set rows = map (λ (row : OutboundMessage). if row.id == id then set row else row) rows

-- `SELECT … WHERE status = 'PENDING' ORDER BY id LIMIT limit`
unfoldable pub fetch_pending : ℕ → List OutboundMessage → List OutboundMessage
fetch_pending limit rows = take limit (filter (λ row. row.status is "PENDING") rows)

abbrev pub same_event : ℕ → Option ℕ → Bool
same_event event none = false
same_event event (some n) = n == event

unfoldable pub fetch_pending_by_inbound_event : ℕ → ℕ → List OutboundMessage → List OutboundMessage
fetch_pending_by_inbound_event event limit rows =
    take limit
      (filter (λ row. row.status is "PENDING" && same_event event row.inbound_event_id) rows)
