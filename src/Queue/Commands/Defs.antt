-- ===== src/Queue/Commands/Defs.antt =====
-- The table `external_commands` and the statements of `ExternalCommandRepository`
-- (src/app/db/repositories.py).
use ai_customer_service.Prelude.{
  ◌<>◌, ℕ, suc, String, Bool, ◌&&◌, Option, none, some, List, [], ◌∷◌, ◌++◌, map, leb, ◌==◌,
  if◌then◌else◌, take, filter, any, decimal, ◌is◌, truthy, or_text, Json,
}
use ai_customer_service.Queue.Rows.{order_by, key_in}
use ai_customer_service.Queue.Lease.{Lease, no_lease, taken, is_free, is_open}

pub record Command : Type 0 where
  pub id : ℕ
  pub tenant_id : String
  pub conversation_id : String
  pub chat_id : Option String
  pub thread_id : Option String
  pub inbound_event_id : Option ℕ
  pub command_type : String
  pub payload_json : Json
  pub status : String
  pub retry_count : ℕ
  pub last_error : Option String
  pub dedup_key : String
  pub lease : Lease
  pub attempted_at : Option ℕ
  pub processed_at : Option ℕ
  pub created_at : ℕ

pub record Table : Type 0 where
  pub rows : List Command
  pub next_id : ℕ

-- The dictionary that a caller inserts; `payload_json` that is missing or null is `{}`.
pub record Draft : Type 0 where
  pub tenant_id : Option String
  pub conversation_id : String
  pub chat_id : Option String
  pub thread_id : Option String
  pub inbound_event_id : Option ℕ
  pub command_type : String
  pub payload_json : Json
  pub status : Option String
  pub retry_count : ℕ
  pub last_error : Option String
  pub dedup_key : Option String

abbrev event_text : Option ℕ → String
event_text none = "None"
event_text (some n) = decimal n

-- `digest` is the SHA-256 of the payload's canonical JSON, in hexadecimal.
module _ (digest : Json → String) where
  pub build_external_command_dedup_key : String → String → Option ℕ → String → Json → String
  build_external_command_dedup_key tenant_id conversation_id inbound_event_id command_type payload =
      tenant_id
      <> ":"
      <> conversation_id
      <> ":"
      <> event_text inbound_event_id
      <> ":"
      <> command_type
      <> ":"
      <> digest payload

  pub dedup_key_of : Draft → String
  unfolding build_external_command_dedup_key
  dedup_key_of c =
      if truthy c.dedup_key
      then or_text c.dedup_key ""
      else build_external_command_dedup_key (or_text c.tenant_id "default") c.conversation_id
          c.inbound_event_id c.command_type c.payload_json

  pub inserted_row : ℕ → ℕ → Draft → Command
  unfolding dedup_key_of
  inserted_row now id c = record {
    id = id;
    tenant_id = or_text c.tenant_id "default";
    conversation_id = c.conversation_id;
    chat_id = c.chat_id;
    thread_id = c.thread_id;
    inbound_event_id = c.inbound_event_id;
    command_type = c.command_type;
    payload_json = c.payload_json;
    status = or_text c.status "PENDING";
    retry_count = c.retry_count;
    last_error = c.last_error;
    dedup_key = dedup_key_of c;
    lease = no_lease;
    attempted_at = none;
    processed_at = none;
    created_at = now;
  }

  unfoldable pub insert_idempotent : ℕ → Draft → Table → Option ℕ × Table
  unfolding inserted_row
  insert_idempotent now c t =
      if any (λ row. row.dedup_key is dedup_key_of c) t.rows then (none, t) else (
        some t.next_id,
        record { rows = t.rows ++ inserted_row now t.next_id c ∷ []; next_id = suc t.next_id },
      )

abbrev pub update_id : ℕ → (Command → Command) → List Command → List Command
update_id id set rows = map (λ (row : Command). if row.id == id then set row else row) rows

abbrev pub has_id : List ℕ → Command → Bool
has_id = key_in (λ (c : Command). c.id)

abbrev pub is_older : Command → Command → Bool
is_older a b = leb a.created_at b.created_at

abbrev pub is_leasable : ℕ → Command → Bool
is_leasable now c = is_open c.status && is_free now c.lease

-- SELECT id … WHERE open AND free ORDER BY created_at LIMIT limit
unfoldable pub leasable_ids : ℕ → ℕ → List Command → List ℕ
unfolding order_by
leasable_ids now limit rows =
    map (λ (c : Command). c.id) (take limit (order_by is_older (filter (is_leasable now) rows)))

abbrev pub take_lease : ℕ → String → ℕ → Command → Command
take_lease now worker lease_seconds c = record c {
  lease = taken now worker lease_seconds;
  attempted_at = some now;
}

abbrev pub leased : ℕ → String → ℕ → List ℕ → Command → Command
leased now worker lease_seconds ids c =
    if has_id ids c then take_lease now worker lease_seconds c else c

-- The rows leased, and the table after it. No id selected gives no row.
unfoldable pub lease_pending : ℕ → ℕ → String → ℕ → List Command → List Command × List Command
unfolding leasable_ids order_by
lease_pending now limit worker lease_seconds rows =
    let ids = leasable_ids now limit rows in
    let rows' = map (leased now worker lease_seconds ids) rows in
    (order_by is_older (filter (has_id ids) rows'), rows')

-- The row, if it could be leased.
unfoldable pub lease_pending_by_id : ℕ → ℕ → String → ℕ → List Command → List Command × List Command
lease_pending_by_id now id worker lease_seconds rows =
    let ids =
      map (λ (c : Command). c.id)
        (take 1 (filter (λ (c : Command). c.id == id && is_leasable now c) rows)) in
    let rows' = map (leased now worker lease_seconds ids) rows in
    (take 1 (filter (has_id ids) rows'), rows')
