-- ===== src/Queue/Results/Defs.antt =====
-- The table `external_command_results`, insertion and leases (src/app/db/repositories.py).
use ai_customer_service.Prelude.{
  ◌<>◌, ℕ, suc, String, Bool, ◌&&◌, Option, none, some, List, [], ◌∷◌, ◌++◌, map, leb, ◌==◌,
  if◌then◌else◌, take, filter, any, decimal, ◌is◌, truthy, or_text, Json,
}
use ai_customer_service.Queue.Rows.{order_by, key_in}
use ai_customer_service.Queue.Lease.{Lease, no_lease, taken, is_free, is_open}

pub record CommandResult : Type 0 where
  pub id : ℕ
  pub external_command_id : ℕ
  pub tenant_id : String
  pub conversation_id : String
  pub chat_id : String
  pub thread_id : Option String
  pub inbound_event_id : Option ℕ
  pub command_type : String
  pub result_type : String
  pub result_json : Json
  pub status : String
  pub retry_count : ℕ
  pub last_error : Option String
  pub dedup_key : String
  pub lease : Lease
  pub attempted_at : Option ℕ
  pub processed_at : Option ℕ
  pub created_at : ℕ

pub record Table : Type 0 where
  pub rows : List CommandResult
  pub next_id : ℕ

-- The dictionary that a caller inserts; `result_json` that is missing or null is `{}`.
pub record Draft : Type 0 where
  pub external_command_id : ℕ
  pub tenant_id : Option String
  pub conversation_id : String
  pub chat_id : String
  pub thread_id : Option String
  pub inbound_event_id : Option ℕ
  pub command_type : String
  pub result_type : String
  pub result_json : Json
  pub status : Option String
  pub processed_at : Option ℕ
  pub last_error : Option String
  pub dedup_key : Option String

-- COALESCE(processed_at, CASE WHEN status = 'PROCESSED' THEN NOW(6) ELSE NULL END)
abbrev processed_time : ℕ → Option ℕ → String → Option ℕ
processed_time now (some t) status = some t
processed_time now none status = if status is "PROCESSED" then some now else none

-- `digest` is the SHA-256 of the result's canonical JSON, in hexadecimal.
module _ (digest : Json → String) where
  unfoldable pub build_external_command_result_dedup_key :
      String → String → ℕ → String → String → Json → String
  build_external_command_result_dedup_key tenant_id conversation_id command_id command_type
        result_type result =
      tenant_id
      <> ":"
      <> conversation_id
      <> ":"
      <> decimal command_id
      <> ":"
      <> command_type
      <> ":"
      <> result_type
      <> ":"
      <> digest result

  unfoldable pub dedup_key_of : Draft → String
  unfolding build_external_command_result_dedup_key
  dedup_key_of r =
      if truthy r.dedup_key
      then or_text r.dedup_key ""
      else build_external_command_result_dedup_key (or_text r.tenant_id "default") r.conversation_id
          r.external_command_id r.command_type r.result_type r.result_json

  unfoldable pub inserted_row : ℕ → ℕ → Draft → CommandResult
  unfolding dedup_key_of
  inserted_row now id r = record {
    id = id;
    external_command_id = r.external_command_id;
    tenant_id = or_text r.tenant_id "default";
    conversation_id = r.conversation_id;
    chat_id = r.chat_id;
    thread_id = r.thread_id;
    inbound_event_id = r.inbound_event_id;
    command_type = r.command_type;
    result_type = r.result_type;
    result_json = r.result_json;
    status = or_text r.status "PENDING";
    retry_count = 0;
    last_error = r.last_error;
    dedup_key = dedup_key_of r;
    lease = no_lease;
    attempted_at = none;
    processed_at = processed_time now r.processed_at (or_text r.status "PENDING");
    created_at = now;
  }

  -- The id of a row that was inserted.
  unfoldable pub insert_idempotent : ℕ → Draft → Table → Option ℕ × Table
  unfolding inserted_row
  insert_idempotent now r t =
      if any (λ row. row.dedup_key is dedup_key_of r) t.rows then (none, t) else (
        some t.next_id,
        record { rows = t.rows ++ inserted_row now t.next_id r ∷ []; next_id = suc t.next_id },
      )

abbrev pub is_older : CommandResult → CommandResult → Bool
is_older a b = leb a.created_at b.created_at

unfoldable pub fetch_pending : ℕ → List CommandResult → List CommandResult
unfolding order_by
fetch_pending limit rows =
    take limit (order_by is_older (filter (λ (r : CommandResult). r.status is "PENDING") rows))

abbrev pub has_id : List ℕ → CommandResult → Bool
has_id = key_in (λ (r : CommandResult). r.id)

abbrev pub is_leasable : ℕ → CommandResult → Bool
is_leasable now r = is_open r.status && is_free now r.lease

-- SELECT id … WHERE open AND free ORDER BY created_at LIMIT limit
unfoldable pub leasable_ids : ℕ → ℕ → List CommandResult → List ℕ
unfolding order_by
leasable_ids now limit rows =
    map (λ (r : CommandResult). r.id)
      (take limit (order_by is_older (filter (is_leasable now) rows)))

abbrev pub leased : ℕ → String → ℕ → List ℕ → CommandResult → CommandResult
leased now worker lease_seconds ids r =
    if has_id ids r
    then record r { lease = taken now worker lease_seconds; attempted_at = some now }
    else r

-- The rows leased, and the table after it. No id selected gives no row.
unfoldable pub lease_pending :
    ℕ → ℕ → String → ℕ → List CommandResult → List CommandResult × List CommandResult
unfolding leasable_ids order_by
lease_pending now limit worker lease_seconds rows =
    let ids = leasable_ids now limit rows in
    let rows' = map (leased now worker lease_seconds ids) rows in
    (order_by is_older (filter (has_id ids) rows'), rows')

-- SELECT id … WHERE id = %s AND open AND free LIMIT 1
unfoldable pub leasable_id : ℕ → ℕ → List CommandResult → List ℕ
leasable_id now id rows =
    map (λ (r : CommandResult). r.id)
      (take 1 (filter (λ (r : CommandResult). r.id == id && is_leasable now r) rows))

-- The row, if it could be leased.
unfoldable pub lease_pending_by_id :
    ℕ → ℕ → String → ℕ → List CommandResult → List CommandResult × List CommandResult
unfolding leasable_id
lease_pending_by_id now id worker lease_seconds rows =
    let ids = leasable_id now id rows in
    let rows' = map (leased now worker lease_seconds ids) rows in
    (take 1 (filter (has_id ids) rows'), rows')
