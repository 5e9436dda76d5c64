-- ===== src/Queue/Inbound/Defs.antt =====
-- The table `inbound_events` and the statements of `InboundEventRepository`
-- (src/app/db/repositories.py).
use ai_customer_service.Prelude.{
  ◌<>◌, ℕ, suc, ◌+◌, String, Bool, true, false, not, ◌&&◌, Option, none, some, List, [], ◌∷◌, ◌++◌,
  map, ltb, ◌==◌, if◌then◌else◌, length, take, filter, any, decimal, ◌is◌, Json,
}
use ai_customer_service.Queue.Rows.{key_in}
use ai_customer_service.Queue.Lease.{Lease, seconds, no_lease, taken, expired, is_free}

-- The event as it is inserted.
pub record InboundEvent : Type 0 where
  pub source : String
  pub raw_action : String
  pub organization_id : Option String
  pub chat_id : Option String
  pub thread_id : Option String
  pub event_id : Option String
  pub event_type : Option String
  pub standard_event_type : String
  pub author_id : Option String
  pub sender_role : String
  pub occurred_at : Option String
  pub dedup_key : String
  pub payload_json : Json
  pub ignored : Bool
  pub ignore_reason : Option String

pub record InboundRow : Type 0 where
  pub id : ℕ
  pub event : InboundEvent
  pub processed : Bool
  pub processed_at : Option ℕ
  pub lease : Lease
  pub attempted_at : Option ℕ

pub record Table : Type 0 where
  pub rows : List InboundRow
  pub next_id : ℕ

abbrev new_row : ℕ → InboundEvent → InboundRow
new_row id event = record {
  id = id;
  event = event;
  processed = false;
  processed_at = none;
  lease = no_lease;
  attempted_at = none;
}

-- Whether the event was inserted, and the table: the unique key on `dedup_key` refuses another.
unfoldable pub insert : InboundEvent → Table → Bool × Table
insert event t =
    if any (λ (row : InboundRow). row.event.dedup_key is event.dedup_key) t.rows
    then (false, t)
    else (true, record { rows = t.rows ++ new_row t.next_id event ∷ []; next_id = suc t.next_id })

-- processed = 0 AND ignored = 0
abbrev pub is_waiting : InboundRow → Bool
is_waiting row = not row.processed && not row.event.ignored

unfoldable pub fetch_unprocessed : ℕ → List InboundRow → List InboundRow
fetch_unprocessed limit rows = take limit (filter is_waiting rows)

unfoldable pub fetch_unprocessed_by_id : ℕ → List InboundRow → List InboundRow
fetch_unprocessed_by_id id rows =
    take 1 (filter (λ (row : InboundRow). row.id == id && is_waiting row) rows)

-- COALESCE(chat_id, CONCAT('inbound:', id))
abbrev pub lease_chat_id : InboundRow → String
lease_chat_id row = elim row.event.chat_id [
  | none ↦ "inbound:" <> decimal row.id
  | some chat ↦ chat
]

-- `earlier` waits in the chat of `row`, before it.
abbrev pub precedes : InboundRow → InboundRow → Bool
precedes row earlier =
    is_waiting earlier && lease_chat_id earlier is lease_chat_id row && ltb earlier.id row.id

abbrev pub is_leasable : ℕ → List InboundRow → InboundRow → Bool
is_leasable now rows row = is_waiting row && is_free now row.lease && not (any (precedes row) rows)

abbrev pub has_id : List ℕ → InboundRow → Bool
has_id = key_in (λ (row : InboundRow). row.id)

-- SELECT id … ORDER BY id LIMIT limit
unfoldable pub leasable_ids : ℕ → ℕ → List InboundRow → List ℕ
leasable_ids now limit rows =
    map (λ (row : InboundRow). row.id) (take limit (filter (is_leasable now rows) rows))

abbrev pub leased : ℕ → String → ℕ → List ℕ → InboundRow → InboundRow
leased now worker lease_seconds ids row =
    if has_id ids row
    then record row { lease = taken now worker lease_seconds; attempted_at = some now }
    else row

-- The rows leased, in the order of their ids, and the table after it.
unfoldable pub lease_unprocessed :
    ℕ → ℕ → String → ℕ → List InboundRow → List InboundRow × List InboundRow
unfolding leasable_ids
lease_unprocessed now limit worker lease_seconds rows =
    let ids = leasable_ids now limit rows in
    let rows' = map (leased now worker lease_seconds ids) rows in (filter (has_id ids) rows', rows')

abbrev pub update_id : ℕ → (InboundRow → InboundRow) → List InboundRow → List InboundRow
update_id id set rows = map (λ (row : InboundRow). if row.id == id then set row else row) rows

unfoldable pub mark_processed : ℕ → ℕ → List InboundRow → List InboundRow
mark_processed now id =
    update_id id λ row. record row { processed = true; processed_at = some now; lease = no_lease }

unfoldable pub release_lease : ℕ → List InboundRow → List InboundRow
release_lease id = update_id id λ row. record row { lease = no_lease }

abbrev is_locked_by : String → Option String → Bool
is_locked_by worker none = false
is_locked_by worker (some name) = name is worker

abbrev extends : ℕ → String → InboundRow → Bool
extends id worker row = row.id == id && is_locked_by worker row.lease.locked_by && not row.processed

-- The rows, and how many were extended.
unfoldable pub extend_lease : ℕ → ℕ → String → ℕ → List InboundRow → List InboundRow × ℕ
extend_lease now id worker lease_seconds rows = (
  map
      (λ (row : InboundRow).
        if extends id worker row
        then record row {
          lease = record row.lease { lease_expires_at = some (now + seconds lease_seconds) };
        }
        else row)
      rows,
  length (filter (extends id worker) rows),
)

abbrev is_stale : ℕ → InboundRow → Bool
is_stale now row = is_waiting row && expired now row.lease.lease_expires_at

unfoldable pub recover_expired_leases : ℕ → List InboundRow → List InboundRow × ℕ
recover_expired_leases now rows = (
  map (λ (row : InboundRow). if is_stale now row then record row { lease = no_lease } else row)
      rows,
  length (filter (is_stale now) rows),
)
