-- ===== src/Queue/Commands/Patches.antt =====
-- The updates of `ExternalCommandRepository` that do not concern the lease of a command: the merge
-- of its payload, and the commands of an event that are skipped (src/app/db/repositories.py).
use ai_customer_service.Prelude.{
  ℕ, String, ◌&&◌, Option, none, some, List, map, if◌then◌else◌, length, filter, ◌==◌, Bool, false,
  ◌is◌, Json, Fields, null, bool, num, str, arr, obj, end, field, get, put, remove, dict_of,
}
use ai_customer_service.Queue.Lease.{no_lease}
use ai_customer_service.Queue.Commands.Defs.{Command, update_id}

-- A member of a patch: null removes the key, else the merged value is set.
abbrev pub patch_key : String → Json → Json → Fields → Fields
patch_key key null merged d = remove key d
patch_key key _ merged d = put key merged d

unfoldable mutual
  -- MySQL's `JSON_MERGE_PATCH(target, patch)`
  pub json_merge_patch : Json → Json → Json
  json_merge_patch target (obj patch) = obj (merge_fields (dict_of target) patch)
  json_merge_patch target null = null
  json_merge_patch target (bool b) = bool b
  json_merge_patch target (num n) = num n
  json_merge_patch target (str s) = str s
  json_merge_patch target (arr xs) = arr xs

  pub merge_fields : Fields → Fields → Fields
  merge_fields d end = d
  merge_fields d (field key v rest) =
      merge_fields (patch_key key v (json_merge_patch (get key d) v) d) rest

unfoldable pub merge_payload : Json → Command → Command
merge_payload patch row = record row { payload_json = json_merge_patch row.payload_json patch }

unfoldable pub merge_payload_json : ℕ → Json → List Command → List Command
unfolding merge_payload
merge_payload_json id patch = update_id id (merge_payload patch)

abbrev is_event : ℕ → Option ℕ → Bool
is_event event none = false
is_event event (some id) = id == event

-- `WHERE inbound_event_id = … AND status = 'PENDING'`
abbrev pub is_pending_of : ℕ → Command → Bool
is_pending_of event row = is_event event row.inbound_event_id && row.status is "PENDING"

abbrev skipped : String → String → Command → Command
skipped status error row = record row { status = status; last_error = some error; lease = no_lease }

-- The rows, and how many were skipped.
unfoldable pub mark_pending_by_inbound_event_skipped :
    ℕ → String → String → List Command → List Command × ℕ
mark_pending_by_inbound_event_skipped event status error rows = (
  map (λ row. if is_pending_of event row then skipped status error row else row) rows,
  length (filter (is_pending_of event) rows),
)
