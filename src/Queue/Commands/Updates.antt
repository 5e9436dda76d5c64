-- ===== src/Queue/Commands/Updates.antt =====
-- The updates of `external_commands` by the id of a row, and the recovery of expired leases
-- (src/app/db/repositories.py).
use ai_customer_service.Prelude.{
  ℕ, suc, ◌+◌, String, Bool, ◌&&◌, Option, some, List, [], ◌∷◌, map, leb, ◌==◌, if◌then◌else◌,
  length, filter, is_in,
}
use ai_customer_service.Queue.Lease.{no_lease, expired, is_open}
use ai_customer_service.Queue.Commands.Defs.{Command, update_id}

unfoldable pub release_lease : ℕ → List Command → List Command
release_lease id = update_id id λ row. record row { lease = no_lease }

abbrev processed_if : Bool → ℕ → Option ℕ → Option ℕ
processed_if done now before = if done then some now else before

-- `_mark_status`
unfoldable pub set_status : ℕ → ℕ → String → List Command → List Command
set_status now id status = update_id id λ row. record row {
  status = status;
  lease = no_lease;
  processed_at = processed_if (is_in status ("DRY_RUN_DONE" ∷ "SENT" ∷ [])) now row.processed_at;
}

unfoldable pub mark_dry_run_done : ℕ → ℕ → List Command → List Command
unfolding set_status
mark_dry_run_done now id = set_status now id "DRY_RUN_DONE"

unfoldable pub mark_sent : ℕ → ℕ → List Command → List Command
unfolding set_status
mark_sent now id = set_status now id "SENT"

unfoldable pub mark_failed : ℕ → String → List Command → List Command
mark_failed id error =
    update_id id λ row. record row { status = "FAILED"; last_error = some error; lease = no_lease }

unfoldable pub mark_retryable : ℕ → String → List Command → List Command
mark_retryable id error = update_id id λ row. record row {
  status = "RETRYABLE";
  retry_count = suc row.retry_count;
  last_error = some error;
  lease = no_lease;
}

unfoldable pub mark_status : ℕ → ℕ → String → Option String → List Command → List Command
mark_status now id status error = update_id id λ row. record row {
  status = status;
  last_error = error;
  lease = no_lease;
  processed_at =
      processed_if (is_in status ("DRY_RUN_DONE" ∷ "SENT" ∷ "PROCESSED" ∷ "DONE" ∷ [])) now
        row.processed_at;
}

-- MySQL assigns from left to right: the CASE reads the `retry_count` that the first assignment has
-- already raised.
abbrev pub failed_once : String → ℕ → Command → Command
failed_once error max_retries row =
    let retry_count = suc row.retry_count in
    record row {
      retry_count = retry_count;
      status = if leb max_retries (retry_count + 1) then "FAILED" else "RETRYABLE";
      last_error = some error;
      lease = no_lease;
    }

unfoldable pub mark_processing_failed : ℕ → String → ℕ → List Command → List Command
mark_processing_failed id error max_retries = update_id id (failed_once error max_retries)

abbrev status_of : ℕ → List Command → String
status_of id [] = "FAILED"
status_of id (c ∷ cs) = let rest = status_of id cs in if c.id == id then c.status else rest

-- The table, and the status read back; a row that is gone counts as failed.
unfoldable pub mark_processing_failed_and_get_status :
    ℕ → String → ℕ → List Command → List Command × String
unfolding mark_processing_failed
mark_processing_failed_and_get_status id error max_retries rows =
    let rows' = mark_processing_failed id error max_retries rows in (rows', status_of id rows')

abbrev pub is_stale : ℕ → Command → Bool
is_stale now row = is_open row.status && expired now row.lease.lease_expires_at

unfoldable pub recover_expired_leases : ℕ → List Command → List Command × ℕ
recover_expired_leases now rows = (
  map (λ (row : Command). if is_stale now row then record row { lease = no_lease } else row) rows,
  length (filter (is_stale now) rows),
)
