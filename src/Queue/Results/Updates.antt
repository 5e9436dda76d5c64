-- ===== src/Queue/Results/Updates.antt =====
-- What becomes of a result that was leased (src/app/db/repositories.py).
use ai_customer_service.Prelude.{
  ℕ, suc, ◌+◌, String, Bool, ◌&&◌, none, some, List, map, leb, ◌==◌, if◌then◌else◌, length, filter,
}
use ai_customer_service.Queue.Lease.{no_lease, expired, is_open}
use ai_customer_service.Queue.Results.Defs.{CommandResult}

abbrev pub update_id : ℕ → (CommandResult → CommandResult) → List CommandResult → List CommandResult
update_id id set rows = map (λ (row : CommandResult). if row.id == id then set row else row) rows

unfoldable pub release_lease : ℕ → List CommandResult → List CommandResult
release_lease id = update_id id λ row. record row { lease = no_lease }

unfoldable pub mark_processed : ℕ → ℕ → List CommandResult → List CommandResult
mark_processed now id = update_id id λ row. record row {
  status = "PROCESSED";
  processed_at = some now;
  lease = no_lease;
  last_error = none;
}

unfoldable pub mark_failed : ℕ → String → List CommandResult → List CommandResult
mark_failed id error =
    update_id id λ row. record row { status = "FAILED"; last_error = some error; lease = no_lease }

unfoldable pub mark_retryable : ℕ → String → List CommandResult → List CommandResult
mark_retryable id error =
    update_id id
      λ row. record row { status = "RETRYABLE"; last_error = some error; lease = no_lease }

-- MySQL assigns from left to right: the CASE reads the `retry_count` that the first assignment has
-- already raised.
unfoldable pub mark_processing_failed : ℕ → String → ℕ → List CommandResult → List CommandResult
mark_processing_failed id error max_retries = update_id id λ row.
    (let retry_count = suc row.retry_count in
      record row {
        retry_count = retry_count;
        status = if leb max_retries (retry_count + 1) then "FAILED" else "RETRYABLE";
        last_error = some error;
        lease = no_lease;
      })

abbrev pub is_stale : ℕ → CommandResult → Bool
is_stale now row = is_open row.status && expired now row.lease.lease_expires_at

unfoldable pub recover_expired_leases : ℕ → List CommandResult → List CommandResult × ℕ
recover_expired_leases now rows = (
  map (λ (row : CommandResult). if is_stale now row then record row { lease = no_lease } else row)
      rows,
  length (filter (is_stale now) rows),
)
