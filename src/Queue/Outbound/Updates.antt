-- ===== src/Queue/Outbound/Updates.antt =====
-- The updates of `OutboundMessageRepository` (src/app/db/repositories.py).
use ai_customer_service.Prelude.{
  ℕ, suc, ◌+◌, ◌*◌, ◌^◌, min, String, Bool, true, false, ◌&&◌, Option, none, some, List, map, ◌==◌,
  if◌then◌else◌, coalesce, length, filter, ◌is◌,
}
use ai_customer_service.Queue.Lease.{Lease, seconds, no_lease, expired, is_open}
use ai_customer_service.Queue.Outbound.Defs.{
  RetrySettings, outbound_retry_base_seconds, outbound_retry_max_seconds, OutboundMessage,
  update_id, same_event,
}

unfoldable pub mark_sent : ℕ → ℕ → Option String → List OutboundMessage → List OutboundMessage
mark_sent now id last_error = update_id id λ row. record row {
  status = "SENT";
  sent_at = some now;
  processed_at = some now;
  last_error = last_error;
  lease = no_lease;
}

-- LEAST(max, base * POW(2, LEAST(retry_count, 3)))
unfoldable pub retry_delay : RetrySettings → ℕ → ℕ
unfolding outbound_retry_base_seconds outbound_retry_max_seconds
retry_delay s retry_count =
    min (outbound_retry_max_seconds s) (outbound_retry_base_seconds s * 2 ^ min retry_count 3)

-- MySQL assigns from left to right, so the delay reads the new `retry_count`.
unfoldable pub mark_failed :
    RetrySettings → ℕ → ℕ → String → String → Bool → List OutboundMessage → List OutboundMessage
unfolding retry_delay
mark_failed s now id status error true = update_id id λ row. record row {
  status = status;
  last_error = some error;
  retry_count = suc row.retry_count;
  lease = record {
    leased_at = none;
    lease_expires_at = some (now + seconds (retry_delay s (suc row.retry_count)));
    locked_by = some (coalesce row.lease.locked_by "retry-backoff");
  };
}
mark_failed s now id status error false =
    update_id id λ row. record row { status = status; last_error = some error; lease = no_lease }

unfoldable pub release_lease : ℕ → List OutboundMessage → List OutboundMessage
release_lease id = update_id id λ row. record row { lease = no_lease }

abbrev pub is_locked_by : String → Lease → Bool
is_locked_by worker l = elim l.locked_by [ none ↦ false | some w ↦ w is worker ]

-- The rows, and how many of them the statement changed.
unfoldable pub extend_lease : ℕ → ℕ → String → ℕ → List OutboundMessage → List OutboundMessage × ℕ
extend_lease now id worker lease_seconds rows =
    let matches = λ (row : OutboundMessage).
      row.id == id && is_locked_by worker row.lease && is_open row.status in
    (
      map
          (λ (row : OutboundMessage).
            if matches row
            then record row {
              lease = record row.lease { lease_expires_at = some (now + seconds lease_seconds) };
            }
            else row)
          rows,
      length (filter matches rows),
    )

abbrev pub is_stale : ℕ → OutboundMessage → Bool
is_stale now row = is_open row.status && expired now row.lease.lease_expires_at

abbrev pub recovered : ℕ → OutboundMessage → OutboundMessage
recovered now row = if is_stale now row then record row { lease = no_lease } else row

unfoldable pub recover_expired_leases : ℕ → List OutboundMessage → List OutboundMessage × ℕ
recover_expired_leases now rows = (map (recovered now) rows, length (filter (is_stale now) rows))

unfoldable pub mark_pending_by_inbound_event_skipped :
    ℕ → String → String → List OutboundMessage → List OutboundMessage × ℕ
mark_pending_by_inbound_event_skipped event status error rows =
    let matches =
      λ (row : OutboundMessage). same_event event row.inbound_event_id && row.status is "PENDING" in
    (
      map
          (λ (row : OutboundMessage).
            if matches row then record row { status = status; last_error = some error } else row)
          rows,
      length (filter matches rows),
    )
