-- ===== src/Queue/Outbound/Retry.antt =====
-- What a failed or finished send leaves in the queue, and when the message is sent again.
use ai_customer_service.Prelude.{
  ℕ, zero, suc, ◌+◌, ◌^◌, ◌≤◌, min, ◌≡◌, ◌≢◌, refl, true, false, String, List, [], ◌∷◌, Option,
  none, some, arith, if◌then◌else◌, ◌==◌, ltb, coalesce, All,
}
use ai_customer_service.Queue.Lease.{seconds, is_open}
use ai_customer_service.Queue.Outbound.Defs.{
  EnvInt, unset, malformed, int, negative, RetrySettings, OutboundMessage, update_id,
  outbound_retry_max_seconds, positive_int_env,
}
use ai_customer_service.Queue.Outbound.Leasing.{is_leasable, lease_pending_groups}
use ai_customer_service.Queue.Outbound.Updates.{mark_sent, mark_failed, retry_delay}
use ai_customer_service.Queue.Rows.{IsKeyed-map}
use ai_customer_service.Queue.Outbound.Exclusion.{IsOrdered, lease_pending_groups-skips_closed}

-- The row with an id.
abbrev pub find_id : ℕ → List OutboundMessage → Option OutboundMessage
find_id id [] = none
find_id id (m ∷ ms) = let rest = find_id id ms in if m.id == id then some m else rest

find_id-update_id :
    (id : ℕ) (set : OutboundMessage → OutboundMessage) (rows : List OutboundMessage)
    (m : OutboundMessage)
    → ((x : OutboundMessage) → (set x).id ≡ x.id)
    → find_id id rows ≡ some m
    → find_id id (update_id id set rows) ≡ some (set m)
find_id-update_id id set [] m same h = cc
find_id-update_id id set (x ∷ xs) m same h =
    ground (arith, find_id-update_id id set xs m same, same x)

-- The row after a failure that may be retried.
abbrev pub retried : RetrySettings → ℕ → String → OutboundMessage → OutboundMessage
retried s now error row = record row {
  status = "RETRYABLE";
  last_error = some error;
  retry_count = suc row.retry_count;
  lease = record {
    leased_at = none;
    lease_expires_at = some (now + seconds (retry_delay s (suc row.retry_count)));
    locked_by = some (coalesce row.lease.locked_by "retry-backoff");
  };
}

-- After a failure that may be retried, the message is leasable exactly when its back-off has
-- passed: not up to `now + retry_delay`, and always after that. Its retry count has grown by one.
pub mark_failed-backs_off :
    (s : RetrySettings) (now later delay id : ℕ) (error : String) (rows : List OutboundMessage)
    (m : OutboundMessage)
    → find_id id rows ≡ some m
    → (m' : OutboundMessage) × (find_id id (mark_failed s now id "RETRYABLE" error true rows)
        ≡ some m')
      × (m'.retry_count ≡ suc m.retry_count)
      × (is_leasable later delay m' ≡ ltb (now + seconds (retry_delay s (suc m.retry_count))) later)
unfolding mark_failed
mark_failed-backs_off s now later delay id error rows m h = (
  retried s now error m,
  find_id-update_id id (retried s now error) rows m (λ x. refl) h,
  refl,
  ground arith,
)

positive_int_env_pos : (e : EnvInt) (default : ℕ) → 1 ≤ default → 1 ≤ positive_int_env e default
unfolding positive_int_env
positive_int_env_pos unset default h = h
positive_int_env_pos malformed default h = h
positive_int_env_pos (int n) default h = ground arith
positive_int_env_pos (negative n) default h = h

doublings : (n : ℕ) → (1 ≤ 2 ^ min n 3) × (2 ^ min n 3 ≤ 2 ^ min (suc n) 3)
doublings zero = omega arith
doublings (suc zero) = omega arith
doublings (suc (suc zero)) = omega arith
doublings (suc (suc (suc n))) =
    let here : min (suc (suc (suc n))) 3 ≡ 3 = omega arith in
    let next : min (suc (suc (suc (suc n)))) 3 ≡ 3 = omega arith in rw (here, next) (omega arith)

-- The back-off never passes the configured maximum, never falls from one failure to the next, and
-- is at least a second.
pub retry_delay_bounds :
    (s : RetrySettings) (n : ℕ)
    → (retry_delay s n ≤ outbound_retry_max_seconds s)
      × (retry_delay s n ≤ retry_delay s (suc n))
      × (1 ≤ retry_delay s n)
unfolding retry_delay
retry_delay_bounds s n =
    let (one, grows) = doublings n in
    let base = positive_int_env_pos s.base 2 (omega arith) in
    let most = positive_int_env_pos s.most 15 (omega arith) in grind arith

IsOrdered-update_id :
    (id : ℕ) (set : OutboundMessage → OutboundMessage) (rows : List OutboundMessage)
    → ((x : OutboundMessage) → (set x).id ≡ x.id)
    → IsOrdered rows
    → IsOrdered (update_id id set rows)
IsOrdered-update_id id set rows same o =
    IsKeyed-map (λ (m : OutboundMessage). m.id) _ rows (λ x. ground (arith, same x)) o

update_id-closes :
    (id : ℕ) (set : OutboundMessage → OutboundMessage) (rows : List OutboundMessage)
    → ((x : OutboundMessage) → (set x).id ≡ x.id)
    → ((x : OutboundMessage) → is_open (set x).status ≡ false)
    → All (λ (m : OutboundMessage). m.id ≡ id → is_open m.status ≡ false) (update_id id set rows)
update_id-closes id set [] same closed = tt
update_id-closes id set (x ∷ xs) same closed =
    ((λ e. ground (arith, same x, closed x)), update_id-closes id set xs same closed)

-- A message that was marked SENT is never handed out again.
pub mark_sent_final :
    (now later delay limit most id lease_seconds : ℕ) (worker : String) (error : Option String)
    (rows : List OutboundMessage)
    → IsOrdered rows
    → All
        (All (λ (m : OutboundMessage). m.id ≢ id))
        (lease_pending_groups later delay limit worker lease_seconds most
          (mark_sent now id error rows)).0
unfolding mark_sent
mark_sent_final now later delay limit most id lease_seconds worker error rows o =
    lease_pending_groups-skips_closed later delay most worker lease_seconds limit id _
      (IsOrdered-update_id id _ rows (λ x. refl) o)
      (update_id-closes id _ rows (λ x. refl) (λ x. refl))
