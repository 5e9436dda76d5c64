-- ===== src/Queue/Lease.antt =====
-- The lease columns that the three work queues share (src/app/db/repositories.py), and the tests
-- on them. Times are microseconds, the resolution of `NOW(6)`.
use ai_customer_service.Prelude.{
  ℕ, ◌+◌, ◌*◌, ◌≤◌, String, ◌≡◌, Bool, true, false, not, ◌&&◌, ◌||◌, Option, none, some, arith, ltb,
  leb, is_none, is_some, ◌is◌,
}

pub record Lease : Type 0 where
  pub leased_at : Option ℕ
  pub lease_expires_at : Option ℕ
  pub locked_by : Option String

-- `INTERVAL n SECOND`
abbrev pub seconds : ℕ → ℕ
seconds n = n * 1000000

-- leased_at = NULL, lease_expires_at = NULL, locked_by = NULL
abbrev pub no_lease : Lease
no_lease = record { leased_at = none; lease_expires_at = none; locked_by = none }

-- The lease that a worker takes at `now`.
abbrev pub taken : ℕ → String → ℕ → Lease
taken now worker lease_seconds = record {
  leased_at = some now;
  lease_expires_at = some (now + seconds lease_seconds);
  locked_by = some worker;
}

-- `lease_expires_at < NOW(6)`, which is not true of NULL
abbrev pub expired : ℕ → Option ℕ → Bool
expired now none = false
expired now (some t) = ltb t now

-- `locked_by IS NULL OR lease_expires_at IS NULL OR lease_expires_at < NOW(6)`
abbrev pub is_free : ℕ → Lease → Bool
is_free now l = is_none l.locked_by || is_none l.lease_expires_at || expired now l.lease_expires_at

-- `lease_expires_at >= NOW(6)`
abbrev pub unexpired : ℕ → Option ℕ → Bool
unexpired now none = false
unexpired now (some t) = leb now t

-- `locked_by IS NOT NULL AND lease_expires_at IS NOT NULL AND lease_expires_at >= NOW(6)`
abbrev pub is_held : ℕ → Lease → Bool
is_held now l =
    is_some l.locked_by && is_some l.lease_expires_at && unexpired now l.lease_expires_at

-- `status IN ('PENDING', 'RETRYABLE')`
abbrev pub is_open : String → Bool
is_open status = status is "PENDING" || status is "RETRYABLE"

-- The two tests on a lease are complements.
pub is_free-eq-not-is_held : (now : ℕ) (l : Lease) → is_free now l ≡ not (is_held now l)
is_free-eq-not-is_held now l = ground arith

pub is_held-taken :
    (now later lease_seconds : ℕ) (worker : String)
    → later ≤ now + seconds lease_seconds
    → is_held later (taken now worker lease_seconds) ≡ true
is_held-taken now later lease_seconds worker h = ground arith
