-- ===== src/Queue/Commands/Attempts.antt =====
-- How many failures `mark_processing_failed` allows.
use ai_customer_service.Prelude.{
  ℕ, zero, suc, ◌+◌, ◌≡◌, refl, ap, Bool, true, false, String, Option, none, some, List, [], ◌∷◌,
  arith, leb, ◌==◌, if◌then◌else◌, not,
}
use ai_customer_service.Queue.Commands.Defs.{Command, update_id, is_leasable}
use ai_customer_service.Queue.Commands.Updates.{failed_once, mark_processing_failed}

-- The row with an id.
abbrev pub find_id : ℕ → List Command → Option Command
find_id id [] = none
find_id id (c ∷ cs) = let rest = find_id id cs in if c.id == id then some c else rest

find_id-update_id :
    (id : ℕ) (set : Command → Command) (rows : List Command) (c : Command)
    → ((x : Command) → (set x).id ≡ x.id)
    → find_id id rows ≡ some c
    → find_id id (update_id id set rows) ≡ some (set c)
find_id-update_id id set [] c same h = cc
find_id-update_id id set (x ∷ xs) c same h =
    ground (arith, find_id-update_id id set xs c same, same x)

-- A command that fails `k` times.
abbrev pub fail_times : ℕ → ℕ → String → ℕ → List Command → List Command
fail_times zero id error max_retries rows = rows
fail_times (suc k) id error max_retries rows =
    mark_processing_failed id error max_retries (fail_times k id error max_retries rows)

failed : ℕ → String → ℕ → Command → Command
failed zero error max_retries c = c
failed (suc k) error max_retries c = failed_once error max_retries (failed k error max_retries c)

find_id-fail_times :
    (k id : ℕ) (error : String) (max_retries : ℕ) (rows : List Command) (c : Command)
    → find_id id rows ≡ some c
    → find_id id (fail_times k id error max_retries rows) ≡ some (failed k error max_retries c)
unfolding failed mark_processing_failed
find_id-fail_times zero id error max_retries rows c h = h
find_id-fail_times (suc k) id error max_retries rows c h =
    find_id-update_id id (failed_once error max_retries) (fail_times k id error max_retries rows) _
      (λ x. refl) (find_id-fail_times k id error max_retries rows c h)

retry_count-failed :
    (k : ℕ) (error : String) (max_retries : ℕ) (c : Command)
    → (failed k error max_retries c).retry_count ≡ c.retry_count + k
unfolding failed
retry_count-failed zero error max_retries c = omega arith
retry_count-failed (suc k) error max_retries c =
    omega (arith, retry_count-failed k error max_retries c)

leasable-failed_once :
    (error : String) (max_retries now : ℕ) (c : Command) (b : Bool)
    → leb max_retries (suc c.retry_count + 1) ≡ b
    → is_leasable now (failed_once error max_retries c) ≡ not b
leasable-failed_once error max_retries now c true e = rw e
leasable-failed_once error max_retries now c false e = rw e

-- A new command is given up at its failure number `max_retries - 1`: after `k + 1` failures its
-- status is FAILED exactly when `max_retries` is at most `k + 2`, and RETRYABLE otherwise, when
-- it may be leased again at once.
pub mark_processing_failed_gives_up :
    (k id : ℕ) (error : String) (max_retries now : ℕ) (rows : List Command) (c : Command)
    → find_id id rows ≡ some c
    → c.retry_count ≡ 0
    → (c' : Command) × (find_id id (fail_times (suc k) id error max_retries rows) ≡ some c')
      × (c'.status ≡ (if leb max_retries (k + 2) then "FAILED" else "RETRYABLE"))
      × (is_leasable now c' ≡ not (leb max_retries (k + 2)))
unfolding failed
mark_processing_failed_gives_up k id error max_retries now rows c h fresh =
    let count = retry_count-failed k error max_retries c in
    (
      failed (suc k) error max_retries c,
      find_id-fail_times (suc k) id error max_retries rows c h,
      ground (arith, count),
      leasable-failed_once error max_retries now (failed k error max_retries c)
          (leb max_retries (k + 2)) (ap (leb max_retries) (omega (arith, count))),
    )
