-- ===== src/Queue/Results/Leases.antt =====
-- Which results a worker may be given (src/app/db/repositories.py).

use ai_customer_service.Prelude.{
  ℕ, ◌+◌, ◌≤◌, ◌≡◌, ◌≢◌, refl, ap, ◌⊎◌, true, false, String, List, [], ◌∷◌, map, arith, ◌==◌, ◌&&◌,
  All, All-mono, All-map, All-zip, All-filter, All-filter_of, All-of, All-take, Bool-cases, inl,
  inr, take, filter,
}
use ai_customer_service.Queue.Rows.{All-order_by, IsKeyed, IsKeyed-map, key_in-select}
use ai_customer_service.Queue.Lease.{seconds, is_held-taken}
use ai_customer_service.Queue.Results.{
  CommandResult, has_id, is_older, is_leasable, leasable_ids, leased, lease_pending, leasable_id,
  lease_pending_by_id, mark_processed,
}

-- The rows stand in the order of their ids.
abbrev pub IsOrdered : List CommandResult → Type 0
IsOrdered = IsKeyed (λ (r : CommandResult). r.id)

-- No row with the id may be leased.
abbrev IsBarred : ℕ → ℕ → CommandResult → Type 0
IsBarred now id r = (r.id == id) ≡ true → is_leasable now r ≡ false

other_id :
    (now id : ℕ) (ids : List ℕ) (r : CommandResult)
    → (has_id ids r ≡ true → is_leasable now r ≡ true) × IsBarred now id r
    → has_id ids r ≡ true
    → (r.id == id) ≡ false
other_id now id ids r (sound, barred) h = elim (Bool-cases (r.id == id)) [
  | inl e ↦ cc (sound h, barred e)
  | inr e ↦ e
]

kept_id :
    (now : ℕ) (worker : String) (lease_seconds id : ℕ) (ids : List ℕ) (r : CommandResult)
    → (has_id ids r ≡ true → (r.id == id) ≡ false)
    → let r' = leased now worker lease_seconds ids r in has_id ids r' ≡ true → (r'.id == id) ≡ false
kept_id now worker lease_seconds id ids r sound = elim (Bool-cases (has_id ids r)) [
  | inl e ↦ rw e (λ _. sound e)
  | inr e ↦ rw e (λ h. cc)
]

-- A row that may not be leased is not given.
barred_not_given :
    (now limit : ℕ) (worker : String) (lease_seconds id : ℕ) (rows : List CommandResult)
    → IsOrdered rows
    → All (IsBarred now id) rows
    → All
        (λ (r : CommandResult). (r.id == id) ≡ false)
        (lease_pending now limit worker lease_seconds rows).0
unfolding lease_pending leasable_ids
barred_not_given now limit worker lease_seconds id rows o barred =
    let ids = leasable_ids now limit rows in
    All-order_by is_older _ _ (
      All-filter_of _ (has_id ids) _ (
        All-map _ (leased now worker lease_seconds ids) rows (
          All-mono _ _ (λ r p. kept_id now worker lease_seconds id ids r (other_id now id ids r p))
            rows
            (All-zip _ _ rows
              (key_in-select (λ (r : CommandResult). r.id) is_older (is_leasable now) limit rows o)
              barred))))

processed-IsBarred :
    (now later id : ℕ) (rows : List CommandResult)
    → All (IsBarred later id) (mark_processed now id rows)
unfolding mark_processed
processed-IsBarred now later id rows = All-map _ _ rows (
    All-of _
      (λ r. elim (Bool-cases (r.id == id)) [ inl e ↦ rw e (λ _. refl) | inr e ↦ rw e (λ h. cc) ])
      rows)

processed-IsOrdered :
    (now id : ℕ) (rows : List CommandResult)
    → IsOrdered rows
    → IsOrdered (mark_processed now id rows)
unfolding mark_processed
processed-IsOrdered now id rows o =
    IsKeyed-map (λ (r : CommandResult). r.id) _ rows (λ r. ground arith) o

-- A result that was marked as processed is not leased again, at any time and whatever the limit.
pub mark_processed_final :
    (now later limit id : ℕ) (worker : String) (lease_seconds : ℕ) (rows : List CommandResult)
    → IsOrdered rows
    → All
        (λ (r : CommandResult). (r.id == id) ≡ false)
        (lease_pending later limit worker lease_seconds (mark_processed now id rows)).0
mark_processed_final now later limit id worker lease_seconds rows o =
    barred_not_given later limit worker lease_seconds id (mark_processed now id rows)
      (processed-IsOrdered now id rows o) (processed-IsBarred now later id rows)

-- At most the one row with the id is selected.
leasable_id-cases :
    (now id : ℕ) (rows : List CommandResult)
    → (leasable_id now id rows ≡ []) ⊎ (leasable_id now id rows ≡ id ∷ [])
unfolding leasable_id
leasable_id-cases now id [] = inl refl
leasable_id-cases now id (r ∷ rs) = elim (Bool-cases (r.id == id && is_leasable now r)) [
  | inl e ↦ inr (rw e (ap (λ n. n ∷ []) (ground (arith, e))))
  | inr e ↦ rw e (leasable_id-cases now id rs)
]

leased-IsBarred :
    (now later id : ℕ) (worker : String) (lease_seconds : ℕ) (r : CommandResult)
    → later ≤ now + seconds lease_seconds
    → IsBarred later id (leased now worker lease_seconds (id ∷ []) r)
leased-IsBarred now later id worker lease_seconds r soon = elim (Bool-cases (id == r.id)) [
  | inl e ↦ rw e (λ _. ground (arith, is_held-taken now later lease_seconds worker soon))
  | inr e ↦ rw e (λ h. ground (arith, e, h))
]

leased-IsOrdered :
    (now : ℕ) (worker : String) (lease_seconds : ℕ) (ids : List ℕ) (rows : List CommandResult)
    → IsOrdered rows
    → IsOrdered (map (leased now worker lease_seconds ids) rows)
leased-IsOrdered now worker lease_seconds ids rows o =
    IsKeyed-map (λ (r : CommandResult). r.id) _ rows (λ r. ground arith) o

-- The rows that `lease_pending_by_id` gives, where it selected `ids`.
given-id :
    (id : ℕ) (rows : List CommandResult)
    → All (λ (r : CommandResult). (r.id == id) ≡ true) (take 1 (filter (has_id (id ∷ [])) rows))
given-id id rows = All-take _ 1 _ (All-filter _ (has_id (id ∷ [])) (λ r h. ground (arith, h)) rows)

given-none : (rows : List CommandResult) → take 1 (filter (has_id []) rows) ≡ []
given-none [] = refl
given-none (r ∷ rs) = given-none rs

ids_differ :
    (id : ℕ) (r r' : CommandResult) → (r.id == id) ≡ true → (r'.id == id) ≡ false → r.id ≢ r'.id
ids_differ id r r' h k e = ground (arith, h, k, e)

Excludes : List CommandResult → List CommandResult → Type 0
Excludes mine theirs =
    All (λ (r : CommandResult). All (λ (r' : CommandResult). r.id ≢ r'.id) theirs) mine

by_ids-Excludes :
    (now later limit id : ℕ) (worker worker' : String) (lease_seconds lease_seconds' : ℕ)
    (rows : List CommandResult) (ids : List ℕ)
    → IsOrdered rows
    → later ≤ now + seconds lease_seconds
    → (ids ≡ []) ⊎ (ids ≡ id ∷ [])
    → let left = map (leased now worker lease_seconds ids) rows in
      Excludes
        (take 1 (filter (has_id ids) left))
        (lease_pending later limit worker' lease_seconds' left).0
unfolding Excludes
by_ids-Excludes now later limit id worker worker' lease_seconds lease_seconds' rows ids o soon
      (inl e) =
    rw e (rw (given-none (map (leased now worker lease_seconds []) rows)) tt)
by_ids-Excludes now later limit id worker worker' lease_seconds lease_seconds' rows ids o soon
      (inr e) =
    let left = map (leased now worker lease_seconds (id ∷ [])) rows in
    let theirs =
      barred_not_given later limit worker' lease_seconds' id left
        (leased-IsOrdered now worker lease_seconds (id ∷ []) rows o)
        (All-map _ _ rows
          (All-of _ (λ r. leased-IsBarred now later id worker lease_seconds r soon) rows)) in
    rw e (
      All-mono _ _ (λ r h. All-mono _ _ (λ r' h'. ids_differ id r r' h h') _ theirs) _
        (given-id id left))

-- While the lease that `lease_pending_by_id` takes has not run out, `lease_pending` does not return
-- the result that it returned.
pub lease_pending_by_id-excludes :
    (now later limit id : ℕ) (worker worker' : String) (lease_seconds lease_seconds' : ℕ)
    (rows : List CommandResult)
    → IsOrdered rows
    → later ≤ now + seconds lease_seconds
    → let (mine, left) = lease_pending_by_id now id worker lease_seconds rows in
      let (theirs, _) = lease_pending later limit worker' lease_seconds' left in
      All (λ (r : CommandResult). All (λ (r' : CommandResult). r.id ≢ r'.id) theirs) mine
unfolding lease_pending_by_id Excludes
lease_pending_by_id-excludes now later limit id worker worker' lease_seconds lease_seconds' rows o
      soon =
    by_ids-Excludes now later limit id worker worker' lease_seconds lease_seconds' rows
      (leasable_id now id rows) o soon (leasable_id-cases now id rows)
