-- ===== src/Queue/Commands/Leases.antt =====
-- A lease on an external command excludes the other workers.
use ai_customer_service.Prelude.{
  ℕ, ◌+◌, ◌≤◌, ◌≡◌, ◌≢◌, true, false, String, List, map, arith, any, ◌==◌, All, All-mono, All-map,
  All-zip, All-filter, All-filter_of, All-of, Bool-cases, inl, inr,
}
use mathlib.Core.Path.{subst}
use ai_customer_service.Queue.Rows.{All-order_by, IsKeyed, IsKeyed-map, key_in-select}
use ai_customer_service.Queue.Lease.{seconds, is_held, is_held-taken}
use ai_customer_service.Queue.Commands.Defs.{
  Command, has_id, is_older, is_leasable, leasable_ids, take_lease, leased, lease_pending,
}

-- The rows stand in the order of their ids.
abbrev pub IsOrdered : List Command → Type 0
IsOrdered = IsKeyed (λ (c : Command). c.id)

leasable_ids_sound :
    (now limit : ℕ) (rows : List Command)
    → IsOrdered rows
    → All (λ c. has_id (leasable_ids now limit rows) c ≡ true → is_leasable now c ≡ true) rows
unfolding leasable_ids
leasable_ids_sound now limit rows o =
    key_in-select (λ (c : Command). c.id) is_older (is_leasable now) limit rows o

IsOrdered-leased :
    (now : ℕ) (worker : String) (lease_seconds : ℕ) (ids : List ℕ) (rows : List Command)
    → IsOrdered rows
    → IsOrdered (map (leased now worker lease_seconds ids) rows)
IsOrdered-leased now worker lease_seconds ids rows o =
    IsKeyed-map (λ (c : Command). c.id) _ rows (λ c. ground arith) o

not_leasable : (now : ℕ) (c : Command) → is_held now c.lease ≡ true → is_leasable now c ≡ false
not_leasable now c h = ground arith

-- A row leased at `now` cannot be leased again before its lease runs out.
leased_twice :
    (now later : ℕ) (worker : String) (lease_seconds : ℕ) (ids : List ℕ)
    → later ≤ now + seconds lease_seconds
    → (c : Command)
    → let c' = leased now worker lease_seconds ids c in
      has_id ids c' ≡ true → is_leasable later c' ≡ false
leased_twice now later worker lease_seconds ids soon c = elim (Bool-cases (has_id ids c)) [
  | inl mine ↦ rw mine λ _.
      not_leasable later (take_lease now worker lease_seconds c)
        (is_held-taken now later lease_seconds worker soon)
  | inr other ↦ rw other (λ h. cc)
]

exclusive :
    (now : ℕ) (ids ids' : List ℕ) (c : Command)
    → (has_id ids c ≡ true → is_leasable now c ≡ false)
      × (has_id ids' c ≡ true → is_leasable now c ≡ true)
    → has_id ids' c ≡ true
    → has_id ids c ≡ false
exclusive now ids ids' c p h = elim (Bool-cases (has_id ids c)) [
  | inl mine ↦ cc (p.0 mine, p.1 h)
  | inr other ↦ other
]

keeps_id :
    (now : ℕ) (worker : String) (lease_seconds : ℕ) (ids ids' : List ℕ) (c : Command)
    → (has_id ids' c ≡ true → has_id ids c ≡ false)
    → let c' = leased now worker lease_seconds ids' c in
      has_id ids' c' ≡ true → has_id ids c' ≡ false
keeps_id now worker lease_seconds ids ids' c sound = elim (Bool-cases (has_id ids' c)) [
  | inl theirs ↦ rw theirs (λ _. sound theirs)
  | inr other ↦ rw other (λ h. cc)
]

module _ (now later limit limit' : ℕ) (worker worker' : String) (lease_seconds lease_seconds' : ℕ)
    (rows : List Command) (o : IsOrdered rows) (soon : later ≤ now + seconds lease_seconds) where
  abbrev ids : List ℕ
  ids = leasable_ids now limit rows

  abbrev left : List Command
  left = map (leased now worker lease_seconds ids) rows

  abbrev ids' : List ℕ
  ids' = leasable_ids later limit' left

  not_both : All (λ c. has_id ids' c ≡ true → has_id ids c ≡ false) left
  not_both = All-mono _ _ (exclusive later ids ids') left (
      All-zip _ _ left
        (All-map _ (leased now worker lease_seconds ids) rows
          (All-of _ (leased_twice now later worker lease_seconds ids soon) rows))
        (leasable_ids_sound later limit' left
          (IsOrdered-leased now worker lease_seconds ids rows o)))

  mine_leased : All (λ c. has_id ids c ≡ true) (lease_pending now limit worker lease_seconds rows).0
  unfolding lease_pending
  mine_leased = All-order_by is_older _ _ (All-filter _ (has_id ids) (λ c h. h) left)

  theirs_left :
      All (λ c. has_id ids c ≡ false) (lease_pending later limit' worker' lease_seconds' left).0
  unfolding lease_pending
  theirs_left = All-order_by is_older _ _ (
      All-filter_of _ (has_id ids') _ (
        All-map _ (leased later worker' lease_seconds' ids') left
          (All-mono _ _ (keeps_id later worker' lease_seconds' ids ids') left not_both)))

id_differs :
    (ids : List ℕ) (c c' : Command) → has_id ids c ≡ true → has_id ids c' ≡ false → c.id ≢ c'.id
id_differs ids c c' h h' e = cc (subst (λ id. any (λ i. i == id) ids ≡ true) e h)

-- While the lease that one call of `lease_pending` takes has not run out, no other call returns a
-- command that the first one returned.
pub lease_pending-excludes :
    (now later limit limit' : ℕ) (worker worker' : String) (lease_seconds lease_seconds' : ℕ)
    (rows : List Command)
    → IsOrdered rows
    → later ≤ now + seconds lease_seconds
    → let (mine, left) = lease_pending now limit worker lease_seconds rows in
      let (theirs, _) = lease_pending later limit' worker' lease_seconds' left in
      All (λ (c : Command). All (λ (c' : Command). c.id ≢ c'.id) theirs) mine
unfolding lease_pending
lease_pending-excludes now later limit limit' worker worker' lease_seconds lease_seconds' rows o
      soon =
    let mine =
      mine_leased now later limit limit' worker worker' lease_seconds lease_seconds' rows o soon in
    let theirs =
      theirs_left now later limit limit' worker worker' lease_seconds lease_seconds' rows o soon in
    let ids = leasable_ids now limit rows in
    All-mono _ _ (λ c h. All-mono _ _ (λ c' h'. id_differs ids c c' h h') _ theirs) _ mine
