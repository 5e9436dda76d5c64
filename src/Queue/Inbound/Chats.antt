-- ===== src/Queue/Inbound/Chats.antt =====
-- The events of one chat are given to one worker at a time, in their order
-- (src/app/db/repositories.py).
use mathlib.Core.Path.{subst}
use ai_customer_service.Prelude.{
  ℕ, ◌+◌, ◌≤◌, ◌≡◌, ◌≢◌, refl, sym, ◌∙◌, true, false, String, List, [], ◌∷◌, map, arith, any, ltb,
  ◌==◌, eq_iff, All, All-mono, All-map, All-zip, All-filter_of, All-of, Bool-cases, inl, inr,
}
use ai_customer_service.Queue.Rows.{IsKeyed, IsKeyed-map, key_in-limit}
use ai_customer_service.Queue.Lease.{seconds, is_free, is_held-taken}
use ai_customer_service.Queue.Inbound.Defs.{
  InboundRow, is_waiting, lease_chat_id, precedes, is_leasable, has_id, leasable_ids, leased,
  lease_unprocessed,
}

-- The rows stand in the order of their ids.
abbrev pub IsOrdered : List InboundRow → Type 0
IsOrdered = IsKeyed (λ (row : InboundRow). row.id)

-- What a row is one of the rows for: it precedes another row there.
abbrev Stands : List InboundRow → InboundRow → Type 0
Stands rows row = (r : InboundRow) → precedes r row ≡ true → any (precedes r) rows ≡ true

All-Stands : (rows : List InboundRow) → All (Stands rows) rows
All-Stands [] = tt
All-Stands (x ∷ xs) =
    ((λ r h. ground (arith, h)), All-mono _ _ (λ y s r h. ground (arith, s r h)) xs (All-Stands xs))

module _ (now : ℕ) (worker : String) (lease_seconds : ℕ) (ids : List ℕ) where
  abbrev set : InboundRow → InboundRow
  set = leased now worker lease_seconds ids

  any-precedes-leased :
      (r : InboundRow) (rows : List InboundRow)
      → any (precedes r) (map set rows) ≡ any (precedes r) rows
  any-precedes-leased r [] = refl
  any-precedes-leased r (x ∷ xs) = elim (Bool-cases (has_id ids x)) [
    | inl e ↦ rw (e, any-precedes-leased r xs) refl
    | inr e ↦ rw (e, any-precedes-leased r xs) refl
  ]

  -- A property that does not look at the lease.
  leased_keeps :
      (P : InboundRow → Type 0) (row : InboundRow)
      → ((l : InboundRow) → l.id ≡ row.id → l.event ≡ row.event → l.processed ≡ row.processed → P l)
      → P (set row)
  leased_keeps P row all = elim (Bool-cases (has_id ids row)) [
    | inl e ↦ rw e (all _ refl refl refl)
    | inr e ↦ rw e (all row refl refl refl)
  ]

  IsOrdered-leased : (rows : List InboundRow) → IsOrdered rows → IsOrdered (map set rows)
  IsOrdered-leased rows o = IsKeyed-map (λ (row : InboundRow). row.id) _ rows (λ r. ground arith) o

  -- A row that was leased is not free before its lease runs out.
  leased_not_free :
      (later : ℕ)
      → later ≤ now + seconds lease_seconds
      → (row : InboundRow) → has_id ids (set row) ≡ true
      → is_free later (set row).lease ≡ false
  leased_not_free later soon row = elim (Bool-cases (has_id ids row)) [
    | inl e ↦ rw e (λ _. ground (arith, is_held-taken now later lease_seconds worker soon))
    | inr e ↦ rw e (λ h. cc)
  ]

  -- What a row that is given has.
  mine_row :
      (rows : List InboundRow) (row : InboundRow)
      → (has_id ids row ≡ true → is_leasable now rows row ≡ true)
      → has_id ids (set row) ≡ true
      → (any (precedes (set row)) (map set rows) ≡ false) × (is_waiting (set row) ≡ true)
  mine_row rows row sound = elim (Bool-cases (has_id ids row)) [
    | inl e ↦
        (let passes = sound e in
          rw e
            (λ _. (any-precedes-leased row rows ∙ ground (arith, passes), ground (arith, passes))))
    | inr e ↦ rw e (λ h. cc)
  ]

not_held :
    (later : ℕ) (rows : List InboundRow) (row : InboundRow)
    → is_leasable later rows row ≡ true
    → is_free later row.lease ≡ true
not_held later rows row h = ground (arith, h)

-- What a row that is given to another worker has, where `mine` has the ids that are held.
theirs_row :
    (later : ℕ) (worker : String) (lease_seconds : ℕ) (ids mine : List ℕ) (rows : List InboundRow)
    (row : InboundRow)
    → (has_id ids row ≡ true → is_leasable later rows row ≡ true)
      × Stands rows row
      × (has_id mine row ≡ true → is_free later row.lease ≡ false)
    → let row' = leased later worker lease_seconds ids row in
      has_id ids row' ≡ true
      → (has_id mine row' ≡ false)
        × (any (precedes row') rows ≡ false)
        × (is_waiting row' ≡ true)
        × Stands rows row'
theirs_row later worker lease_seconds ids mine rows row (sound, stands, held) =
    elim (Bool-cases (has_id ids row)) [
      | inl e ↦
          (let passes = sound e in
            let other : has_id mine row ≡ false = elim (Bool-cases (has_id mine row)) [
              | inl h ↦ cc (held h, not_held later rows row passes)
              | inr h ↦ h
            ] in
            rw e (λ _. (other, ground (arith, passes), ground (arith, passes), stands)))
      | inr e ↦ rw e (λ h. cc)
    ]

with_id :
    (ids : List ℕ) (rows : List InboundRow) (r : InboundRow)
    → (has_id ids r ≡ true → (any (precedes r) rows ≡ false) × (is_waiting r ≡ true))
      × Stands rows r
    → has_id ids r ≡ true
    → (has_id ids r ≡ true)
      × (any (precedes r) rows ≡ false)
      × (is_waiting r ≡ true)
      × Stands rows r
with_id ids rows r (sound, stands) h = (h, (sound h).0, (sound h).1, stands)

-- Two rows of one chat, both waiting and each the first of its chat, have one id.
apart :
    (ids : List ℕ) (rows : List InboundRow) (r r' : InboundRow)
    → (has_id ids r ≡ true)
      × (any (precedes r) rows ≡ false)
      × (is_waiting r ≡ true)
      × Stands rows r
    → (has_id ids r' ≡ false)
      × (any (precedes r') rows ≡ false)
      × (is_waiting r' ≡ true)
      × Stands rows r'
    → lease_chat_id r ≢ lease_chat_id r'
apart ids rows r r' (held, first, waits, stands) (free, first', waits', stands') e =
    elim (Bool-cases (ltb r.id r'.id)) [
      | inl before ↦ cc (
        stands r'
            (ground (arith, waits, before, (eq_iff (lease_chat_id r) (lease_chat_id r')).1 e)),
        first',
      )
      | inr not_before ↦ elim (Bool-cases (ltb r'.id r.id)) [
        | inl after ↦ cc (
          stands' r (
              ground
                (arith, waits', after, (eq_iff (lease_chat_id r') (lease_chat_id r)).1 (sym e))),
          first,
        )
        | inr not_after ↦
            (let same : r.id ≡ r'.id = ground (arith, not_before, not_after) in
              let h = subst (λ id. any (λ i. i == id) ids ≡ true) same held in cc (h, free))
      ]
    ]

module _ (now later limit limit' : ℕ) (worker worker' : String) (lease_seconds lease_seconds' : ℕ)
    (rows : List InboundRow) (o : IsOrdered rows) (soon : later ≤ now + seconds lease_seconds) where
  abbrev ids : List ℕ
  ids = leasable_ids now limit rows

  abbrev left : List InboundRow
  left = map (leased now worker lease_seconds ids) rows

  abbrev ids' : List ℕ
  ids' = leasable_ids later limit' left

  mine-All :
      All
        (λ (r : InboundRow).
          (has_id ids r ≡ true)
          × (any (precedes r) left ≡ false)
          × (is_waiting r ≡ true)
          × Stands left r)
        (lease_unprocessed now limit worker lease_seconds rows).0
  unfolding lease_unprocessed leasable_ids
  mine-All = All-filter_of _ (has_id ids) left (
      All-mono _ _ (with_id ids left) left (
        All-zip _ _ left
          (All-map _ _ rows (
            All-mono _ _ (mine_row now worker lease_seconds ids rows) rows
              (key_in-limit (λ (row : InboundRow). row.id) (is_leasable now rows) limit rows o)))
          (All-Stands left)))

  theirs-All :
      All
        (λ (r : InboundRow).
          (has_id ids r ≡ false)
          × (any (precedes r) left ≡ false)
          × (is_waiting r ≡ true)
          × Stands left r)
        (lease_unprocessed later limit' worker' lease_seconds' left).0
  unfolding lease_unprocessed leasable_ids
  theirs-All = All-filter_of _ (has_id ids') _ (
      All-map _ _ left (
        All-mono _ _
          (λ r p. theirs_row later worker' lease_seconds' ids' ids left r (p.0, p.1.0, p.1.1)) left
          (All-zip _ _ left
            (key_in-limit (λ (row : InboundRow). row.id) (is_leasable later left) limit' left
              (IsOrdered-leased now worker lease_seconds ids rows o))
            (All-zip _ _ left (All-Stands left) (
              All-map _ _ rows
                (All-of _ (leased_not_free now worker lease_seconds ids later soon) rows))))))

-- While the lease that one call of `lease_unprocessed` takes has not run out, no other call hands
-- out an event of any chat that the first one handed out an event of, be it that event or another:
-- the events of a chat are worked off by one worker at a time.
pub lease_unprocessed-excludes :
    (now later limit limit' : ℕ) (worker worker' : String) (lease_seconds lease_seconds' : ℕ)
    (rows : List InboundRow)
    → IsOrdered rows
    → later ≤ now + seconds lease_seconds
    → let (mine, left) = lease_unprocessed now limit worker lease_seconds rows in
      let (theirs, _) = lease_unprocessed later limit' worker' lease_seconds' left in
      All
        (λ (r : InboundRow). All (λ (r' : InboundRow). lease_chat_id r ≢ lease_chat_id r') theirs)
        mine
unfolding lease_unprocessed
lease_unprocessed-excludes now later limit limit' worker worker' lease_seconds lease_seconds' rows o
      soon =
    let mine =
      mine-All now later limit limit' worker worker' lease_seconds lease_seconds' rows o soon in
    let theirs =
      theirs-All now later limit limit' worker worker' lease_seconds lease_seconds' rows o soon in
    let ids = leasable_ids now limit rows in
    let left = map (leased now worker lease_seconds ids) rows in
    All-mono _ _ (λ r h. All-mono _ _ (λ r' h'. apart ids left r r' h h') _ theirs) _ mine
