-- ===== src/Queue/Outbound/Workers.antt =====
-- Two sender workers that lease one after the other: who gets what.
use ai_customer_service.Prelude.{
  inl, inr, and_replace, and_intro, or_mono, eq_refl, ◌is◌, Bool-cases, any_self, ℕ, ◌+◌, ◌≤◌, ◌≡◌,
  ◌≢◌, true, false, String, List, [], ◌∷◌, arith, if◌then◌else◌, filter, any, All, All-map,
  All-filter_of, All-mono, All-zip,
}
use ai_customer_service.Queue.Lease.{seconds, is_held-taken, is_open, is_held}
use ai_customer_service.Queue.Outbound.Defs.{OutboundMessage}
use ai_customer_service.Queue.Outbound.Leasing.{
  lease_conversation_id, locks, has_id, take_lease, group_ids, lease_ids, add_group, lease_groups,
  lease_pending_groups, leasable_conversations, in_block_order, is_before,
}
use ai_customer_service.Queue.Rows.{All-order_by}
use ai_customer_service.Queue.Outbound.Exclusion.{
  IsOrdered, selects, group_ids_sound, IsOrdered-lease_ids, lease_pending_groups-skips_held,
}

open_of_selects :
    (now delay : ℕ) (key : String) (m : OutboundMessage)
    → selects now delay key m ≡ true
    → is_open m.status ≡ true
open_of_selects now delay key m h = ground arith

module _ (now later delay most : ℕ) (worker : String) (lease_seconds : ℕ)
    (soon : later ≤ now + seconds lease_seconds) where
  locks_kept :
      (key : String) (ids : List ℕ) (m : OutboundMessage)
      → locks later key m ≡ true
      → locks later key (if has_id ids m then take_lease now worker lease_seconds m else m) ≡ true
  locks_kept key ids m h = elim (Bool-cases (has_id ids m)) [
    | inl chosen ↦ rw chosen (
        and_replace (is_open m.status) (lease_conversation_id m is key) (is_held later m.lease) _ h
          (is_held-taken now later lease_seconds worker soon))
    | inr other ↦ rw other h
  ]

  locks-lease_ids :
      (key : String) (ids : List ℕ) (rows : List OutboundMessage)
      → any (locks later key) rows ≡ true
      → any (locks later key) (lease_ids now worker lease_seconds ids rows) ≡ true
  unfolding lease_ids
  locks-lease_ids key ids [] h = h
  locks-lease_ids key ids (m ∷ ms) h =
      or_mono _ _ _ _ (locks_kept key ids m) (locks-lease_ids key ids ms) h

  locks-lease_groups :
      (key : String) (keys : List String) (rows : List OutboundMessage)
      → any (locks later key) rows ≡ true
      → any (locks later key) (lease_groups now delay most worker lease_seconds keys rows).1 ≡ true
  unfolding lease_groups
  locks-lease_groups key [] rows h = h
  locks-lease_groups key (k ∷ keys) rows h =
      let ids = group_ids now delay most k rows in
      locks-lease_groups key keys (lease_ids now worker lease_seconds ids rows)
        (locks-lease_ids key ids rows h)

  leased_row_locks :
      (key : String) (ids : List ℕ) (m : OutboundMessage)
      → (has_id ids m ≡ true → selects now delay key m ≡ true)
      → let m' = if has_id ids m then take_lease now worker lease_seconds m else m in
        has_id ids m' ≡ true → locks later (lease_conversation_id m') m' ≡ true
  leased_row_locks key ids m sound = elim (Bool-cases (has_id ids m)) [
    | inl chosen ↦ rw chosen λ _.
        and_intro (is_open m.status) _ _ (open_of_selects now delay key m (sound chosen))
          (eq_refl (lease_conversation_id m)) (is_held-taken now later lease_seconds worker soon)
    | inr other ↦ rw other (λ h. cc)
  ]

  locked_of :
      (ids : List ℕ) (rows : List OutboundMessage) (m : OutboundMessage)
      → (has_id ids m ≡ true → locks later (lease_conversation_id m) m ≡ true)
        × (locks later (lease_conversation_id m) m ≡ true
            → any (locks later (lease_conversation_id m)) rows ≡ true)
      → has_id ids m ≡ true
      → any (locks later (lease_conversation_id m)) rows ≡ true
  locked_of ids rows m p h = p.1 (p.0 h)

  group_locks :
      (key : String) (rows : List OutboundMessage)
      → IsOrdered rows
      → let ids = group_ids now delay most key rows in
        let rows' = lease_ids now worker lease_seconds ids rows in
        All
          (λ m. any (locks later (lease_conversation_id m)) rows' ≡ true)
          (in_block_order (filter (has_id ids) rows'))
  unfolding lease_ids
  group_locks key rows o =
      let ids = group_ids now delay most key rows in
      let rows' = lease_ids now worker lease_seconds ids rows in
      All-order_by is_before _ _ (
        All-filter_of _ _ rows' (
          All-mono _ _ (locked_of ids rows') rows' (
            All-zip _ _ rows'
              (All-map _ _ rows (
                All-mono _ _ (leased_row_locks key ids) rows
                  (group_ids_sound now delay most worker lease_seconds key rows o)))
              (any_self (λ m. locks later (lease_conversation_id m)) rows'))))

  add_group-locks :
      (ids : List ℕ) (rows final : List OutboundMessage) (groups : List (List OutboundMessage))
      → ((key : String) → any (locks later key) rows ≡ true → any (locks later key) final ≡ true)
      → All
          (λ m. any (locks later (lease_conversation_id m)) rows ≡ true)
          (in_block_order (filter (has_id ids) rows))
      → All (All (λ m. any (locks later (lease_conversation_id m)) final ≡ true)) groups
      → All
          (All (λ m. any (locks later (lease_conversation_id m)) final ≡ true))
          (add_group ids rows groups)
  add_group-locks [] rows final groups keep h hs = hs
  add_group-locks (id ∷ ids) rows final groups keep h hs =
      (All-mono _ _ (λ m. keep (lease_conversation_id m)) _ h, hs)

  lease_groups-locks :
      (keys : List String) (rows : List OutboundMessage)
      → IsOrdered rows
      → let (groups, final) = lease_groups now delay most worker lease_seconds keys rows in
        All (All (λ m. any (locks later (lease_conversation_id m)) final ≡ true)) groups
        × IsOrdered final
  unfolding lease_groups
  lease_groups-locks [] rows o = (tt, o)
  lease_groups-locks (key ∷ keys) rows o =
      let ids = group_ids now delay most key rows in
      let rows' = lease_ids now worker lease_seconds ids rows in
      let (locked, ordered) =
        lease_groups-locks keys rows'
          (IsOrdered-lease_ids now delay most worker lease_seconds ids rows o) in
      (
        add_group-locks ids rows' (lease_groups now delay most worker lease_seconds keys rows').1
            (lease_groups now delay most worker lease_seconds keys rows').0
            (λ k. locks-lease_groups k keys rows') (group_locks key rows o) locked,
        ordered,
      )

differ :
    (now : ℕ) (k k' : String) (rows : List OutboundMessage)
    → any (locks now k) rows ≡ true
    → any (locks now k') rows ≡ false
    → k ≢ k'
differ now k k' rows h h' e = cc (rw (← e) at h')

-- While the lease that one call of `lease_pending_groups` takes has not run out, no other call
-- hands out a message of any conversation that the first one handed out.
pub lease_pending_groups-excludes :
    (now later delay limit limit' most most' lease_seconds lease_seconds' : ℕ)
    (worker worker' : String) (rows : List OutboundMessage)
    → IsOrdered rows
    → later ≤ now + seconds lease_seconds
    → let (mine, left) = lease_pending_groups now delay limit worker lease_seconds most rows in
      let (theirs, _) = lease_pending_groups later delay limit' worker' lease_seconds' most' left in
      All
        (All (λ m. All (All (λ m'. lease_conversation_id m ≢ lease_conversation_id m')) theirs))
        mine
unfolding lease_pending_groups
lease_pending_groups-excludes now later delay limit limit' most most' lease_seconds lease_seconds'
      worker worker' rows o soon =
    let keys = leasable_conversations now delay limit rows in
    let (locked, ordered) =
      lease_groups-locks now later delay most worker lease_seconds soon keys rows o in
    let left = (lease_groups now delay most worker lease_seconds keys rows).1 in
    All-mono _ _
      (All-mono _ _ (λ m h. All-mono _ _ (All-mono _ _ (λ m' h'. differ later _ _ left h h')) _ (
        lease_pending_groups-skips_held later delay most' worker' lease_seconds' limit' left
          ordered)))
      _ locked
