-- ===== src/Queue/Outbound/Exclusion.antt =====
-- A lease on the outbound messages of one conversation excludes the other workers.
use ai_customer_service.Prelude.{
  inl, inr, Bool-cases, ℕ, ◌≡◌, ◌≢◌, Bool, true, false, ◌&&◌, String, List, [], ◌∷◌, arith,
  if◌then◌else◌, ◌is◌, eq_iff, filter, any, All, All-map, All-take, All-filter, All-filter_of,
  All-mono, All-zip, All-of,
}
use ai_customer_service.Queue.Lease.{is_open}
use ai_customer_service.Queue.Outbound.Defs.{OutboundMessage}
use ai_customer_service.Queue.Outbound.Leasing.{
  lease_conversation_id, is_leasable, locks, has_id, take_lease, group_ids, lease_ids, add_group,
  lease_groups, leasable_conversations, lease_pending_groups, in_block_order, is_before,
}
use ai_customer_service.Queue.Rows.{All-order_by, IsKeyed, IsKeyed-map, key_in-select}

-- The rows stand in the order of their ids.
abbrev pub IsOrdered : List OutboundMessage → Type 0
IsOrdered = IsKeyed (λ (m : OutboundMessage). m.id)

-- The test of `group_ids` on one row.
abbrev pub selects : ℕ → ℕ → String → OutboundMessage → Bool
selects now delay key m = is_leasable now delay m && lease_conversation_id m is key

module _ (now delay most : ℕ) (worker : String) (lease_seconds : ℕ) where
  -- What is leased passed the tests.
  pub group_ids_sound :
      (key : String) (rows : List OutboundMessage)
      → IsOrdered rows
      → All
          (λ m.
            has_id (group_ids now delay most key rows) m ≡ true → selects now delay key m ≡ true)
          rows
  unfolding group_ids
  group_ids_sound key rows o =
      key_in-select (λ (m : OutboundMessage). m.id) is_before (selects now delay key) most rows o

  -- Leasing changes no id.
  pub IsOrdered-lease_ids :
      (ids : List ℕ) (rows : List OutboundMessage)
      → IsOrdered rows
      → IsOrdered (lease_ids now worker lease_seconds ids rows)
  unfolding lease_ids
  IsOrdered-lease_ids ids rows o =
      IsKeyed-map (λ (m : OutboundMessage). m.id) _ rows (λ m. ground arith) o

  module _ (R P : OutboundMessage → Type 0)
      (keep : (m : OutboundMessage) → R m → R (take_lease now worker lease_seconds m)) where
    -- A row that the selection for `key` lets through has `P` once it is leased.
    abbrev pub Grants : String → Type 0
    Grants key =
        (m : OutboundMessage)
        → R m
        → selects now delay key m ≡ true
        → P (take_lease now worker lease_seconds m)

    All-lease_ids :
        (ids : List ℕ) (rows : List OutboundMessage)
        → All R rows
        → All R (lease_ids now worker lease_seconds ids rows)
    unfolding lease_ids
    All-lease_ids ids [] h = tt
    All-lease_ids ids (m ∷ ms) (h, hs) = (
      elim (Bool-cases (has_id ids m)) [
        | inl chosen ↦ rw chosen (keep m h)
        | inr other ↦ rw other h
      ],
      All-lease_ids ids ms hs,
    )

    leased_row :
        (key : String) (ids : List ℕ)
        → Grants key
        → (m : OutboundMessage) → R m × (has_id ids m ≡ true → selects now delay key m ≡ true)
        → let m' = if has_id ids m then take_lease now worker lease_seconds m else m in
          has_id ids m' ≡ true → P m'
    leased_row key ids grant m (r, sound) = elim (Bool-cases (has_id ids m)) [
      | inl chosen ↦ rw chosen (λ _. grant m r (sound chosen))
      | inr other ↦ rw other (λ h. cc)
    ]

    group_All :
        (key : String) (rows : List OutboundMessage)
        → Grants key
        → IsOrdered rows
        → All R rows
        → let ids = group_ids now delay most key rows in
          All P (in_block_order (filter (has_id ids) (lease_ids now worker lease_seconds ids rows)))
    unfolding lease_ids
    group_All key rows grant o r =
        let ids = group_ids now delay most key rows in
        All-order_by is_before _ _ (
          All-filter_of _ _ _ (
            All-map _ _ rows (
              All-mono _ _ (leased_row key ids grant) rows
                (All-zip _ _ rows r (group_ids_sound key rows o)))))

    add_group-All :
        (ids : List ℕ) (rows : List OutboundMessage) (groups : List (List OutboundMessage))
        → All P (in_block_order (filter (has_id ids) rows))
        → All (All P) groups
        → All (All P) (add_group ids rows groups)
    add_group-All [] rows groups h hs = hs
    add_group-All (id ∷ ids) rows groups h hs = (h, hs)

    -- What the selection grants to a row holds of every row that is handed out.
    pub lease_groups-All :
        (keys : List String) (rows : List OutboundMessage)
        → All Grants keys
        → IsOrdered rows
        → All R rows
        → All (All P) (lease_groups now delay most worker lease_seconds keys rows).0
    unfolding lease_groups
    lease_groups-All [] rows grant o r = tt
    lease_groups-All (key ∷ keys) rows (grant, grants) o r =
        let ids = group_ids now delay most key rows in
        let rows' = lease_ids now worker lease_seconds ids rows in
        add_group-All ids rows' (lease_groups now delay most worker lease_seconds keys rows').0
          (group_All key rows grant o r)
          (lease_groups-All keys rows' grants (IsOrdered-lease_ids ids rows o)
            (All-lease_ids ids rows r))

  -- The conversations that are selected have no row that is held.
  leasable_conversations-All :
      (limit : ℕ) (rows : List OutboundMessage)
      → All (λ key. any (locks now key) rows ≡ false) (leasable_conversations now delay limit rows)
  unfolding leasable_conversations
  leasable_conversations-All limit rows =
      All-map _ _ _ (All-take _ limit _ (All-filter _ _ (λ m h. ground arith) rows))

  key_of_selects :
      (key : String) (m : OutboundMessage)
      → selects now delay key m ≡ true
      → lease_conversation_id m ≡ key
  key_of_selects key m h = (eq_iff (lease_conversation_id m) key).0 (ground arith)

  grants_free :
      (rows : List OutboundMessage) (key : String)
      → any (locks now key) rows ≡ false
      → (m : OutboundMessage) → Unit {0}
      → selects now delay key m ≡ true
      → any (locks now (lease_conversation_id m)) rows ≡ false
  grants_free rows key free m _ h = rw (key_of_selects key m h) free

  -- No message is handed out of a conversation in which an open message is held under a lease
  -- that has not run out.
  pub lease_pending_groups-skips_held :
      (limit : ℕ) (rows : List OutboundMessage)
      → IsOrdered rows
      → All
          (All (λ m. any (locks now (lease_conversation_id m)) rows ≡ false))
          (lease_pending_groups now delay limit worker lease_seconds most rows).0
  unfolding lease_pending_groups
  lease_pending_groups-skips_held limit rows o =
      lease_groups-All (λ _. Unit {0}) (λ m. any (locks now (lease_conversation_id m)) rows ≡ false)
        (λ _ _. tt) _ rows
        (All-mono _ _ (grants_free rows) _ (leasable_conversations-All limit rows)) o
        (All-of _ (λ _. tt) rows)

  grants_leased :
      (id : ℕ) (key : String) (m : OutboundMessage)
      → (m.id ≡ id → is_open m.status ≡ false)
      → selects now delay key m ≡ true
      → m.id ≢ id
  grants_leased id key m closed h e = grind arith

  -- A row whose status is closed is handed out to nobody.
  pub lease_pending_groups-skips_closed :
      (limit id : ℕ) (rows : List OutboundMessage)
      → IsOrdered rows
      → All (λ (m : OutboundMessage). m.id ≡ id → is_open m.status ≡ false) rows
      → All
          (All (λ (m : OutboundMessage). m.id ≢ id))
          (lease_pending_groups now delay limit worker lease_seconds most rows).0
  unfolding lease_pending_groups
  lease_pending_groups-skips_closed limit id rows o closed =
      lease_groups-All (λ m. m.id ≡ id → is_open m.status ≡ false) (λ m. m.id ≢ id) (λ _ h. h)
        (leasable_conversations now delay limit rows) rows (All-of _ (grants_leased id) _) o closed
