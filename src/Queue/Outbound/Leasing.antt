-- ===== src/Queue/Outbound/Leasing.antt =====
-- The leases of the conversations of `outbound_messages` (src/app/db/repositories.py).
use ai_customer_service.Prelude.{
  ◌<>◌, ℕ, ◌+◌, String, Bool, not, ◌&&◌, ◌||◌, some, List, [], ◌∷◌, map, ltb, leb, ◌==◌,
  if◌then◌else◌, coalesce, take, filter, any, decimal, ◌is◌,
}
use ai_customer_service.Queue.Rows.{order_by, key_in}
use ai_customer_service.Queue.Lease.{seconds, taken, is_free, is_held, is_open}
use ai_customer_service.Queue.Outbound.Defs.{OutboundMessage}

-- COALESCE(conversation_id, CONCAT('outbound:', id))
abbrev pub lease_conversation_id : OutboundMessage → String
lease_conversation_id m = coalesce m.conversation_id ("outbound:" <> decimal m.id)

-- A PENDING row waits for the initial delay.
abbrev pub is_due : ℕ → ℕ → OutboundMessage → Bool
is_due now delay m = not (m.status is "PENDING") || leb (m.created_at + seconds delay) now

abbrev pub is_leasable : ℕ → ℕ → OutboundMessage → Bool
is_leasable now delay m = is_open m.status && is_due now delay m && is_free now m.lease

-- An open row of the conversation that another worker holds.
abbrev pub locks : ℕ → String → OutboundMessage → Bool
locks now key m = is_open m.status && lease_conversation_id m is key && is_held now m.lease

-- An open row of the conversation with a smaller id.
abbrev pub precedes : OutboundMessage → OutboundMessage → Bool
precedes m earlier =
    is_open earlier.status
    && lease_conversation_id earlier is lease_conversation_id m
    && ltb earlier.id m.id

-- The conversations that `conversation_sql` selects, by their first open row.
unfoldable pub leasable_conversations : ℕ → ℕ → ℕ → List OutboundMessage → List String
leasable_conversations now delay limit rows = map lease_conversation_id (
    take limit (
      filter
        (λ m.
          is_leasable now delay m
          && not (any (precedes m) rows)
          && not (any (locks now (lease_conversation_id m)) rows))
        rows))

-- COALESCE(block_index, 2147483647)
abbrev pub block_order : OutboundMessage → ℕ
block_order m = coalesce m.block_index 2147483647

-- ORDER BY COALESCE(block_index, 2147483647), id
abbrev pub is_before : OutboundMessage → OutboundMessage → Bool
is_before a b =
    ltb (block_order a) (block_order b) || block_order a == block_order b && leb a.id b.id

abbrev pub in_block_order : List OutboundMessage → List OutboundMessage
in_block_order = order_by is_before

-- The ids that `select_sql` selects in one conversation.
unfoldable pub group_ids : ℕ → ℕ → ℕ → String → List OutboundMessage → List ℕ
unfolding order_by
group_ids now delay most key rows =
    map (λ (m : OutboundMessage). m.id)
      (take most (
        in_block_order
          (filter (λ m. is_leasable now delay m && lease_conversation_id m is key) rows)))

-- `id IN (ids)`
abbrev pub has_id : List ℕ → OutboundMessage → Bool
has_id = key_in (λ (m : OutboundMessage). m.id)

abbrev pub take_lease : ℕ → String → ℕ → OutboundMessage → OutboundMessage
take_lease now worker lease_seconds m = record m {
  lease = taken now worker lease_seconds;
  attempted_at = some now;
}

unfoldable pub lease_ids : ℕ → String → ℕ → List ℕ → List OutboundMessage → List OutboundMessage
lease_ids now worker lease_seconds ids rows =
    map (λ m. if has_id ids m then take_lease now worker lease_seconds m else m) rows

-- `if not ids: continue`; otherwise the rows fetched again are one more group.
abbrev pub add_group :
    List ℕ → List OutboundMessage → List (List OutboundMessage) → List (List OutboundMessage)
add_group [] rows groups = groups
add_group (id ∷ ids) rows groups = in_block_order (filter (has_id (id ∷ ids)) rows) ∷ groups

-- The loop over the conversations: lease the rows of one, and fetch them again.
unfoldable pub lease_groups :
    ℕ
    → ℕ
    → ℕ
    → String
    → ℕ
    → List String
    → List OutboundMessage
    → List (List OutboundMessage) × List OutboundMessage
unfolding group_ids lease_ids order_by
lease_groups now delay most worker lease_seconds [] rows = ([], rows)
lease_groups now delay most worker lease_seconds (key ∷ keys) rows =
    let ids = group_ids now delay most key rows in
    let rows' = lease_ids now worker lease_seconds ids rows in
    let (groups, final) = lease_groups now delay most worker lease_seconds keys rows' in
    (add_group ids rows' groups, final)

-- The rows of each group, in the order of sending. The fetch joins the conversation's state to
-- each row, which the sender reads (`Task` of Sender).
unfoldable pub lease_pending_groups :
    ℕ
    → ℕ
    → ℕ
    → String
    → ℕ
    → ℕ
    → List OutboundMessage
    → List (List OutboundMessage) × List OutboundMessage
unfolding lease_groups leasable_conversations
lease_pending_groups now delay limit worker lease_seconds most rows =
    lease_groups now delay most worker lease_seconds (leasable_conversations now delay limit rows)
      rows
