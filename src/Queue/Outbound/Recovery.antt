-- ===== src/Queue/Outbound/Recovery.antt =====
-- Recovery of expired leases, and the order of sending.
use ai_customer_service.Prelude.{
  ℕ, ◌≡◌, refl, true, false, String, List, [], ◌∷◌, map, arith, filter, length, All,
}
use ai_customer_service.Queue.Rows.{IsInOrder, IsInOrder-order_by}
use ai_customer_service.Queue.Outbound.Defs.{OutboundMessage}
use ai_customer_service.Queue.Outbound.Leasing.{
  is_leasable, has_id, add_group, group_ids, lease_ids, lease_groups, lease_pending_groups,
  leasable_conversations, is_before,
}
use ai_customer_service.Queue.Outbound.Updates.{is_stale, recovered, recover_expired_leases}

recovered_row :
    (now delay : ℕ) (m : OutboundMessage)
    → (is_leasable now delay (recovered now m) ≡ is_leasable now delay m)
      × (is_stale now (recovered now m) ≡ false)
recovered_row now delay m = ground arith

recovered_rows :
    (now delay : ℕ) (rows : List OutboundMessage)
    → (map (is_leasable now delay) (map (recovered now) rows) ≡ map (is_leasable now delay) rows)
      × All (λ m. is_stale now m ≡ false) (map (recovered now) rows)
recovered_rows now delay [] = (refl, tt)
recovered_rows now delay (m ∷ ms) =
    let (same, fresh) = recovered_row now delay m in
    let (all_same, all_fresh) = recovered_rows now delay ms in
    ((λ i. same i ∷ all_same i), (fresh, all_fresh))

nothing_stale :
    (now : ℕ) (rows : List OutboundMessage)
    → All (λ m. is_stale now m ≡ false) rows
    → (map (recovered now) rows ≡ rows) × (length (filter (is_stale now) rows) ≡ 0)
nothing_stale now [] h = (refl, refl)
nothing_stale now (m ∷ ms) (fresh, h) =
    let (rest, none_left) = nothing_stale now ms h in (rw (fresh, rest), rw (fresh, none_left))

-- Recovering the expired leases changes for no row whether it may be leased, and a second
-- recovery at the same time finds nothing to do.
pub recover_expired_leases_neutral :
    (now delay : ℕ) (rows : List OutboundMessage)
    → let (rows', changed) = recover_expired_leases now rows in
      (map (is_leasable now delay) rows' ≡ map (is_leasable now delay) rows)
      × (recover_expired_leases now rows' ≡ (rows', 0))
unfolding recover_expired_leases
recover_expired_leases_neutral now delay rows =
    let (same, fresh) = recovered_rows now delay rows in
    let (kept, none_left) = nothing_stale now (map (recovered now) rows) fresh in
    (same, λ i. (kept i, none_left i))

is_before_trans :
    (a b c : OutboundMessage) → is_before a b ≡ true → is_before b c ≡ true → is_before a c ≡ true
is_before_trans a b c h k = ground arith

is_before_total : (a b : OutboundMessage) → is_before a b ≡ false → is_before b a ≡ true
is_before_total a b h = ground arith

-- Every message may stand before all that follow it.
abbrev pub InBlockOrder : List OutboundMessage → Type 0
InBlockOrder = IsInOrder is_before

add_group-InBlockOrder :
    (ids : List ℕ) (rows : List OutboundMessage) (groups : List (List OutboundMessage))
    → All InBlockOrder groups
    → All InBlockOrder (add_group ids rows groups)
add_group-InBlockOrder [] rows groups h = h
add_group-InBlockOrder (id ∷ ids) rows groups h = (
  IsInOrder-order_by is_before is_before_trans is_before_total (filter (has_id (id ∷ ids)) rows),
  h,
)

lease_groups-InBlockOrder :
    (now delay most : ℕ) (worker : String) (lease_seconds : ℕ) (keys : List String)
    (rows : List OutboundMessage)
    → All InBlockOrder (lease_groups now delay most worker lease_seconds keys rows).0
unfolding lease_groups
lease_groups-InBlockOrder now delay most worker lease_seconds [] rows = tt
lease_groups-InBlockOrder now delay most worker lease_seconds (key ∷ keys) rows =
    let ids = group_ids now delay most key rows in
    let rows' = lease_ids now worker lease_seconds ids rows in
    add_group-InBlockOrder ids rows' _
      (lease_groups-InBlockOrder now delay most worker lease_seconds keys rows')

-- The messages of each group come in the order of their block index, those without one last, and
-- in the order of their ids where that is equal.
pub lease_pending_groups-InBlockOrder :
    (now delay limit most lease_seconds : ℕ) (worker : String) (rows : List OutboundMessage)
    → All InBlockOrder (lease_pending_groups now delay limit worker lease_seconds most rows).0
unfolding lease_pending_groups
lease_pending_groups-InBlockOrder now delay limit most lease_seconds worker rows =
    lease_groups-InBlockOrder now delay most worker lease_seconds
      (leasable_conversations now delay limit rows) rows
