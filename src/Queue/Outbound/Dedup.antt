-- ===== src/Queue/Outbound/Dedup.antt =====
-- The unique key on `dedup_key`.
use ai_customer_service.Prelude.{
  ℕ, ◌<◌, ◌≡◌, ◌≢◌, refl, Bool, true, false, List, [], ◌∷◌, ◌++◌, none, arith, ◌is◌, any, All,
  All-mono, All-append, Bool-cases, inl, inr, eq_refl, eq_iff,
}
use ai_customer_service.Queue.Outbound.Defs.{
  Draft, OutboundMessage, Table, outbound_dedup_key, inserted_row, insert_idempotent,
}
use ai_customer_service.Queue.Outbound.Exclusion.{IsOrdered}

abbrev pub HaveDistinctKeys : List OutboundMessage → Type 0
HaveDistinctKeys [] = Unit {0}
HaveDistinctKeys (m ∷ ms) =
    All (λ (other : OutboundMessage). m.dedup_key ≢ other.dedup_key) ms × HaveDistinctKeys ms

-- The table's constraints: increasing ids below the next one, distinct dedup keys.
pub record IsValid (t : Table) : Type 0 where
  pub ordered : IsOrdered t.rows
  pub below : All (λ (m : OutboundMessage). m.id < t.next_id) t.rows
  pub distinct : HaveDistinctKeys t.rows

IsOrdered-append :
    (rows : List OutboundMessage) (m : OutboundMessage)
    → IsOrdered rows
    → All (λ (x : OutboundMessage). x.id < m.id) rows
    → IsOrdered (rows ++ m ∷ [])
IsOrdered-append [] m o h = (tt, tt)
IsOrdered-append (x ∷ xs) m (above, o) (h, hs) =
    (All-append _ xs (m ∷ []) above (h, tt), IsOrdered-append xs m o hs)

HaveDistinctKeys-append :
    (rows : List OutboundMessage) (m : OutboundMessage)
    → HaveDistinctKeys rows
    → any (λ (row : OutboundMessage). row.dedup_key is m.dedup_key) rows ≡ false
    → HaveDistinctKeys (rows ++ m ∷ [])
HaveDistinctKeys-append [] m d h = (tt, tt)
HaveDistinctKeys-append (x ∷ xs) m (fresh, d) h = (
  All-append _ xs (m ∷ []) fresh ((λ e. ground (arith, eq_iff x.dedup_key m.dedup_key)), tt),
  HaveDistinctKeys-append xs m d (ground arith),
)

any-append_last :
    (p : OutboundMessage → Bool) (rows : List OutboundMessage) (m : OutboundMessage)
    → p m ≡ true
    → any p (rows ++ m ∷ []) ≡ true
any-append_last p [] m h = ground arith
any-append_last p (x ∷ xs) m h = ground (arith, any-append_last p xs m h)

-- `insert_idempotent` keeps the table's constraints, and inserting the same message again, at any
-- time, returns a duplicate and leaves the table as it is.
pub insert_idempotent-IsValid :
    (now later : ℕ) (m : Draft) (t : Table)
    → IsValid t
    → let (_, t') = insert_idempotent now m t in
      IsValid t' × (insert_idempotent later m t' ≡ (none, t'))
unfolding insert_idempotent
insert_idempotent-IsValid now later m t v =
    elim (Bool-cases
      (any (λ (row : OutboundMessage). row.dedup_key is outbound_dedup_key m) t.rows)) [
        | inl duplicate ↦ rw duplicate (rw duplicate (v, refl))
        | inr fresh ↦
            let row = inserted_row now t.next_id m in
            rw fresh (
              rw (any-append_last _ t.rows row (eq_refl (outbound_dedup_key m))) (
                record {
                  ordered = IsOrdered-append t.rows row v.ordered v.below;
                  below =
                      All-append _ t.rows (row ∷ [])
                        (All-mono _ _ (λ x h. omega arith) t.rows v.below) (omega arith, tt);
                  distinct = HaveDistinctKeys-append t.rows row v.distinct fresh;
                },
                refl,
              ))
      ]
