-- ===== src/Dispute/Escalation.antt =====
-- When a dispute is handed to a person (src/app/workflows/backend_dispute_escalation.py).
use ai_customer_service.Prelude.{
  ℕ, suc, ◌≡◌, refl, sym, ap, ◌∙◌, String, Bool, true, false, Option, none, some, if◌then◌else◌,
  truthy, Bool-cases, inl, inr, arith,
}
use ai_customer_service.Dispute.{
  Memory, State, Verdict, fingerprint_of, event_of, is_event, queued, counted, verdict_of, waiting,
  decided, has_dispute_signal, evaluate_backend_dispute,
}

event_itself : (n : ℕ) → is_event (some (suc n)) (suc n) ≡ true
event_itself n = ground arith

queued_again :
    (m : Memory) (n : ℕ) → queued (queued m (some (suc n))) (some (suc n)) ≡ queued m (some (suc n))
queued_again m n = elim (Bool-cases (is_event m.backend_recheck_queued_event_id (suc n))) [
  | inl same ↦ rw same (rw same refl)
  | inr new ↦ rw new (rw (event_itself n) refl)
]

counted_again :
    (m : Memory) (n : ℕ)
    → counted (counted m (some (suc n))) (some (suc n)) ≡ counted m (some (suc n))
counted_again m n = elim (Bool-cases (is_event m.backend_dispute_last_event_id (suc n))) [
  | inl same ↦ rw same (rw same refl)
  | inr new ↦ rw new (rw (event_itself n) refl)
]

pub counted_pending :
    (m : Memory) (e : Option ℕ) → (counted m e).backend_recheck_pending ≡ m.backend_recheck_pending
counted_pending m none = refl
counted_pending m (some e) = ground arith

queued_pending :
    (m : Memory) (e : Option ℕ) → (queued m e).backend_recheck_pending ≡ m.backend_recheck_pending
queued_pending m none = refl
queued_pending m (some e) = ground arith

pub verdict-waiting :
    (m : Memory) (e : Option ℕ)
    → m.backend_recheck_pending ≡ true
    → verdict_of m e ≡ waiting (queued m e)
unfolding verdict_of
verdict-waiting m e h = ap (λ b. if b then waiting (queued m e) else decided (counted m e)) h

pub verdict-decided :
    (m : Memory) (e : Option ℕ)
    → m.backend_recheck_pending ≡ false
    → verdict_of m e ≡ decided (counted m e)
unfolding verdict_of
verdict-decided m e h = ap (λ b. if b then waiting (queued m e) else decided (counted m e)) h

verdict_again :
    (m : Memory) (n : ℕ)
    → verdict_of (verdict_of m (some (suc n))).memory (some (suc n)) ≡ verdict_of m (some (suc n))
verdict_again m n =
    let e = some (suc n) in
    elim (Bool-cases m.backend_recheck_pending) [
      | inl pending ↦
          ap (λ (v : Verdict). verdict_of v.memory e) (verdict-waiting m e pending)
          ∙ (verdict-waiting (queued m e) e (queued_pending m e ∙ pending)
              ∙ (ap waiting (queued_again m n) ∙ sym (verdict-waiting m e pending)))
      | inr ready ↦
          ap (λ (v : Verdict). verdict_of v.memory e) (verdict-decided m e ready)
          ∙ (verdict-decided (counted m e) e (counted_pending m e ∙ ready)
              ∙ (ap decided (counted_again m n) ∙ sym (verdict-decided m e ready)))
    ]

counted_conclusion : (m : Memory) (e : Option ℕ) → fingerprint_of (counted m e) ≡ fingerprint_of m
counted_conclusion m none = refl
counted_conclusion m (some e) = ground arith

pub queued_conclusion : (m : Memory) (e : Option ℕ) → fingerprint_of (queued m e) ≡ fingerprint_of m
queued_conclusion m none = refl
queued_conclusion m (some e) = ground arith

pub verdict-fingerprint :
    (m : Memory) (e : Option ℕ) → fingerprint_of (verdict_of m e).memory ≡ fingerprint_of m
verdict-fingerprint m e = elim (Bool-cases m.backend_recheck_pending) [
  | inl pending ↦
      ap (λ (v : Verdict). fingerprint_of v.memory) (verdict-waiting m e pending)
      ∙ queued_conclusion m e
  | inr ready ↦
      ap (λ (v : Verdict). fingerprint_of v.memory) (verdict-decided m e ready)
      ∙ counted_conclusion m e
]

-- A state with a signal and a conclusion in its memory gets a verdict.
pub evaluated :
    (pattern : String → Bool) (s : State) (m : Memory)
    → has_dispute_signal pattern s ≡ true
    → truthy (fingerprint_of m) ≡ true
    → evaluate_backend_dispute pattern (record s { slot_memory = m })
      ≡ some (verdict_of m (event_of s))
unfolding evaluate_backend_dispute has_dispute_signal
evaluated pattern s m h k = rw (k, h) refl

-- The event of a disputing message is evaluated again with the memory that the first evaluation
-- left, as after a redelivery: the verdict is the same, and so is the memory. A dispute is counted
-- once for each event. The event has an id that is not 0.
pub evaluate_backend_dispute-idempotent :
    (pattern : String → Bool) (s : State) (n : ℕ)
    → event_of s ≡ some (suc n)
    → has_dispute_signal pattern s ≡ true
    → truthy (fingerprint_of s.slot_memory) ≡ true
    → let v = verdict_of s.slot_memory (some (suc n)) in
      (evaluate_backend_dispute pattern s ≡ some v)
      × (evaluate_backend_dispute pattern (record s { slot_memory = v.memory }) ≡ some v)
evaluate_backend_dispute-idempotent pattern s n e h k =
    let v = verdict_of s.slot_memory (some (suc n)) in
    (
      evaluated pattern s s.slot_memory h k ∙ ap (λ x. some (verdict_of s.slot_memory x)) e,
      evaluated pattern s v.memory h
            (ap truthy (verdict-fingerprint s.slot_memory (some (suc n))) ∙ k)
          ∙ (ap (λ x. some (verdict_of v.memory x)) e ∙ ap some (verdict_again s.slot_memory n)),
    )
