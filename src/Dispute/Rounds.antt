-- ===== src/Dispute/Rounds.antt =====
-- A dispute over several events and rechecks (src/app/workflows/backend_dispute_escalation.py).
use ai_customer_service.Prelude.{
  ℕ, suc, ◌≡◌, refl, ap, ◌∙◌, String, Bool, true, false, not, ◌&&◌, Option, none, some, ◌==◌,
  if◌then◌else◌, ◌is◌, truthy, Json, Bool-cases, inl, inr, arith,
}
use ai_customer_service.Dispute.{
  BackendResult, Conclusion, Memory, State, Verdict, is_authoritative_result, fingerprint_of,
  is_text, backend_conclusion_record, concluded, apply_backend_conclusion, same_origin,
  resolve_backend_recheck, mark_backend_recheck_pending, event_of, is_event, queued, counted,
  verdict_of, decided, has_dispute_signal, evaluate_backend_dispute,
}
use ai_customer_service.Dispute.Escalation.{
  verdict-waiting, verdict-decided, verdict-fingerprint, evaluated,
}

and_true : (b : Bool) → (b && true) ≡ b
and_true b = ground arith

and_false : (b : Bool) → (b && false) ≡ false
and_false b = ground arith

suc_eq : (a b : ℕ) (c : Bool) → a == b ≡ c → is_event (some (suc a)) (suc b) ≡ c
suc_eq a b c h = ground arith

-- The memory after a new conclusion.
fresh_conclusion :
    (digest : String → String → Json → String) (m : Memory) (r : BackendResult) (at : String)
    → is_authoritative_result r ≡ true
    → is_text (fingerprint_of m) (backend_conclusion_record digest r at).fingerprint ≡ false
    → apply_backend_conclusion digest m r at
      ≡ concluded m (backend_conclusion_record digest r at) false
unfolding apply_backend_conclusion
fresh_conclusion digest m r at h k =
    let c = backend_conclusion_record digest r at in
    ap (λ b. if b then concluded m c (is_text (fingerprint_of m) c.fingerprint) else m) h
    ∙ ap (concluded m c) k

module _ (m : Memory) (c : Conclusion) (ready : m.backend_recheck_pending ≡ false) (a b : ℕ) where
  abbrev start : Memory
  start = concluded m c false

  abbrev once : Memory
  once = counted start (some (suc a))

  first_verdict : verdict_of start (some (suc a)) ≡ decided once
  first_verdict = verdict-decided start (some (suc a)) ready

  second_verdict : verdict_of once (some (suc b)) ≡ decided (counted once (some (suc b)))
  second_verdict = verdict-decided once (some (suc b)) ready

  second_handoff : (decided (counted once (some (suc b)))).should_handoff ≡ not (a == b)
  second_handoff = elim (Bool-cases (a == b)) [
    | inl same ↦ rw (suc_eq a b true same) (rw same refl)
    | inr other ↦ rw (suc_eq a b false other) (rw other refl)
  ]

-- After a new authoritative conclusion, with no recheck under way, the first dispute of it is not
-- handed to a person. A second one is, unless it comes from the same event. The events have ids
-- that are not 0, and the fingerprint is not empty.
pub disputes-second_escalates :
    (digest : String → String → Json → String) (pattern : String → Bool) (m : Memory)
    (r : BackendResult) (at : String) (s s' : State) (a b : ℕ)
    → is_authoritative_result r ≡ true
    → is_text (fingerprint_of m) (backend_conclusion_record digest r at).fingerprint ≡ false
    → (backend_conclusion_record digest r at).fingerprint is "" ≡ false
    → m.backend_recheck_pending ≡ false
    → event_of s ≡ some (suc a)
    → event_of s' ≡ some (suc b)
    → has_dispute_signal pattern s ≡ true
    → has_dispute_signal pattern s' ≡ true
    → let start = apply_backend_conclusion digest m r at in
      let v = verdict_of start (some (suc a)) in
      let v' = verdict_of v.memory (some (suc b)) in
      (evaluate_backend_dispute pattern (record s { slot_memory = start }) ≡ some v)
      × (v.should_handoff ≡ false)
      × (evaluate_backend_dispute pattern (record s' { slot_memory = v.memory }) ≡ some v')
      × (v'.should_handoff ≡ not (a == b))
disputes-second_escalates digest pattern m r at s s' a b auth new full ready e e' h h' =
    let c = backend_conclusion_record digest r at in
    let fresh = fresh_conclusion digest m r at auth new in
    let start = apply_backend_conclusion digest m r at in
    let v = verdict_of start (some (suc a)) in
    let known = ap (λ x. truthy (fingerprint_of x)) fresh ∙ ap not full in
    let first = ap (λ x. verdict_of x (some (suc a))) fresh ∙ first_verdict m c ready a b in
    (
      evaluated pattern s start h known ∙ ap (λ x. some (verdict_of start x)) e,
      ap (λ (x : Verdict). x.should_handoff) first,
      evaluated pattern s' v.memory h'
            (ap truthy (verdict-fingerprint start (some (suc a))) ∙ known)
          ∙ ap (λ x. some (verdict_of v.memory x)) e',
      ap (λ (x : Verdict). (verdict_of x.memory (some (suc b))).should_handoff) first
          ∙ (ap (λ (x : Verdict). x.should_handoff) (second_verdict m c ready a b)
              ∙ second_handoff m c ready a b),
    )

-- A dispute that comes while the backend is asked again waits.
recheck_queued :
    (m : Memory) (e : Option ℕ)
    → (queued (mark_backend_recheck_pending m) e).backend_recheck_queued_dispute ≡ true
unfolding mark_backend_recheck_pending
recheck_queued m none = refl
recheck_queued m (some e) = refl

recheck_origin :
    (m : Memory) (e : Option ℕ)
    → (queued (mark_backend_recheck_pending m) e).backend_recheck_origin_fingerprint
      ≡ fingerprint_of m
unfolding mark_backend_recheck_pending
recheck_origin m none = refl
recheck_origin m (some e) = refl

recheck_pending :
    (m : Memory) (e : Option ℕ)
    → (queued (mark_backend_recheck_pending m) e).backend_recheck_pending ≡ true
unfolding mark_backend_recheck_pending
recheck_pending m none = refl
recheck_pending m (some e) = refl

handoff_where_same :
    (pending queued_dispute : Bool) (origin current : Option String) (fingerprint : String)
    → pending ≡ true
    → queued_dispute ≡ true
    → origin ≡ some fingerprint
    → fingerprint is "" ≡ false
    → (pending && same_origin origin current && queued_dispute) ≡ is_text current fingerprint
handoff_where_same pending queued_dispute origin current fingerprint h k l full =
    rw (h, k, l) (rw full (and_true (is_text current fingerprint)))

-- The backend is asked again about a conclusion. A dispute in the meantime is not handed over, and
-- is when the answer comes exactly where the conclusion after the answer has the fingerprint of the
-- disputed one. Without a dispute in the meantime the answer hands nothing over.
pub recheck-escalates :
    (digest : String → String → Json → String) (pattern : String → Bool) (m : Memory)
    (r : BackendResult) (at fingerprint : String) (s : State)
    → fingerprint_of m ≡ some fingerprint
    → fingerprint is "" ≡ false
    → has_dispute_signal pattern s ≡ true
    → let pending = mark_backend_recheck_pending m in
      let v = verdict_of pending (event_of s) in
      (evaluate_backend_dispute pattern (record s { slot_memory = pending }) ≡ some v)
      × (v.should_handoff ≡ false)
      × ((resolve_backend_recheck digest v.memory r at).should_handoff
          ≡ is_text (fingerprint_of (apply_backend_conclusion digest v.memory r at)) fingerprint)
      × ((resolve_backend_recheck digest pending r at).should_handoff ≡ false)
unfolding mark_backend_recheck_pending resolve_backend_recheck
recheck-escalates digest pattern m r at fingerprint s k full h =
    let pending = mark_backend_recheck_pending m in
    let w = verdict-waiting pending (event_of s) refl in
    (
      evaluated pattern s pending h (ap truthy k ∙ ap not full),
      ap (λ (x : Verdict). x.should_handoff) w,
      handoff_where_same _ _ _ _ fingerprint
          (ap (λ (x : Verdict). x.memory.backend_recheck_pending) w
            ∙ recheck_pending m (event_of s))
          (ap (λ (x : Verdict). x.memory.backend_recheck_queued_dispute) w
            ∙ recheck_queued m (event_of s))
          (ap (λ (x : Verdict). x.memory.backend_recheck_origin_fingerprint) w
            ∙ (recheck_origin m (event_of s) ∙ k))
          full,
      and_false _,
    )
