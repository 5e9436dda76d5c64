-- ===== src/Dispute/Examples.antt =====
-- A dispute on concrete events (src/app/workflows/backend_dispute_escalation.py).
use ai_customer_service.Prelude.{
  ℕ, ◌≡◌, refl, String, Bool, false, not, none, some, [], ◌==◌, ◌is◌, Json, null,
}
use ai_customer_service.Dispute.{
  BackendResult, Conclusion, Memory, State, fingerprint_of, is_text, apply_backend_conclusion,
  resolve_backend_recheck, mark_backend_recheck_pending, verdict_of, evaluate_backend_dispute,
  is_authoritative_result, backend_conclusion_record, has_dispute_signal,
}
use ai_customer_service.Dispute.Escalation.{evaluate_backend_dispute-idempotent}
use ai_customer_service.Dispute.Rounds.{disputes-second_escalates, recheck-escalates}

abbrev conclusion : Conclusion
conclusion = record {
  intent = "withdrawal_blocked_or_rollover";
  reply_intent = "backend_turnover_met";
  reply_facts = null;
  fingerprint = "backend_turnover_met";
  recorded_at = "2026-01-01T00:00:00";
}

abbrev memory : Memory
memory = record {
  backend_conclusion = some conclusion;
  backend_dispute_count = some 0;
  backend_dispute_last_event_id = none;
  backend_recheck_pending = false;
  backend_recheck_origin_fingerprint = none;
  backend_recheck_queued_dispute = false;
  backend_recheck_queued_event_id = none;
  others = [];
}

abbrev state : ℕ → State
state id = record {
  slot_memory = memory;
  event_id = some id;
  inbound_event_id = none;
  emotion = some "frustrated";
  risk_level = none;
  raw_user_input = some "otra vez";
  rewritten_question = none;
}

-- A digest that tells the two reply intents apart, and a search that finds one text.
abbrev digest : String → String → Json → String
digest intent reply_intent facts = reply_intent

abbrev pattern : String → Bool
pattern text = text is "otra vez"

abbrev remaining : BackendResult
remaining = record {
  status = some "success";
  intent = some "withdrawal_blocked_or_rollover";
  reply_intent = some "backend_turnover_remaining";
  reply_facts = null;
}

evaluate_backend_dispute-idempotent_example :
    let v = verdict_of memory (some 7) in
    (evaluate_backend_dispute pattern (state 7) ≡ some v)
    × (evaluate_backend_dispute pattern (record (state 7) { slot_memory = v.memory }) ≡ some v)
unfolding has_dispute_signal
evaluate_backend_dispute-idempotent_example =
    evaluate_backend_dispute-idempotent pattern (state 7) 6 refl refl refl

disputes-second_escalates_example :
    let start = apply_backend_conclusion digest memory remaining "now" in
    let v = verdict_of start (some 7) in
    let v' = verdict_of v.memory (some 9) in
    (evaluate_backend_dispute pattern (record (state 7) { slot_memory = start }) ≡ some v)
    × (v.should_handoff ≡ false)
    × (evaluate_backend_dispute pattern (record (state 9) { slot_memory = v.memory }) ≡ some v')
    × (v'.should_handoff ≡ not (6 == 8))
unfolding has_dispute_signal is_authoritative_result backend_conclusion_record
disputes-second_escalates_example =
    disputes-second_escalates digest pattern memory remaining "now" (state 7) (state 9) 6 8 refl
      refl refl refl refl refl refl refl

recheck-escalates_example :
    let pending = mark_backend_recheck_pending memory in
    let v = verdict_of pending (some 7) in
    (evaluate_backend_dispute pattern (record (state 7) { slot_memory = pending }) ≡ some v)
    × (v.should_handoff ≡ false)
    × ((resolve_backend_recheck digest v.memory remaining "now").should_handoff
        ≡ is_text
            (fingerprint_of (apply_backend_conclusion digest v.memory remaining "now"))
            "backend_turnover_met")
    × ((resolve_backend_recheck digest pending remaining "now").should_handoff ≡ false)
unfolding has_dispute_signal
recheck-escalates_example =
    recheck-escalates digest pattern memory remaining "now" "backend_turnover_met" (state 7) refl
      refl refl
