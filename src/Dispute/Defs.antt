-- ===== src/Dispute/Defs.antt =====
-- The memory of a dispute and the operations on it
-- (src/app/workflows/backend_dispute_escalation.py). An integer that is missing is `none`.
use ai_customer_service.Prelude.{
  ℕ, suc, max, String, Bool, true, false, not, ◌&&◌, ◌||◌, Option, none, some, List, [], ◌∷◌, leb,
  ◌==◌, if◌then◌else◌, coalesce, ◌is◌, is_in, or_text, truthy, truthy_id, Json,
}

abbrev pub authoritative_reply_intents : List String
authoritative_reply_intents = "backend_turnover_remaining" ∷ "backend_turnover_met" ∷ []

-- `result_json` of a backend's answer.
pub record BackendResult : Type 0 where
  pub status : Option String
  pub intent : Option String
  pub reply_intent : Option String
  pub reply_facts : Json

pub record Conclusion : Type 0 where
  pub intent : String
  pub reply_intent : String
  pub reply_facts : Json
  pub fingerprint : String
  pub recorded_at : String

-- The keys of `slot_memory` that these functions use, and the rest of it.
pub record Memory : Type 0 where
  pub backend_conclusion : Option Conclusion
  pub backend_dispute_count : Option ℕ
  pub backend_dispute_last_event_id : Option ℕ
  pub backend_recheck_pending : Bool
  pub backend_recheck_origin_fingerprint : Option String
  pub backend_recheck_queued_dispute : Bool
  pub backend_recheck_queued_event_id : Option ℕ
  pub others : List (String × Json)

-- What `evaluate_backend_dispute` reads of the state of the graph.
pub record State : Type 0 where
  pub slot_memory : Memory
  pub event_id : Option ℕ
  pub inbound_event_id : Option ℕ
  pub emotion : Option String
  pub risk_level : Option String
  pub raw_user_input : Option String
  pub rewritten_question : Option String

pub record Verdict : Type 0 where
  pub memory : Memory
  pub count : ℕ
  pub should_handoff : Bool
  pub waiting_for_recheck : Bool

unfoldable pub is_authoritative_result : BackendResult → Bool
is_authoritative_result r =
    or_text r.status "" is "success"
    && is_in (or_text r.reply_intent "") authoritative_reply_intents
    && truthy r.intent

abbrev pub fingerprint_of : Memory → Option String
fingerprint_of m = elim m.backend_conclusion [
  | none ↦ none
  | some conclusion ↦ some conclusion.fingerprint
]

abbrev pub is_text : Option String → String → Bool
is_text none s = false
is_text (some t) s = t is s

-- The memory with a conclusion whose fingerprint is the one before, or is new.
abbrev pub concluded : Memory → Conclusion → Bool → Memory
concluded m conclusion true = record m {
  backend_conclusion = some conclusion;
  backend_dispute_count = some (coalesce m.backend_dispute_count 0);
}
concluded m conclusion false = record m {
  backend_conclusion = some conclusion;
  backend_dispute_count = some 0;
  backend_dispute_last_event_id = none;
}

-- The keys of a recheck removed.
abbrev pub without_recheck : Memory → Memory
without_recheck m = record m {
  backend_recheck_pending = false;
  backend_recheck_origin_fingerprint = none;
  backend_recheck_queued_dispute = false;
  backend_recheck_queued_event_id = none;
}

pub record Resolution : Type 0 where
  pub slot_memory : Memory
  pub same_conclusion : Bool
  pub should_handoff : Bool

abbrev pub same_origin : Option String → Option String → Bool
same_origin none current = false
same_origin (some origin) current = not (origin is "") && is_text current origin

abbrev pub escalated : Bool → Memory → Memory
escalated handoff m =
    if handoff
    then record m { backend_dispute_count = some (max (coalesce m.backend_dispute_count 0) 2) }
    else m

-- `digest` is the SHA-256 of the canonical JSON of intent, reply intent and facts.
module _ (digest : String → String → Json → String) where
  unfoldable pub backend_conclusion_record : BackendResult → String → Conclusion
  backend_conclusion_record r recorded_at =
      let intent = or_text r.intent "" in
      let reply_intent = or_text r.reply_intent "" in
      record {
        intent = intent;
        reply_intent = reply_intent;
        reply_facts = r.reply_facts;
        fingerprint = digest intent reply_intent r.reply_facts;
        recorded_at = recorded_at;
      }

  unfoldable pub apply_backend_conclusion : Memory → BackendResult → String → Memory
  unfolding backend_conclusion_record is_authoritative_result
  apply_backend_conclusion m r recorded_at =
      if is_authoritative_result r
      then (let conclusion = backend_conclusion_record r recorded_at in
          concluded m conclusion (is_text (fingerprint_of m) conclusion.fingerprint))
      else m

  unfoldable pub resolve_backend_recheck : Memory → BackendResult → String → Resolution
  unfolding apply_backend_conclusion
  resolve_backend_recheck m r recorded_at =
      let updated = apply_backend_conclusion m r recorded_at in
      let same =
        m.backend_recheck_pending
        && same_origin m.backend_recheck_origin_fingerprint (fingerprint_of updated) in
      let handoff = same && m.backend_recheck_queued_dispute in
      record {
        slot_memory = escalated handoff (without_recheck updated);
        same_conclusion = same;
        should_handoff = handoff;
      }

unfoldable pub mark_backend_recheck_pending : Memory → Memory
mark_backend_recheck_pending m = record m {
  backend_recheck_pending = true;
  backend_recheck_origin_fingerprint = fingerprint_of m;
  backend_recheck_queued_dispute = false;
  backend_recheck_queued_event_id = none;
}

unfoldable pub clear_backend_dispute_memory : Memory → Memory
clear_backend_dispute_memory m = record m {
  backend_dispute_count = none;
  backend_dispute_last_event_id = none;
  backend_recheck_pending = false;
  backend_recheck_origin_fingerprint = none;
  backend_recheck_queued_dispute = false;
  backend_recheck_queued_event_id = none;
}

-- `event_id or inbound_event_id`
abbrev pub event_of : State → Option ℕ
event_of s = if truthy_id s.event_id then s.event_id else s.inbound_event_id

-- `str(stored or "") == str(event)`
abbrev pub is_event : Option ℕ → ℕ → Bool
is_event stored event = truthy_id stored && elim stored [ none ↦ false | some n ↦ n == event ]

-- A dispute while the backend is asked again.
abbrev pub queued : Memory → Option ℕ → Memory
queued m none = record m { backend_recheck_queued_dispute = true }
queued m (some event) = if is_event m.backend_recheck_queued_event_id event then m else record m {
  backend_recheck_queued_dispute = true;
  backend_recheck_queued_event_id = some event;
}

-- `int(count or 1)`
abbrev pub count_or_one : Option ℕ → ℕ
count_or_one none = 1
count_or_one (some n) = if n == 0 then 1 else n

-- A dispute of an event that was counted before is not counted again.
abbrev pub counted : Memory → Option ℕ → Memory
counted m none = record m {
  backend_dispute_count = some (suc (coalesce m.backend_dispute_count 0));
}
counted m (some event) = if is_event m.backend_dispute_last_event_id event then m else record m {
  backend_dispute_count = some (suc (coalesce m.backend_dispute_count 0));
  backend_dispute_last_event_id = some event;
}

-- The verdict while the backend is asked again, and otherwise.
abbrev pub waiting : Memory → Verdict
waiting m = record {
  memory = m;
  count = count_or_one m.backend_dispute_count;
  should_handoff = false;
  waiting_for_recheck = true;
}

abbrev pub decided : Memory → Verdict
decided m = record {
  memory = m;
  count = coalesce m.backend_dispute_count 0;
  should_handoff = leb 2 (coalesce m.backend_dispute_count 0);
  waiting_for_recheck = false;
}

unfoldable pub verdict_of : Memory → Option ℕ → Verdict
verdict_of m event =
    if m.backend_recheck_pending then waiting (queued m event) else decided (counted m event)

-- `pattern` is the search for DISPUTE_PATTERN.
module _ (pattern : String → Bool) where
  unfoldable pub has_dispute_signal : State → Bool
  has_dispute_signal s =
      or_text s.emotion "" is "frustrated"
      || or_text s.risk_level "" is "elevated"
      || pattern (or_text s.raw_user_input (or_text s.rewritten_question ""))

  unfoldable pub evaluate_backend_dispute : State → Option Verdict
  unfolding has_dispute_signal verdict_of
  evaluate_backend_dispute s =
      if truthy (fingerprint_of s.slot_memory) && has_dispute_signal s
      then some (verdict_of s.slot_memory (event_of s))
      else none
