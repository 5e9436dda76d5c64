-- ===== src/Database/States.antt =====
-- The updates of `conversation_states` (src/app/db/repositories.py).
use ai_customer_service.Prelude.{
  ℕ, String, Bool, true, false, not, ◌&&◌, ◌||◌, Option, none, some, List, [], ◌∷◌, if◌then◌else◌,
  coalesce, ◌is◌, is_in, or_text, upper_is, Json,
}
use ai_customer_service.Database.Memory.{Memory, put, or_empty}
use ai_customer_service.Database.Conversations.{
  Conversation, find_conversation, update_conversation,
}

-- What a transaction writes to a conversation. A key that is missing, or null, is `none`.
pub record GraphState : Type 0 where
  pub status : Option String
  pub active_workflow : Option String
  pub workflow_stage : Option String
  pub slot_memory : Option Memory
  pub delete_slot_memory_keys : List String
  pub handoff_state : Option Memory
  -- `telegram_case_update`: the case and its status
  pub telegram_case_update : Option (ℕ × String)

abbrev locked_statuses : List String
locked_statuses = "HANDOFF_REQUESTED" ∷ "HUMAN_ACTIVE" ∷ []

-- `str(status).upper() in {"HANDOFF_REQUESTED", "HUMAN_ACTIVE"}`
abbrev pub is_locked : String → Bool
is_locked status = upper_is status "HANDOFF_REQUESTED" || upper_is status "HUMAN_ACTIVE"

-- The condition of the UPDATE.
abbrev pub is_writable : GraphState → Conversation → Bool
is_writable g c =
    not (is_in c.status locked_statuses) || is_in (or_text g.status "") locked_statuses

abbrev pub written : ℕ → Bool → GraphState → Conversation → Conversation
written now changed g c = record c {
  status = coalesce g.status c.status;
  active_workflow = g.active_workflow;
  workflow_stage = g.workflow_stage;
  slot_memory = some (or_empty g.slot_memory);
  handoff_state = elim g.handoff_state [ none ↦ c.handoff_state | some h ↦ some h ];
  updated_at = if changed then now else c.updated_at;
}

-- Whether the state was applied, and the rows. `changed` tells whether the UPDATE changes a value,
-- which is what MySQL counts.
unfoldable pub update_workflow_state :
    ℕ → Bool → String → GraphState → List Conversation → Bool × List Conversation
update_workflow_state now changed id g cs =
    let rows =
      update_conversation id (λ c. if is_writable g c then written now changed g c else c) cs in
    (
      elim (find_conversation id cs) [
        | none ↦ false
        | some c ↦
            is_writable g c && changed
            || not (is_locked (if is_writable g c then coalesce g.status c.status else c.status))
            || is_locked (or_text g.status "")
      ],
      rows,
    )

abbrev pub failed_handoff : ℕ → Json → Conversation → Conversation
failed_handoff now failure c = record c {
  status = "HANDOFF_REQUESTED";
  active_workflow = some "human_handoff";
  workflow_stage = some "handoff_requested";
  handoff_state = some (put "failure" failure (or_empty c.handoff_state));
  updated_at = now;
}

unfoldable pub record_handoff_failure :
    ℕ → String → Json → List Conversation → Bool × List Conversation
record_handoff_failure now id failure cs = elim (find_conversation id cs) [
  | none ↦ (false, cs)
  | some c ↦ if upper_is c.status "HUMAN_ACTIVE" then (false, cs) else (
    true,
    update_conversation id
        (λ x. if not (x.status is "HUMAN_ACTIVE") then failed_handoff now failure x else x) cs,
  )
]
