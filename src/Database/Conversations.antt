-- ===== src/Database/Conversations.antt =====
-- The table `conversation_states` and `ConversationRepository` (src/app/db/repositories.py). Rows
-- stand in the order of their ids.
use ai_customer_service.Prelude.{
  ◌<>◌, ℕ, String, Bool, true, false, not, ◌&&◌, ◌||◌, Option, none, some, List, [], ◌∷◌, ◌++◌, map,
  ltb, leb, ◌==◌, if◌then◌else◌, any, filter, ◌is◌, is_in, or_text, truthy, upper_is, strip, str,
  obj, end, field, Json,
}
use ai_customer_service.Queue.Rows.{order_by}
use ai_customer_service.Database.Memory.{
  Memory, put, truthy_key, or_empty, is_empty_memory, text_json,
}

pub record Conversation : Type 0 where
  pub id : ℕ
  pub conversation_id : String
  pub tenant_id : String
  pub channel_type : String
  pub chat_id : String
  pub current_thread_id : Option String
  pub status : String
  pub active_workflow : Option String
  pub workflow_stage : Option String
  pub slot_memory : Option Memory
  pub handoff_state : Option Memory
  pub updated_at : ℕ

-- `str(chat_id or "unknown")`, and the thread where it is not blank.
unfoldable pub conversation_id_for_chat : String → Option String → String
conversation_id_for_chat chat_id thread_id =
    let chat = if chat_id is "" then "unknown" else chat_id in
    let thread = strip (or_text thread_id "") in
    if thread is "" then "livechat:" <> chat else "livechat:" <> chat <> ":" <> thread

-- `SELECT … WHERE conversation_id = id LIMIT 1`
abbrev pub find_conversation : String → List Conversation → Option Conversation
find_conversation id [] = none
find_conversation id (c ∷ cs) =
    let rest = find_conversation id cs in if c.conversation_id is id then some c else rest

abbrev pub update_conversation :
    String → (Conversation → Conversation) → List Conversation → List Conversation
update_conversation id set cs =
    map (λ (c : Conversation). if c.conversation_id is id then set c else c) cs

-- The row that `INSERT` writes, with the columns' defaults.
abbrev pub new_conversation : ℕ → ℕ → String → String → Option String → Conversation
new_conversation now id conversation_id chat_id thread_id = record {
  id = id;
  conversation_id = conversation_id;
  tenant_id = "default";
  channel_type = "livechat";
  chat_id = chat_id;
  current_thread_id = thread_id;
  status = "AI_ACTIVE";
  active_workflow = none;
  workflow_stage = none;
  slot_memory = none;
  handoff_state = none;
  updated_at = now;
}

-- INSERT … ON DUPLICATE KEY UPDATE current_thread_id = …
abbrev pub upsert :
    ℕ
    → ℕ
    → String
    → String
    → Option String
    → (Conversation → Conversation)
    → List Conversation
    → List Conversation
upsert now id conversation_id chat_id thread_id set cs =
    if any (λ (c : Conversation). c.conversation_id is conversation_id) cs
    then update_conversation conversation_id set cs
    else cs ++ new_conversation now id conversation_id chat_id thread_id ∷ []

-- ORDER BY updated_at DESC, id DESC
abbrev pub is_newer : Conversation → Conversation → Bool
is_newer a b = ltb b.updated_at a.updated_at || a.updated_at == b.updated_at && leb b.id a.id

abbrev first : List Conversation → Option Conversation
first [] = none
first (c ∷ cs) = some c

-- The latest other conversation of the chat.
unfoldable pub previous_thread : String → String → List Conversation → Option Conversation
unfolding order_by
previous_thread chat_id conversation_id cs = first (
    order_by is_newer (
      filter
        (λ (c : Conversation). c.chat_id is chat_id && not (c.conversation_id is conversation_id))
        cs))

unfoldable pub is_fresh_ai_state : Conversation → Bool
is_fresh_ai_state c =
    upper_is (if c.status is "" then "AI_ACTIVE" else c.status) "AI_ACTIVE"
    && not (truthy c.active_workflow)
    && not (truthy c.workflow_stage)
    && is_empty_memory (or_empty c.slot_memory)

unfoldable pub is_continuable_previous_thread : Conversation → Bool
is_continuable_previous_thread c =
    let stage = or_text c.workflow_stage "" in
    let closed =
      upper_is c.status "CLOSED"
      || upper_is c.status "HUMAN_ACTIVE"
      || upper_is c.status "HANDOFF_REQUESTED" in
    not closed
    && not (stage is "completed" || truthy_key "telegram_case_resolved_at" (or_empty c.slot_memory))
    && (upper_is c.status "WAITING_EXTERNAL"
        || is_in stage (
            "collecting_slots" ∷ "waiting_backend" ∷ "backend_querying" ∷ "lookup_pending_reply"
            ∷ []))

-- The keys of `previous_thread_continuation`.
abbrev continuation : Conversation → Json
continuation c = obj (
    field "conversation_id" (str c.conversation_id) (
      field "thread_id" (text_json c.current_thread_id) (
        field "active_workflow" (text_json c.active_workflow) (
          field "workflow_stage" (text_json c.workflow_stage)
            (field "status" (str c.status) end)))))

unfoldable pub inherit_unfinished_thread_state : Conversation → Conversation → Conversation
unfolding is_fresh_ai_state is_continuable_previous_thread
inherit_unfinished_thread_state current previous =
    if not (is_fresh_ai_state current)
    then current
    else if not (is_continuable_previous_thread previous)
    then current
    else record current {
      status = if previous.status is "" then current.status else previous.status;
      active_workflow = previous.active_workflow;
      workflow_stage = previous.workflow_stage;
      slot_memory = some (
          put "previous_thread_continuation" (continuation previous)
            (or_empty previous.slot_memory));
    }

abbrev pub inherited : Option Conversation → Conversation → Conversation
inherited none c = c
inherited (some previous) c = inherit_unfinished_thread_state c previous

-- The row as it is returned; `previous_thread_state` is left out.
abbrev pub loaded : Option String → String → List Conversation → Conversation → Conversation
loaded thread_id chat_id cs c =
    inherited (if truthy thread_id then previous_thread chat_id c.conversation_id cs else none) c

abbrev same_text : Option String → Option String → Bool
same_text none none = true
same_text (some s) (some t) = s is t
same_text none (some t) = false
same_text (some s) none = false

-- `updated_at` is set where a value changes.
abbrev pub with_thread : ℕ → Option String → Conversation → Conversation
with_thread now thread_id c = record c {
  current_thread_id = thread_id;
  updated_at = if same_text c.current_thread_id thread_id then c.updated_at else now;
}

abbrev pub loaded_row :
    Option String → String → List Conversation → Option Conversation → Option Conversation
loaded_row thread_id chat_id cs none = none
loaded_row thread_id chat_id cs (some c) = some (loaded thread_id chat_id cs c)

-- The conversation, and the rows with it; `none` where the schema lost the row that was inserted.
unfoldable pub get_or_create :
    ℕ → ℕ → String → Option String → List Conversation → Option Conversation × List Conversation
unfolding conversation_id_for_chat previous_thread inherit_unfinished_thread_state
get_or_create now id chat_id thread_id cs =
    let conversation_id = conversation_id_for_chat chat_id thread_id in
    let rows = upsert now id conversation_id chat_id thread_id (with_thread now thread_id) cs in
    (loaded_row thread_id chat_id rows (find_conversation conversation_id rows), rows)
