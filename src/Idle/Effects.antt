-- ===== src/Idle/Effects.antt =====
-- What the idle timer reads, writes and calls: the slot memory, the records of calls, and the
-- actions (src/app/workers/livechat_idle_timer.py).
use ai_customer_service.Prelude.{
  ℕ, String, Bool, true, false, not, Option, none, some, List, ◌∷◌, ◌is◌, length, Json,
}

-- A stored time: an ISO text of `_format_datetime`, or another text, which cannot be parsed.
pub data Stamp : Type 0 where
  at : ℕ → Stamp
  garbled : String → Stamp

-- `_parse_datetime`
unfoldable pub parse_datetime : Option Stamp → Option ℕ
parse_datetime none = none
parse_datetime (some (at t)) = some t
parse_datetime (some (garbled s)) = none

-- The truth value of a stored time.
unfoldable pub is_set : Option Stamp → Bool
is_set none = false
is_set (some (at t)) = true
is_set (some (garbled s)) = not (s is "")

-- The keys of `slot_memory` that this worker reads or writes, and the rest of the dictionary.
pub record Slots : Type 0 where
  pub idle_followup_sent_at : Option Stamp
  pub idle_followup_failed_at : Option Stamp
  pub idle_followup_last_error : Option String
  pub idle_close_sent_at : Option Stamp
  pub idle_closed_at : Option Stamp
  pub idle_base_assistant_message_id : Option ℕ
  pub idle_base_assistant_created_at : Option Stamp
  pub idle_followup_message_id : Option ℕ
  pub idle_close_message_id : Option ℕ
  pub idle_close_failed_at : Option Stamp
  pub idle_close_last_error : Option String
  pub idle_last_failed_at : Option Stamp
  pub idle_close_reason : Option String
  pub ai_service_failure_handoff_at : Option Stamp
  pub ai_service_failure_reason : Option String
  pub ai_service_failure_source : Option String
  pub others : List (String × Json)

-- A row of `fetch_candidates`. A status that is NULL is `none`.
pub record Conversation : Type 0 where
  pub conversation_id : String
  pub chat_id : String
  pub thread_id : Option String
  pub tenant_id : Option String
  pub status : Option String
  pub active_workflow : Option String
  pub slot_memory : Slots

-- The newest message of a conversation.
pub record Latest : Type 0 where
  pub id : ℕ
  pub sender_role : String
  pub created_at : Option Stamp

-- An exception: its text, that text in lower case, and for a `LiveChatApiError` its HTTP status
-- and the lower-case `error.type` of its body.
pub record Failure : Type 0 where
  pub text : String
  pub lowered : String
  pub status : Option ℕ
  pub error_type : String

pub data Answer {ℓ} (A : Type ℓ) : Type ℓ where
  value : A → Answer A
  raises : Failure → Answer A

-- What `finalize_user_visible_text` gives: the text, and of its state the language of the reply and
-- the status and reason of the final reply.
pub record Finalized : Type 0 where
  pub text : String
  pub reply_language : Option String
  pub reply_status : Option String
  pub fallback_reason : Option String

-- The conversation's row, read FOR UPDATE: status, workflow and slot memory.
pub record StateRow : Type 0 where
  pub status : Option String
  pub active_workflow : Option String
  pub slot_memory : Slots

-- The calls that the worker makes, with the answers that matter later.
pub data Call : Type 0 where
  fetched_latest : Call
  asked_unfinished : Bool → Call
  -- `has_customer_activity_after`, with its cut-off time
  asked_activity : ℕ → Answer Bool → Call
  fetched_created_at : ℕ → Call
  finalized : String → Call
  sent_text : String → Option Failure → Call
  deactivated : Option Failure → Call
  inserted_message : String → Call
  updated_slots : Slots → Call
  marked_closed : Slots → Call
  locked_row : Call
  -- the state of the conversation set, and the handoff command inserted, in one transaction
  requested_handoff : StateRow → Call
  rolled_back : Call

-- The answers of the database and of the services. Each is a function of the number of calls
-- made before, so that anything may change between two calls.
pub record Env : Type 0 where
  pub latest : ℕ → Option Latest
  pub unfinished : ℕ → Bool
  pub activity : ℕ → ℕ → Answer Bool
  pub created_at : ℕ → ℕ → Answer (Option Stamp)
  pub finalize : ℕ → String → Finalized
  pub send_text : ℕ → String → Option Failure
  pub deactivate : ℕ → Option Failure
  pub insert_message : ℕ → Option ℕ
  pub save : ℕ → Option Failure
  pub row : ℕ → Option StateRow
  pub insert_command : ℕ → Option Failure

-- The result of one conversation (`_result`, whose other keys are the conversation's own).
pub record Outcome : Type 0 where
  pub status : String
  pub error : Option String
  pub message_id : Option ℕ

-- A part of the code goes on with a value, returns early from `process_idle_conversation`, or
-- raises.
pub data Step {ℓ} (A : Type ℓ) : Type ℓ where
  go : A → Step A
  stop : Outcome → Step A
  raised : Failure → Step A

-- The calls made, the newest first.
abbrev pub Trace : Type 0
Trace = List Call

abbrev pub Action {ℓ} : Type ℓ → Type ℓ
Action A = Env → Trace → Step A × Trace

module _ {ℓ} {A : Type ℓ} where
  abbrev pub pure : A → Action A
  pure a env t = (go a, t)

  abbrev pub finish : Outcome → Action A
  finish o env t = (stop o, t)

module _ {ℓ κ} {A : Type ℓ} {B : Type κ} where
  abbrev pub continue : Step A → (A → Action B) → Action B
  continue (go a) f env t = f a env t
  continue (stop o) f env t = (stop o, t)
  continue (raised e) f env t = (raised e, t)

  infixl 5 ◌>>=◌
  abbrev pub ◌>>=◌ : Action A → (A → Action B) → Action B
  ◌>>=◌ m f env t = let (r, t') = m env t in continue r f env t'

infixl 5 ◌>>◌
abbrev pub ◌>>◌ {ℓ} : {B : Type ℓ} → Action (Unit {0}) → Action B → Action B
m >> k = m >>= λ _. k

abbrev pub outcome : String → Outcome
outcome status = record { status = status; error = none; message_id = none }

abbrev pub failed : String → Failure → Outcome
failed status e = record { status = status; error = some e.text; message_id = none }

-- A write whose exception is not caught.
abbrev written : Option Failure → Step (Unit {0})
written none = go tt
written (some e) = raised e

unfoldable pub fetch_latest_message : Action (Option Latest)
fetch_latest_message env t = (go (env.latest (length t)), fetched_latest ∷ t)

unfoldable pub has_unfinished_work : Action Bool
has_unfinished_work env t =
    let answer = env.unfinished (length t) in (go answer, asked_unfinished answer ∷ t)

-- `_has_customer_activity_after`: an exception is an answer too.
unfoldable pub has_customer_activity_after : ℕ → Action (Answer Bool)
has_customer_activity_after cutoff env t =
    let answer = env.activity (length t) cutoff in (go answer, asked_activity cutoff answer ∷ t)

unfoldable pub fetch_message_created_at : ℕ → Action (Answer (Option Stamp))
fetch_message_created_at id env t = (go (env.created_at (length t) id), fetched_created_at id ∷ t)

unfoldable pub finalize_user_visible_text : String → Action Finalized
finalize_user_visible_text text env t = (go (env.finalize (length t) text), finalized text ∷ t)

unfoldable pub send_text : String → Action (Option Failure)
send_text text env t =
    let failure = env.send_text (length t) text in (go failure, sent_text text failure ∷ t)

unfoldable pub deactivate_chat : Action (Option Failure)
deactivate_chat env t =
    let failure = env.deactivate (length t) in (go failure, deactivated failure ∷ t)

unfoldable pub insert_assistant_message : String → Action (Option ℕ)
insert_assistant_message text env t =
    (go (env.insert_message (length t)), inserted_message text ∷ t)

unfoldable pub update_slot_memory : Slots → Action (Unit {0})
update_slot_memory slots env t = (written (env.save (length t)), updated_slots slots ∷ t)

-- `update_slot_memory` inside a `try`
unfoldable pub try_update_slot_memory : Slots → Action (Option Failure)
try_update_slot_memory slots env t = (go (env.save (length t)), updated_slots slots ∷ t)

unfoldable pub mark_closed : Slots → Action (Unit {0})
mark_closed slots env t = (written (env.save (length t)), marked_closed slots ∷ t)
