-- ===== src/Cases/Status.antt =====
-- The status of a money case (src/app/services/telegram_case_status.py).
use ai_customer_service.Prelude.{
  ℕ, String, Bool, false, not, ◌&&◌, ◌||◌, Option, none, List, [], ◌∷◌, if◌then◌else◌, ◌is◌, is_in,
  or_text, truthy, strip,
}

-- The regular expressions that the two files search for, by what they find.
pub data Pattern : Type 0 where
  ask_customer : Pattern
  wait : Pattern
  terminal_other : Pattern
  success : Pattern
  negated_success : Pattern
  deposit : Pattern
  withdrawal : Pattern
  credited : Pattern
  received : Pattern
  followup : Pattern
  customer_confirmed : Pattern

abbrev pub money_intents : List String
money_intents = "deposit_missing" ∷ "withdrawal_missing" ∷ []

abbrev pub sticky_statuses : List String
sticky_statuses = "completion_disputed" ∷ "completed_confirmed_by_customer" ∷ []

-- A row of `telegram_cases`: `fields` has the other keys of the row, `slot_memory` those of its
-- memory. A key that is missing is `none`.
pub record Case : Type 0 where
  pub status : Option String
  pub intent : Option String
  pub root_message_id : Option ℕ
  pub fields : String → Option String
  pub slot_memory : String → Option String

-- `found p text` tells whether the regular expression `p` is found in the text.
module _ (found : Pattern → String → Bool) where
  unfoldable pub matching_completion : String → String → Bool
  matching_completion intent text =
      if not (found success text)
      then false
      else if found negated_success text
      then false
      else if intent is "deposit_missing"
      then (found deposit text || found credited text) && not (found withdrawal text)
      else (found withdrawal text || found received text) && not (found deposit text)

  -- The status by the text, for a money case whose status may change.
  unfoldable pub status_by_text : String → String → String
  unfolding matching_completion
  status_by_text intent text =
      if found ask_customer text
      then "waiting_customer"
      else if found wait text
      then "under_review"
      else if matching_completion intent text
      then "completed_by_staff"
      else if found terminal_other text
      then "terminal_other"
      else "under_review"

  unfoldable pub classify_money_case_status : String → String → Option String → String
  unfolding status_by_text
  classify_money_case_status intent raw_reply current =
      let text = strip raw_reply in
      if not (is_in intent money_intents)
      then or_text current "under_review"
      else if is_in (or_text current "") sticky_statuses
      then or_text current ""
      else status_by_text intent text

  unfoldable pub status_by_memory : String → (String → Option String) → String
  unfolding classify_money_case_status
  status_by_memory intent memory =
      if or_text (memory "last_telegram_staff_reply_type") "" is "long_wait"
      then "under_review"
      else if truthy (memory "telegram_case_resolved_at")
      then (let resolution = or_text (memory "telegram_case_resolution_text") "" in
          let classified = classify_money_case_status intent resolution none in
          if classified is "completed_by_staff" then classified else "under_review")
      else "awaiting_review"

  unfoldable pub normalize_legacy_case_status : Case → String
  unfolding status_by_memory
  normalize_legacy_case_status c =
      let status = strip (or_text c.status "") in
      if not (status is "") && not (status is "created")
      then status
      else status_by_memory (or_text c.intent "") c.slot_memory
