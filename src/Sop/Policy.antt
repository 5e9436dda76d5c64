-- ===== src/Sop/Policy.antt =====
-- What the bot does next in a case (src/app/workflows/sop_policy.py).

use ai_customer_service.Prelude.{
  String, Bool, true, false, not, ◌&&◌, ◌||◌, Option, none, some, List, [], ◌∷◌, if◌then◌else◌,
  ◌is◌, or_text, truthy, any, lower_is, or_else,
}
use ai_customer_service.Sop.Defs.{SopDefinition, get_sop_definition}
use ai_customer_service.Sop.Missing.{Slots, has, begins_lower, ends_lower, compute_missing_slots}

pub record Attachment : Type 0 where
  pub url : Option String
  pub content_type : Option String
  pub mime_type : Option String
  pub name : Option String
  pub filename : Option String
  pub receipt_kind : Option String
  -- `receipt_kind` of `image_analysis`
  pub analysed_kind : Option String

unfoldable pub is_image_attachment : Attachment → Bool
is_image_attachment a =
    begins_lower (or_text (or_else a.content_type a.mime_type) "") "image/"
    || any (ends_lower (or_text (or_else a.name (or_else a.filename a.url)) ""))
        (".png" ∷ ".jpg" ∷ ".jpeg" ∷ ".webp" ∷ ".gif" ∷ ".bmp" ∷ ".heic" ∷ ".heif" ∷ [])

unfoldable pub is_receipt_supplement : String → Attachment → Bool
unfolding is_image_attachment
is_receipt_supplement expected_kind a =
    let opposite = if expected_kind is "deposit" then "withdrawal" else "deposit" in
    truthy a.url
    && is_image_attachment a
    && not (lower_is (or_text a.receipt_kind "") opposite)
    && not (lower_is (or_text a.analysed_kind "") opposite)

unfoldable pub has_verified_receipt_supplement : String → List Attachment → Bool
unfolding is_receipt_supplement
has_verified_receipt_supplement intent attachments =
    if intent is "deposit_missing"
    then any (is_receipt_supplement "deposit") attachments
    else if intent is "withdrawal_missing"
    then any (is_receipt_supplement "withdrawal") attachments
    else false

-- What the extractors find in the latest text.
pub record Reading : Type 0 where
  pub identity : Bool
  pub order_id : Bool
  pub transaction_signal : Bool
  pub explicit_human_request : Bool

pub record PolicyResult : Type 0 where
  pub action : String
  pub missing_slots : List String
  pub reason : String
  pub allowed : Bool

abbrev pub allow : String → String → PolicyResult
allow action reason = record {
  action = action;
  missing_slots = [];
  reason = reason;
  allowed = true;
}

abbrev pub block : String → PolicyResult
block reason = record { action = "blocked"; missing_slots = []; reason = reason; allowed = false }

-- The stage `waiting_backend`.
unfoldable pub while_waiting : Bool → Reading → Slots → PolicyResult
while_waiting has_supplement reading slots =
    if has_supplement
    then (if has slots "telegram_case_id" && has slots "telegram_message_id"
        then allow "append_to_case" "customer_sent_supplement"
        else if reading.explicit_human_request
        then allow "human_handoff" "customer_requested_human_after_supplement"
        else allow "waiting_followup" "case_not_created_yet")
    else if reading.explicit_human_request
    then allow "human_handoff" "customer_requested_human"
    else allow "waiting_followup" "customer_asked_status_or_unclear"

-- Another workflow is active.
abbrev pub is_other_workflow : Option String → String → Bool
is_other_workflow active intent = truthy active && not (or_text active "" is intent)

unfoldable pub while_collecting : String → Slots → Option String → List String → PolicyResult
while_collecting intent slots active_workflow (key ∷ keys) = record {
  action = "ask_missing_slots";
  missing_slots = key ∷ keys;
  reason = "required_slots_missing";
  allowed = true;
}
while_collecting intent slots active_workflow [] =
    if has slots "telegram_case_id" || has slots "telegram_message_id"
    then allow "waiting_followup" "telegram_case_already_exists"
    else if is_other_workflow active_workflow intent
    then block "active_workflow_mismatch"
    else allow "send_telegram_case" "required_slots_complete"

-- The policy for a definition, if there is one.
unfoldable pub policy_for :
    Option SopDefinition
    → String
    → Slots
    → Option String
    → Option String
    → Option String
    → Reading
    → List Attachment
    → PolicyResult
unfolding compute_missing_slots has_verified_receipt_supplement while_waiting while_collecting
policy_for none intent slots conversation_status active_workflow workflow_stage reading
      attachments =
    block "unsupported_sop_intent"
policy_for (some definition) intent slots conversation_status active_workflow workflow_stage reading
      attachments =
    if or_text conversation_status "" is "HUMAN_ACTIVE"
    then block "conversation_is_human_active"
    else if or_text workflow_stage "collecting_slots" is "waiting_backend"
    then while_waiting
        (has_verified_receipt_supplement intent attachments
          || reading.identity
          || reading.order_id
          || reading.transaction_signal)
        reading slots
    else while_collecting intent slots active_workflow (compute_missing_slots intent slots)

-- An intent that is missing is "".
unfoldable pub evaluate_sop_policy :
    String
    → Slots
    → Option String
    → Option String
    → Option String
    → Reading
    → List Attachment
    → PolicyResult
unfolding get_sop_definition policy_for
evaluate_sop_policy intent = policy_for (get_sop_definition (some intent)) intent
