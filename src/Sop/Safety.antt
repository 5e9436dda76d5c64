-- ===== src/Sop/Safety.antt =====
-- When a case card is sent (src/app/workflows/sop_policy.py).
use mathlib.Core.Path.{subst}
use ai_customer_service.Prelude.{
  ◌≡◌, refl, sym, String, Bool, true, false, not, ◌&&◌, ◌||◌, Option, List, [], ◌∷◌, if◌then◌else◌,
  ◌is◌, or_text, Bool-cases, eq_iff, inl, inr, arith,
}
use ai_customer_service.Sop.{
  get_sop_definition, Slots, has, identity_slot_present, screenshot_key, slot_present, missing_of,
  compute_missing_slots, Attachment, Reading, PolicyResult, has_verified_receipt_supplement,
  is_other_workflow, money_missing_slots,
}

abbrev pub is_empty : List String → Bool
is_empty [] = true
is_empty (key ∷ keys) = false

-- The result sends a case card where the conditions hold, asks only where slots are missing, and
-- is allowed unless it is blocked.
IsSound : Bool → PolicyResult → Type 0
IsSound sends r =
    (r.action is "send_telegram_case" ≡ sends)
    × (r.action is "ask_missing_slots" ≡ not (is_empty r.missing_slots))
    × (r.allowed ≡ not (r.action is "blocked"))

-- No case was created, and no other workflow is active.
abbrev pub is_free : String → Slots → Option String → Bool
is_free intent slots active =
    not (has slots "telegram_case_id" || has slots "telegram_message_id")
    && not (is_other_workflow active intent)

-- A person does not serve the conversation, and the backend is not waited for.
abbrev pub is_collecting : Option String → Option String → Bool
is_collecting status stage =
    not (or_text status "" is "HUMAN_ACTIVE")
    && not (or_text stage "collecting_slots" is "waiting_backend")

abbrev supplement : String → Reading → List Attachment → Bool
supplement intent reading attachments =
    has_verified_receipt_supplement intent attachments
    || reading.identity
    || reading.order_id
    || reading.transaction_signal

empty_after_two :
    (a b : Bool) (x y : String)
    → is_empty
        (if not a then x ∷ (if not b then y ∷ [] else []) else (if not b then y ∷ [] else []))
      ≡ (a && b)
empty_after_two true true x y = refl
empty_after_two true false x y = refl
empty_after_two false b x y = refl

money_slots :
    (intent screenshot : String) (slots : Slots)
    → is_empty (missing_of intent slots (money_missing_slots screenshot)) ≡ (
        identity_slot_present slots
        && (has slots "receipt_screenshot" || has slots (screenshot_key intent)))
unfolding missing_of slot_present money_missing_slots
money_slots intent screenshot slots =
    empty_after_two (identity_slot_present slots)
      (has slots "receipt_screenshot" || has slots (screenshot_key intent)) "phone"
      "receipt_screenshot"

IsComplete : Slots → String → Type 0
IsComplete slots intent = is_empty (compute_missing_slots intent slots) ≡ (
    identity_slot_present slots
    && (has slots "receipt_screenshot" || has slots (screenshot_key intent)))

deposit-IsComplete : (slots : Slots) → IsComplete slots "deposit_missing"
unfolding IsComplete compute_missing_slots get_sop_definition
deposit-IsComplete slots = money_slots "deposit_missing" "deposit_screenshot" slots

withdrawal-IsComplete : (slots : Slots) → IsComplete slots "withdrawal_missing"
unfolding IsComplete compute_missing_slots get_sop_definition
withdrawal-IsComplete slots = money_slots "withdrawal_missing" "withdrawal_screenshot" slots

or_false : (a : Bool) {b : Bool} → (a || b) ≡ true → a ≡ false → b ≡ true
or_false a h k = ground arith

-- For a deposit or a withdrawal that did not arrive nothing is missing exactly where the memory
-- has an identity of the customer that is trusted, and a screenshot, either the general one or
-- that of the procedure.
pub compute_missing_slots-money :
    (intent : String) (slots : Slots)
    → (intent is "deposit_missing" || intent is "withdrawal_missing") ≡ true
    → is_empty (compute_missing_slots intent slots) ≡ (
        identity_slot_present slots
        && (has slots "receipt_screenshot" || has slots (screenshot_key intent)))
unfolding IsComplete
compute_missing_slots-money intent slots h = elim (Bool-cases (intent is "deposit_missing")) [
  | inl deposit ↦
      subst (IsComplete slots) (sym ((eq_iff intent "deposit_missing").0 deposit))
        (deposit-IsComplete slots)
  | inr other ↦
      subst (IsComplete slots)
        (sym
          ((eq_iff intent "withdrawal_missing").0 (or_false (intent is "deposit_missing") h other)))
        (withdrawal-IsComplete slots)
]
