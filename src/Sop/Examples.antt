-- ===== src/Sop/Examples.antt =====
-- A deposit that did not arrive (src/app/workflows/sop_policy.py).
use ai_customer_service.Prelude.{◌≡◌, refl, false, ◌&&◌, ◌||◌, none, some, [], if◌then◌else◌, ◌is◌}
use ai_customer_service.Sop.{
  Slots, has, identity_slot_present, screenshot_key, compute_missing_slots, Reading,
  evaluate_sop_policy,
}
use ai_customer_service.Sop.Safety.{is_empty, compute_missing_slots-money}

-- A phone number that the customer wrote, and a screenshot of the deposit.
abbrev slots : Slots
slots key =
    if key is "phone"
    then some "13800138000"
    else if key is "phone_source"
    then some "user_text"
    else if key is "deposit_screenshot"
    then some "https://files/1.png"
    else none

abbrev nothing_new : Reading
nothing_new = record {
  identity = false;
  order_id = false;
  transaction_signal = false;
  explicit_human_request = false;
}

compute_missing_slots-money_example : is_empty (compute_missing_slots "deposit_missing" slots) ≡ (
    identity_slot_present slots
    && (has slots "receipt_screenshot" || has slots (screenshot_key "deposit_missing")))
compute_missing_slots-money_example = compute_missing_slots-money "deposit_missing" slots refl

-- The card is sent.
card_test :
    (evaluate_sop_policy "deposit_missing" slots (some "AI_ACTIVE") none none nothing_new []).action
    ≡ "send_telegram_case"
unfolding evaluate_sop_policy
card_test = refl
