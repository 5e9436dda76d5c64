-- ===== src/Sop/Defs.antt =====
-- Definitions of procedures, missing slots, and `evaluate_sop_policy`
-- (src/app/workflows/sop_definitions.py, src/app/workflows/sop_policy.py,
-- src/app/workflows/llm_sop_dialogue_planner.py).

use ai_customer_service.Prelude.{
  String, Bool, true, false, Option, none, some, List, [], ◌∷◌, if◌then◌else◌, ◌is◌, or_text,
}

-- A slot's key, and whether it is required; its texts for a language model are left out.
pub record SlotDefinition : Type 0 where
  pub key : String
  pub required : Bool

pub record SopDefinition : Type 0 where
  pub name : String
  pub slots : List SlotDefinition
  pub complete_action : String
  pub waiting_supplement_action : String

abbrev slot : String → Bool → SlotDefinition
slot key required = record { key = key; required = required }

unfoldable pub money_missing_slots : String → List SlotDefinition
money_missing_slots screenshot_key =
    slot "customer_name" false
    ∷ slot "account_or_phone" false
    ∷ slot "phone" true
    ∷ slot screenshot_key false
    ∷ slot "receipt_screenshot" true
    ∷ slot "amount" false
    ∷ slot "payment_channel" false
    ∷ []

unfoldable pub withdrawal_blocked_slots : List SlotDefinition
withdrawal_blocked_slots = slot "account_or_phone" true ∷ []

unfoldable pub get_sop_definition : Option String → Option SopDefinition
unfolding money_missing_slots withdrawal_blocked_slots
get_sop_definition intent =
    let name = or_text intent "" in
    if name is "deposit_missing"
    then some (record {
      name = name;
      slots = money_missing_slots "deposit_screenshot";
      complete_action = "telegram.send_case_card";
      waiting_supplement_action = "telegram.append_to_case";
    })
    else if name is "withdrawal_missing"
    then some (record {
      name = name;
      slots = money_missing_slots "withdrawal_screenshot";
      complete_action = "telegram.send_case_card";
      waiting_supplement_action = "telegram.append_to_case";
    })
    else if name is "withdrawal_blocked_or_rollover"
    then some (record {
      name = name;
      slots = withdrawal_blocked_slots;
      complete_action = "backend.query";
      waiting_supplement_action = "backend.query";
    })
    else none
