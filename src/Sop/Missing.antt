-- ===== src/Sop/Missing.antt =====
-- The slots of a case that are there, and those that are missing
-- (src/app/workflows/sop_policy.py, src/app/workflows/llm_sop_dialogue_planner.py).
use Prim.Native.Char.{code}
use ai_customer_service.Prelude.{
  ℕ, suc, ◌+◌, ltb, leb, ◌==◌, strip, String, Bool, true, false, not, ◌&&◌, ◌||◌, Option, none,
  some, List, [], ◌∷◌, if◌then◌else◌, ◌is◌, or_text, truthy, any, lower_is, or_else,
}
use ai_customer_service.Sop.Defs.{SlotDefinition, SopDefinition, get_sop_definition}

-- The value of `slot_memory` at a key, where it counts as true.
abbrev pub Slots : Type 0
Slots = String → Option String

abbrev pub has : Slots → String → Bool
has slots key = truthy (slots key)

-- Comparisons with a text in lower case, over the ASCII letters.
abbrev lower_code : ℕ → ℕ
lower_code c = if leb 65 c && leb c 90 then c + 32 else c

abbrev pub begins_lower : String → String → Bool
begins_lower s String.[] = true
begins_lower String.[] (String.◌∷◌ d t) = false
begins_lower (String.◌∷◌ c s) (String.◌∷◌ d t) = lower_code (code c) == code d && begins_lower s t

abbrev contains_lower : String → String → Bool
contains_lower String.[] t = t is ""
contains_lower (String.◌∷◌ c s) t = begins_lower (String.◌∷◌ c s) t || contains_lower s t

abbrev pub ends_lower : String → String → Bool
ends_lower String.[] t = t is ""
ends_lower (String.◌∷◌ c s) t = lower_is (String.◌∷◌ c s) t || ends_lower s t

abbrev is_digit : ℕ → Bool
is_digit c = leb 48 c && leb c 57

abbrev count_digits : String → ℕ
count_digits String.[] = 0
count_digits (String.◌∷◌ c s) =
    let rest = count_digits s in if is_digit (code c) then suc rest else rest

abbrev all_digits : String → Bool
all_digits String.[] = true
all_digits (String.◌∷◌ c s) = is_digit (code c) && all_digits s

-- Of a text that is not empty; digits are the ASCII digits.
unfoldable pub looks_like_image_identity_hint : String → Bool
unfolding strip
looks_like_image_identity_hint value =
    let text = strip value in
    text is ""
    || any (contains_lower text)
        ("terminado" ∷ "ending" ∷ "last " ∷ "últimos" ∷ "ultimos" ∷ "尾号" ∷ "尾號" ∷ [])
    || (ltb 0 (count_digits text) && leb (count_digits text) 4 && not (all_digits text))

-- How trustworthy an identity is, by its source.
abbrev pub trusted_or : String → Bool → Bool
trusted_or source otherwise =
    if any (lower_is source) ("user_text" ∷ "confirmed_by_user" ∷ [])
    then true
    else if any (lower_is source) ("image" ∷ "ocr" ∷ "llm_or_image" ∷ "image_analysis" ∷ [])
    then false
    else otherwise

unfoldable pub identity_slot_present : Slots → Bool
unfolding looks_like_image_identity_hint
identity_slot_present slots =
    let value = or_else (slots "phone") (slots "account_or_phone") in
    let source =
      or_else (slots "identity_source")
        (or_else (slots "phone_source") (slots "account_or_phone_source")) in
    truthy value
    && trusted_or (or_text source "") (not (looks_like_image_identity_hint (or_text value "")))

abbrev pub screenshot_key : String → String
screenshot_key intent =
    if intent is "deposit_missing" then "deposit_screenshot" else "withdrawal_screenshot"

unfoldable pub slot_present : String → String → Slots → Bool
unfolding identity_slot_present
slot_present intent key slots =
    if key is "phone"
    then identity_slot_present slots
    else if key is "receipt_screenshot"
    then has slots "receipt_screenshot" || has slots (screenshot_key intent)
    else has slots key

unfoldable pub missing_of : String → Slots → List SlotDefinition → List String
unfolding slot_present
missing_of intent slots [] = []
missing_of intent slots (d ∷ ds) =
    let rest = missing_of intent slots ds in
    if d.required && not (slot_present intent d.key slots) then d.key ∷ rest else rest

abbrev slots_of : Option SopDefinition → List SlotDefinition
slots_of none = []
slots_of (some d) = d.slots

unfoldable pub compute_missing_slots : String → Slots → List String
unfolding missing_of get_sop_definition
compute_missing_slots intent slots =
    missing_of intent slots (slots_of (get_sop_definition (some intent)))
