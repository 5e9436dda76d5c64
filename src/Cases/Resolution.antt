-- ===== src/Cases/Resolution.antt =====
-- The case that a message of the customer belongs to
-- (src/app/services/telegram_case_followup.py).
use ai_customer_service.Prelude.{
  ℕ, String, Bool, not, ◌&&◌, ◌||◌, Option, none, some, List, [], ◌∷◌, ◌++◌, map, if◌then◌else◌,
  ◌is◌, is_in, or_text, strip, filter, any, decimal,
}
use ai_customer_service.Cases.Status.{
  Pattern, followup, customer_confirmed, Case, normalize_legacy_case_status,
}

abbrev transaction_keys : List String
transaction_keys =
    "order_id" ∷ "order_no" ∷ "transaction_id" ∷ "transaction_ref" ∷ "reference" ∷ "withdrawal_id"
    ∷ "deposit_id" ∷ []

-- `{"status": "none"}`, `{"status": "ambiguous"}`, or the case with its `follow_up_kind`.
pub data Match : Type 0 where
  no_match : Match
  ambiguous : Match
  matched : Case → String → Match

unfoldable pub matched_case : Bool → Case → Match
matched_case confirmed c = matched c (
    if confirmed
    then "customer_confirmed_resolved"
    else if or_text c.status "" is "completed_by_staff"
    then "completion_dispute"
    else "pending_follow_up")

abbrev values_at : (String → Option String) → List String → List String
values_at source [] = []
values_at source (key ∷ keys) =
    let value = strip (or_text (source key) "") in
    let rest = values_at source keys in if value is "" then rest else value ∷ rest

unfoldable pub transaction_values : Case → List String
transaction_values c =
    values_at c.fields transaction_keys ++ values_at c.slot_memory transaction_keys

-- `str(n)` of an integer that may be missing.
abbrev text_of : Option ℕ → String
text_of none = "None"
text_of (some n) = decimal n

unfoldable pub is_root : ℕ → Case → Bool
is_root root c = text_of c.root_message_id is decimal root

-- The eligible cases, where the text names none by an identifier and the root names none.
unfoldable pub match_only : Bool → List Case → Match
unfolding matched_case
match_only confirmed (c ∷ []) = matched_case confirmed c
match_only confirmed _ = ambiguous

-- `root_matches`, and the result where they are not just one.
unfoldable pub match_root : Bool → Match → List Case → Match
unfolding matched_case
match_root confirmed otherwise (c ∷ []) = matched_case confirmed c
match_root confirmed otherwise _ = otherwise

unfoldable pub match_inherited : Bool → Option ℕ → List Case → Match
unfolding match_root match_only is_root
match_inherited confirmed none eligible = match_only confirmed eligible
match_inherited confirmed (some root) eligible =
    match_root confirmed (match_only confirmed eligible) (filter (is_root root) eligible)

-- `transaction_matches`, and the result where there are none.
unfoldable pub match_transaction : Bool → Match → List Case → Match
unfolding matched_case
match_transaction confirmed otherwise [] = otherwise
match_transaction confirmed otherwise (c ∷ []) = matched_case confirmed c
match_transaction confirmed otherwise (c ∷ c' ∷ cs) = ambiguous

-- `found p text` is the search for a pattern, `names text value` the search for `value` as a whole
-- word, whatever its case.
module _ (found : Pattern → String → Bool) (names : String → String → Bool) where
  unfoldable pub is_money_case_followup_text : String → Bool
  is_money_case_followup_text text = found followup text

  -- The case with its status of today.
  unfoldable pub normalized : Case → Case
  normalized c = record c { status = some (normalize_legacy_case_status found c) }

  -- A case that the loop does not `continue` past.
  unfoldable pub is_eligible : Bool → Bool → Case → Bool
  is_eligible is_followup is_confirmation c =
      let status = or_text c.status "" in
      not (is_in status ("completed_confirmed_by_customer" ∷ "terminal_other" ∷ []))
      && not (not is_confirmation && status is "waiting_customer")
      && not (status is "completed_by_staff" && not (is_followup || is_confirmation))

  unfoldable pub eligible_cases : Bool → Bool → List Case → List Case
  unfolding is_eligible normalized
  eligible_cases is_followup is_confirmation candidates =
      filter (is_eligible is_followup is_confirmation) (map normalized candidates)

  unfoldable pub mentions : String → Case → Bool
  unfolding transaction_values
  mentions text c = any (names text) (transaction_values c)

  unfoldable pub match_eligible : Bool → String → Option ℕ → List Case → Match
  unfolding match_transaction match_inherited mentions
  match_eligible confirmed text inherited [] = no_match
  match_eligible confirmed text inherited (c ∷ cs) =
      match_transaction confirmed (match_inherited confirmed inherited (c ∷ cs))
        (filter (mentions text) (c ∷ cs))

  unfoldable pub resolve_money_case_followup : List Case → String → Option ℕ → Match
  unfolding match_eligible eligible_cases is_money_case_followup_text
  resolve_money_case_followup candidates text inherited =
      let is_followup = is_money_case_followup_text text in
      let is_confirmation = found customer_confirmed text && not is_followup in
      if not is_followup && not is_confirmation
      then no_match
      else match_eligible is_confirmation text inherited
          (eligible_cases is_followup is_confirmation candidates)
