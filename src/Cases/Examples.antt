-- ===== src/Cases/Examples.antt =====
-- A deposit that the customer asks about again (src/app/services/telegram_case_followup.py), and
-- its follow-ups (src/app/db/telegram_repositories.py).
use mathlib.Core.List.{Permᴰ, Memᴰ}
use ai_customer_service.Prelude.{
  ℕ, List, any, ◌≡◌, refl, String, Bool, true, false, not, ◌&&◌, Option, none, some, [], ◌∷◌,
  if◌then◌else◌, ◌is◌, is_in, or_text, strip, contains,
}
use ai_customer_service.Cases.{
  Pattern, ask_customer, wait, terminal_other, success, negated_success, deposit, withdrawal,
  credited, received, followup, customer_confirmed, Case, matched, normalized,
  classify_money_case_status, normalize_legacy_case_status, resolve_money_case_followup,
}
use ai_customer_service.Cases.{
  CaseRow, Followup, Store, raised, reserved, numbers, inserted_followup, reservation,
  reserve_followup, mark_followup_sending, record_followup_sent,
}
use ai_customer_service.Cases.Numbers.{
  Call, reserve, sending, sent, run, count_from, run-count_from,
}
use ai_customer_service.Cases.Reserving.{for_command, reserve_followup-new, reserve_followup-twice}
use ai_customer_service.Cases.Sticky.{classify_money_case_status-completes}
use ai_customer_service.Cases.Matching.{kind_of, resolve_money_case_followup_sound}
use ai_customer_service.Cases.Order.{resolve_money_case_followup_unordered}

-- One word for every pattern.
abbrev word : Pattern → String
word ask_customer = "provide"
word wait = "pending"
word terminal_other = "rejected"
word success = "credited"
word negated_success = "not credited"
word deposit = "deposit"
word withdrawal = "withdrawal"
word credited = "credited"
word received = "received"
word followup = "where is"
word customer_confirmed = "got it"

abbrev found : Pattern → String → Bool
found p text = contains text (word p)

abbrev no_keys : String → Option String
no_keys key = none

abbrev order_key : String → Option String
order_key key = if key is "order_id" then some "A77" else none

abbrev completed : Case
completed = record {
  status = some "completed_by_staff";
  intent = some "deposit_missing";
  root_message_id = some 11;
  fields = order_key;
  slot_memory = no_keys;
}

abbrev waiting : Case
waiting = record {
  status = some "under_review";
  intent = some "deposit_missing";
  root_message_id = some 12;
  fields = no_keys;
  slot_memory = no_keys;
}

abbrev text : String
text = "where is A77"

completes_test :
    classify_money_case_status found "deposit_missing" "deposit credited" (some "under_review")
      is "completed_by_staff"
    ≡ true
unfolding classify_money_case_status strip
completes_test = refl

classify_money_case_status-completes_example :
    let reply = strip "deposit credited" in
    (found success reply ≡ true)
    × (found negated_success reply ≡ false)
    × (found ask_customer reply ≡ false)
    × (found wait reply ≡ false)
    × (found (if "deposit_missing" is "deposit_missing" then withdrawal else deposit) reply ≡ false)
classify_money_case_status-completes_example =
    classify_money_case_status-completes found "deposit_missing" "deposit credited" "under_review"
      refl refl completes_test

matched_test :
    resolve_money_case_followup found contains (completed ∷ waiting ∷ []) text none
    ≡ matched (normalized found contains completed) "completion_dispute"
unfolding resolve_money_case_followup normalized normalize_legacy_case_status strip
matched_test = refl

resolve_money_case_followup_sound_example :
    let c = normalized found contains completed in
    let confirmed = found customer_confirmed text && not (found followup text) in
    (raw : Case) × Memᴰ raw (completed ∷ waiting ∷ [])
    × (c ≡ normalized found contains raw)
    × (is_in (or_text c.status "") ("completed_confirmed_by_customer" ∷ "terminal_other" ∷ [])
        ≡ false)
    × ((or_text c.status "" is "waiting_customer" && not confirmed) ≡ false)
    × ("completion_dispute" ≡ kind_of confirmed c)
resolve_money_case_followup_sound_example =
    resolve_money_case_followup_sound found contains (completed ∷ waiting ∷ []) text none
      (normalized found contains completed) "completion_dispute" matched_test

resolve_money_case_followup_unordered_example :
    resolve_money_case_followup found contains (completed ∷ waiting ∷ []) text none
    ≡ resolve_money_case_followup found contains (waiting ∷ completed ∷ []) text none
resolve_money_case_followup_unordered_example =
    resolve_money_case_followup_unordered found contains (completed ∷ waiting ∷ [])
      (waiting ∷ completed ∷ []) text none (Permᴰ.swap refl refl)

abbrev row : CaseRow
row = record {
  id = 7;
  telegram_chat_id = "-100";
  telegram_message_thread_id = none;
  current_conversation_id = none;
  current_thread_id = none;
  status = "under_review";
  updated_at = 0;
}

abbrev store : Store
store = record { cases = row ∷ []; followups = []; messages = []; next_id = 1 }

abbrev calls : List Call
calls =
    reserve 40 7 "c2" "t2" "pending_follow_up" "under_review"
    ∷ sending 5 1
    ∷ reserve 41 7 "c2" "t2" "pending_follow_up" "under_review"
    ∷ sent 6 1 900 (901 ∷ []) "still waiting"
    ∷ reserve 42 7 "c3" "t3" "pending_follow_up" "under_review"
    ∷ []

run-count_from_example : (k : ℕ) × (numbers 7 (run calls store).followups ≡ count_from 2 k)
run-count_from_example = run-count_from calls store (λ case. (0, refl)) 7

-- Two follow-ups, numbered 2 and 3: the second reservation for the thread `t2` is a duplicate.
numbers_test : numbers 7 (run calls store).followups ≡ 2 ∷ 3 ∷ []
unfolding run reserve_followup mark_followup_sending record_followup_sent
numbers_test = refl

abbrev first : Followup
first = inserted_followup 1 2 40 7 "c2" "t2" "pending_follow_up" "under_review"

reserve_followup-new_example :
    (reserve_followup 40 7 "c2" "t2" "pending_follow_up" "under_review" store).0 ≡ (
      if any (for_command 40) store.followups
      then raised "IntegrityError"
      else reserved (reservation false row first))
reserve_followup-new_example =
    reserve_followup-new 40 7 "c2" "t2" "pending_follow_up" "under_review" store row refl refl refl

reserve_followup-twice_example :
    let s' = (reserve_followup 40 7 "c2" "t2" "pending_follow_up" "under_review" store).1 in
    reserve_followup 41 7 "c9" "t2" "completion_dispute" "completed_by_staff" s'
    ≡ (reserved (reservation true row first), s')
reserve_followup-twice_example =
    reserve_followup-twice 40 41 7 "c2" "c9" "t2" "pending_follow_up" "completion_dispute"
      "under_review" "completed_by_staff" store row refl refl refl refl
