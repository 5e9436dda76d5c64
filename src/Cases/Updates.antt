-- ===== src/Cases/Updates.antt =====
-- The updates of a follow-up and of its case (src/app/db/telegram_repositories.py).
use ai_customer_service.Prelude.{
  ℕ, zero, suc, String, ◌&&◌, Option, none, some, List, [], ◌∷◌, ◌++◌, map, ◌==◌, if◌then◌else◌,
  ◌is◌, any,
}
use ai_customer_service.Cases.Tables.{CaseRow, Followup, CaseMessage, Store, find_case}

abbrev pub find_followup_by_id : ℕ → List Followup → Option Followup
find_followup_by_id id [] = none
find_followup_by_id id (f ∷ fs) =
    let rest = find_followup_by_id id fs in if f.id == id then some f else rest

abbrev pub update_followups : ℕ → (Followup → Followup) → List Followup → List Followup
update_followups id set fs = map (λ (f : Followup). if f.id == id then set f else f) fs

abbrev update_followup : ℕ → (Followup → Followup) → Store → Store
update_followup id set s = record s { followups = update_followups id set s.followups }

abbrev update_case : ℕ → (CaseRow → CaseRow) → Store → Store
update_case id set s = record s {
  cases = map (λ (c : CaseRow). if c.id == id then set c else c) s.cases;
}

-- `text[:n]`
prefix : ℕ → String → String
prefix zero text = ""
prefix (suc n) String.[] = ""
prefix (suc n) (String.◌∷◌ c text) = String.◌∷◌ c (prefix n text)

abbrev with_status : String → Option String → Followup → Followup
with_status status error f = record f { status = status; last_error = error }

abbrev route_to : ℕ → Followup → CaseRow → CaseRow
route_to now f c = record c {
  current_conversation_id = some f.source_conversation_id;
  current_thread_id = some f.source_thread_id;
  updated_at = now;
}

-- The store after the method, or nothing where it raises `ValueError` and is rolled back.
unfoldable pub mark_followup_sending : ℕ → ℕ → Store → Option Store
mark_followup_sending now id s = elim (find_followup_by_id id s.followups) [
  | none ↦ none
  | some f ↦ some (
      update_case f.telegram_case_id (route_to now f)
        (update_followup id (with_status "sending" none) s))
]

-- INSERT … ON DUPLICATE KEY UPDATE id = id, the key being the chat and the message.
unfoldable pub insert_case_message : CaseMessage → List CaseMessage → List CaseMessage
insert_case_message m ms =
    if any
      (λ (x : CaseMessage).
        x.telegram_chat_id is m.telegram_chat_id && x.telegram_message_id == m.telegram_message_id)
      ms
    then ms
    else ms ++ m ∷ []

abbrev message_of : CaseRow → String → ℕ → CaseMessage
message_of c kind id = record {
  telegram_case_id = c.id;
  telegram_chat_id = c.telegram_chat_id;
  telegram_message_thread_id = c.telegram_message_thread_id;
  telegram_message_id = id;
  message_kind = kind;
}

unfoldable pub insert_attachments : CaseRow → List ℕ → List CaseMessage → List CaseMessage
unfolding insert_case_message
insert_attachments c [] ms = ms
insert_attachments c (id ∷ ids) ms =
    insert_attachments c ids (insert_case_message (message_of c "follow_up_attachment" id) ms)

abbrev as_sent : ℕ → ℕ → String → Followup → Followup
as_sent now message_id customer_update f = record f {
  status = "sent";
  telegram_message_id = some message_id;
  customer_update_en = some customer_update;
  sent_at = some now;
  last_error = none;
}

-- The follow-up joined with its case.
abbrev pub case_of : ℕ → Store → Option CaseRow
case_of id s = elim (find_followup_by_id id s.followups) [
  | none ↦ none
  | some f ↦ find_case f.telegram_case_id s.cases
]

unfoldable pub record_followup_sent : ℕ → ℕ → ℕ → List ℕ → String → Store → Option Store
unfolding insert_case_message insert_attachments
record_followup_sent now id message_id attachment_ids customer_update s = elim (case_of id s) [
  | none ↦ none
  | some c ↦
      (let sent = update_followup id (as_sent now message_id customer_update) s in
        some (record sent {
          messages =
              insert_attachments c attachment_ids
                (insert_case_message (message_of c "follow_up" message_id) sent.messages);
        }))
]

unfoldable pub mark_followup_delivery_uncertain : ℕ → String → Store → Store
unfolding prefix
mark_followup_delivery_uncertain id error s =
    update_followup id (with_status "delivery_uncertain" (some (prefix 2000 error))) s

unfoldable pub mark_followup_retryable : ℕ → String → Store → Store
unfolding prefix
mark_followup_retryable id error s =
    update_followup id (with_status "reserved" (some (prefix 2000 error))) s

unfoldable pub cancel_followup : ℕ → String → Store → Store
unfolding prefix
cancel_followup id reason s =
    update_followup id (with_status "canceled" (some (prefix 2000 reason))) s

unfoldable pub update_case_status : ℕ → ℕ → String → Store → Store
update_case_status now id status s =
    update_case id (λ c. record c { status = status; updated_at = now }) s
