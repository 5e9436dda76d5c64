-- ===== src/Cases/Tables.antt =====
-- The follow-ups of the cases: the tables `telegram_cases`, `telegram_case_followups` and
-- `telegram_case_messages`, and the methods of `TelegramCaseRepository` that a follow-up runs
-- through (src/app/db/telegram_repositories.py), one transaction each. The rows stand in the order
-- of their ids, and texts are compared as they are written.
use ai_customer_service.Prelude.{
  ℕ, suc, ◌+◌, max, String, Bool, true, false, ◌&&◌, ◌||◌, Option, none, some, List, [], ◌∷◌, ◌++◌,
  map, ◌==◌, if◌then◌else◌, ◌is◌, coalesce, filter, any,
}

-- The columns of `telegram_cases` that these methods use.
pub record CaseRow : Type 0 where
  pub id : ℕ
  pub telegram_chat_id : String
  pub telegram_message_thread_id : Option ℕ
  pub current_conversation_id : Option String
  pub current_thread_id : Option String
  pub status : String
  pub updated_at : ℕ

pub record Followup : Type 0 where
  pub id : ℕ
  pub telegram_case_id : ℕ
  pub external_command_id : ℕ
  pub source_conversation_id : String
  pub source_thread_id : String
  pub follow_up_kind : String
  pub follow_up_number : ℕ
  pub customer_update_en : Option String
  pub previous_status : String
  pub telegram_message_id : Option ℕ
  pub status : String
  pub last_error : Option String
  pub sent_at : Option ℕ

pub record CaseMessage : Type 0 where
  pub telegram_case_id : ℕ
  pub telegram_chat_id : String
  pub telegram_message_thread_id : Option ℕ
  pub telegram_message_id : ℕ
  pub message_kind : String

pub record Store : Type 0 where
  pub cases : List CaseRow
  pub followups : List Followup
  pub messages : List CaseMessage
  pub next_id : ℕ

-- The result of `reserve_followup`; of a follow-up that was there, the keys that a new one has.
pub record Reservation : Type 0 where
  pub id : ℕ
  pub follow_up_number : ℕ
  pub follow_up_kind : String
  pub status : String
  pub duplicate : Bool
  pub case_row : CaseRow

-- A result, or the exception's name.
pub data Answer : Type 0 where
  raised : String → Answer
  reserved : Reservation → Answer

abbrev pub find_case : ℕ → List CaseRow → Option CaseRow
find_case id [] = none
find_case id (c ∷ cs) = let rest = find_case id cs in if c.id == id then some c else rest

abbrev pub of_thread : ℕ → String → Followup → Bool
of_thread telegram_case_id source_thread_id f =
    f.telegram_case_id == telegram_case_id && f.source_thread_id is source_thread_id

abbrev pub find_followup : ℕ → String → List Followup → Option Followup
find_followup telegram_case_id source_thread_id [] = none
find_followup telegram_case_id source_thread_id (f ∷ fs) =
    let rest = find_followup telegram_case_id source_thread_id fs in
    if of_thread telegram_case_id source_thread_id f then some f else rest

-- The numbers of the follow-ups of a case.
abbrev pub numbers : ℕ → List Followup → List ℕ
numbers telegram_case_id fs =
    map (λ (f : Followup). f.follow_up_number)
      (filter (λ (f : Followup). f.telegram_case_id == telegram_case_id) fs)

-- SQL `MAX`, which is NULL where there are no rows.
abbrev pub max_of : List ℕ → Option ℕ
max_of [] = none
max_of (n ∷ ns) = some (max n (coalesce (max_of ns) n))

abbrev pub next_followup_number : ℕ → List Followup → ℕ
next_followup_number telegram_case_id fs = coalesce (max_of (numbers telegram_case_id fs)) 1 + 1

-- The unique keys of `telegram_case_followups`.
abbrev pub collides : Followup → Followup → Bool
collides f g =
    g.telegram_case_id == f.telegram_case_id && g.source_thread_id is f.source_thread_id
    || g.telegram_case_id == f.telegram_case_id && g.follow_up_number == f.follow_up_number
    || g.external_command_id == f.external_command_id

abbrev pub inserted_followup : ℕ → ℕ → ℕ → ℕ → String → String → String → String → Followup
inserted_followup id number external_command_id telegram_case_id source_conversation_id
      source_thread_id follow_up_kind previous_status =
    record {
      id = id;
      telegram_case_id = telegram_case_id;
      external_command_id = external_command_id;
      source_conversation_id = source_conversation_id;
      source_thread_id = source_thread_id;
      follow_up_kind = follow_up_kind;
      follow_up_number = number;
      customer_update_en = none;
      previous_status = previous_status;
      telegram_message_id = none;
      status = "reserved";
      last_error = none;
      sent_at = none;
    }

abbrev pub reservation : Bool → CaseRow → Followup → Reservation
reservation duplicate c f = record {
  id = f.id;
  follow_up_number = f.follow_up_number;
  follow_up_kind = f.follow_up_kind;
  status = f.status;
  duplicate = duplicate;
  case_row = c;
}

-- An insertion that a unique key refuses is rolled back, all but the id it drew.
unfoldable pub insert_followup : CaseRow → Followup → Store → Answer × Store
insert_followup c f s =
    if any (collides f) s.followups
    then (raised "IntegrityError", record s { next_id = suc s.next_id })
    else (
      reserved (reservation false c f),
      record s { followups = s.followups ++ f ∷ []; next_id = suc s.next_id },
    )

-- The transaction, where the case was found or not, and the follow-up was there or not.
unfoldable pub reserve_on :
    Option CaseRow → Option Followup → (CaseRow → Answer × Store) → Store → Answer × Store
reserve_on none existing insert s = (raised "ValueError", s)
reserve_on (some c) (some f) insert s = (reserved (reservation true c f), s)
reserve_on (some c) none insert s = insert c

unfoldable pub reserve_followup : ℕ → ℕ → String → String → String → String → Store → Answer × Store
unfolding reserve_on insert_followup
reserve_followup external_command_id telegram_case_id source_conversation_id source_thread_id
      follow_up_kind previous_status s =
    if source_thread_id is ""
    then (raised "ValueError", s)
    else reserve_on (find_case telegram_case_id s.cases)
        (find_followup telegram_case_id source_thread_id s.followups)
        (λ c.
          insert_followup c
            (inserted_followup s.next_id (next_followup_number telegram_case_id s.followups)
              external_command_id telegram_case_id source_conversation_id source_thread_id
              follow_up_kind previous_status)
            s)
        s
