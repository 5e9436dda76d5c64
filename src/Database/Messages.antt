-- ===== src/Database/Messages.antt =====
-- The table `conversation_messages` and `insert_idempotent` of `ConversationMessageRepository`
-- (src/app/db/repositories.py).
use ai_customer_service.Prelude.{
  ℕ, suc, String, Bool, false, ◌&&◌, ◌||◌, Option, none, some, List, [], ◌∷◌, ◌++◌, ◌==◌,
  if◌then◌else◌, any, ◌is◌, or_text, Json,
}

-- The dictionary that a caller inserts.
pub record HistoryMessage : Type 0 where
  pub conversation_id : String
  pub tenant_id : Option String
  pub channel_type : Option String
  pub chat_id : Option String
  pub thread_id : Option String
  pub inbound_event_id : Option ℕ
  pub outbound_message_id : Option ℕ
  pub external_command_result_id : Option ℕ
  pub sender_role : String
  pub message_type : Option String
  pub text_content : Option String
  pub attachment_refs : Json
  pub source : String
  pub occurred_at : Option String

pub record HistoryRow : Type 0 where
  pub id : ℕ
  pub message : HistoryMessage

pub record History : Type 0 where
  pub rows : List HistoryRow
  pub next_id : ℕ

-- Equality in a unique key, where NULL equals nothing.
abbrev same_id : Option ℕ → Option ℕ → Bool
same_id none b = false
same_id (some a) none = false
same_id (some a) (some b) = a == b

abbrev same_kind : HistoryMessage → HistoryMessage → Bool
same_kind a b =
    a.sender_role is b.sender_role && or_text a.message_type "text" is or_text b.message_type "text"

-- The three unique keys.
abbrev pub same_message : HistoryMessage → HistoryMessage → Bool
same_message a b =
    same_id a.inbound_event_id b.inbound_event_id && same_kind a b
    || same_id a.outbound_message_id b.outbound_message_id
    || same_id a.external_command_result_id b.external_command_result_id && same_kind a b

-- What the INSERT stores.
abbrev stored : HistoryMessage → HistoryMessage
stored m = record m {
  tenant_id = some (or_text m.tenant_id "default");
  channel_type = some (or_text m.channel_type "livechat");
  message_type = some (or_text m.message_type "text");
}

-- The new row's id, or `none` for a duplicate, and the table.
unfoldable pub insert_message : HistoryMessage → History → Option ℕ × History
insert_message m t =
    if any (λ (row : HistoryRow). same_message row.message m) t.rows then (none, t) else (
      some t.next_id,
      record {
        rows = t.rows ++ record { id = t.next_id; message = stored m } ∷ [];
        next_id = suc t.next_id;
      },
    )
