-- ===== src/CommandWorker/Records.antt =====
-- The rows and values that the worker builds (src/app/workers/external_command_worker.py).
use ai_customer_service.Prelude.{
  ◌<>◌, ℕ, ◌+◌, String, Bool, true, false, not, ◌&&◌, Option, none, some, List, [], ◌∷◌,
  if◌then◌else◌, ◌is◌, or_text, decimal, Json, Fields, Items, null, bool, num, str, arr, obj, nil,
  cons, get, put, fields, is_null, or_json, dict_of, text_or_null,
}
use ai_customer_service.Prelude.Actions.{Answer, value, raises}
use ai_customer_service.Queue.Commands.{Command}
use ai_customer_service.CommandWorker.Effects.{Env, Exn, error, int_of}
use ai_customer_service.CommandWorker.Config.{payload, human_handoff}

-- What the processing of a command returns: the keys of every such dictionary, and the others.
pub record Item : Type 0 where
  pub id : ℕ
  pub command_type : String
  pub status : String
  pub error : Option String
  pub others : Fields

abbrev pub item_of : Command → String → Option String → List (String × Json) → Item
item_of command status error others = record {
  id = command.id;
  command_type = command.command_type;
  status = status;
  error = error;
  others = fields others;
}

-- The keys of an item whose result may have been emitted.
abbrev pub with_insert : Bool → Json → List (String × Json) → List (String × Json)
with_insert false inserted others = others
with_insert true inserted others = ("result_insert", inserted) ∷ others

abbrev event_or_null : Option ℕ → Json
event_or_null none = null
event_or_null (some n) = num n

unfoldable pub build_result_record : Command → String → Fields → Option String → Fields
build_result_record command result_type result_json status =
    let row = fields (
      ("external_command_id", num command.id)
      ∷ ("tenant_id", str (or_text (some command.tenant_id) "default"))
      ∷ ("conversation_id", str command.conversation_id)
      ∷ ("chat_id", text_or_null command.chat_id)
      ∷ ("thread_id", text_or_null command.thread_id)
      ∷ ("inbound_event_id", event_or_null command.inbound_event_id)
      ∷ ("command_type", str command.command_type)
      ∷ ("result_type", str result_type)
      ∷ ("result_json", obj result_json)
      ∷ []) in
    elim status [ none ↦ row | some s ↦ put "status" (str s) row ]

-- The values of the payload that are not null, put into the result.
abbrev copied : List String → Fields → Fields → Fields
copied [] source result = result
copied (key ∷ keys) source result =
    copied keys source
      (if is_null (get key source) then result else put key (get key source) result)

-- The same, for keys that the result does not have.
abbrev completed : List String → Fields → Fields → Fields
completed [] source result = result
completed (key ∷ keys) source result = completed keys source (
    if is_null (get key result) && not (is_null (get key source))
    then put key (get key source) result
    else result)

unfoldable pub copy_user_visible_context_to_result : Fields → Fields → Fields
copy_user_visible_context_to_result = copied (
    "reply_language" ∷ "conversation_language" ∷ "detected_language" ∷ "raw_user_input"
    ∷ "rewritten_question" ∷ "identity_source" ∷ [])

unfoldable pub copy_backend_context_to_result : Fields → Fields → Fields
unfolding copy_user_visible_context_to_result
copy_backend_context_to_result source result =
    copy_user_visible_context_to_result source
      (completed ("livechat_group_id" ∷ "platform" ∷ []) source result)

abbrev mock_result : String → List (String × Json) → Answer Exn (String × Fields)
mock_result result_type result = value (result_type, fields result)

-- `MOCK_RESULT_BY_COMMAND_TYPE`
unfoldable pub mock_result_by_command_type : String → Answer Exn (String × Fields)
mock_result_by_command_type type =
    if type is "backend.query"
    then mock_result "backend.query.result" (
        ("status", str "success")
        ∷ ("answer", str "已收到查询请求，当前为 dry-run 模式，未连接真实后台。")
        ∷ ("raw", obj (fields (("mock", bool true) ∷ [])))
        ∷ [])
    else if type is "pending_reply.lookup"
    then mock_result "pending_reply.lookup.result" (
        ("status", str "found")
        ∷ ("reply_text", str "已收到查询请求，当前为 dry-run 模式，未连接真实 pending reply 查询源。")
        ∷ [])
    else if type is human_handoff
    then mock_result "human_handoff.requested.mock_result" (
        ("status", str "MOCKED")
        ∷ ("message", str "human_handoff.requested dry-run completed")
        ∷ ("handoff_status", str "REQUESTED_MOCK")
        ∷ [])
    else if type is "rag.placeholder"
    then mock_result "rag.placeholder.mock_result" (
        ("status", str "MOCKED")
        ∷ ("message", str "rag.placeholder dry-run completed")
        ∷ ("rag_status", str "RAG_PLACEHOLDER_MOCK")
        ∷ [])
    else raises (error type)

unfoldable pub build_mock_result_for_command : Command → Answer Exn (String × Fields)
unfolding mock_result_by_command_type
build_mock_result_for_command command =
    let p = payload command in
    let workflow = or_json (get "active_workflow" p) (get "intent" p) in
    if command.command_type is "telegram.send_case_card"
    then mock_result "telegram.case.created" (
        ("status", str "created")
        ∷ ("case_id", str ("mock_tg:" <> decimal command.id))
        ∷ ("telegram_message_id", num (900000 + command.id))
        ∷ ("target_chat_id", str "mock_target")
        ∷ ("message_thread_id", null)
        ∷ ("target_source", str "dry_run")
        ∷ ("delivery_mode", str "dry_run")
        ∷ ("attachment_results", arr nil)
        ∷ ("intent", get "intent" p)
        ∷ ("active_workflow", workflow)
        ∷ [])
    else if command.command_type is "telegram.append_to_case"
    then mock_result "telegram.append_to_case.result" (
        ("status", str "appended")
        ∷ ("telegram_message_id", num (910000 + command.id))
        ∷ ("reply_to_message_id", get "telegram_message_id" p)
        ∷ ("target_chat_id", or_json (get "telegram_target_chat_id" p) (str "mock_target"))
        ∷ ("message_thread_id", get "telegram_message_thread_id" p)
        ∷ ("target_source", str "dry_run")
        ∷ ("attachment_results", arr nil)
        ∷ ("intent", get "intent" p)
        ∷ ("active_workflow", workflow)
        ∷ [])
    else if command.command_type is "telegram.remind_case"
    then mock_result "telegram.case.reminded" (
        ("status", str "mocked")
        ∷ ("followup_id", num (920000 + command.id))
        ∷ ("telegram_message_id", num (930000 + command.id))
        ∷ ("follow_up_kind", get "follow_up_kind" p)
        ∷ [])
    else mock_result_by_command_type command.command_type

-- The id of a message that an attachment was sent as.
abbrev attachment_id : Json → Json
attachment_id item =
    or_json (get "message_id" (dict_of item))
      (get "message_id" (dict_of (get "result" (dict_of item))))

abbrev joined : Answer Exn ℕ → Answer Exn (List ℕ) → Answer Exn (List ℕ)
joined (value n) (value ns) = value (n ∷ ns)
joined (raises e) ns = raises e
joined n (raises e) = raises e

unfoldable pub telegram_attachment_message_ids : Env → Items → Answer Exn (List ℕ)
telegram_attachment_message_ids env nil = value []
telegram_attachment_message_ids env (cons x xs) =
    let rest = telegram_attachment_message_ids env xs in
    if is_null (attachment_id x) then rest else joined (int_of env (attachment_id x)) rest
