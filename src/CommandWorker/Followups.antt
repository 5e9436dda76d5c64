-- ===== src/CommandWorker/Followups.antt =====
-- A reminder of a case in Telegram (src/app/workers/external_command_worker.py).
use ai_customer_service.Prelude.{
  ◌<>◌, ℕ, String, Bool, true, false, not, ◌||◌, Option, none, some, List, [], ◌∷◌, ◌==◌,
  if◌then◌else◌, ◌is◌, is_in, or_text, Json, Fields, null, num, str, arr, obj, nil, get, put,
  fields, is_true, or_json, dict_of, items_of,
}
use ai_customer_service.Prelude.Actions.{
  pure, perform, reads, try_else, ◌>>=◌, ◌>>◌, Answer, value, raises,
}
use ai_customer_service.Queue.Commands.{Command}
use ai_customer_service.CommandWorker.Effects.{
  Env, Exn, Action, Reserving, writing, text_of, str_of, int_of, item, int_item, livechat_api,
  telegram_api, timeout, other, reserved_followup, marked_followup_sending, recorded_followup_sent,
  marked_followup_retryable, marked_followup_uncertain, canceled_followup, sent_case_followup,
}
use ai_customer_service.CommandWorker.Config.{Config, payload}
use ai_customer_service.CommandWorker.Classify.{has_status}
use ai_customer_service.CommandWorker.Reasons.{telegram_block_reason}
use ai_customer_service.CommandWorker.Records.{
  Item, item_of, with_insert, build_result_record, telegram_attachment_message_ids,
}
use ai_customer_service.CommandWorker.Marking.{settle_as, settle, finish, emit, unless_blocked}

-- `is_money` is the answer of `is_money_case_followup_text` for the customer's text.
unfoldable pub effective_follow_up_kind : String → Bool → Option String
effective_follow_up_kind status is_money =
    if is_in status ("completed_confirmed_by_customer" ∷ "terminal_other" ∷ "waiting_customer" ∷ [])
    then none
    else if is_in status ("completed_by_staff" ∷ "completion_disputed" ∷ [])
    then (if is_money then some "completion_dispute" else none)
    else some "pending_follow_up"

-- `str(d.get(key) or default)`
abbrev pub text_in : Env → Fields → String → String → String
text_in env d key default = str_of env (or_json (get key d) (str default))

abbrev with_case : Answer Exn ℕ → (ℕ → Reserving) → Answer Exn Reserving
with_case (value n) f = value (f n)
with_case (raises e) f = raises e

-- The arguments of `reserve_followup`.
unfoldable pub reserving : Command → Env → Answer Exn Reserving
reserving command env =
    let p = payload command in
    with_case (int_of env (get "telegram_case_id" p)) λ case_id. record {
      external_command_id = command.id;
      telegram_case_id = case_id;
      source_conversation_id = command.conversation_id;
      source_thread_id = or_text command.thread_id "";
      follow_up_kind = text_in env p "follow_up_kind" "pending_follow_up";
      previous_status = text_in env p "previous_status" "under_review";
    }

abbrev with_followup : Json → List (String × Json)
with_followup id = ("followup_id", id) ∷ []

abbrev is_too_many : Exn → Bool
is_too_many (telegram_api status code retryable text lowered json) =
    has_status status (429 ∷ []) || has_status code (429 ∷ [])
is_too_many (livechat_api status text lowered json) = false
is_too_many (timeout text) = false
is_too_many (other text lowered) = false

-- The sending, or the record of it, failed.
unfoldable pub fail_delivery : Config → Command → ℕ → Exn → Action Item
fail_delivery c command id e =
    if is_too_many e
    then writing (marked_followup_retryable id (text_of e))
      >> settle c command "RETRYABLE" (some (text_of e))
    else writing (marked_followup_uncertain id (text_of e))
      >> settle_as c command "FAILED_DELIVERY_UNCERTAIN" (some (text_of e))

unfoldable pub send_followup : ℕ → String → String → Action Fields
send_followup id rendered update = do
  delivery ← perform (sent_case_followup rendered) λ env n. env.delivery n
  message_id ← int_item "message_id" delivery
  attachments ←
      reads
        λ env. telegram_attachment_message_ids env (items_of (get "attachment_results" delivery))
  writing (recorded_followup_sent id message_id attachments update)
  pure delivery

-- `list(delivery.get("attachment_errors") or [])`
abbrev attachment_errors : Fields → Json
attachment_errors delivery = or_json (get "attachment_errors" delivery) (arr nil)

unfoldable pub after_followup :
    Config → Command → ℕ → String → Fields → Fields → Fields → Action Item
after_followup c command id kind case reservation delivery = do
  case_id ← (if c.emit_result then item "id" case else pure null)
  message_id ← int_item "message_id" delivery
  inserted ← emit c.emit_result (
      build_result_record command "telegram.case.reminded"
        (fields (
          ("status", str "sent")
          ∷ ("followup_id", num id)
          ∷ ("telegram_case_id", case_id)
          ∷ ("telegram_message_id", num message_id)
          ∷ ("follow_up_number", get "follow_up_number" reservation)
          ∷ ("follow_up_kind", str kind)
          ∷ ("attachment_errors", attachment_errors delivery)
          ∷ []))
        (some "PROCESSED"))
  finish command (
      item_of command "SENT" none (
        with_insert c.emit_result inserted (
          (
            "telegram_result",
            obj (
                fields (
                  ("message_id", num message_id)
                  ∷ ("followup_id", num id)
                  ∷ ("attachment_errors", attachment_errors delivery)
                  ∷ [])),
          )
          ∷ [])))

-- The follow-up of a case that waits for one. `raw` is what the customer wrote.
unfoldable pub deliver_followup :
    Config → Command → ℕ → Fields → Fields → String → String → Action Item
deliver_followup c command id reservation case kind raw = do
  intent ← item "intent" case
  update ← reads λ env. env.customer_update raw (str_of env intent)
  let previous =
      or_json (get "previous_status" (payload command)) (get "previous_status" reservation)
  let followup = put "previous_status" previous (put "follow_up_kind" (str kind) reservation)
  rendered ← reads λ env. env.case_followup command case followup update
  writing (marked_followup_sending id)
  try_else (send_followup id rendered update) (fail_delivery c command id)
      (after_followup c command id kind case reservation)

-- A case that has been closed meanwhile, or the follow-up of its kind.
unfoldable pub follow_up :
    Config → Command → ℕ → Fields → Fields → String → String → Option String → Action Item
follow_up c command id reservation case status raw none = do
  writing (canceled_followup id ("stale case status: " <> status))
  finish command (item_of command "CANCELED_STALE" none (with_followup (num id)))
follow_up c command id reservation case status raw (some kind) =
    deliver_followup c command id reservation case kind raw

unfoldable pub use_reservation : Config → Command → Fields → Action Item
use_reservation c command reservation = do
  case_json ← item "case" reservation
  let case = dict_of case_json
  id ← int_item "id" reservation
  status ← reads λ env. value (text_in env case "status" "")
  raw ← reads λ env. value (text_in env (payload command) "raw_user_input" "")
  is_money ← reads λ env. value (env.is_money_followup raw)
  follow_up c command id reservation case status raw (effective_follow_up_kind status is_money)

abbrev has_text : Json → List String → Bool
has_text (str s) texts = is_in s texts
has_text _ texts = false

-- `external_command_id is not None`, and another command's.
abbrev other_command : Json → Answer Exn ℕ → ℕ → Answer Exn Bool
other_command null owner id = value false
other_command j (value n) id = value (not (n == id))
other_command j (raises e) id = raises e

unfoldable pub unless_reserved : Config → Command → Fields → Bool → Action Item
unless_reserved c command reservation true =
    finish command
      (item_of command "DUPLICATE_RESERVED" none (with_followup (get "id" reservation)))
unless_reserved c command reservation false = use_reservation c command reservation

-- A command that has reserved before: its follow-up may have been sent.
unfoldable pub resume : Config → Command → Fields → Bool → Action Item
resume c command reservation false = use_reservation c command reservation
resume c command reservation true =
    let owner = get "external_command_id" reservation in
    if has_text (get "status" reservation) ("sent" ∷ "delivery_uncertain" ∷ "sending" ∷ [])
    then finish command
        (item_of command "DUPLICATE_SENT" none (with_followup (get "id" reservation)))
    else reads (λ env. other_command owner (int_of env owner) command.id)
      >>= unless_reserved c command reservation

unfoldable pub run_followup : Config → Command → Action Item
run_followup c command = do
  arguments ← reads (reserving command)
  reservation ← perform (reserved_followup arguments) λ env n. env.reservation n
  resume c command reservation (is_true (get "duplicate" reservation))

abbrev pub blocked_followup_status : String → String
blocked_followup_status reason =
    if reason is "--execute-telegram is required" then "SKIPPED_DISABLED" else "FAILED_CONFIG"

unfoldable pub process_real_telegram_followup_command : Config → Command → Action Item
process_real_telegram_followup_command c command =
    reads (λ env. value (telegram_block_reason env command c.settings c.execute_telegram))
    >>= λ reason.
        unless_blocked reason (λ why. settle_as c command (blocked_followup_status why) (some why))
          (run_followup c command)
