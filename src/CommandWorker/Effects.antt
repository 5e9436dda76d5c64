-- ===== src/CommandWorker/Effects.antt =====
-- What the external command worker reads, writes and calls
-- (src/app/workers/external_command_worker.py).
use ai_customer_service.Prelude.{
  ℕ, String, List, Bool, true, false, Option, some, Json, Fields, null, bool, num, str, decimal,
  get,
}
use ai_customer_service.Queue.Commands.{Command}
use ai_customer_service.Prelude.Actions as Actions
use ai_customer_service.Prelude.Actions.{Answer, value, raises, perform, reads, lift}

-- An exception with its text, the text in lower case, and for a client's error its data in lower
-- case: `json.dumps(exc.data).lower()`, for Telegram `exc.data or {"description": …}`.
pub data Exn : Type 0 where
  -- status, text, lowered, data
  livechat_api : ℕ → String → String → String → Exn
  -- status, error_code, retryable, text, lowered, data
  telegram_api : Option ℕ → Option ℕ → Bool → String → String → String → Exn
  timeout : String → Exn
  -- text, lowered
  other : String → String → Exn

-- `str(exc)`
abbrev pub text_of : Exn → String
text_of (livechat_api status text lowered json) = text
text_of (telegram_api status code retryable text lowered json) = text
text_of (timeout text) = text
text_of (other text lowered) = text

-- An exception that the worker raises itself. No classification reads its text.
abbrev pub error : String → Exn
error text = other text text

-- The result of Python's `int` of a text: a number n, or −(n + 1).
pub data Number : Type 0 where
  nonnegative : ℕ → Number
  negative : ℕ → Number

-- A row of `outbound_messages`, as far as the worker reads it.
pub record Ack : Type 0 where
  pub id : ℕ
  pub status : String

-- The arguments of `reserve_followup`.
pub record Reserving : Type 0 where
  pub external_command_id : ℕ
  pub telegram_case_id : ℕ
  pub source_conversation_id : String
  pub source_thread_id : String
  pub follow_up_kind : String
  pub previous_status : String

pub data Call : Type 0 where
  read_conversation : String → Call
  read_handoff_ack : String → ℕ → Call
  -- writes of `ExternalCommandRepository`
  marked_status : ℕ → String → Option String → Call
  marked_processing_failed : ℕ → String → ℕ → Call
  marked_sent : ℕ → Call
  marked_dry_run_done : ℕ → Call
  released_lease : ℕ → Call
  merged_payload : ℕ → Fields → Call
  -- writes of the other repositories
  inserted_result : Fields → Call
  updated_workflow_state : String → Fields → Call
  recorded_handoff_failure : String → Fields → Call
  reserved_followup : Reserving → Call
  marked_followup_sending : ℕ → Call
  recorded_followup_sent : ℕ → ℕ → List ℕ → String → Call
  marked_followup_retryable : ℕ → String → Call
  marked_followup_uncertain : ℕ → String → Call
  canceled_followup : ℕ → String → Call
  -- calls outside the program: LiveChat, Telegram, the backend
  transferred_chat : Option String → Option ℕ → Bool → Bool → Call
  sent_case_card : String → Call
  appended_to_case : String → Json → Call
  sent_case_followup : String → Call
  queried_backend : Fields → Json → Option String → Call
  -- the look-up of an earlier case, in the program's own tables
  looked_up_reply : Json → String → String → Call

-- The answers of the database and of the clients, each a function of the number of calls made
-- before, and the functions of other modules and of Python that do not change.
pub record Env : Type 0 where
  -- `(conversation or {}).get("status")`
  pub conversation_status : ℕ → Answer Exn (Option String)
  pub handoff_ack : ℕ → Answer Exn (Option Ack)
  pub write : ℕ → Answer Exn (Unit {0})
  -- the status that a failed row has then
  pub failed_status : ℕ → Answer Exn String
  pub insert_result : ℕ → Answer Exn Json
  pub reservation : ℕ → Answer Exn Fields
  pub transfer_chat : ℕ → Answer Exn Json
  pub delivery : ℕ → Answer Exn Fields
  pub query_backend : ℕ → Answer Exn Fields
  pub lookup_reply : ℕ → Answer Exn Fields
  -- the texts of a card, of an addition to it with its translation, and of a follow-up
  pub case_card : Command → Fields → Answer Exn String
  pub case_append : Command → Fields → Json → Answer Exn String
  pub case_followup : Command → Fields → Fields → String → Answer Exn String
  -- `summarize_customer_update`, with a translator
  pub customer_update : String → String → Answer Exn String
  -- the search for the pattern of a customer who asks about money
  pub is_money_followup : String → Bool
  -- `str` of a list or of a dictionary, `int` of a text, `datetime.now(UTC).isoformat()`
  pub shown : Json → String
  pub parse_int : String → Option Number
  pub now : String

abbrev pub Action : Type 0 → Type 0
Action A = Actions.Action Env Exn Call A

abbrev pub Trace : Type 0
Trace = Actions.Trace Call

-- `str(j)`
abbrev pub str_of : Env → Json → String
str_of env null = "None"
str_of env (bool true) = "True"
str_of env (bool false) = "False"
str_of env (num n) = decimal n
str_of env (str s) = s
str_of env j = env.shown j

abbrev parsed : Option Number → Answer Exn ℕ
parsed (some (nonnegative n)) = value n
parsed _ = raises (error "invalid literal for int()")

-- `int(j)`, where `j` is an identifier: those of MySQL and of Telegram's messages are positive.
abbrev pub int_of : Env → Json → Answer Exn ℕ
int_of env (num n) = value n
int_of env (str s) = parsed (env.parse_int s)
int_of env (bool true) = value 1
int_of env (bool false) = value 0
int_of env _ = raises (error "int() argument must be a string or a number")

-- `d[key]`, of a key whose value is not null.
abbrev pub required : String → Json → Answer Exn Json
required key null = raises (error key)
required key j = value j

abbrev pub item : String → Fields → Action Json
item key d = lift (required key (get key d))

abbrev pub int_item : String → Fields → Action ℕ
int_item key d = reads λ env. int_of env (get key d)

-- One write.
abbrev pub writing : Call → Action (Unit {0})
writing call = perform call λ env n. env.write n
