-- ===== src/Sender/Effects.antt =====
-- What the sender worker reads, writes and calls (src/app/workers/sender_worker.py).
use ai_customer_service.Prelude.{ℕ, String, Bool, Option, List, ◌∷◌, length}

-- An exception, with its text. For LiveChat, the HTTP status and the text in lower case too.
pub data Exn : Type 0 where
  telegram_api : String → Bool → Exn
  livechat_api : ℕ → String → String → Exn
  -- TimeoutError, ConnectionError, URLError
  transport : String → Exn
  other : String → Exn

abbrev pub text_of : Exn → String
text_of (telegram_api text retryable) = text
text_of (livechat_api status text lowered) = text
text_of (transport text) = text
text_of (other text) = text

pub data Answer {ℓ} (A : Type ℓ) : Type ℓ where
  value : A → Answer A
  raises : Exn → Answer A

-- The keys of `payload_json` that the worker reads; `other` values of them are texts.
pub record Payload : Type 0 where
  pub text : Option String
  pub custom_id : Option String
  -- `handoff_ack is True`
  pub handoff_ack : Bool
  pub asset_source : Option String
  pub telegram_file_id : Option String
  pub asset_ref : Option String
  pub asset_key : Option String
  pub caption : Option String
  pub menu_key : Option String
  pub language : Option String

-- A leased row, with the state of its conversation that the fetch joins to it.
pub record Task : Type 0 where
  pub id : ℕ
  pub conversation_id : Option String
  pub chat_id : String
  pub thread_id : Option String
  pub message_type : Option String
  pub message_kind : Option String
  pub payload_json : Payload
  pub retry_count : ℕ
  pub conversation_status : Option String
  pub conversation_active_workflow : Option String

-- The response of the client: whether it has a true `success`, a true `event_id`, its text, and
-- its `_delivery_mode`.
pub record Response : Type 0 where
  pub success : Bool
  pub event_id : Bool
  pub shown : String
  pub delivery_mode : Option String

-- A menu, with its key and its text without buttons.
pub record Menu : Type 0 where
  pub menu_key : String
  pub fallback_text : String

pub record Caption : Type 0 where
  pub status : String
  pub error : Option String

pub record Result : Type 0 where
  pub status : String
  pub last_error : Option String
  pub retryable : Bool
  pub delivery_mode : Option String
  pub caption_result : Option Caption

pub data Call : Type 0 where
  asked_human_active : String → Bool → Call
  -- chat, text, custom id
  sent_text : String → String → Option String → Call
  sent_buttons : String → Menu → Call
  sent_image : String → String → Call
  downloaded : String → Call
  sent_image_content : String → Call
  -- id, status, error, retryable
  marked_failed : ℕ → String → String → Bool → Call
  -- id, the text of the history row, error
  marked_sent_with_message : ℕ → String → Option String → Call
  released_lease : ℕ → Call

-- The answers of the database, of the clients, and of the menus, each a function of the number
-- of calls made before; the settings of the process.
pub record Env : Type 0 where
  pub human_active : ℕ → String → Bool
  pub menu : Option String → Option String → Answer Menu
  pub send : ℕ → Answer Response
  pub has_telegram : Bool
  pub download : ℕ → Answer (Unit {0})
  -- writes and `release_lease`
  pub write : ℕ → Answer (Unit {0})
  -- LIVECHAT_IMAGE_TEXT_FALLBACK
  pub image_text_fallback : Option String

-- The calls made, the newest first.
abbrev pub Trace : Type 0
Trace = List Call

abbrev pub Action {ℓ} : Type ℓ → Type ℓ
Action A = Env → Trace → Answer A × Trace

module _ {ℓ} {A : Type ℓ} where
  abbrev pub pure : A → Action A
  pure a env t = (value a, t)

module _ {ℓ κ} {A : Type ℓ} {B : Type κ} where
  abbrev pub continue : Answer A → (A → Action B) → Action B
  continue (value a) f env t = f a env t
  continue (raises e) f env t = (raises e, t)

  infixl 5 ◌>>=◌
  abbrev pub ◌>>=◌ : Action A → (A → Action B) → Action B
  ◌>>=◌ m f env t = let (r, t') = m env t in continue r f env t'

infixl 5 ◌>>◌
abbrev pub ◌>>◌ {ℓ} : {B : Type ℓ} → Action (Unit {0}) → Action B → Action B
m >> k = m >>= λ _. k

-- `try: …`: an exception of the action is a value.
abbrev pub attempt {ℓ} : {A : Type ℓ} → Action A → Action (Answer A)
attempt m env t = let (r, t') = m env t in (value r, t')

unfoldable pub is_conversation_human_active : String → Action Bool
is_conversation_human_active id env t =
    let answer = env.human_active (length t) id in (value answer, asked_human_active id answer ∷ t)

-- One call of the client that sends something.
unfoldable pub sending : Call → Action Response
sending call env t = (env.send (length t), call ∷ t)

unfoldable pub downloading : String → Action (Unit {0})
downloading id env t = (env.download (length t), downloaded id ∷ t)

unfoldable pub writing : Call → Action (Unit {0})
writing call env t = (env.write (length t), call ∷ t)
