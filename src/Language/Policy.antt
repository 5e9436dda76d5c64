-- ===== src/Language/Policy.antt =====
-- The choice of the language of a reply: `resolve_language_policy`
-- (src/app/services/language_policy.py). A confidence is a number of millionths.
use Prim.Native.Char.{code}
use ai_customer_service.Prelude.{
  ℕ, String, Bool, not, ◌&&◌, ◌||◌, Option, none, some, List, [], ◌∷◌, ◌++◌, leb, ◌==◌,
  if◌then◌else◌, ◌is◌, is_in, or_text, or_else, lower_is, any,
}
use ai_customer_service.Language.Codes.{final_reply_language_codes, normalize_language_code}

-- `value.split(",")`: the first part, and the others.
abbrev split_comma : String → String × List String
split_comma String.[] = ("", [])
split_comma (String.◌∷◌ c s) =
    let (first, rest) = split_comma s in
    if code c == 44 then ("", first ∷ rest) else (String.◌∷◌ c first, rest)

-- None, a text, or a list of texts.
pub data SupportedValue : Type 0 where
  unset : SupportedValue
  text : String → SupportedValue
  items : List String → SupportedValue

abbrev pub items_of : SupportedValue → List String
items_of unset = final_reply_language_codes
items_of (text s) = let (first, rest) = split_comma s in first ∷ rest
items_of (items xs) = xs

-- One round of the loop: a code that is known, and not in the list yet, is added at its end.
abbrev pub add_language : List String → String → List String
add_language normalized code =
    if code is "unknown" || is_in code normalized then normalized else normalized ++ code ∷ []

unfoldable pub normalize_items : List String → List String → List String
unfolding normalize_language_code
normalize_items normalized [] = normalized
normalize_items normalized (item ∷ rest) =
    normalize_items (add_language normalized (normalize_language_code (some item))) rest

abbrev pub or_spanish : List String → List String
or_spanish [] = "es" ∷ []
or_spanish (code ∷ codes) = code ∷ codes

unfoldable pub parse_supported_languages : SupportedValue → List String
unfolding normalize_items
parse_supported_languages value = or_spanish (normalize_items [] (items_of value))

pub record Message : Type 0 where
  pub sender_role : Option String
  pub role : Option String
  pub language : Option String
  pub detected_language : Option String
  pub reply_language : Option String

-- `rewrite_result`
pub record Rewrite : Type 0 where
  pub detected_language : Option String
  pub language : Option String
  pub source : Option String
  pub language_source : Option String
  pub language_confidence : Option ℕ
  pub confidence : Option ℕ

-- What is read of the state; the oldest message comes first.
pub record State : Type 0 where
  pub recent_messages : List Message
  pub rewrite_result : Rewrite
  pub last_user_language : Option String
  pub last_reply_language : Option String

pub record Policy : Type 0 where
  pub detected_language : String
  pub language_confidence : ℕ
  pub language_source : String
  pub conversation_language : String
  pub reply_language : String
  pub supported_languages : List String
  -- `slot_memory` after it
  pub last_user_language : Option String
  pub last_reply_language : Option String

abbrev is_customer : Message → Bool
is_customer m =
    any (lower_is (or_text (or_else m.sender_role m.role) ""))
      ("customer" ∷ "user" ∷ "external" ∷ [])

abbrev message_language : Message → Option String
message_language m = or_else m.language (or_else m.detected_language m.reply_language)

-- The language of the newest customer's message that has one, or "unknown".
unfoldable pub infer_recent_user_language : List Message → String
unfolding normalize_language_code
infer_recent_user_language [] = "unknown"
infer_recent_user_language (m ∷ ms) =
    let later = infer_recent_user_language ms in
    if later is "unknown" && is_customer m
    then normalize_language_code (message_language m)
    else later

abbrev pub is_supported : String → List String → Bool
is_supported language supported = not (language is "unknown") && is_in language supported

abbrev pub first_or_spanish : List String → String
first_or_spanish [] = "es"
first_or_spanish (code ∷ codes) = code

unfoldable pub ensure_supported : String → List String → String → String
unfolding normalize_language_code
ensure_supported language supported fallback =
    let normalized = normalize_language_code (some language) in
    let second = normalize_language_code (some fallback) in
    if is_supported normalized supported
    then normalized
    else if is_supported second supported
    then second
    else first_or_spanish supported

abbrev or_number : Option ℕ → ℕ → ℕ
or_number none d = d
or_number (some n) d = if n == 0 then d else n

abbrev one : ℕ
one = 1000000

abbrev authoritative_sources : List String
authoritative_sources =
    "llm_guarded_authoritative" ∷ "llm_guarded_authoritative_post_guard"
    ∷ "llm_rewrite_authoritative" ∷ "llm_rewrite" ∷ []

-- The language and its confidence, where the rewrite is an authority.
unfoldable pub rewrite_language : Rewrite → List String → Option (String × ℕ)
unfolding normalize_language_code
rewrite_language r supported =
    let language = normalize_language_code (or_else r.detected_language r.language) in
    if is_supported language supported
      && is_in (or_text (or_else r.source r.language_source) "") authoritative_sources
    then some (language, or_number r.language_confidence (or_number r.confidence one))
    else none

-- The language without an authority: recent messages, the slot memory, the tenant's default.
unfoldable pub inferred : State → List String → Option String → String → String × String
unfolding infer_recent_user_language normalize_language_code
inferred s supported last_user tenant_default =
    let recent = normalize_language_code (some (infer_recent_user_language s.recent_messages)) in
    let slot = normalize_language_code (or_else last_user s.last_reply_language) in
    if is_supported recent supported
    then (recent, "recent_messages")
    else if is_supported slot supported
    then (slot, "slot_memory")
    else (tenant_default, "tenant_default")

-- The conversation's language and its source.
unfoldable pub chosen : State → List String → ℕ → String → Option (String × ℕ) → String × String
unfolding inferred
chosen s supported min_confidence tenant_default none =
    inferred s supported s.last_user_language tenant_default
chosen s supported min_confidence tenant_default (some (language, confidence)) =
    if leb min_confidence confidence
    then (language, "rewrite_result")
    else inferred s supported s.last_user_language tenant_default

abbrev detected : Option (String × ℕ) → String × ℕ
detected none = ("unknown", 0)
detected (some found) = found

abbrev remembered : Option (String × ℕ) → Option String → Option String
remembered none before = before
remembered (some (language, confidence)) before = some language

unfoldable pub resolve_language_policy :
    State → String → SupportedValue → ℕ → String → Bool → Policy
unfolding parse_supported_languages ensure_supported rewrite_language chosen normalize_language_code
resolve_language_policy s tenant_default_language supported_languages min_confidence
      fallback_language persist =
    let supported = parse_supported_languages supported_languages in
    let tenant_default =
      ensure_supported (normalize_language_code (some tenant_default_language)) supported
        fallback_language in
    let fallback =
      ensure_supported (normalize_language_code (some fallback_language)) supported
        tenant_default in
    let llm = rewrite_language s.rewrite_result supported in
    let (conversation_language, source) = chosen s supported min_confidence tenant_default llm in
    let reply_language = ensure_supported conversation_language supported fallback in
    record {
      detected_language = (detected llm).0;
      language_confidence = (detected llm).1;
      language_source = source;
      conversation_language = conversation_language;
      reply_language = reply_language;
      supported_languages = supported;
      last_user_language =
          if persist then remembered llm s.last_user_language else s.last_user_language;
      last_reply_language = if persist then some reply_language else s.last_reply_language;
    }
