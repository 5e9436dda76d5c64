-- ===== src/Language/Examples.antt =====
-- A code in a customer's words (src/app/services/language_policy.py).
use ai_customer_service.Prelude.{◌≡◌, refl, true, false, none, some, is_in, ◌is◌, [], All}
use ai_customer_service.Language.{supported_language_codes, normalize_language_code}
use ai_customer_service.Language.Policy.{State, text, resolve_language_policy}
use ai_customer_service.Language.Reply.{AreDistinct, IsCode, resolve_language_policy-supported}
use ai_customer_service.Language.Supported.{normalize_language_code-idempotent}

normalize_language_code-idempotent_example :
    (is_in (normalize_language_code (some " ZH TW ")) supported_language_codes ≡ true)
    × (normalize_language_code (some (normalize_language_code (some " ZH TW ")))
        ≡ normalize_language_code (some " ZH TW "))
normalize_language_code-idempotent_example = normalize_language_code-idempotent (some " ZH TW ")

-- A rewrite in Thai, with a confidence of 0.9.
abbrev state : State
state = record {
  recent_messages = [];
  rewrite_result = record {
    detected_language = some "thai";
    language = none;
    source = some "llm_rewrite";
    language_source = none;
    language_confidence = some 900000;
    confidence = none;
  };
  last_user_language = none;
  last_reply_language = none;
}

resolve_language_policy-supported_example :
    let p = resolve_language_policy state "es" (text "es, th,fr") 700000 "en" true in
    All IsCode p.supported_languages
    × AreDistinct p.supported_languages
    × (is_in p.reply_language p.supported_languages ≡ true)
    × (p.reply_language is "unknown" ≡ false)
    × (p.last_reply_language ≡ some p.reply_language)
resolve_language_policy-supported_example =
    resolve_language_policy-supported state "es" (text "es, th,fr") 700000 "en"

-- The language of the rewrite is taken.
reply_language_test :
    (resolve_language_policy state "es" (text "es, th,fr") 700000 "en" true).reply_language ≡ "th"
unfolding resolve_language_policy
reply_language_test = refl
