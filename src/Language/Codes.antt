-- ===== src/Language/Codes.antt =====
-- Language codes (src/app/services/language_policy.py) and the fixed notices in each language
-- (src/app/services/ai_failure_policy.py).
use Prim.Native.Char.{code}
use ai_customer_service.Prelude.{
  ℕ, ◌+◌, String, Bool, true, false, ◌&&◌, Option, List, [], ◌∷◌, leb, ◌==◌, if◌then◌else◌, ◌is◌,
  is_in, or_text, strip,
}

abbrev pub supported_language_codes : List String
supported_language_codes =
    "zh-Hans" ∷ "zh-Hant" ∷ "en" ∷ "es" ∷ "tl" ∷ "th" ∷ "my" ∷ "ms" ∷ "unknown" ∷ []

-- The supported codes but `unknown`.
abbrev pub final_reply_language_codes : List String
final_reply_language_codes = "zh-Hans" ∷ "zh-Hant" ∷ "en" ∷ "es" ∷ "tl" ∷ "th" ∷ "my" ∷ "ms" ∷ []

abbrev pub language_aliases : List (String × String)
language_aliases =
    ("zh", "zh-Hans")
    ∷ ("cn", "zh-Hans")
    ∷ ("zh_cn", "zh-Hans")
    ∷ ("zh-cn", "zh-Hans")
    ∷ ("zh_hans", "zh-Hans")
    ∷ ("simplified", "zh-Hans")
    ∷ ("zh-tw", "zh-Hant")
    ∷ ("zh_tw", "zh-Hant")
    ∷ ("tw", "zh-Hant")
    ∷ ("traditional", "zh-Hant")
    ∷ ("zh_hant", "zh-Hant")
    ∷ ("tagalog", "tl")
    ∷ ("fil", "tl")
    ∷ ("filipino", "tl")
    ∷ ("burmese", "my")
    ∷ ("mm", "my")
    ∷ ("myanmar", "my")
    ∷ ("malay", "ms")
    ∷ ("thai", "th")
    ∷ []

-- One code of `raw.lower().replace(" ", "_")`, over the ASCII letters.
abbrev key_code : ℕ → ℕ
key_code c = if c == 32 then 95 else if leb 65 c && leb c 90 then c + 32 else c

-- `raw.lower().replace(" ", "_") == key`
abbrev pub key_is : String → String → Bool
key_is String.[] String.[] = true
key_is (String.◌∷◌ c s) (String.◌∷◌ d t) = key_code (code c) == code d && key_is s t
key_is _ _ = false

unfoldable pub alias_of : String → List (String × String) → String
alias_of raw [] = "unknown"
alias_of raw ((key, language) ∷ rest) =
    let later = alias_of raw rest in if key_is raw key then language else later

unfoldable pub normalize_language_code : Option String → String
unfolding alias_of strip
normalize_language_code value =
    let raw = strip (or_text value "") in
    if raw is ""
    then "unknown"
    else if is_in raw supported_language_codes
    then raw
    else alias_of raw language_aliases

-- The entry of a table of texts by language, or the Spanish one.
notice_in : String → List (String × String) → String → String
notice_in language [] fallback = fallback
notice_in language ((code, text) ∷ rest) fallback =
    let later = notice_in language rest fallback in if language is code then text else later

abbrev ai_failure_handoff_notices : List (String × String)
ai_failure_handoff_notices =
    ("zh-Hans", "很抱歉，AI客服当前出现临时故障。为了不影响您继续处理问题，现为您转接人工客服继续协助。")
    ∷ ("zh-Hant", "很抱歉，AI客服目前出現暫時故障。為了不影響您繼續處理問題，現為您轉接真人客服繼續協助。")
    ∷ (
      "en",
      "Sorry, the automated assistant is having a temporary technical issue. To avoid delaying your case, I will transfer you to a human agent for continued help.",
    )
    ∷ (
      "es",
      "Lo sentimos, el asistente automático tuvo un inconveniente técnico temporal. Para no afectar la atención de su caso, le transferiremos con un agente humano para que continúe ayudándole.",
    )
    ∷ (
      "tl",
      "Paumanhin, pansamantalang nagkaroon ng teknikal na problema ang automated assistant. Upang hindi maantala ang iyong concern, ililipat ka namin sa isang human agent para patuloy kang matulungan.",
    )
    ∷ (
      "th",
      "ขออภัย ผู้ช่วยอัตโนมัติเกิดปัญหาทางเทคนิคชั่วคราว เพื่อไม่ให้การดำเนินการของคุณล่าช้า เราจะโอนคุณไปยังเจ้าหน้าที่เพื่อช่วยเหลือต่อ",
    )
    ∷ (
      "my",
      "တောင်းပန်ပါတယ်၊ အလိုအလျောက်အကူစနစ်တွင် ယာယီနည်းပညာပြဿနာ ဖြစ်ပေါ်နေပါသည်။ သင့်ကိစ္စ မနှောင့်နှေးစေရန် လူသားဝန်ထမ်းထံ လွှဲပြောင်းပေးပါမည်။",
    )
    ∷ (
      "ms",
      "Maaf, pembantu automatik sedang mengalami masalah teknikal sementara. Untuk mengelakkan urusan anda tertangguh, kami akan memindahkan anda kepada ejen manusia untuk bantuan lanjut.",
    )
    ∷ []

unfoldable pub ai_failure_handoff_notice : Option String → String
unfolding normalize_language_code notice_in
ai_failure_handoff_notice language =
    notice_in (normalize_language_code language) ai_failure_handoff_notices
      "Lo sentimos, el asistente automático tuvo un inconveniente técnico temporal. Para no afectar la atención de su caso, le transferiremos con un agente humano para que continúe ayudándole."

abbrev faq_translation_failure_notices : List (String × String)
faq_translation_failure_notices =
    ("zh-Hans", "抱歉，暂时无法生成这项说明。请联系人工客服继续处理。")
    ∷ ("zh-Hant", "抱歉，暫時無法產生這項說明。請聯絡真人客服繼續處理。")
    ∷ (
      "en",
      "Sorry, I cannot provide this guide in your language right now. Please contact a human agent for further help.",
    )
    ∷ (
      "es",
      "Lo siento, temporalmente no puedo ofrecer esta guía en su idioma. Solicite ayuda a un agente humano para continuar.",
    )
    ∷ (
      "tl",
      "Paumanhin, hindi ko maibibigay ang gabay na ito sa iyong wika sa ngayon. Mangyaring humingi ng tulong sa isang human agent.",
    )
    ∷ (
      "th",
      "ขออภัย ขณะนี้ไม่สามารถแสดงคำแนะนำนี้เป็นภาษาของคุณได้ โปรดติดต่อเจ้าหน้าที่เพื่อขอความช่วยเหลือต่อ",
    )
    ∷ (
      "my",
      "တောင်းပန်ပါသည်၊ ယခုလောလောဆယ် ဤလမ်းညွှန်ကို သင့်ဘာသာစကားဖြင့် မပေးနိုင်သေးပါ။ ဆက်လက်အကူအညီရယူရန် လူသားဝန်ထမ်းကို ဆက်သွယ်ပါ။",
    )
    ∷ (
      "ms",
      "Maaf, panduan ini tidak dapat diberikan dalam bahasa anda buat masa ini. Sila hubungi ejen manusia untuk bantuan lanjut.",
    )
    ∷ []

unfoldable pub faq_translation_failure_notice : Option String → String
unfolding normalize_language_code notice_in
faq_translation_failure_notice language =
    notice_in (normalize_language_code language) faq_translation_failure_notices
      "Lo siento, temporalmente no puedo ofrecer esta guía en su idioma. Solicite ayuda a un agente humano para continuar."
