-- ===== src/Language/Reply.antt =====
-- The language of a reply is always a supported one (src/app/services/language_policy.py).
use mathlib.Core.Path.{subst}
use ai_customer_service.Prelude.{
  ℕ, ◌≡◌, refl, String, Bool, true, false, not, ◌&&◌, ◌||◌, some, List, [], ◌∷◌, ◌++◌,
  if◌then◌else◌, ◌is◌, is_in, All, All-append, Bool-cases, inl, inr, eq_iff, eq_refl, arith,
}
use ai_customer_service.Language.Codes.{supported_language_codes, normalize_language_code}
use ai_customer_service.Language.Supported.{is_in-elim, normalize_language_code-idempotent}
use ai_customer_service.Language.Policy.{
  SupportedValue, items_of, add_language, normalize_items, or_spanish, parse_supported_languages,
  is_supported, ensure_supported, State, resolve_language_policy, first_or_spanish,
}

-- A list of codes of final replies, each once.
pub AreDistinct : List String → Type 0
AreDistinct [] = Unit {0}
AreDistinct (code ∷ codes) = (is_in code codes ≡ false) × AreDistinct codes

pub IsCode : String → Type 0
IsCode code = (is_in code supported_language_codes ≡ true) × (code is "unknown" ≡ false)

is_in-append :
    (code new : String) (codes : List String)
    → is_in code codes ≡ false
    → code is new ≡ false
    → is_in code (codes ++ new ∷ []) ≡ false
is_in-append code new [] h k = ground arith
is_in-append code new (c ∷ cs) h k = ground (arith, is_in-append code new cs)

clash : (b : Bool) {A : Type 0} → b ≡ true → b ≡ false → A
clash b h k = ground arith

is_symmetric : (a b : String) → b is a ≡ false → a is b ≡ false
is_symmetric a b h = elim (Bool-cases (a is b)) [
  | inl same ↦ clash (b is a) (subst (λ x. x is a ≡ true) ((eq_iff a b).0 same) (eq_refl a)) h
  | inr other ↦ other
]

AreDistinct-append :
    (codes : List String) (new : String)
    → AreDistinct codes
    → is_in new codes ≡ false
    → AreDistinct (codes ++ new ∷ [])
unfolding AreDistinct
AreDistinct-append [] new d h = (refl, tt)
AreDistinct-append (c ∷ cs) new (fresh, d) h = (
  is_in-append c new cs fresh (is_symmetric c new (ground arith)),
  AreDistinct-append cs new d (ground arith),
)

IsList : List String → Type 0
unfolding AreDistinct IsCode
IsList codes = All IsCode codes × AreDistinct codes

if-IsList :
    (b : Bool) (codes others : List String)
    → (b ≡ true → IsList codes)
    → (b ≡ false → IsList others)
    → IsList (if b then codes else others)
if-IsList true codes others h k = h refl
if-IsList false codes others h k = k refl

or_false : (a b : Bool) → (a || b) ≡ false → (a ≡ false) × (b ≡ false)
or_false a b h = ground arith

add_language-IsList :
    (codes : List String) (code : String)
    → IsList codes
    → is_in code supported_language_codes ≡ true
    → IsList (add_language codes code)
unfolding IsList IsCode
add_language-IsList codes code (all, distinct) known =
    if-IsList (code is "unknown" || is_in code codes) codes (codes ++ code ∷ [])
      (λ h. (all, distinct))
      (λ h.
        let (real, new) = or_false _ _ h in
        (
          All-append IsCode codes (code ∷ []) all ((known, real), tt),
          AreDistinct-append codes code distinct new,
        ))

normalize_items-IsList : (codes xs : List String) → IsList codes → IsList (normalize_items codes xs)
unfolding normalize_items
normalize_items-IsList codes [] h = h
normalize_items-IsList codes (x ∷ xs) h =
    normalize_items-IsList (add_language codes (normalize_language_code (some x))) xs (
      add_language-IsList codes (normalize_language_code (some x)) h
        (normalize_language_code-idempotent (some x)).0)

or_spanish-IsList : (codes : List String) → IsList codes → IsList (or_spanish codes)
unfolding IsList IsCode AreDistinct
or_spanish-IsList [] h = (((refl, refl), tt), (refl, tt))
or_spanish-IsList (code ∷ codes) h = h

parse-IsList : (value : SupportedValue) → IsList (parse_supported_languages value)
unfolding parse_supported_languages IsList AreDistinct
parse-IsList value =
    or_spanish-IsList (normalize_items [] (items_of value))
      (normalize_items-IsList [] (items_of value) (tt, tt))

if-is_in :
    (b : Bool) (x y : String) (codes : List String)
    → (b ≡ true → is_in x codes ≡ true)
    → is_in y codes ≡ true
    → is_in (if b then x else y) codes ≡ true
if-is_in true x y codes h k = h refl
if-is_in false x y codes h k = k

supported_is_in : (a b : Bool) → (not a && b) ≡ true → b ≡ true
supported_is_in a b h = ground arith

first-is_in :
    (codes : List String) → is_in (first_or_spanish (or_spanish codes)) (or_spanish codes) ≡ true
first-is_in [] = refl
first-is_in (code ∷ codes) = ground (arith, eq_refl code)

ensure_supported-is_in :
    (language : String) (value : SupportedValue) (fallback : String)
    → is_in
        (ensure_supported language (parse_supported_languages value) fallback)
        (parse_supported_languages value)
      ≡ true
unfolding ensure_supported parse_supported_languages
ensure_supported-is_in language value fallback =
    let codes = parse_supported_languages value in
    if-is_in (is_supported (normalize_language_code (some language)) codes) _ _ codes
      (supported_is_in _ _)
      (if-is_in (is_supported (normalize_language_code (some fallback)) codes) _ _ codes
        (supported_is_in _ _) (first-is_in (normalize_items [] (items_of value))))

-- The languages that a policy allows are known codes, not "unknown", each once, and the language
-- of the reply is one of them: whatever the state, the settings, and the threshold are. Where the
-- slot memory is written, it keeps that language.
pub resolve_language_policy-supported :
    (s : State) (tenant_default : String) (value : SupportedValue) (min_confidence : ℕ)
    (fallback : String)
    → let p = resolve_language_policy s tenant_default value min_confidence fallback true in
      All IsCode p.supported_languages
      × AreDistinct p.supported_languages
      × (is_in p.reply_language p.supported_languages ≡ true)
      × (p.reply_language is "unknown" ≡ false)
      × (p.last_reply_language ≡ some p.reply_language)
unfolding resolve_language_policy IsList IsCode
resolve_language_policy-supported s tenant_default value min_confidence fallback =
    let (all, distinct) = parse-IsList value in
    let codes = parse_supported_languages value in
    let second =
      ensure_supported (normalize_language_code (some fallback)) codes
        (ensure_supported (normalize_language_code (some tenant_default)) codes fallback) in
    let p = resolve_language_policy s tenant_default value min_confidence fallback true in
    let chosen = ensure_supported-is_in p.conversation_language value second in
    (
      all,
      distinct,
      chosen,
      (is_in-elim IsCode p.reply_language p.supported_languages all chosen).1,
      refl,
    )
