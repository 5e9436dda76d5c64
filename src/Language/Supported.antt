-- ===== src/Language/Supported.antt =====
-- What `normalize_language_code` returns (src/app/services/language_policy.py).
use mathlib.Core.Path.{subst}
use ai_customer_service.Prelude.{
  ◌≡◌, refl, sym, String, Bool, true, false, Option, some, List, [], ◌∷◌, if◌then◌else◌, ◌is◌,
  is_in, or_text, strip, Bool-cases, inl, inr, eq_iff, arith, All,
}
use ai_customer_service.Language.Codes.{
  supported_language_codes, language_aliases, key_is, alias_of, normalize_language_code,
}

-- What holds of every code of a list holds of a code in it.
pub is_in-elim :
    (P : String → Type 0) (code : String) (codes : List String)
    → All P codes
    → is_in code codes ≡ true
    → P code
is_in-elim P code [] hs h = ground arith
is_in-elim P code (c ∷ cs) (p, ps) h = elim (Bool-cases (code is c)) [
  | inl same ↦ subst P (sym ((eq_iff code c).0 same)) p
  | inr other ↦ is_in-elim P code cs ps (ground arith)
]

-- A supported code is normalized to itself.
IsNormal : String → Type 0
IsNormal code =
    (is_in code supported_language_codes ≡ true) × (normalize_language_code (some code) ≡ code)

supported-IsNormal : All IsNormal supported_language_codes
unfolding IsNormal normalize_language_code
supported-IsNormal = (
  (refl, refl),
  (
    (refl, refl),
    (
      (refl, refl),
      (
        (refl, refl),
        ((refl, refl), ((refl, refl), ((refl, refl), ((refl, refl), ((refl, refl), tt))))),
      ),
    ),
  ),
)

if-IsNormal : (b : Bool) (x y : String) → IsNormal x → IsNormal y → IsNormal (if b then x else y)
if-IsNormal true x y h k = h
if-IsNormal false x y h k = k

alias-IsNormal :
    (raw : String) (table : List (String × String))
    → All (λ (row : String × String). IsNormal row.1) table
    → IsNormal (alias_of raw table)
unfolding alias_of IsNormal normalize_language_code
alias-IsNormal raw [] h = (refl, refl)
alias-IsNormal raw ((key, language) ∷ rest) (h, hs) =
    if-IsNormal (key_is raw key) language (alias_of raw rest) h (alias-IsNormal raw rest hs)

aliases-IsNormal : All (λ (row : String × String). IsNormal row.1) language_aliases
unfolding IsNormal normalize_language_code
aliases-IsNormal = (
  (refl, refl),
  (
    (refl, refl),
    (
      (refl, refl),
      (
        (refl, refl),
        (
          (refl, refl),
          (
            (refl, refl),
            (
              (refl, refl),
              (
                (refl, refl),
                (
                  (refl, refl),
                  (
                    (refl, refl),
                    (
                      (refl, refl),
                      (
                        (refl, refl),
                        (
                          (refl, refl),
                          (
                            (refl, refl),
                            (
                              (refl, refl),
                              ((refl, refl), ((refl, refl), ((refl, refl), ((refl, refl), tt)))),
                            ),
                          ),
                        ),
                      ),
                    ),
                  ),
                ),
              ),
            ),
          ),
        ),
      ),
    ),
  ),
)

unknown-IsNormal : IsNormal "unknown"
unfolding IsNormal normalize_language_code
unknown-IsNormal = (refl, refl)

supported_or :
    (b : Bool) (raw other : String)
    → (b ≡ true → IsNormal raw)
    → IsNormal other
    → IsNormal (if b then raw else other)
supported_or true raw other h k = h refl
supported_or false raw other h k = k

normal : (value : Option String) → IsNormal (normalize_language_code value)
unfolding normalize_language_code
normal value =
    let raw = strip (or_text value "") in
    if-IsNormal (raw is "") _ _ unknown-IsNormal (
      supported_or (is_in raw supported_language_codes) raw (alias_of raw language_aliases)
        (is_in-elim IsNormal raw supported_language_codes supported-IsNormal)
        (alias-IsNormal raw language_aliases aliases-IsNormal))

-- Whatever text comes in, the normalized code is a supported one, and normalizing it again gives
-- the same code.
pub normalize_language_code-idempotent :
    (value : Option String)
    → let code = normalize_language_code value in
      (is_in code supported_language_codes ≡ true) × (normalize_language_code (some code) ≡ code)
unfolding IsNormal
normalize_language_code-idempotent value = normal value
