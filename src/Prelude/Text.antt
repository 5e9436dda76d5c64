-- ===== src/Prelude/Text.antt =====
-- Texts: decimal numerals, ASCII lower case, and search for a part.
use Prim.Native.Nat.{ℕ, zero, suc, ◌+◌, ◌-◌, ◌/◌, ◌%◌}
use Prim.Native.Char.{code}
use Prim.Native.String
use Prim.Native.String.{String}
use mathlib.Core.Bool.{Bool, true, false, not, ◌&&◌, ◌||◌}
use mathlib.Core.List.{List}
use mathlib.Core.Option.{Option, none, some}
use text.Mathlib.Text.{find?, ◌==◌ as str_eq}
use ai_customer_service.Prelude.Tests.{ltb, leb, ◌==◌, if◌then◌else◌, is_some}
use ai_customer_service.Prelude.Lists.{any}

abbrev digit : ℕ → String
digit d =
    if d == 0
    then "0"
    else if d == 1
    then "1"
    else if d == 2
    then "2"
    else if d == 3
    then "3"
    else if d == 4
    then "4"
    else if d == 5
    then "5"
    else if d == 6
    then "6"
    else if d == 7
    then "7"
    else if d == 8
    then "8"
    else "9"

-- The digits of a number in base ten; a number has fewer digits than its successor.
decimal_from : ℕ → ℕ → String
decimal_from zero n = ""
decimal_from (suc fuel) n =
    let longer = String.◌++◌ (decimal_from fuel (n / 10)) (digit (n % 10)) in
    if ltb n 10 then digit n else longer

-- `str(n)`, and MySQL's conversion of an integer to text.
unfoldable pub decimal : ℕ → String
unfolding decimal_from
decimal n = decimal_from (suc n) n

-- `s + t`
infixr 60 ◌<>◌
abbrev pub ◌<>◌ : String → String → String
s <> t = String.◌++◌ s t

-- `part in text`
abbrev pub contains : String → String → Bool
contains text part = is_some (find? text part)

abbrev pub contains_any : List String → String → Bool
contains_any parts text = any (contains text) parts

-- Equality of texts.
infix 50 ◌is◌
abbrev pub ◌is◌ : String → String → Bool
s is t = str_eq s t

-- `s in (…)`
abbrev pub is_in : String → List String → Bool
is_in s = any (λ t. s is t)

-- The truth value of a text that may be missing: `None` and `""` count as false.
abbrev pub truthy : Option String → Bool
truthy none = false
truthy (some s) = not (s is "")

-- `o or d`
abbrev pub or_text : Option String → String → String
or_text none d = d
or_text (some s) d = if s is "" then d else s

-- `first or second`, both texts that may be missing.
abbrev pub or_else : Option String → Option String → Option String
or_else none o = o
or_else (some s) o = if s is "" then o else some s

-- The truth value of an identifier that may be missing: `None` and `0` count as false.
abbrev pub truthy_id : Option ℕ → Bool
truthy_id none = false
truthy_id (some n) = not (n == 0)

abbrev to_upper : ℕ → ℕ
to_upper c = if leb 97 c && leb c 122 then c - 32 else c

abbrev to_lower : ℕ → ℕ
to_lower c = if leb 65 c && leb c 90 then c + 32 else c

-- `s.upper() == t`, over the ASCII letters; other letters count as they are.
abbrev pub upper_is : String → String → Bool
upper_is String.[] String.[] = true
upper_is (String.◌∷◌ c s) (String.◌∷◌ d t) = to_upper (code c) == code d && upper_is s t
upper_is _ _ = false

-- `s.lower() == t`, likewise.
abbrev pub lower_is : String → String → Bool
lower_is String.[] String.[] = true
lower_is (String.◌∷◌ c s) (String.◌∷◌ d t) = to_lower (code c) == code d && lower_is s t
lower_is _ _ = false

-- Python's white space among the ASCII characters.
abbrev is_space : ℕ → Bool
is_space c = c == 32 || leb 9 c && leb c 13 || leb 28 c && leb c 31

strip_left : String → String
strip_left String.[] = ""
strip_left (String.◌∷◌ c s) = if is_space (code c) then strip_left s else String.◌∷◌ c s

strip_right : String → String
strip_right String.[] = ""
strip_right (String.◌∷◌ c s) =
    let rest = strip_right s in if is_space (code c) && rest is "" then "" else String.◌∷◌ c rest

-- `s.strip()`
unfoldable pub strip : String → String
unfolding strip_left strip_right
strip s = strip_right (strip_left s)
