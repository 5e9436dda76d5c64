-- ===== src/Prelude/Dicts.antt =====
-- Dictionaries of JSON values, as Python reads and writes them.
use ai_customer_service.Prelude.Values.{
  Json, Fields, Items, null, bool, num, str, arr, obj, nil, cons, end, field,
}
use ai_customer_service.Prelude.Text.{◌is◌}
use ai_customer_service.Prelude.Tests.{◌==◌, if◌then◌else◌}
use Prim.Native.String.{String}
use mathlib.Core.Bool.{Bool, true, false, not}
use mathlib.Core.Option.{Option, none, some}
use mathlib.Core.List.{List, [], ◌∷◌}

-- `{key: value, …}`
abbrev pub fields : List (String × Json) → Fields
fields [] = end
fields ((key, value) ∷ rest) = field key value (fields rest)

-- `d.get(key, default)`
unfoldable pub get_or : Json → String → Fields → Json
get_or default key end = default
get_or default key (field k v rest) =
    let later = get_or default key rest in if k is key then v else later

-- `d.get(key)`: a key that is missing reads as null.
unfoldable pub get : String → Fields → Json
unfolding get_or
get = get_or null

-- The dictionary without a key.
unfoldable pub remove : String → Fields → Fields
remove key end = end
remove key (field k v rest) =
    let later = remove key rest in if k is key then later else field k v later

-- `d[key] = value`. A dictionary has a key once at most.
unfoldable pub put : String → Json → Fields → Fields
put key value end = field key value end
put key value (field k v rest) =
    let later = put key value rest in
    if k is key then field key value (remove key rest) else field k v later

-- The truth value of a JSON value.
abbrev pub is_true : Json → Bool
is_true null = false
is_true (bool b) = b
is_true (num n) = not (n == 0)
is_true (str s) = not (s is "")
is_true (arr nil) = false
is_true (arr (cons x xs)) = true
is_true (obj end) = false
is_true (obj (field k v rest)) = true

-- `a or b`
abbrev pub or_json : Json → Json → Json
or_json a b = if is_true a then a else b

-- `d or {}`, where `d` is a dictionary or missing.
abbrev pub dict_of : Json → Fields
dict_of (obj d) = d
dict_of _ = end

abbrev pub is_null : Json → Bool
is_null null = true
is_null _ = false

-- `isinstance(j, list)`
abbrev pub items_of : Json → Items
items_of (arr xs) = xs
items_of _ = nil

abbrev pub text_or_null : Option String → Json
text_or_null none = null
text_or_null (some s) = str s
