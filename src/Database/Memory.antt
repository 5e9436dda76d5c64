-- ===== src/Database/Memory.antt =====
-- Dictionaries of JSON values, such as `slot_memory`, in the order of their keys' insertion.
use ai_customer_service.Prelude.{
  String, Bool, true, false, not, Option, none, some, List, [], ◌∷◌, if◌then◌else◌, ◌is◌, ◌==◌,
  Json, null, bool, num, str, arr, obj, nil, cons, end, field,
}

abbrev pub Memory : Type 0
Memory = List (String × Json)

-- `m.get(key)`
abbrev pub get : String → Memory → Option Json
get key [] = none
get key ((k, v) ∷ m) = if k is key then some v else get key m

-- `m[key] = v`
abbrev pub put : String → Json → Memory → Memory
put key v [] = (key, v) ∷ []
put key v ((k, w) ∷ m) = let rest = put key v m in if k is key then (k, v) ∷ m else (k, w) ∷ rest

-- `{**m, **other}`
abbrev pub merge : Memory → Memory → Memory
merge m [] = m
merge m ((k, v) ∷ other) = merge (put k v m) other

-- `m.pop(key, None)`
abbrev pub without : String → Memory → Memory
without key [] = []
without key ((k, v) ∷ m) = let rest = without key m in if k is key then rest else (k, v) ∷ rest

abbrev pub without_all : List String → Memory → Memory
without_all [] m = m
without_all (key ∷ keys) m = without_all keys (without key m)

-- Python's truth value.
abbrev pub truthy_json : Json → Bool
truthy_json null = false
truthy_json (bool b) = b
truthy_json (num n) = not (n == 0)
truthy_json (str s) = not (s is "")
truthy_json (arr nil) = false
truthy_json (arr (cons v vs)) = true
truthy_json (obj end) = false
truthy_json (obj (field k v fs)) = true

abbrev pub truthy_key : String → Memory → Bool
truthy_key key m = elim (get key m) [ none ↦ false | some v ↦ truthy_json v ]

-- `m or {}`
abbrev pub or_empty : Option Memory → Memory
or_empty none = []
or_empty (some m) = m

abbrev pub is_empty_memory : Memory → Bool
is_empty_memory [] = true
is_empty_memory (entry ∷ m) = false

abbrev pub text_json : Option String → Json
text_json none = null
text_json (some s) = str s
