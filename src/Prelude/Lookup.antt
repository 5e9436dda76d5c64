-- ===== src/Prelude/Lookup.antt =====
-- What a dictionary reads as after a change.
use Prim.Native.String.{String}
use mathlib.Core.Path.{◌≡◌, refl}
use mathlib.Core.Bool.{true, false}
use mathlib.Core.Logic.{inl, inr}
use native.Mathlib.Omega.{arith}
use text.Mathlib.TextEquality.{eq_iff}
use text.Mathlib.TextPositions.{eq_refl}
use ai_customer_service.Prelude.Values.{Json, Fields, end, field}
use ai_customer_service.Prelude.Text.{◌is◌}
use ai_customer_service.Prelude.Tests.{Bool-cases}
use ai_customer_service.Prelude.Dicts.{get, get_or, put, remove}

pub get-put : (key : String) (v : Json) (d : Fields) → get key (put key v d) ≡ v
unfolding get get_or put
get-put key v end = rw (eq_refl key) refl
get-put key v (field k w rest) = let ih = get-put key v rest in ground (arith, eq_refl key)

-- Two keys that are both a third are one.
same_key : (k key other : String) → other is key ≡ false → k is other ≡ true → k is key ≡ false
same_key k key other h e = let p = (eq_iff k other).0 e in rw p h

pub get-remove_other :
    (key other : String) (d : Fields) → other is key ≡ false → get key (remove other d) ≡ get key d
unfolding get get_or remove
get-remove_other key other end h = refl
get-remove_other key other (field k w rest) h =
    let ih = get-remove_other key other rest h in
    elim (Bool-cases (k is other)) [
      | inl e ↦ let e' = same_key k key other h e in ground arith
      | inr e ↦ ground arith
    ]

pub get-put_other :
    (key other : String) (v : Json) (d : Fields)
    → other is key ≡ false
    → get key (put other v d) ≡ get key d
unfolding get get_or put
get-put_other key other v end h = rw h refl
get-put_other key other v (field k w rest) h =
    let ih = get-put_other key other v rest h in
    let removed = get-remove_other key other rest h in
    elim (Bool-cases (k is other)) [
      | inl e ↦ let e' = same_key k key other h e in ground arith
      | inr e ↦ ground arith
    ]
