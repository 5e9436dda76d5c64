-- ===== src/Queue/Commands/Merged.antt =====
-- What a payload reads as after a merge (src/app/db/repositories.py).
use ai_customer_service.Prelude.{
  ◌≡◌, refl, ◌∙◌, String, Bool, false, inl, inr, Bool-cases, ◌is◌, Json, Fields, null, bool, num,
  str, arr, obj, end, field, get, put, remove, dict_of, fields, [], ◌∷◌,
}
use ai_customer_service.Prelude.Lookup.{get-put, get-put_other, get-remove_other}
use ai_customer_service.Queue.Commands.Patches.{patch_key, json_merge_patch, merge_fields}

get-patch_key :
    (key other : String) (v merged : Json) (d : Fields)
    → other is key ≡ false
    → get key (patch_key other v merged d) ≡ get key d
get-patch_key key other null merged d h = get-remove_other key other d h
get-patch_key key other (bool b) merged d h = get-put_other key other merged d h
get-patch_key key other (num n) merged d h = get-put_other key other merged d h
get-patch_key key other (str s) merged d h = get-put_other key other merged d h
get-patch_key key other (arr xs) merged d h = get-put_other key other merged d h
get-patch_key key other (obj e) merged d h = get-put_other key other merged d h

-- A patch without a key leaves its value.
get-merge_without :
    (key : String) (patch d : Fields) → get key (merge_fields d (remove key patch)) ≡ get key d
unfolding merge_fields remove
get-merge_without key end d = refl
get-merge_without key (field k v rest) d =
    let merged = json_merge_patch (get k d) v in
    elim (Bool-cases (k is key)) [
      | inl e ↦ rw e (get-merge_without key rest d)
      | inr e ↦
          rw e
            (get-merge_without key rest (patch_key k v merged d) ∙ get-patch_key key k v merged d e)
    ]

-- A flag that a patch sets is read back after the merge, whatever was there.
pub get-merge_put :
    (key : String) (b : Bool) (patch d : Fields)
    → get key (merge_fields d (put key (bool b) patch)) ≡ bool b
unfolding merge_fields json_merge_patch put
get-merge_put key b end d = get-put key (bool b) d
get-merge_put key b (field k v rest) d =
    let merged = json_merge_patch (get k d) v in
    elim (Bool-cases (k is key)) [
      | inl e ↦ rw e (get-merge_without key rest (put key (bool b) d) ∙ get-put key (bool b) d)
      | inr e ↦ rw e (get-merge_put key b rest (patch_key k v merged d))
    ]

-- A dictionary that a patch sets under one key is merged into the one there.
pub get-merge_one :
    (key : String) (inner : Fields) (old : Json)
    → get key (dict_of (json_merge_patch old (obj (fields ((key, obj inner) ∷ [])))))
      ≡ obj (merge_fields (dict_of (get key (dict_of old))) inner)
unfolding json_merge_patch merge_fields
get-merge_one key inner old = get-put key _ (dict_of old)
