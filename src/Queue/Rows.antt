-- ===== src/Queue/Rows.antt =====
-- Rows of a table with a numeric primary key: selection by id, and `ORDER BY`.
use ai_customer_service.Prelude.{
  ℕ, zero, suc, ◌<◌, ◌≡◌, refl, Bool, true, false, List, [], ◌∷◌, map, arith, ◌==◌, if◌then◌else◌,
  take, filter, any, All, All-mono, All-zip, All-map, Bool-cases, inl, inr,
}

-- `ORDER BY`: a stable insertion sort, where `before a b` says that `a` may stand before `b`.
module _ {ℓ} {A : Type ℓ} (before : A → A → Bool) where
  unfoldable pub insert_in_order : A → List A → List A
  insert_in_order m [] = m ∷ []
  insert_in_order m (x ∷ xs) = if before m x then m ∷ x ∷ xs else x ∷ insert_in_order m xs

  unfoldable pub order_by : List A → List A
  unfolding insert_in_order
  order_by [] = []
  order_by (m ∷ ms) = insert_in_order m (order_by ms)

  All-insert_in_order {κ} :
      (P : A → Type κ) (x : A) (xs : List A) → P x → All P xs → All P (insert_in_order x xs)
  unfolding insert_in_order
  All-insert_in_order P x [] h hs = (h, tt)
  All-insert_in_order P x (y ∷ ys) h (k, ks) =
      let ih = All-insert_in_order P x ys h ks in ground arith

  pub All-order_by {κ} : (P : A → Type κ) (xs : List A) → All P xs → All P (order_by xs)
  unfolding order_by
  All-order_by P [] h = tt
  All-order_by P (x ∷ xs) (h, hs) = All-insert_in_order P x (order_by xs) h (All-order_by P xs hs)

  -- Every element may stand before all that follow it.
  abbrev pub IsInOrder : List A → Type 0
  IsInOrder [] = Unit {0}
  IsInOrder (m ∷ ms) = All (λ x. before m x ≡ true) ms × IsInOrder ms

  module _ (before_trans : (a b c : A) → before a b ≡ true → before b c ≡ true → before a c ≡ true)
      (before_total : (a b : A) → before a b ≡ false → before b a ≡ true) where
    IsInOrder-insert_in_order :
        (m : A) (ms : List A) → IsInOrder ms → IsInOrder (insert_in_order m ms)
    unfolding insert_in_order
    IsInOrder-insert_in_order m [] h = (tt, tt)
    IsInOrder-insert_in_order m (x ∷ xs) (first, rest) = elim (Bool-cases (before m x)) [
      | inl here ↦
          rw here ((here, All-mono _ _ (λ y h. before_trans m x y here h) xs first), (first, rest))
      | inr after ↦ rw after (
        All-insert_in_order (λ y. before x y ≡ true) m xs (before_total m x after) first,
        IsInOrder-insert_in_order m xs rest,
      )
    ]

    pub IsInOrder-order_by : (ms : List A) → IsInOrder (order_by ms)
    unfolding order_by
    IsInOrder-order_by [] = tt
    IsInOrder-order_by (m ∷ ms) = IsInOrder-insert_in_order m (order_by ms) (IsInOrder-order_by ms)

module _ {ℓ} {A : Type ℓ} (key : A → ℕ) where
  -- `id IN (ids)`
  abbrev pub key_in : List ℕ → A → Bool
  key_in ids m = any (λ id. id == key m) ids

  -- The keys increase: the rows stand in the order of the primary key.
  abbrev pub IsKeyed : List A → Type 0
  IsKeyed [] = Unit {0}
  IsKeyed (x ∷ xs) = All (λ y. key x < key y) xs × IsKeyed xs

  key_in-take :
      (n : ℕ) (xs : List A) (m : A)
      → key_in (map key (take n xs)) m ≡ true
      → key_in (map key xs) m ≡ true
  key_in-take zero xs m h = cc
  key_in-take (suc n) [] m h = h
  key_in-take (suc n) (x ∷ xs) m h = ground (arith, key_in-take n xs m)

  key_in-insert_in_order :
      (before : A → A → Bool) (x : A) (xs : List A) (m : A)
      → key_in (map key (insert_in_order before x xs)) m ≡ key_in (map key (x ∷ xs)) m
  unfolding insert_in_order
  key_in-insert_in_order before x [] m = refl
  key_in-insert_in_order before x (y ∷ ys) m = ground (arith, key_in-insert_in_order before x ys m)

  key_in-order_by :
      (before : A → A → Bool) (xs : List A) (m : A)
      → key_in (map key (order_by before xs)) m ≡ key_in (map key xs) m
  unfolding order_by
  key_in-order_by before [] m = refl
  key_in-order_by before (x ∷ xs) m =
      ground
        (arith, key_in-insert_in_order before x (order_by before xs) m, key_in-order_by before xs m)

  not_key_in_above :
      (p : A → Bool) (xs : List A) (m : A)
      → All (λ y. key m < key y) xs
      → key_in (map key (filter p xs)) m ≡ false
  not_key_in_above p [] m h = refl
  not_key_in_above p (x ∷ xs) m (h, hs) = ground (arith, not_key_in_above p xs m hs)

  later_row :
      (p : A → Bool) (x : A) (xs : List A) (m : A)
      → (key x < key m) × (key_in (map key (filter p xs)) m ≡ true → p m ≡ true)
      → key_in (map key (filter p (x ∷ xs))) m ≡ true
      → p m ≡ true
  later_row p x xs m (above, ih) h = ground arith

  key_in-filter :
      (p : A → Bool) (xs : List A)
      → IsKeyed xs
      → All (λ m. key_in (map key (filter p xs)) m ≡ true → p m ≡ true) xs
  key_in-filter p [] o = tt
  key_in-filter p (x ∷ xs) (above, o) = (
    (λ h. ground (arith, not_key_in_above p xs x above)),
    All-mono _ _ (later_row p x xs) xs (All-zip _ _ xs above (key_in-filter p xs o)),
  )

  -- A row whose key is among those that `SELECT … WHERE p ORDER BY … LIMIT n` returns passes `p`.
  pub key_in-select :
      (before : A → A → Bool) (p : A → Bool) (n : ℕ) (xs : List A)
      → IsKeyed xs
      → All
          (λ m. key_in (map key (take n (order_by before (filter p xs)))) m ≡ true → p m ≡ true)
          xs
  key_in-select before p n xs o =
      All-mono _ _
        (λ m sound h. sound (
          rw (← key_in-order_by before (filter p xs) m)
            (key_in-take n (order_by before (filter p xs)) m h)))
        xs (key_in-filter p xs o)

  -- The same without `ORDER BY`.
  pub key_in-limit :
      (p : A → Bool) (n : ℕ) (xs : List A)
      → IsKeyed xs
      → All (λ m. key_in (map key (take n (filter p xs))) m ≡ true → p m ≡ true) xs
  key_in-limit p n xs o =
      All-mono _ _ (λ m sound h. sound (key_in-take n (filter p xs) m h)) xs (key_in-filter p xs o)

  -- Changing rows in place keeps the keys.
  pub IsKeyed-map :
      (set : A → A) (xs : List A)
      → ((x : A) → key (set x) ≡ key x)
      → IsKeyed xs
      → IsKeyed (map set xs)
  IsKeyed-map set [] same o = tt
  IsKeyed-map set (x ∷ xs) same (above, o) = (
    All-map _ set xs (All-mono _ _ (λ m h. ground (arith, same m, same x)) xs above),
    IsKeyed-map set xs same o,
  )
