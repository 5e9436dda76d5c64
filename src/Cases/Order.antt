-- ===== src/Cases/Order.antt =====
-- The order of the candidates (src/app/services/telegram_case_followup.py).
use mathlib.Core.List.Permᴰ
use mathlib.Core.List.{Permᴰ}
use ai_customer_service.Prelude.{
  ℕ, ◌≡◌, refl, ap, ◌∙◌, String, Bool, true, false, Option, none, some, List, [], ◌∷◌, map,
  if◌then◌else◌, filter,
}
use ai_customer_service.Cases.{
  Pattern, Case, Match, no_match, ambiguous, matched_case, is_root, match_only, match_root,
  match_inherited, match_transaction, normalized, is_eligible, eligible_cases, mentions,
  match_eligible, resolve_money_case_followup,
}

module _ {ℓ} {A : Type ℓ} where
  Permᴰ-if :
      (b b' : Bool) (x y : A) (xs ys : List A)
      → b ≡ b'
      → x ≡ y
      → Permᴰ xs ys
      → Permᴰ (if b then x ∷ xs else xs) (if b' then y ∷ ys else ys)
  Permᴰ-if true true x y xs ys e h p = Permᴰ.cons h p
  Permᴰ-if false false x y xs ys e h p = p
  Permᴰ-if true false x y xs ys e h p = cc
  Permᴰ-if false true x y xs ys e h p = cc

  Permᴰ-swap_if :
      (b c : Bool) (x y : A) (zs : List A)
      → Permᴰ
          (if b then x ∷ (if c then y ∷ zs else zs) else (if c then y ∷ zs else zs))
          (if c then y ∷ (if b then x ∷ zs else zs) else (if b then x ∷ zs else zs))
  Permᴰ-swap_if true true x y zs = Permᴰ.swap refl refl
  Permᴰ-swap_if true false x y zs = Permᴰ.refl _
  Permᴰ-swap_if false true x y zs = Permᴰ.refl _
  Permᴰ-swap_if false false x y zs = Permᴰ.refl _

  Permᴰ-filter : (p : A → Bool) (xs ys : List A) → Permᴰ xs ys → Permᴰ (filter p xs) (filter p ys)
  Permᴰ-filter p _ _ Permᴰ.nil = Permᴰ.nil
  Permᴰ-filter p (x ∷ xs) (y ∷ ys) (Permᴰ.cons e d) =
      Permᴰ-if (p x) (p y) x y _ _ (ap p e) e (Permᴰ-filter p xs ys d)
  Permᴰ-filter p (x ∷ y ∷ zs) (y' ∷ x' ∷ _) (Permᴰ.swap e e') =
      Permᴰ.trans (Permᴰ-swap_if (p x) (p y) x y (filter p zs)) (
        Permᴰ-if (p y) (p y') y y' _ _ (ap p e') e'
          (Permᴰ-if (p x) (p x') x x' _ _ (ap p e) e (Permᴰ.refl _)))
  Permᴰ-filter p xs zs (Permᴰ.trans {l₂ = ys} d d') =
      Permᴰ.trans (Permᴰ-filter p xs ys d) (Permᴰ-filter p ys zs d')

Permᴰ-map {ℓ κ} :
    {A : Type ℓ} {B : Type κ} (f : A → B) (xs ys : List A)
    → Permᴰ xs ys
    → Permᴰ (map f xs) (map f ys)
Permᴰ-map f _ _ Permᴰ.nil = Permᴰ.nil
Permᴰ-map f (x ∷ xs) (y ∷ ys) (Permᴰ.cons e d) = Permᴰ.cons (ap f e) (Permᴰ-map f xs ys d)
Permᴰ-map f (x ∷ y ∷ zs) (y' ∷ x' ∷ _) (Permᴰ.swap e e') = Permᴰ.swap (ap f e) (ap f e')
Permᴰ-map f xs zs (Permᴰ.trans {l₂ = ys} d d') =
    Permᴰ.trans (Permᴰ-map f xs ys d) (Permᴰ-map f ys zs d')

-- What a list is seen as by the three matches: empty, one element, or more.
pub data Few {ℓ} (A : Type ℓ) : Type ℓ where
  zero_of : Few A
  one_of : A → Few A
  many_of : Few A

abbrev few {ℓ} : {A : Type ℓ} → List A → Few A
few [] = zero_of
few (x ∷ []) = one_of x
few (x ∷ y ∷ zs) = many_of

few-cons {ℓ} :
    {A : Type ℓ} (x y : A) (xs ys : List A) → x ≡ y → few xs ≡ few ys → few (x ∷ xs) ≡ few (y ∷ ys)
few-cons x y [] [] e h = ap one_of e
few-cons x y (_ ∷ _) (_ ∷ _) e h = refl
few-cons x y [] (_ ∷ []) e h = cc
few-cons x y [] (_ ∷ _ ∷ _) e h = cc
few-cons x y (_ ∷ []) [] e h = cc
few-cons x y (_ ∷ _ ∷ _) [] e h = cc

few-Permᴰ {ℓ} : {A : Type ℓ} (xs ys : List A) → Permᴰ xs ys → few xs ≡ few ys
few-Permᴰ _ _ Permᴰ.nil = refl
few-Permᴰ (x ∷ xs) (y ∷ ys) (Permᴰ.cons e d) = few-cons x y xs ys e (few-Permᴰ xs ys d)
few-Permᴰ (x ∷ y ∷ zs) (y' ∷ x' ∷ _) (Permᴰ.swap e e') = refl
few-Permᴰ xs zs (Permᴰ.trans {l₂ = ys} d d') = few-Permᴰ xs ys d ∙ few-Permᴰ ys zs d'

abbrev of_few {ℓ κ} : {A : Type ℓ} {B : Type κ} → B → (A → B) → B → Few A → B
of_few zero one many zero_of = zero
of_few zero one many (one_of x) = one x
of_few zero one many many_of = many

match_only-of_few :
    (confirmed : Bool) (cs : List Case)
    → match_only confirmed cs ≡ of_few ambiguous (matched_case confirmed) ambiguous (few cs)
unfolding match_only
match_only-of_few confirmed [] = refl
match_only-of_few confirmed (c ∷ []) = refl
match_only-of_few confirmed (c ∷ c' ∷ cs) = refl

match_root-of_few :
    (confirmed : Bool) (otherwise : Match) (cs : List Case)
    → match_root confirmed otherwise cs
      ≡ of_few otherwise (matched_case confirmed) otherwise (few cs)
unfolding match_root
match_root-of_few confirmed otherwise [] = refl
match_root-of_few confirmed otherwise (c ∷ []) = refl
match_root-of_few confirmed otherwise (c ∷ c' ∷ cs) = refl

match_transaction-of_few :
    (confirmed : Bool) (otherwise : Match) (cs : List Case)
    → match_transaction confirmed otherwise cs
      ≡ of_few otherwise (matched_case confirmed) ambiguous (few cs)
unfolding match_transaction
match_transaction-of_few confirmed otherwise [] = refl
match_transaction-of_few confirmed otherwise (c ∷ []) = refl
match_transaction-of_few confirmed otherwise (c ∷ c' ∷ cs) = refl

match_only-Permᴰ :
    (confirmed : Bool) (cs ds : List Case)
    → Permᴰ cs ds
    → match_only confirmed cs ≡ match_only confirmed ds
match_only-Permᴰ confirmed cs ds p =
    rw (match_only-of_few confirmed cs, match_only-of_few confirmed ds, few-Permᴰ cs ds p) refl

match_inherited-Permᴰ :
    (confirmed : Bool) (inherited : Option ℕ) (cs ds : List Case)
    → Permᴰ cs ds
    → match_inherited confirmed inherited cs ≡ match_inherited confirmed inherited ds
unfolding match_inherited
match_inherited-Permᴰ confirmed none cs ds p = match_only-Permᴰ confirmed cs ds p
match_inherited-Permᴰ confirmed (some root) cs ds p =
    rw
      (
        match_root-of_few confirmed (match_only confirmed cs) (filter (is_root root) cs),
        match_root-of_few confirmed (match_only confirmed ds) (filter (is_root root) ds),
        match_only-Permᴰ confirmed cs ds p,
        few-Permᴰ _ _ (Permᴰ-filter (is_root root) cs ds p),
      )
      refl

if_else : (b : Bool) (m n n' : Match) → n ≡ n' → (if b then m else n) ≡ (if b then m else n')
if_else b m n n' e = ap (λ x. if b then m else x) e

module _ (found : Pattern → String → Bool) (names : String → String → Bool) where
  match_eligible-Permᴰ :
      (confirmed : Bool) (text : String) (inherited : Option ℕ) (cs ds : List Case)
      → Permᴰ cs ds
      → match_eligible found names confirmed text inherited cs
        ≡ match_eligible found names confirmed text inherited ds
  unfolding match_eligible
  match_eligible-Permᴰ confirmed text inherited [] [] p = refl
  match_eligible-Permᴰ confirmed text inherited (c ∷ cs) (d ∷ ds) p =
      rw
        (
          match_transaction-of_few confirmed (match_inherited confirmed inherited (c ∷ cs))
              (filter (mentions found names text) (c ∷ cs)),
          match_transaction-of_few confirmed (match_inherited confirmed inherited (d ∷ ds))
              (filter (mentions found names text) (d ∷ ds)),
          match_inherited-Permᴰ confirmed inherited (c ∷ cs) (d ∷ ds) p,
          few-Permᴰ _ _ (Permᴰ-filter (mentions found names text) (c ∷ cs) (d ∷ ds) p),
        )
        refl
  match_eligible-Permᴰ confirmed text inherited [] (d ∷ []) p = cc (few-Permᴰ _ _ p)
  match_eligible-Permᴰ confirmed text inherited [] (d ∷ d' ∷ ds) p = cc (few-Permᴰ _ _ p)
  match_eligible-Permᴰ confirmed text inherited (c ∷ []) [] p = cc (few-Permᴰ _ _ p)
  match_eligible-Permᴰ confirmed text inherited (c ∷ c' ∷ cs) [] p = cc (few-Permᴰ _ _ p)

  eligible_cases-Permᴰ :
      (a b : Bool) (cs ds : List Case)
      → Permᴰ cs ds
      → Permᴰ (eligible_cases found names a b cs) (eligible_cases found names a b ds)
  unfolding eligible_cases
  eligible_cases-Permᴰ a b cs ds p =
      Permᴰ-filter (is_eligible found names a b) _ _ (Permᴰ-map (normalized found names) cs ds p)

-- The case that a message belongs to does not depend on the order of the candidates.
pub resolve_money_case_followup_unordered :
    (found : Pattern → String → Bool) (names : String → String → Bool)
    (candidates candidates' : List Case) (text : String) (inherited : Option ℕ)
    → Permᴰ candidates candidates'
    → resolve_money_case_followup found names candidates text inherited
      ≡ resolve_money_case_followup found names candidates' text inherited
unfolding resolve_money_case_followup
resolve_money_case_followup_unordered found names candidates candidates' text inherited p =
    if_else _ no_match _ _ (
      match_eligible-Permᴰ found names _ text inherited _ _
        (eligible_cases-Permᴰ found names _ _ candidates candidates' p))
