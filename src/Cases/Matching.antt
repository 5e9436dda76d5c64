-- ===== src/Cases/Matching.antt =====
-- Which case `resolve_money_case_followup` chooses (src/app/services/telegram_case_followup.py).
use mathlib.Core.Path.{subst}
use mathlib.Core.List.{Memᴰ}
use ai_customer_service.Prelude.{
  ℕ, ◌≡◌, refl, String, Bool, true, false, not, ◌&&◌, Option, none, some, List, [], ◌∷◌, map,
  if◌then◌else◌, ◌is◌, is_in, or_text, filter, arith, All, All-mono, All-map, All-filter_of,
}
use ai_customer_service.Cases.{
  Pattern, followup, customer_confirmed, Case, Match, no_match, ambiguous, matched, matched_case,
  is_root, match_only, match_root, match_inherited, match_transaction, normalized, is_eligible,
  eligible_cases, mentions, match_eligible, is_money_case_followup_text,
  resolve_money_case_followup,
}

-- A property of the case that a result names.
Chosen : (Case → String → Type 0) → Match → Type 0
Chosen P no_match = Unit
Chosen P ambiguous = Unit
Chosen P (matched c kind) = P c kind

abbrev pub kind_of : Bool → Case → String
kind_of confirmed c =
    if confirmed
    then "customer_confirmed_resolved"
    else if or_text c.status "" is "completed_by_staff"
    then "completion_dispute"
    else "pending_follow_up"

module _ (P : Case → String → Type 0) (confirmed : Bool) where
  abbrev Fits : Case → Type 0
  Fits c = P c (kind_of confirmed c)

  only-Chosen : (cs : List Case) → All Fits cs → Chosen P (match_only confirmed cs)
  unfolding Chosen match_only matched_case
  only-Chosen [] h = tt
  only-Chosen (c ∷ []) h = h.0
  only-Chosen (c ∷ c' ∷ cs) h = tt

  root-Chosen :
      (otherwise : Match) (cs : List Case)
      → Chosen P otherwise
      → All Fits cs
      → Chosen P (match_root confirmed otherwise cs)
  unfolding Chosen match_root matched_case
  root-Chosen otherwise [] k h = k
  root-Chosen otherwise (c ∷ []) k h = h.0
  root-Chosen otherwise (c ∷ c' ∷ cs) k h = k

  transaction-Chosen :
      (otherwise : Match) (cs : List Case)
      → Chosen P otherwise
      → All Fits cs
      → Chosen P (match_transaction confirmed otherwise cs)
  unfolding Chosen match_transaction matched_case
  transaction-Chosen otherwise [] k h = k
  transaction-Chosen otherwise (c ∷ []) k h = h.0
  transaction-Chosen otherwise (c ∷ c' ∷ cs) k h = tt

  filter-Fits : (p : Case → Bool) (cs : List Case) → All Fits cs → All Fits (filter p cs)
  filter-Fits p cs h = All-filter_of Fits p cs (All-mono _ _ (λ c k _. k) cs h)

  inherited-Chosen :
      (inherited : Option ℕ) (cs : List Case)
      → All Fits cs
      → Chosen P (match_inherited confirmed inherited cs)
  unfolding match_inherited
  inherited-Chosen none cs h = only-Chosen cs h
  inherited-Chosen (some root) cs h =
      root-Chosen (match_only confirmed cs) (filter (is_root root) cs) (only-Chosen cs h)
        (filter-Fits (is_root root) cs h)

  eligible-Chosen :
      (found : Pattern → String → Bool) (names : String → String → Bool) (text : String)
      (inherited : Option ℕ) (cs : List Case)
      → All Fits cs
      → Chosen P (match_eligible found names confirmed text inherited cs)
  unfolding Chosen match_eligible
  eligible-Chosen found names text inherited [] h = tt
  eligible-Chosen found names text inherited (c ∷ cs) h =
      transaction-Chosen (match_inherited confirmed inherited (c ∷ cs)) _
        (inherited-Chosen inherited (c ∷ cs) h) (filter-Fits (mentions found names text) (c ∷ cs) h)

All-mem {ℓ} : {A : Type ℓ} (xs : List A) → All (λ x. Memᴰ x xs) xs
All-mem [] = tt
All-mem (x ∷ xs) = (Memᴰ.head refl, All-mono _ _ (λ y m. Memᴰ.tail m) xs (All-mem xs))

-- A case of the list of candidates, open, and not one that waits for the customer unless the
-- customer confirms; and the kind that goes with it.
IsAnswer :
    (Pattern → String → Bool) → (String → String → Bool) → Bool → List Case → Case → String → Type 0
IsAnswer found names confirmed candidates c kind =
    (raw : Case) × Memᴰ raw candidates
    × (c ≡ normalized found names raw)
    × (is_in (or_text c.status "") ("completed_confirmed_by_customer" ∷ "terminal_other" ∷ [])
        ≡ false)
    × ((or_text c.status "" is "waiting_customer" && not confirmed) ≡ false)
    × (kind ≡ kind_of confirmed c)

eligible-open :
    (found : Pattern → String → Bool) (names : String → String → Bool) (a confirmed : Bool)
    (c : Case)
    → is_eligible found names a confirmed c ≡ true
    → (is_in (or_text c.status "") ("completed_confirmed_by_customer" ∷ "terminal_other" ∷ [])
        ≡ false)
      × ((or_text c.status "" is "waiting_customer" && not confirmed) ≡ false)
unfolding is_eligible
eligible-open found names a confirmed c h = (ground arith, ground arith)

eligible-IsAnswer :
    (found : Pattern → String → Bool) (names : String → String → Bool) (a confirmed : Bool)
    (cs : List Case)
    → All
        (λ c. IsAnswer found names confirmed cs c (kind_of confirmed c))
        (eligible_cases found names a confirmed cs)
unfolding eligible_cases IsAnswer
eligible-IsAnswer found names a confirmed cs =
    All-filter_of _ (is_eligible found names a confirmed) (map (normalized found names) cs) (
      All-map _ (normalized found names) cs (
        All-mono _ _
          (λ raw m h.
            let still = eligible-open found names a confirmed (normalized found names raw) h in
            (raw, m, refl, still.0, still.1, refl))
          cs (All-mem cs)))

-- What holds of the result holds of the case it names.
of_Chosen :
    (P : Case → String → Type 0) (m : Match) (c : Case) (kind : String)
    → m ≡ matched c kind
    → Chosen P m
    → P c kind
unfolding Chosen
of_Chosen P m c kind e h = subst (Chosen P) e h

if-Chosen :
    (P : Case → String → Type 0) (b : Bool) (m : Match)
    → Chosen P m
    → Chosen P (if b then no_match else m)
unfolding Chosen
if-Chosen P true m h = tt
if-Chosen P false m h = h

-- A message that names a case: the case is a candidate with its status brought up to date, it is
-- neither confirmed by the customer nor ended otherwise, and it waits for the customer only where
-- the message confirms; the kind is that of a confirmation where the message is one and asks
-- nothing, else of a dispute exactly where the staff completed the case.
pub resolve_money_case_followup_sound :
    (found : Pattern → String → Bool) (names : String → String → Bool) (candidates : List Case)
    (text : String) (inherited : Option ℕ) (c : Case) (kind : String)
    → resolve_money_case_followup found names candidates text inherited ≡ matched c kind
    → let confirmed = found customer_confirmed text && not (found followup text) in
      (raw : Case) × Memᴰ raw candidates
      × (c ≡ normalized found names raw)
      × (is_in (or_text c.status "") ("completed_confirmed_by_customer" ∷ "terminal_other" ∷ [])
          ≡ false)
      × ((or_text c.status "" is "waiting_customer" && not confirmed) ≡ false)
      × (kind ≡ kind_of confirmed c)
unfolding resolve_money_case_followup is_money_case_followup_text IsAnswer
resolve_money_case_followup_sound found names candidates text inherited c kind e =
    let is_followup = found followup text in
    let confirmed = found customer_confirmed text && not is_followup in
    let P = IsAnswer found names confirmed candidates in
    of_Chosen P _ c kind e (
      if-Chosen P (not is_followup && not confirmed) _ (
        eligible-Chosen P confirmed found names text inherited _
          (eligible-IsAnswer found names is_followup confirmed candidates)))
