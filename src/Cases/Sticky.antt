-- ===== src/Cases/Sticky.antt =====
-- What the replies of the staff can do to the status of a money case
-- (src/app/services/telegram_case_status.py).
use mathlib.Core.Path.{subst}
use ai_customer_service.Prelude.{
  ◌≡◌, refl, sym, String, Bool, true, false, some, List, [], ◌∷◌, if◌then◌else◌, ◌is◌, is_in,
  or_text, strip, arith, eq_iff, Bool-cases, inl, inr,
}
use ai_customer_service.Cases.{
  Pattern, success, negated_success, deposit, withdrawal, ask_customer, wait, terminal_other,
  money_intents, sticky_statuses, matching_completion, status_by_text, classify_money_case_status,
}

-- The status after the staff's replies, in their order.
abbrev pub after_replies : (Pattern → String → Bool) → String → List String → String → String
after_replies found intent [] status = status
after_replies found intent (reply ∷ replies) status =
    after_replies found intent replies (classify_money_case_status found intent reply (some status))

-- `status or ""`
or_text_empty : (status : String) → or_text (some status) "" ≡ status
or_text_empty status = elim (Bool-cases (status is "")) [
  | inl e ↦ rw e (sym ((eq_iff status "").0 e))
  | inr e ↦ rw e refl
]

classify_by_text :
    (found : Pattern → String → Bool) (intent reply status : String)
    → is_in intent money_intents ≡ true
    → is_in status sticky_statuses ≡ false
    → classify_money_case_status found intent reply (some status)
      ≡ status_by_text found intent (strip reply)
unfolding classify_money_case_status
classify_by_text found intent reply status m s = rw (m, or_text_empty status, s) refl

completed_text :
    (ask waits done other : Bool)
    → (if ask
          then "waiting_customer"
          else if waits
          then "under_review"
          else if done
          then "completed_by_staff"
          else if other
          then "terminal_other"
          else "under_review")
        is "completed_by_staff"
      ≡ true
    → (ask ≡ false) × (waits ≡ false) × (done ≡ true)
completed_text true waits done other h = cc
completed_text false true done other h = cc
completed_text false false true other h = (refl, refl, refl)
completed_text false false false true h = cc
completed_text false false false false h = cc

matching_completion_sound :
    (found : Pattern → String → Bool) (intent text : String)
    → matching_completion found intent text ≡ true
    → (found success text ≡ true)
      × (found negated_success text ≡ false)
      × (found (if intent is "deposit_missing" then withdrawal else deposit) text ≡ false)
unfolding matching_completion
matching_completion_sound found intent text h = elim (Bool-cases (intent is "deposit_missing")) [
  | inl e ↦ rw e (ground arith)
  | inr e ↦ rw e (ground arith)
]

-- A reply completes a money case only where it speaks of success without negating it, asks nothing
-- of the customer, does not tell to wait, and does not speak of the other direction of the payment.
pub classify_money_case_status-completes :
    (found : Pattern → String → Bool) (intent reply status : String)
    → is_in intent money_intents ≡ true
    → is_in status sticky_statuses ≡ false
    → classify_money_case_status found intent reply (some status) is "completed_by_staff" ≡ true
    → let text = strip reply in
      (found success text ≡ true)
      × (found negated_success text ≡ false)
      × (found ask_customer text ≡ false)
      × (found wait text ≡ false)
      × (found (if intent is "deposit_missing" then withdrawal else deposit) text ≡ false)
unfolding classify_money_case_status status_by_text matching_completion
classify_money_case_status-completes found intent reply status m s h =
    let text = strip reply in
    let by_text =
      subst (λ (x : String). x is "completed_by_staff" ≡ true)
        (classify_by_text found intent reply status m s) h in
    let c =
      completed_text (found ask_customer text) (found wait text)
        (matching_completion found intent text) (found terminal_other text) by_text in
    let d = matching_completion_sound found intent text c.2 in (d.0, d.1, c.0, c.1, d.2)
