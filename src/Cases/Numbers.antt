-- ===== src/Cases/Numbers.antt =====
-- The numbers of the follow-ups of a case (src/app/db/telegram_repositories.py).

use ai_customer_service.Prelude.{
  ℕ, zero, suc, ◌+◌, ◌≡◌, refl, ap, ◌∙◌, max, String, Option, none, some, List, [], ◌∷◌, ◌++◌, ◌==◌,
  if◌then◌else◌, ◌is◌, coalesce, any, arith, Bool-cases, Option-cases, inl, inr,
}
use ai_customer_service.Cases.{
  CaseRow, Followup, Store, Answer, find_case, find_followup, numbers, max_of, next_followup_number,
  collides, inserted_followup, insert_followup, reserve_on, reserve_followup, update_followups,
  find_followup_by_id, case_of, mark_followup_sending, record_followup_sent,
  mark_followup_delivery_uncertain, mark_followup_retryable, cancel_followup, update_case_status,
}

-- A call of one of the methods.
pub data Call : Type 0 where
  reserve : ℕ → ℕ → String → String → String → String → Call
  sending : ℕ → ℕ → Call
  sent : ℕ → ℕ → ℕ → List ℕ → String → Call
  uncertain : ℕ → String → Call
  retryable : ℕ → String → Call
  cancel : ℕ → String → Call
  set_status : ℕ → ℕ → String → Call

-- The store after a call; one that raises is rolled back.
unfoldable pub step : Call → Store → Store
unfolding reserve_followup mark_followup_sending record_followup_sent
    mark_followup_delivery_uncertain mark_followup_retryable cancel_followup update_case_status
step (reserve command case conversation thread kind previous) s =
    (reserve_followup command case conversation thread kind previous s).1
step (sending now id) s = coalesce (mark_followup_sending now id s) s
step (sent now id message_id attachment_ids update) s =
    coalesce (record_followup_sent now id message_id attachment_ids update s) s
step (uncertain id error) s = mark_followup_delivery_uncertain id error s
step (retryable id error) s = mark_followup_retryable id error s
step (cancel id reason) s = cancel_followup id reason s
step (set_status now id status) s = update_case_status now id status s

unfoldable pub run : List Call → Store → Store
unfolding step
run [] s = s
run (call ∷ calls) s = run calls (step call s)

-- `k` numbers from `n` on.
abbrev pub count_from : ℕ → ℕ → List ℕ
count_from n zero = []
count_from n (suc k) = n ∷ count_from (suc n) k

count_from-append : (n k : ℕ) → count_from n k ++ (n + k) ∷ [] ≡ count_from n (suc k)
count_from-append n zero = ap (λ m. m ∷ []) (omega arith)
count_from-append n (suc k) =
    ap (λ ms. n ∷ ms)
      (ap (λ m. count_from (suc n) k ++ m ∷ []) (omega arith) ∙ count_from-append (suc n) k)

max_of-count_from : (n k : ℕ) → max_of (count_from n (suc k)) ≡ some (n + k)
max_of-count_from n zero = ap some (omega arith)
max_of-count_from n (suc k) =
    ap some (ap (λ o. max n (coalesce o n)) (max_of-count_from (suc n) k) ∙ omega arith)

-- The follow-ups of every case have the numbers 2, 3, 4, …, in the order of their ids.
IsNumbered : List Followup → Type 0
IsNumbered fs = (case : ℕ) → (k : ℕ) × (numbers case fs ≡ count_from 2 k)

next_lem :
    (case k : ℕ) (fs : List Followup)
    → numbers case fs ≡ count_from 2 k
    → next_followup_number case fs ≡ 2 + k
next_lem case zero fs h = ap (λ ns. coalesce (max_of ns) 1 + 1) h
next_lem case (suc k) fs h =
    ap (λ ns. coalesce (max_of ns) 1 + 1) h
    ∙ ap (λ o. coalesce o 1 + 1) (max_of-count_from 2 k)
    ∙ omega arith

numbers-append :
    (case : ℕ) (fs : List Followup) (f : Followup)
    → numbers case (fs ++ f ∷ [])
      ≡ numbers case fs ++ (if f.telegram_case_id == case then f.follow_up_number ∷ [] else [])
numbers-append case [] f = elim (Bool-cases (f.telegram_case_id == case)) [
  | inl e ↦ rw e refl
  | inr e ↦ rw e refl
]
numbers-append case (g ∷ fs) f = elim (Bool-cases (g.telegram_case_id == case)) [
  | inl e ↦ rw e (ap (λ ns. g.follow_up_number ∷ ns) (numbers-append case fs f))
  | inr e ↦ rw e (numbers-append case fs f)
]

numbers-update :
    (case id : ℕ) (set : Followup → Followup) (fs : List Followup)
    → ((f : Followup) → (set f).telegram_case_id ≡ f.telegram_case_id)
    → ((f : Followup) → (set f).follow_up_number ≡ f.follow_up_number)
    → numbers case (update_followups id set fs) ≡ numbers case fs
numbers-update case id set [] h k = refl
numbers-update case id set (f ∷ fs) h k =
    ground (arith, numbers-update case id set fs h k, h f, k f)

append_nil {ℓ} : {A : Type ℓ} (xs : List A) → xs ++ [] ≡ xs
append_nil [] = refl
append_nil (x ∷ xs) = ap (λ ys. x ∷ ys) (append_nil xs)

-- A follow-up with the next number keeps the numbers in order.
appended-IsNumbered :
    (fs : List Followup) (f : Followup)
    → f.follow_up_number ≡ next_followup_number f.telegram_case_id fs
    → IsNumbered fs
    → IsNumbered (fs ++ f ∷ [])
unfolding IsNumbered
appended-IsNumbered fs f next h case = elim (Bool-cases (f.telegram_case_id == case)) [
  | inl e ↦
      (let (k, hk) = h case in
        let same : f.telegram_case_id ≡ case = ground (arith, e) in
        let number : f.follow_up_number ≡ 2 + k =
          next ∙ ap (λ c. next_followup_number c fs) same ∙ next_lem case k fs hk in
        (suc k, numbers-append case fs f ∙ rw (e, number, hk) (count_from-append 2 k)))
  | inr e ↦
      (let (k, hk) = h case in
        (k, numbers-append case fs f ∙ rw e (append_nil (numbers case fs)) ∙ hk))
]

updated-IsNumbered :
    (id : ℕ) (set : Followup → Followup) (fs : List Followup)
    → ((f : Followup) → (set f).telegram_case_id ≡ f.telegram_case_id)
    → ((f : Followup) → (set f).follow_up_number ≡ f.follow_up_number)
    → IsNumbered fs
    → IsNumbered (update_followups id set fs)
unfolding IsNumbered
updated-IsNumbered id set fs h k numbered case =
    let (n, e) = numbered case in (n, numbers-update case id set fs h k ∙ e)

insert-IsNumbered :
    (c : CaseRow) (f : Followup) (s : Store)
    → f.follow_up_number ≡ next_followup_number f.telegram_case_id s.followups
    → IsNumbered s.followups
    → IsNumbered (insert_followup c f s).1.followups
unfolding insert_followup
insert-IsNumbered c f s next h = elim (Bool-cases (any (collides f) s.followups)) [
  | inl e ↦ rw e h
  | inr e ↦ rw e (appended-IsNumbered s.followups f next h)
]

reserve_on-IsNumbered :
    (o : Option CaseRow) (existing : Option Followup) (insert : CaseRow → Answer × Store)
    (s : Store)
    → ((c : CaseRow) → IsNumbered (insert c).1.followups)
    → IsNumbered s.followups
    → IsNumbered (reserve_on o existing insert s).1.followups
unfolding reserve_on
reserve_on-IsNumbered none existing insert s k h = h
reserve_on-IsNumbered (some c) (some f) insert s k h = h
reserve_on-IsNumbered (some c) none insert s k h = k c

reserve-IsNumbered :
    (command case : ℕ) (conversation thread kind previous : String) (s : Store)
    → IsNumbered s.followups
    → IsNumbered (reserve_followup command case conversation thread kind previous s).1.followups
unfolding reserve_followup
reserve-IsNumbered command case conversation thread kind previous s h =
    elim (Bool-cases (thread is "")) [
      | inl e ↦ rw e h
      | inr e ↦ rw e (
          reserve_on-IsNumbered (find_case case s.cases) (find_followup case thread s.followups) _ s
            (λ c.
              insert-IsNumbered c
                (inserted_followup s.next_id (next_followup_number case s.followups) command case
                  conversation thread kind previous)
                s refl h)
            h)
    ]

sending-IsNumbered :
    (now id : ℕ) (s : Store)
    → IsNumbered s.followups
    → IsNumbered (coalesce (mark_followup_sending now id s) s).followups
unfolding mark_followup_sending
sending-IsNumbered now id s h = elim (Option-cases (find_followup_by_id id s.followups)) [
  | inl e ↦ rw (coalesce, mark_followup_sending, e) h
  | inr (f, e) ↦
      rw (coalesce, mark_followup_sending, e)
        (updated-IsNumbered id _ s.followups (λ g. refl) (λ g. refl) h)
]

sent-IsNumbered :
    (now id message_id : ℕ) (attachment_ids : List ℕ) (update : String) (s : Store)
    → IsNumbered s.followups
    → IsNumbered
        (coalesce (record_followup_sent now id message_id attachment_ids update s) s).followups
unfolding record_followup_sent
sent-IsNumbered now id message_id attachment_ids update s h = elim (Option-cases (case_of id s)) [
  | inl e ↦ rw (coalesce, record_followup_sent, e) h
  | inr (c, e) ↦
      rw (coalesce, record_followup_sent, e)
        (updated-IsNumbered id _ s.followups (λ g. refl) (λ g. refl) h)
]

step-IsNumbered :
    (call : Call) (s : Store) → IsNumbered s.followups → IsNumbered (step call s).followups
unfolding step mark_followup_delivery_uncertain mark_followup_retryable cancel_followup
    update_case_status
step-IsNumbered (reserve command case conversation thread kind previous) s h =
    reserve-IsNumbered command case conversation thread kind previous s h
step-IsNumbered (sending now id) s h = sending-IsNumbered now id s h
step-IsNumbered (sent now id message_id attachment_ids update) s h =
    sent-IsNumbered now id message_id attachment_ids update s h
step-IsNumbered (uncertain id error) s h =
    updated-IsNumbered id _ s.followups (λ g. refl) (λ g. refl) h
step-IsNumbered (retryable id error) s h =
    updated-IsNumbered id _ s.followups (λ g. refl) (λ g. refl) h
step-IsNumbered (cancel id reason) s h =
    updated-IsNumbered id _ s.followups (λ g. refl) (λ g. refl) h
step-IsNumbered (set_status now id status) s h = h

-- From a store whose follow-ups are numbered 2, 3, 4, … within every case, as a store without
-- follow-ups is, any calls of the methods, failed ones included, lead to such a store: no number is
-- left out and none is given twice.
pub run-count_from :
    (calls : List Call) (s : Store)
    → ((case : ℕ) → (k : ℕ) × (numbers case s.followups ≡ count_from 2 k))
    → (case : ℕ) → (k : ℕ) × (numbers case (run calls s).followups ≡ count_from 2 k)
unfolding run IsNumbered
run-count_from [] s h = h
run-count_from (call ∷ calls) s h = run-count_from calls (step call s) (step-IsNumbered call s h)
