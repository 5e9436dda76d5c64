-- ===== src/Cases/Reserving.antt =====
-- When `reserve_followup` succeeds, and a reservation made twice
-- (src/app/db/telegram_repositories.py).
use ai_customer_service.Prelude.{
  ℕ, ◌+◌, ◌≤◌, ◌≡◌, refl, ap, ◌∙◌, String, Bool, true, false, ◌&&◌, ◌||◌, Option, none, some, List,
  [], ◌∷◌, ◌++◌, map, ◌==◌, if◌then◌else◌, ◌is◌, coalesce, any, arith, All, All-mono, eq_refl,
}
use ai_customer_service.Cases.{
  CaseRow, Followup, Store, Answer, raised, reserved, find_case, of_thread, find_followup, numbers,
  max_of, next_followup_number, collides, inserted_followup, reservation, insert_followup,
  reserve_on, reserve_followup,
}

max_of-bounds : (ns : List ℕ) → All (λ n. n ≤ coalesce (max_of ns) 1) ns
max_of-bounds [] = tt
max_of-bounds (n ∷ []) = (omega arith, tt)
max_of-bounds (n ∷ m ∷ ns) =
    (omega arith, All-mono _ _ (λ k h. omega (arith, h)) (m ∷ ns) (max_of-bounds (m ∷ ns)))

-- The command that a follow-up was made for is the given one.
abbrev pub for_command : ℕ → Followup → Bool
for_command command g = g.external_command_id == command

fresh_head :
    (here : Bool) (g : Followup) (rest : Option Followup)
    → (if here then some g else rest) ≡ none
    → (here ≡ false) × (rest ≡ none)
fresh_head true g rest h = cc
fresh_head false g rest h = (refl, h)

bounded_head :
    (same : Bool) (bound : ℕ) (g : Followup) (rest : List Followup)
    → All
        (λ n. n ≤ bound)
        (map (λ (x : Followup). x.follow_up_number) (if same then g ∷ rest else rest))
    → (same ≡ true → g.follow_up_number ≤ bound)
      × All (λ n. n ≤ bound) (map (λ (x : Followup). x.follow_up_number) rest)
bounded_head true bound g rest h = (λ _. h.0, h.1)
bounded_head false bound g rest h = (λ e. cc, h)

new_head :
    (same named commanded : Bool) (n m bound : ℕ)
    → (same && named) ≡ false
    → (same ≡ true → n ≤ bound)
    → m ≡ bound + 1
    → (same && named || same && n == m || commanded) ≡ commanded
new_head same named commanded n m bound h k e = ground arith

-- A new follow-up, of a thread that has none and with a number that is not reached, collides only
-- by its command.
collides-for_command :
    (f : Followup) (fs : List Followup) (bound : ℕ)
    → find_followup f.telegram_case_id f.source_thread_id fs ≡ none
    → All (λ n. n ≤ bound) (numbers f.telegram_case_id fs)
    → f.follow_up_number ≡ bound + 1
    → any (collides f) fs ≡ any (for_command f.external_command_id) fs
collides-for_command f [] bound h k e = refl
collides-for_command f (g ∷ fs) bound h k e =
    let fresh = fresh_head (of_thread f.telegram_case_id f.source_thread_id g) g _ h in
    let bounded = bounded_head (g.telegram_case_id == f.telegram_case_id) bound g _ k in
    let head =
      new_head (g.telegram_case_id == f.telegram_case_id) (g.source_thread_id is f.source_thread_id)
        (for_command f.external_command_id g) g.follow_up_number f.follow_up_number bound fresh.0
        bounded.0 e in
    ap (λ b. b || any (collides f) fs) head
    ∙ ap (λ b. for_command f.external_command_id g || b)
        (collides-for_command f fs bound fresh.1 bounded.1 e)

pushed :
    (b : Bool) (a a' : Answer) (s s' : Store)
    → (if◌then◌else◌ {A = Answer × Store} b (a, s) (a', s')).0 ≡ (if b then a else a')
pushed true a a' s s' = refl
pushed false a a' s s' = refl

-- A reservation for a thread with a name, of a case that is there, that has no follow-up of the
-- thread, gets the next number, unless another follow-up was made for the same command: then a
-- unique key refuses it. Neither the number nor the thread is ever refused.
pub reserve_followup-new :
    (command case : ℕ) (conversation thread kind previous : String) (s : Store) (c : CaseRow)
    → thread is "" ≡ false
    → find_case case s.cases ≡ some c
    → find_followup case thread s.followups ≡ none
    → let f =
        inserted_followup s.next_id
          (next_followup_number case s.followups)
          command
          case
          conversation
          thread
          kind
          previous in
      (reserve_followup command case conversation thread kind previous s).0 ≡ (
        if any (for_command command) s.followups
        then raised "IntegrityError"
        else reserved (reservation false c f))
unfolding reserve_followup reserve_on insert_followup
reserve_followup-new command case conversation thread kind previous s c named there fresh =
    let f =
      inserted_followup s.next_id (next_followup_number case s.followups) command case conversation
        thread kind previous in
    let clash =
      collides-for_command f s.followups (coalesce (max_of (numbers case s.followups)) 1) fresh
        (max_of-bounds (numbers case s.followups)) refl in
    rw (named, there, fresh, clash) (pushed (any (for_command command) s.followups) _ _ _ _)

here_lem : (f : Followup) → of_thread f.telegram_case_id f.source_thread_id f ≡ true
here_lem f = ground (arith, eq_refl f.source_thread_id)

find_followup-append :
    (fs : List Followup) (f : Followup)
    → find_followup f.telegram_case_id f.source_thread_id fs ≡ none
    → find_followup f.telegram_case_id f.source_thread_id (fs ++ f ∷ []) ≡ some f
find_followup-append [] f h = rw (here_lem f) refl
find_followup-append (g ∷ fs) f h =
    let fresh = fresh_head (of_thread f.telegram_case_id f.source_thread_id g) g _ h in
    rw fresh.0 (find_followup-append fs f fresh.1)

-- A reservation that succeeds, made again for the same case and thread, whatever the command, the
-- conversation and the kind: it answers the follow-up that is there, marked as a duplicate, and
-- changes nothing.
pub reserve_followup-twice :
    (command command' case : ℕ) (conversation conversation' thread kind kind' previous : String)
    (previous' : String) (s : Store) (c : CaseRow)
    → thread is "" ≡ false
    → find_case case s.cases ≡ some c
    → find_followup case thread s.followups ≡ none
    → any (for_command command) s.followups ≡ false
    → let f =
        inserted_followup s.next_id
          (next_followup_number case s.followups)
          command
          case
          conversation
          thread
          kind
          previous in
      let s' = (reserve_followup command case conversation thread kind previous s).1 in
      reserve_followup command' case conversation' thread kind' previous' s'
      ≡ (reserved (reservation true c f), s')
unfolding reserve_followup reserve_on insert_followup
reserve_followup-twice command command' case conversation conversation' thread kind kind' previous
      previous' s c named there fresh unused =
    let f =
      inserted_followup s.next_id (next_followup_number case s.followups) command case conversation
        thread kind previous in
    let clash =
      collides-for_command f s.followups (coalesce (max_of (numbers case s.followups)) 1) fresh
        (max_of-bounds (numbers case s.followups)) refl
      ∙ unused in
    rw (named, there, fresh, clash, there, find_followup-append s.followups f fresh) refl
