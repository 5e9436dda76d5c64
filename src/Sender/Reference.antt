-- ===== src/Sender/Reference.antt =====
-- A group is sent as its messages one by one, up to the first that is not sent
-- (src/app/workers/sender_worker.py).
use ai_customer_service.Prelude.{
  ℕ, zero, suc, ◌≡◌, refl, ◌∙◌, sym, ap, Bool, true, false, List, [], ◌∷◌, if◌then◌else◌, ◌is◌,
  length, take,
}
use mathlib.Core.Path.{subst}
use ai_customer_service.Queue.Outbound.{EnvInt}
use ai_customer_service.Sender.{
  Action, Answer, Env, Result, Task, Trace, continue, first, go_on, only, process_message_group,
  process_one, pure, raises, release_all, released_lease, value, writing, ◌>>=◌,
}

each_after : Result → Action (List Result) → Action (List Result)
each_after r rest = rest >>= first r

-- The messages one by one, whatever becomes of each.
unfoldable pub process_each : EnvInt → List Task → Action (List Result)
unfolding each_after process_one
process_each most [] = pure []
process_each most (m ∷ ms) = do r ← process_one most m; each_after r (process_each most ms)

unfoldable pub drop_tasks : ℕ → List Task → List Task
drop_tasks zero ms = ms
drop_tasks (suc n) [] = []
drop_tasks (suc n) (m ∷ ms) = drop_tasks n ms

-- The calls that release these messages, after those of `t`.
unfoldable pub releases : List Task → Trace → Trace
releases [] t = t
releases (m ∷ ms) t = releases ms (released_lease m.id ∷ t)

abbrev is_empty : List Result → Bool
is_empty [] = true
is_empty (r ∷ rs) = false

-- One result for each message, up to the first that is not SENT.
unfoldable pub is_cut : List Result → List Task → Bool
is_cut [] [] = true
is_cut [] (m ∷ ms) = false
is_cut (r ∷ rs) [] = false
is_cut (r ∷ rs) (m ∷ ms) =
    let rest = is_cut rs ms in if r.status is "SENT" then rest else is_empty rs

-- What the group's results and calls must be: those of the messages one by one, as many as there
-- are results, and then the releases of the rest.
Fits : EnvInt → List Task → Env → Trace → Answer (List Result) → Trace → Type 0
unfolding process_each drop_tasks releases is_cut
Fits most ms env t (raises e) t' = Unit {0}
Fits most ms env t (value rs) t' =
    let each = process_each most (take (length rs) ms) env t in
    (each.0 ≡ value rs) × (t' ≡ releases (drop_tasks (length rs) ms) each.1) × (is_cut rs ms ≡ true)

abbrev Released : List Task → Trace → Answer (Unit {0}) → Trace → Type 0
Released ms t (raises e) t' = Unit {0}
Released ms t (value u) t' = t' ≡ releases ms t

release_all-Released :
    (ms : List Task) (env : Env) (t : Trace)
    → Released ms t (release_all ms env t).0 (release_all ms env t).1
unfolding release_all writing releases
release_all-Released [] env t = refl
release_all-Released (m ∷ ms) env t =
    elim (env.write (length t))
      as (λ a.
        let r = continue a (λ u. release_all ms) env (released_lease m.id ∷ t) in
        Released (m ∷ ms) t r.0 r.1) [
          | value u ↦ release_all-Released ms env (released_lease m.id ∷ t)
          | raises e ↦ tt
        ]

first-trace :
    (a : Answer (List Result)) (r : Result) (env : Env) (t : Trace)
    → (continue a (first r) env t).1 ≡ t
first-trace (value rs) r env t = refl
first-trace (raises e) r env t = refl

module _ (most : EnvInt) (m : Task) (ms : List Task) (env : Env) (t : Trace) (r : Result)
    (t₁ : Trace) (one : process_one most m env t ≡ (value r, t₁)) where
  after_one :
      (rest : Action (List Result))
      → (process_one most m >>= (λ x. each_after x rest)) env t
        ≡ continue (rest env t₁).0 (first r) env (rest env t₁).1
  unfolding each_after
  after_one rest = ap (λ q. continue q.0 (λ x. each_after x rest) env q.1) one

  -- The message was not sent.
  stopped-Fits :
      (a : Answer (Unit {0})) (t' : Trace)
      → r.status is "SENT" ≡ false
      → Released ms t₁ a t'
      → Fits most (m ∷ ms) env t (continue a (only r) env t').0 (continue a (only r) env t').1
  unfolding Fits process_each each_after releases is_cut drop_tasks
  stopped-Fits (raises e) t' h k = tt
  stopped-Fits (value u) t' h k = (
    ap (λ q. q.0) (after_one (pure [])),
    k ∙ ap (releases ms) (sym (ap (λ q. q.1) (after_one (pure [])))),
    rw h refl,
  )

  -- The message was sent, and so the next are processed.
  sent-Fits :
      (a : Answer (List Result)) (t' : Trace)
      → r.status is "SENT" ≡ true
      → Fits most ms env t₁ a t'
      → Fits most (m ∷ ms) env t (continue a (first r) env t').0 (continue a (first r) env t').1
  unfolding Fits process_each each_after releases is_cut drop_tasks
  sent-Fits (raises e) t' h k = tt
  sent-Fits (value rs) t' h (same, released, cut) =
      let rest = process_each most (take (length rs) ms) in
      (
        ap (λ q. q.0) (after_one rest)
            ∙ ap (λ a. (continue a (first r) env (rest env t₁).1).0) same,
        released
            ∙ ap (releases (drop_tasks (length rs) ms)) (
                sym (
                  ap (λ q. q.1) (after_one rest)
                  ∙ first-trace (rest env t₁).0 r env (rest env t₁).1)),
        rw h cut,
      )

  next-Fits :
      (b : Bool)
      → r.status is "SENT" ≡ b
      → (rest : Action (List Result)) → Fits most ms env t₁ (rest env t₁).0 (rest env t₁).1
      → let r' = (if b then (rest >>= first r) else (release_all ms >>= only r)) env t₁ in
        Fits most (m ∷ ms) env t r'.0 r'.1
  next-Fits true h rest k = sent-Fits (rest env t₁).0 (rest env t₁).1 h k
  next-Fits false h rest k =
      stopped-Fits (release_all ms env t₁).0 (release_all ms env t₁).1 h
        (release_all-Released ms env t₁)

module _ (most : EnvInt) where
  one-Fits :
      (m : Task) (ms : List Task) (rest : Action (List Result)) (env : Env) (t : Trace)
      (a : Answer Result) (t₁ : Trace)
      → process_one most m env t ≡ (a, t₁)
      → Fits most ms env t₁ (rest env t₁).0 (rest env t₁).1
      → let r' = continue a (go_on ms rest) env t₁ in Fits most (m ∷ ms) env t r'.0 r'.1
  unfolding go_on Fits
  one-Fits m ms rest env t (raises e) t₁ one k = tt
  one-Fits m ms rest env t (value r) t₁ one k =
      next-Fits most m ms env t r t₁ one (r.status is "SENT") refl rest k

  group-Fits :
      (ms : List Task) (env : Env) (t : Trace)
      → let r = process_message_group most ms env t in Fits most ms env t r.0 r.1
  unfolding process_message_group Fits process_each releases is_cut drop_tasks
  group-Fits [] env t = (refl, refl, refl)
  group-Fits (m ∷ ms) env t =
      let one = process_one most m env t in
      one-Fits m ms (process_message_group most ms) env t one.0 one.1 refl (group-Fits ms env one.1)

-- Where a group of leased messages gives results: there is one for each message up to the first
-- that is not SENT, they are those of processing these messages one by one, and the calls made are
-- those of that processing and then the release of each of the other messages, in order. So no
-- message is sent after one that was not.
pub process_message_group-in_order :
    (most : EnvInt) (ms : List Task) (env : Env) (t : Trace) (rs : List Result)
    → (process_message_group most ms env t).0 ≡ value rs
    → let each = process_each most (take (length rs) ms) env t in
      (each.0 ≡ value rs)
      × ((process_message_group most ms env t).1 ≡ releases (drop_tasks (length rs) ms) each.1)
      × (is_cut rs ms ≡ true)
unfolding Fits
process_message_group-in_order most ms env t rs h =
    subst (λ a. Fits most ms env t a (process_message_group most ms env t).1) h
      (group-Fits most ms env t)
