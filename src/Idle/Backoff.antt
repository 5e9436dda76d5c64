-- ===== src/Idle/Backoff.antt =====
-- The pause after a text that could not be sent (src/app/workers/livechat_idle_timer.py).
use ai_customer_service.Prelude.{
  ℕ, ◌+◌, ◌≡◌, refl, ◌∙◌, sym, ap, String, Bool, true, false, not, Option, none, some, List, [],
  ◌∷◌, ltb, arith, take, filter, ◌++◌, not,
}
use ai_customer_service.Queue.Lease.{seconds}
use ai_customer_service.Idle.{
  Conversation, Env, Failure, Kind, Outcome, Slots, Step, Trace, after_send, candidates, close,
  continue, default_failure_backoff_seconds, failed, finish, followup, go,
  idle_failure_backoff_active, is_already_closed_error, raised, stop, update_slot_memory,
  updated_slots, with_send_error,
}

-- The slot memory that the newest call saved.
abbrev pub saved : Trace → Option Slots
saved (updated_slots s ∷ t) = some s
saved _ = none

send_error-backs_off :
    (kind : Kind) (now : ℕ) (e : Failure) (s : Slots) (later : ℕ)
    → ltb later (now + seconds default_failure_backoff_seconds) ≡ true
    → idle_failure_backoff_active (with_send_error kind now e s) later ≡ true
unfolding idle_failure_backoff_active
send_error-backs_off followup now e s later h = h
send_error-backs_off close now e s later h = h

abbrev slots_or : Slots → Option Slots → Slots
slots_or s none = s
slots_or s (some s') = s'

finish-trace :
    (r : Step (Unit {0})) (o : Outcome) (env : Env) (t : Trace)
    → (continue {A = Unit {0}} {B = Outcome × Slots} r (λ u. finish o) env t).1 ≡ t
finish-trace (go u) o env t = refl
finish-trace (stop o') o env t = refl
finish-trace (raised e) o env t = refl

saved_slots :
    (kind : Kind) (text : String) (now : ℕ) (s : Slots) (e : Failure) (env : Env) (t : Trace)
    → is_already_closed_error e ≡ false
    → saved (after_send kind text now s (some e) env t).1 ≡ some (with_send_error kind now e s)
unfolding after_send update_slot_memory
saved_slots kind text now s e env t h =
    let update = update_slot_memory (with_send_error kind now e s) env t in
    rw h (ap saved (finish-trace update.0 (failed "FAILED_SEND_TEXT" e) env update.1))

-- A row that is kept out leaves the rows that are kept as they are.
filter-drop :
    (p : Conversation → Bool) (c : Conversation) (before rows : List Conversation)
    → p c ≡ false
    → filter p (before ++ c ∷ rows) ≡ filter p (before ++ rows)
filter-drop p c [] rows h = ground arith
filter-drop p c (d ∷ before) rows h = let rest = filter-drop p c before rows h in ground arith

-- Where sending a text failed, and not because the chat was closed, the slot memory that is saved
-- keeps the conversation out of the candidates for ten minutes after the failure, wherever
-- it stands among the rows.
pub after_send-backs_off :
    (kind : Kind) (text : String) (now : ℕ) (s : Slots) (e : Failure) (env : Env) (t : Trace)
    (c : Conversation) (before rows : List Conversation) (limit later : ℕ)
    → is_already_closed_error e ≡ false
    → saved (after_send kind text now s (some e) env t).1 ≡ some c.slot_memory
    → ltb later (now + seconds default_failure_backoff_seconds) ≡ true
    → candidates limit later (before ++ c ∷ rows) ≡ candidates limit later (before ++ rows)
unfolding candidates
after_send-backs_off kind text now s e env t c before rows limit later h k l =
    let stored = ap (slots_or s) (sym (saved_slots kind text now s e env t h) ∙ k) in
    let active =
      ap (λ s'. not (idle_failure_backoff_active s' later)) (sym stored)
      ∙ ap not (send_error-backs_off kind now e s later l) in
    ap (take limit) (
      filter-drop (λ d. not (idle_failure_backoff_active d.slot_memory later)) c before rows active)
