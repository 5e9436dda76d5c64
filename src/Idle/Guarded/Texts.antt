-- ===== src/Idle/Guarded/Texts.antt =====
-- Every operation of the idle timer keeps the order of the calls
-- (src/app/workers/livechat_idle_timer.py).
use ai_customer_service.Prelude.{
  ℕ, ◌≡◌, refl, String, Bool, true, false, ◌&&◌, ◌||◌, Option, none, some, ◌∷◌, if◌then◌else◌, ◌is◌,
  length, arith,
}
use ai_customer_service.Language.{ai_failure_handoff_notice}
use ai_customer_service.Idle.{
  Action, Env, Failure, Finalized, Kind, Slots, StateRow, Step, Trace, after_deactivation,
  after_notice, after_send, announce_handoff, close_chat, continue, deactivate_chat, deliver,
  finalize_user_visible_text, go, insert_assistant_message, is_already_closed_error,
  is_handoff_eligible, insert_handoff, on_locked_row, after_finalized, record_sent, locked_row,
  mark_closed, raised, request_ai_failure_handoff, send_idle_text, send_text, sent_text, stop,
  terminal_ai_failure_reason, text_of, update_slot_memory, ◌>>=◌,
}
use ai_customer_service.Idle.Guarded.{
  is_quiet, is_locked_quiet, is_handed_off, is_guarded, Keeps, KeepsQuiet, bind-Keeps,
  bind-KeepsQuiet, require_no_activity-Keeps,
}

both : {a b : Bool} → a ≡ true → b ≡ true → (a && b) ≡ true
both h k = ground arith

or_right : (a : Bool) {b : Bool} → b ≡ true → (a || b) ≡ true
or_right a h = ground arith

module _ {ℓ} {A : Type ℓ} where
  pub if-Keeps : (b : Bool) (m n : Action A) → Keeps m → Keeps n → Keeps (if b then m else n)
  if-Keeps true m n km kn = km
  if-Keeps false m n km kn = kn

  pub after_update :
      (slots : Slots) (f : Unit {0} → Action A)
      → ((a : Unit {0}) → Keeps (f a))
      → Keeps (update_slot_memory slots >>= f)
  unfolding update_slot_memory is_guarded
  after_update slots f k = bind-Keeps (update_slot_memory slots) f (λ env t h. h) k

  pub after_mark :
      (slots : Slots) (f : Unit {0} → Action A)
      → ((a : Unit {0}) → Keeps (f a))
      → Keeps (mark_closed slots >>= f)
  unfolding mark_closed is_guarded
  after_mark slots f k = bind-Keeps (mark_closed slots) f (λ env t h. h) k

after_deactivation-Keeps :
    (slots : Slots) (now : ℕ) (failure : Option Failure)
    → Keeps (after_deactivation slots now failure)
unfolding after_deactivation
after_deactivation-Keeps slots now none = after_mark _ _ (λ u env t h. h)
after_deactivation-Keeps slots now (some e) =
    if-Keeps (is_already_closed_error e) _ _ (after_mark _ _ (λ u env t h. h))
      (after_update _ _ (λ u env t h. h))

deactivate_chat-KeepsQuiet : KeepsQuiet deactivate_chat
unfolding deactivate_chat is_guarded
deactivate_chat-KeepsQuiet env t h q = both q h

pub close_chat-Keeps :
    (slots : Slots) (now : ℕ) (cutoff : Option ℕ) → Keeps (close_chat slots now cutoff)
unfolding close_chat
close_chat-Keeps slots now none = λ env t h. h
close_chat-Keeps slots now (some cutoff) =
    require_no_activity-Keeps cutoff "SKIPPED_CUSTOMER_ACTIVITY"
      (deactivate_chat >>= after_deactivation slots now)
      (bind-KeepsQuiet deactivate_chat (after_deactivation slots now) deactivate_chat-KeepsQuiet
        (after_deactivation-Keeps slots now))

after_notice-Keeps : (failure : Option Failure) → Keeps (after_notice failure)
unfolding after_notice
after_notice-Keeps none = λ env t h. h
after_notice-Keeps (some e) = λ env t h. h

-- Where a handoff was requested, that was the newest call.
abbrev is_announced : Step Bool → Trace → Bool
is_announced (go true) t = is_handed_off t
is_announced _ t = true

announce_handoff-Keeps :
    (f : Finalized) (r : Step Bool) (env : Env) (t : Trace)
    → is_guarded t ≡ true
    → is_announced r t ≡ true
    → is_guarded (continue r (λ requested. announce_handoff requested f) env t).1 ≡ true
unfolding announce_handoff send_text is_guarded
announce_handoff-Keeps f (go false) env t h a = h
announce_handoff-Keeps f (go true) env t h a =
    let text = ai_failure_handoff_notice f.reply_language in
    let failure = env.send_text (length t) text in
    after_notice-Keeps failure env (sent_text text failure ∷ t) (both (or_right (is_quiet t) a) h)
announce_handoff-Keeps f (stop o) env t h a = h
announce_handoff-Keeps f (raised e) env t h a = h

if-IsGuarded :
    (b : Bool) (r : Step Bool × Trace) (t : Trace)
    → (is_guarded r.1 ≡ true) × (is_announced r.0 r.1 ≡ true)
    → is_guarded t ≡ true
    → let r' = if b then r else (go false, t) in
      (is_guarded r'.1 ≡ true) × (is_announced r'.0 r'.1 ≡ true)
if-IsGuarded true r t k h = k
if-IsGuarded false r t k h = (h, refl)

insert_handoff-IsGuarded :
    (failure : Option Failure) (row : StateRow) (t : Trace)
    → is_guarded t ≡ true
    → is_locked_quiet t ≡ true
    → let r = insert_handoff failure row t in
      (is_guarded r.1 ≡ true) × (is_announced r.0 r.1 ≡ true)
unfolding insert_handoff is_guarded
insert_handoff-IsGuarded none row t h q = (both q h, refl)
insert_handoff-IsGuarded (some e) row t h q = (h, refl)

on_locked_row-IsGuarded :
    (now : ℕ) (reason : String) (found : Option StateRow) (env : Env) (t : Trace)
    → is_guarded t ≡ true
    → is_locked_quiet t ≡ true
    → let r = on_locked_row now reason found env t in
      (is_guarded r.1 ≡ true) × (is_announced r.0 r.1 ≡ true)
unfolding on_locked_row
on_locked_row-IsGuarded now reason none env t h q = (h, refl)
on_locked_row-IsGuarded now reason (some row) env t h q =
    if-IsGuarded (is_handoff_eligible row) (insert_handoff _ _ t) t
      (insert_handoff-IsGuarded _ _ t h q) h

request_ai_failure_handoff-KeepsQuiet :
    (now : ℕ) (reason : String) (f : Finalized)
    → KeepsQuiet
        (request_ai_failure_handoff now reason >>= (λ requested. announce_handoff requested f))
unfolding request_ai_failure_handoff is_guarded
request_ai_failure_handoff-KeepsQuiet now reason f env t h q =
    let (guarded, announced) =
      on_locked_row-IsGuarded now reason (env.row (length t)) env (locked_row ∷ t) h q in
    announce_handoff-Keeps f _ env _ guarded announced

insert_assistant_message-Keeps : (text : String) → Keeps (insert_assistant_message text)
unfolding insert_assistant_message is_guarded
insert_assistant_message-Keeps text env t h = h

send_text-KeepsQuiet : (text : String) → KeepsQuiet (send_text text)
unfolding send_text is_guarded
send_text-KeepsQuiet text env t h q = ground arith

record_sent-Keeps :
    (kind : Kind) (now : ℕ) (slots : Slots) (id : Option ℕ) → Keeps (record_sent kind now slots id)
unfolding record_sent
record_sent-Keeps kind now slots id = after_update _ _ (λ u env t h. h)

after_send-Keeps :
    (kind : Kind) (text : String) (now : ℕ) (slots : Slots) (failure : Option Failure)
    → Keeps (after_send kind text now slots failure)
unfolding after_send
after_send-Keeps kind text now slots none =
    bind-Keeps (insert_assistant_message text) (record_sent kind now slots)
      (insert_assistant_message-Keeps text) (record_sent-Keeps kind now slots)
after_send-Keeps kind text now slots (some e) =
    if-Keeps (is_already_closed_error e) _ _ (after_mark _ _ (λ u env t h. h))
      (after_update _ _ (λ u env t h. h))

deliver-KeepsQuiet :
    (kind : Kind) (f : Finalized) (now : ℕ) (slots : Slots) (failed : Option String)
    → KeepsQuiet (deliver kind f now slots failed)
unfolding deliver
deliver-KeepsQuiet kind f now slots (some reason) =
    request_ai_failure_handoff-KeepsQuiet now reason f
deliver-KeepsQuiet kind f now slots none =
    let text = if f.text is "" then text_of kind else f.text in
    bind-KeepsQuiet (send_text text) (after_send kind text now slots) (send_text-KeepsQuiet text)
      (after_send-Keeps kind text now slots)

finalize-Keeps : (text : String) → Keeps (finalize_user_visible_text text)
unfolding finalize_user_visible_text is_guarded
finalize-Keeps text env t h = h

after_finalized-Keeps :
    (kind : Kind) (now cutoff : ℕ) (slots : Slots) (f : Finalized)
    → Keeps (after_finalized kind now cutoff slots f)
unfolding after_finalized
after_finalized-Keeps kind now cutoff slots f =
    require_no_activity-Keeps cutoff "SKIPPED_CUSTOMER_ACTIVITY"
      (deliver kind f now slots (terminal_ai_failure_reason f))
      (deliver-KeepsQuiet kind f now slots (terminal_ai_failure_reason f))

pub send_idle_text-Keeps :
    (kind : Kind) (now cutoff : ℕ) (slots : Slots) → Keeps (send_idle_text kind now cutoff slots)
unfolding send_idle_text
send_idle_text-Keeps kind now cutoff slots =
    bind-Keeps (finalize_user_visible_text (text_of kind)) (after_finalized kind now cutoff slots)
      (finalize-Keeps (text_of kind)) (after_finalized-Keeps kind now cutoff slots)
