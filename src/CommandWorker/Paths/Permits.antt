-- ===== src/CommandWorker/Paths/Permits.antt =====
-- Where there is no reason against a command, the arguments permit its call.
use ai_customer_service.Prelude.{
  ◌≡◌, refl, Bool, true, false, not, ◌&&◌, Option, none, some, arith, is_in,
}
use ai_customer_service.Queue.Commands.{Command}
use ai_customer_service.CommandWorker.Effects.{Env}
use ai_customer_service.CommandWorker.Config.{Settings, telegram_types}
use ai_customer_service.CommandWorker.Reasons.{
  handoff_block_reason, handoff_block_reason_with, telegram_block_reason,
  telegram_block_reason_with, backend_block_reason,
}
use ai_customer_service.CommandWorker.Restraint.{setting}

handoff_enabled :
    (env : Env) (command : Command) (s : Settings)
    → handoff_block_reason_with env command s ≡ none
    → s.livechat_handoff_enabled ≡ true
unfolding handoff_block_reason_with
handoff_enabled env command s h = ground arith

pub handoff_permitted :
    (env : Env) (command : Command) (settings : Option Settings) (flag : Bool)
    → handoff_block_reason env command settings flag ≡ none
    → (flag && setting settings (λ s. s.livechat_handoff_enabled)) ≡ true
unfolding handoff_block_reason
handoff_permitted env command settings false h = cc
handoff_permitted env command none true h = cc
handoff_permitted env command (some s) true h = handoff_enabled env command s h

telegram_enabled :
    (env : Env) (command : Command) (s : Settings)
    → telegram_block_reason_with env command s ≡ none
    → s.telegram_sop_enabled ≡ true
unfolding telegram_block_reason_with
telegram_enabled env command s h = ground arith

telegram_allowed :
    (b : Bool) (env : Env) (command : Command) (settings : Option Settings) (flag : Bool)
    → is_in command.command_type telegram_types ≡ b
    → telegram_block_reason env command settings flag ≡ none
    → (flag && setting settings (λ s. s.telegram_sop_enabled)) ≡ true
unfolding telegram_block_reason
telegram_allowed false env command settings flag e h = ground arith
telegram_allowed true env command settings false e h = ground arith
telegram_allowed true env command none true e h = ground arith
telegram_allowed true env command (some s) true e h = ground (arith, telegram_enabled env command s)

pub telegram_permitted :
    (env : Env) (command : Command) (settings : Option Settings) (flag : Bool)
    → telegram_block_reason env command settings flag ≡ none
    → (flag && setting settings (λ s. s.telegram_sop_enabled)) ≡ true
telegram_permitted env command settings flag h = telegram_allowed _ env command settings flag refl h

pub backend_permitted :
    (settings : Option Settings) (flag : Bool)
    → backend_block_reason settings flag ≡ none
    → (flag && setting settings (λ s. s.backend_query_enabled)) ≡ true
unfolding backend_block_reason
backend_permitted settings false h = cc
backend_permitted none true h = cc
backend_permitted (some s) true h = ground arith

pub permitted : (a b : Bool) → a ≡ false → b ≡ true → (not a && b) ≡ true
permitted a b h h' = ground arith
