-- ===== src/CommandWorker/Paths/Cards.antt =====
-- The card of a case, and additions to it.
use ai_customer_service.Prelude.{
  ◌≡◌, refl, true, false, not, ◌&&◌, Option, none, some, String, Fields,
}
use ai_customer_service.Queue.Commands.{Command}
use ai_customer_service.CommandWorker.Effects.{sent_case_card, appended_to_case}
use ai_customer_service.CommandWorker.Config.{Config, Settings}
use ai_customer_service.CommandWorker.Records.{Item}
use ai_customer_service.CommandWorker.Cards.{
  send_card, append_card, after_delivery, deliver, deliver_to, run_card,
  process_real_telegram_command,
}
use ai_customer_service.CommandWorker.Restraint.{setting}
use ai_customer_service.CommandWorker.Rules.{
  Runs, pure-Runs, raise-Runs, lift-Runs, reads-Runs, external-Runs, if-Runs, >>=-Runs,
  try_else-Runs, asking-Runs, weaken-Runs,
}
use ai_customer_service.CommandWorker.Paths.Marking.{
  settle_as-Runs, settle-Runs, finish-Runs, emit-Runs, unless_blocked-Runs,
}
use ai_customer_service.CommandWorker.Paths.Permits.{telegram_permitted, permitted}

-- `p`: the arguments permit a message to Telegram.
module _ {c : Config}
    (p : (not c.dry_run && (c.execute_telegram && setting c.settings (λ s. s.telegram_sop_enabled)))
      ≡ true) where
  send_card-Runs : (command : Command) (target : Fields) → Runs c 1 0 (send_card command target)
  unfolding send_card
  send_card-Runs command target = >>=-Runs 0 1 0 _ _ (reads-Runs _) (λ card.
      >>=-Runs 1 0 0 _ _ (external-Runs (sent_case_card card) _ refl refl refl p) (λ delivery.
        >>=-Runs 0 0 0 _ _ (lift-Runs _)
          (λ message_id. >>=-Runs 0 0 0 _ _ (reads-Runs _) (λ case_id. pure-Runs 0 _))))

  append_card-Runs : (command : Command) (target : Fields) → Runs c 1 0 (append_card command target)
  unfolding append_card
  append_card-Runs command target = >>=-Runs 0 1 0 _ _ (reads-Runs _) (λ addition.
      >>=-Runs 1 0 0 _ _ (external-Runs (appended_to_case addition _) _ refl refl refl p)
        (λ delivery. >>=-Runs 0 0 0 _ _ (lift-Runs _) (λ message_id. pure-Runs 0 _)))

  after_delivery-Runs :
      (d : Config) (command : Command) (r : String × Fields)
      → Runs c 0 1 (after_delivery d command r)
  unfolding after_delivery
  after_delivery-Runs d command (result_type, result) =
      >>=-Runs 0 0 1 _ _ (emit-Runs _ _) (λ inserted. finish-Runs _ _)

  deliver-Runs :
      (d : Config) (command : Command) (target : Fields) → Runs c 1 1 (deliver d command target)
  unfolding deliver
  deliver-Runs d command target =
      try_else-Runs 1 0 1 _ _ _
        (if-Runs 1 0 _ _ _ (send_card-Runs command target) (append_card-Runs command target))
        (λ e. settle-Runs d command _ _) (after_delivery-Runs d command)

  deliver_to-Runs :
      (d : Config) (command : Command) (target : Fields) → Runs c 1 1 (deliver_to d command target)
  unfolding deliver_to
  deliver_to-Runs d command target =
      if-Runs 1 1 _ _ _ (deliver-Runs d command target)
        (weaken-Runs 1 1 _ (settle_as-Runs d command _ _))

  run_card-Runs :
      (settings : Option Settings) (d : Config) (command : Command)
      → Runs c 1 1 (run_card settings d command)
  unfolding run_card
  run_card-Runs none d command = raise-Runs Item c 1 1 _
  run_card-Runs (some s) d command = >>=-Runs 0 1 1 _ _ (reads-Runs _) (deliver_to-Runs d command)

pub card-Runs :
    (c : Config) (command : Command)
    → c.dry_run ≡ false
    → Runs c 1 1 (process_real_telegram_command c command)
unfolding process_real_telegram_command
card-Runs c command wet = asking-Runs 1 1 _ _ (λ env.
    unless_blocked-Runs 1 _ _ _ (λ why. weaken-Runs 1 1 _ (settle_as-Runs c command _ _))
      (λ free.
        run_card-Runs (permitted c.dry_run _ wet (telegram_permitted env command c.settings _ free))
          c.settings c command))
