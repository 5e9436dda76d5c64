-- ===== src/CommandWorker/Paths/Followups.antt =====
-- The reminder of a case.
use ai_customer_service.Prelude.{
  ℕ, ◌≡◌, refl, Bool, true, false, not, ◌&&◌, Option, none, some, String, Fields,
}
use ai_customer_service.Queue.Commands.{Command}
use ai_customer_service.CommandWorker.Effects.{
  Exn, reserved_followup, marked_followup_sending, recorded_followup_sent,
  marked_followup_retryable, marked_followup_uncertain, canceled_followup, sent_case_followup,
}
use ai_customer_service.CommandWorker.Config.{Config}
use ai_customer_service.CommandWorker.Followups.{
  fail_delivery, send_followup, after_followup, deliver_followup, follow_up, use_reservation,
  unless_reserved, resume, run_followup, process_real_telegram_followup_command,
}
use ai_customer_service.CommandWorker.Restraint.{setting}
use ai_customer_service.CommandWorker.Rules.{
  Runs, pure-Runs, lift-Runs, reads-Runs, perform-Runs, external-Runs, if-Runs, >>=-Runs, >>-Runs,
  try_else-Runs, asking-Runs, weaken-Runs,
}
use ai_customer_service.CommandWorker.Paths.Marking.{
  settle_as-Runs, settle-Runs, finish-Runs, emit-Runs, unless_blocked-Runs,
}
use ai_customer_service.CommandWorker.Paths.Permits.{telegram_permitted, permitted}

-- `p`: the arguments permit a message to Telegram.
module _ {c : Config}
    (p : (not c.dry_run && (c.execute_telegram && setting c.settings (λ s. s.telegram_sop_enabled)))
      ≡ true) where
  fail_delivery-Runs :
      (d : Config) (command : Command) (id : ℕ) (e : Exn)
      → Runs c 0 1 (fail_delivery d command id e)
  unfolding fail_delivery
  fail_delivery-Runs d command id e =
      if-Runs 0 1 _ _ _
        (>>-Runs 0 0 1 _ _ (perform-Runs (marked_followup_retryable id _) _ refl refl refl refl)
          (settle-Runs d command _ _))
        (>>-Runs 0 0 1 _ _ (perform-Runs (marked_followup_uncertain id _) _ refl refl refl refl)
          (settle_as-Runs d command _ _))

  send_followup-Runs :
      (id : ℕ) (rendered update : String) → Runs c 1 0 (send_followup id rendered update)
  unfolding send_followup
  send_followup-Runs id rendered update =
      >>=-Runs 1 0 0 _ _ (external-Runs (sent_case_followup rendered) _ refl refl refl p)
        (λ delivery. >>=-Runs 0 0 0 _ _ (reads-Runs _) (λ message_id.
          >>=-Runs 0 0 0 _ _ (reads-Runs _) (λ attachments.
            >>-Runs 0 0 0 _ _
              (perform-Runs (recorded_followup_sent id message_id attachments update) _ refl refl
                refl refl)
              (pure-Runs 0 _))))

  after_followup-Runs :
      (d : Config) (command : Command) (id : ℕ) (kind : String) (case reservation delivery : Fields)
      → Runs c 0 1 (after_followup d command id kind case reservation delivery)
  unfolding after_followup
  after_followup-Runs d command id kind case reservation delivery =
      >>=-Runs 0 0 1 _ _ (if-Runs 0 0 d.emit_result _ _ (lift-Runs _) (pure-Runs 0 _)) (λ case_id.
        >>=-Runs 0 0 1 _ _ (reads-Runs _)
          (λ message_id. >>=-Runs 0 0 1 _ _ (emit-Runs _ _) (λ inserted. finish-Runs _ _)))

  deliver_followup-Runs :
      (d : Config) (command : Command) (id : ℕ) (reservation case : Fields) (kind raw : String)
      → Runs c 1 1 (deliver_followup d command id reservation case kind raw)
  unfolding deliver_followup
  deliver_followup-Runs d command id reservation case kind raw =
      >>=-Runs 0 1 1 _ _ (lift-Runs _) (λ intent. >>=-Runs 0 1 1 _ _ (reads-Runs _) (λ update.
        >>=-Runs 0 1 1 _ _ (reads-Runs _) (λ rendered.
          >>-Runs 0 1 1 _ _ (perform-Runs (marked_followup_sending id) _ refl refl refl refl) (
            try_else-Runs 1 0 1 _ _ _ (send_followup-Runs id rendered update)
              (fail_delivery-Runs d command id)
              (after_followup-Runs d command id kind case reservation)))))

  follow_up-Runs :
      (d : Config) (command : Command) (id : ℕ) (reservation case : Fields) (status raw : String)
      (kind : Option String)
      → Runs c 1 1 (follow_up d command id reservation case status raw kind)
  unfolding follow_up
  follow_up-Runs d command id reservation case status raw none = weaken-Runs 1 1 _ (
      >>-Runs 0 0 1 _ _ (perform-Runs (canceled_followup id _) _ refl refl refl refl)
        (finish-Runs _ _))
  follow_up-Runs d command id reservation case status raw (some kind) =
      deliver_followup-Runs d command id reservation case kind raw

  use_reservation-Runs :
      (d : Config) (command : Command) (reservation : Fields)
      → Runs c 1 1 (use_reservation d command reservation)
  unfolding use_reservation
  use_reservation-Runs d command reservation = >>=-Runs 0 1 1 _ _ (lift-Runs _) (λ case_json.
      >>=-Runs 0 1 1 _ _ (reads-Runs _) (λ id. >>=-Runs 0 1 1 _ _ (reads-Runs _) (λ status.
        >>=-Runs 0 1 1 _ _ (reads-Runs _) (λ raw.
          >>=-Runs 0 1 1 _ _ (reads-Runs _)
            (λ is_money. follow_up-Runs d command id reservation _ status raw _)))))

  unless_reserved-Runs :
      (d : Config) (command : Command) (reservation : Fields) (b : Bool)
      → Runs c 1 1 (unless_reserved d command reservation b)
  unfolding unless_reserved
  unless_reserved-Runs d command reservation true = weaken-Runs 1 1 _ (finish-Runs _ _)
  unless_reserved-Runs d command reservation false = use_reservation-Runs d command reservation

  resume-Runs :
      (d : Config) (command : Command) (reservation : Fields) (b : Bool)
      → Runs c 1 1 (resume d command reservation b)
  unfolding resume
  resume-Runs d command reservation false = use_reservation-Runs d command reservation
  resume-Runs d command reservation true =
      if-Runs 1 1 _ _ _ (weaken-Runs 1 1 _ (finish-Runs _ _))
        (>>=-Runs 0 1 1 _ _ (reads-Runs _) (unless_reserved-Runs d command reservation))

  run_followup-Runs : (d : Config) (command : Command) → Runs c 1 1 (run_followup d command)
  unfolding run_followup
  run_followup-Runs d command = >>=-Runs 0 1 1 _ _ (reads-Runs _) (λ arguments.
      >>=-Runs 0 1 1 _ _ (perform-Runs (reserved_followup arguments) _ refl refl refl refl)
        (λ reservation. resume-Runs d command reservation _))

pub followup-Runs :
    (c : Config) (command : Command)
    → c.dry_run ≡ false
    → Runs c 1 1 (process_real_telegram_followup_command c command)
unfolding process_real_telegram_followup_command
followup-Runs c command wet = asking-Runs 1 1 _ _ (λ env.
    unless_blocked-Runs 1 _ _ _ (λ why. weaken-Runs 1 1 _ (settle_as-Runs c command _ _))
      (λ free.
        run_followup-Runs
          (permitted c.dry_run _ wet (telegram_permitted env command c.settings _ free)) c command))
