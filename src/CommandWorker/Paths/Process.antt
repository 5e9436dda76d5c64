-- ===== src/CommandWorker/Paths/Process.antt =====
-- The processing of one command.
use ai_customer_service.Prelude.{ℕ, ◌≡◌, refl, Bool, true, false, ◌is◌, not, String, Fields, is_in}
use ai_customer_service.Queue.Commands.{Command}
use ai_customer_service.CommandWorker.Effects.{
  Exn, read_conversation, marked_dry_run_done, marked_processing_failed,
}
use ai_customer_service.CommandWorker.Config.{Config, human_handoff, supported_command_types}
use ai_customer_service.CommandWorker.Records.{Item}
use ai_customer_service.CommandWorker.Process.{
  emit_mock, process_dry_run_command, process_real_command, command_blocked_by_human_active,
  run_unless, fail_command, process_one_pending_command,
}
use ai_customer_service.CommandWorker.Rules.{
  Runs, pure-Runs, raise-Runs, lift-Runs, perform-Runs, settling-Runs, if-Runs, test-Runs,
  step-Runs, >>=-Runs, result-Runs, then_pure-Runs, recover-Runs, weaken-Runs,
}
use ai_customer_service.CommandWorker.Paths.Marking.{settle_as-Runs, emit-Runs}
use ai_customer_service.CommandWorker.Paths.Handoff.{process_real_handoff-Runs}
use ai_customer_service.CommandWorker.Paths.Followups.{followup-Runs}
use ai_customer_service.CommandWorker.Paths.Cards.{card-Runs}
use ai_customer_service.CommandWorker.Paths.Queries.{query-Runs, lookup-Runs}

module _ (c : Config) (command : Command) where
  emit_mock-Runs : (r : String × Fields) → Runs c 0 0 (emit_mock command r)
  unfolding emit_mock
  emit_mock-Runs (result_type, result) = emit-Runs true _

  dry_run-Runs : Runs c 0 1 (process_dry_run_command c command)
  unfolding process_dry_run_command
  dry_run-Runs =
      >>=-Runs 0 0 1 _ _
        (if-Runs 0 0 c.emit_result _ _ (>>=-Runs 0 0 0 _ _ (lift-Runs _) emit_mock-Runs)
          (emit-Runs false _))
        (λ inserted.
          then_pure-Runs _ _ (settling-Runs (marked_dry_run_done command.id) _ refl refl refl refl))

  real-Runs : c.dry_run ≡ false → Runs c 1 1 (process_real_command c command)
  unfolding process_real_command
  real-Runs wet =
      if-Runs 1 1 (command.command_type is "telegram.remind_case") _ _ (followup-Runs c command wet)
        (if-Runs 1 1 _ _ _ (card-Runs c command wet) (
          if-Runs 1 1 (command.command_type is "backend.query") _ _ (query-Runs c command wet) (
            if-Runs 1 1 (command.command_type is "pending_reply.lookup") _ _
              (lookup-Runs c command wet)
              (if-Runs 1 1 (command.command_type is human_handoff) _ _
                (process_real_handoff-Runs c command wet)
                (weaken-Runs 1 1 _ (settle_as-Runs c command _ _))))))

  run_unless-Runs :
      (n : ℕ) (blocked : Bool)
      → (c.dry_run ≡ false → Runs c n 1 (process_real_command c command))
      → Runs c n 1 (run_unless c command blocked)
  unfolding run_unless
  run_unless-Runs n blocked real =
      if-Runs n 1 blocked _ _ (weaken-Runs n 1 _ (settle_as-Runs c command _ _)) (
        if-Runs n 1 (not (is_in command.command_type supported_command_types)) _ _
          (raise-Runs Item c n 1 _)
          (test-Runs n 1 c.dry_run _ _ (λ dry. weaken-Runs n 1 _ dry_run-Runs) real))

  blocked-Runs : Runs c 0 0 (command_blocked_by_human_active command)
  unfolding command_blocked_by_human_active
  blocked-Runs = if-Runs 0 0 (command.conversation_id is "") _ _ (pure-Runs 0 _) (
      >>=-Runs 0 0 0 _ _
        (perform-Runs (read_conversation command.conversation_id) _ refl refl refl refl)
        (λ status. pure-Runs 0 _))

  fail_command-Runs : (e : Exn) → Runs c 0 1 (fail_command c command e)
  unfolding fail_command
  fail_command-Runs e =
      result-Runs _ _
        (settling-Runs (marked_processing_failed command.id _ c.max_retries) _ refl refl refl refl)

  -- What holds of the command itself holds of its processing.
  pub processing-Runs :
      (n : ℕ)
      → (c.dry_run ≡ false → Runs c n 1 (process_real_command c command))
      → Runs c n 1 (process_one_pending_command c command)
  unfolding process_one_pending_command
  processing-Runs n real =
      recover-Runs n _ _ (λ x. x)
        (step-Runs n 1 _ _ blocked-Runs (λ blocked. run_unless-Runs n blocked real))
        fail_command-Runs

  pub process_one_pending_command-Runs : Runs c 1 1 (process_one_pending_command c command)
  process_one_pending_command-Runs = processing-Runs 1 real-Runs
