-- ===== src/CommandWorker/Paths/Handoff.antt =====
-- The transfer of a chat.
use ai_customer_service.Prelude.{
  ℕ, ◌≡◌, refl, true, false, not, ◌&&◌, ◌||◌, Option, none, some, Json, Fields, upper_is,
}
use ai_customer_service.Queue.Commands.{Command}
use ai_customer_service.CommandWorker.Effects.{
  Action, Ack, released_lease, read_handoff_ack, merged_payload, transferred_chat,
  updated_workflow_state, marked_sent,
}
use ai_customer_service.CommandWorker.Config.{Config, Settings}
use ai_customer_service.CommandWorker.Records.{Item}
use ai_customer_service.CommandWorker.Handoff.{
  fail_dependency, await_ack, handoff_ack_dependency_status, record_handoff_stage, complete_handoff,
  after_transfer, transfer, run_handoff, process_real_handoff,
}
use ai_customer_service.CommandWorker.Restraint.{setting}
use ai_customer_service.CommandWorker.Rules.{
  Runs, raise-Runs, lift-Runs, reads-Runs, perform-Runs, settling-Runs, external-Runs, if-Runs,
  step-Runs, >>=-Runs, >>-Runs, try_else-Runs, asking-Runs, result-Runs, then_pure-Runs,
  recover-Runs, weaken-Runs,
}
use ai_customer_service.CommandWorker.Paths.Marking.{
  mark_command_status-Runs, settle_as-Runs, settle-Runs, emit-Runs, unless_blocked-Runs,
}
use ai_customer_service.CommandWorker.Paths.Failing.{fail_and_record-Runs}
use ai_customer_service.CommandWorker.Paths.Permits.{handoff_permitted, permitted}

module _ {c : Config} where
  fail_dependency-Runs :
      (command : Command) (ack : Option Ack) → Runs c 0 1 (fail_dependency command ack)
  unfolding fail_dependency
  fail_dependency-Runs command ack = asking-Runs 0 1 _ _ (λ env. fail_and_record-Runs _ _ _ _ _ _ c)

  await_ack-Runs :
      (n : ℕ) (command : Command) (rest : Action Item) (ack : Option Ack)
      → Runs c n 1 rest
      → Runs c n 1 (await_ack command rest ack)
  unfolding await_ack
  await_ack-Runs n command rest none h = weaken-Runs n 1 _ (fail_dependency-Runs command none)
  await_ack-Runs n command rest (some a) h = if-Runs n 1 (upper_is a.status "SENT") _ _ h (
      weaken-Runs n 1 _ (
        if-Runs 0 1 (upper_is a.status "PENDING" || upper_is a.status "RETRYABLE") _ _
          (then_pure-Runs _ _ (settling-Runs (released_lease command.id) _ refl refl refl refl))
          (fail_dependency-Runs command (some a))))

  pub dependency-Runs :
      (n : ℕ) (command : Command) (rest : Action Item)
      → Runs c n 1 rest
      → Runs c n 1 (handoff_ack_dependency_status command rest)
  unfolding handoff_ack_dependency_status
  dependency-Runs n command rest h = if-Runs n 1 _ _ _ h (
      step-Runs n 1 _ _ (lift-Runs _) (λ event.
        step-Runs n 1 _ _
          (perform-Runs (read_handoff_ack command.conversation_id event) _ refl refl refl refl)
          (λ ack. await_ack-Runs n command rest ack h)))

  stage-Runs : (id : ℕ) (stage : Fields) → Runs c 0 0 (record_handoff_stage id stage)
  unfolding record_handoff_stage
  stage-Runs id stage = perform-Runs (merged_payload id _) _ refl refl refl refl

  complete_handoff-Runs :
      (d : Config) (command : Command) (stage result : Fields)
      → Runs c 0 1 (complete_handoff d command stage result)
  unfolding complete_handoff
  complete_handoff-Runs d command stage result = >>-Runs 0 0 1 _ _ (stage-Runs _ _) (
      >>-Runs 0 0 1 _ _
        (perform-Runs (updated_workflow_state command.conversation_id _) _ refl refl refl refl)
        (>>-Runs 0 0 1 _ _ (stage-Runs _ _) (
          >>=-Runs 0 0 1 _ _ (emit-Runs _ _) (λ inserted.
            >>-Runs 0 0 1 _ _ (stage-Runs _ _) (
              then_pure-Runs _ _ (settling-Runs (marked_sent command.id) _ refl refl refl refl))))))

  after_transfer-Runs :
      (s : Settings) (d : Config) (command : Command) (group : Option ℕ) (stage : Fields)
      (response : Json)
      → Runs c 0 1 (after_transfer s d command group stage response)
  unfolding after_transfer
  after_transfer-Runs s d command group stage response =
      recover-Runs 0 _ _ _ (complete_handoff-Runs d command stage _)
        (λ e. result-Runs _ _ (mark_command_status-Runs _ _ _ _))

  transfer-Runs :
      (s : Settings) (d : Config) (command : Command) (group : Option ℕ)
      → (not c.dry_run
          && (c.execute_human_handoff && setting c.settings (λ s. s.livechat_handoff_enabled)))
        ≡ true
      → Runs c 1 1 (transfer s d command group)
  unfolding transfer
  transfer-Runs s d command group h =
      if-Runs 1 1 _ _ _ (weaken-Runs 1 1 _ (settle_as-Runs d command _ _)) (
        try_else-Runs 1 0 1 _ _ _
          (>>-Runs 0 1 0 _ _ (stage-Runs _ _)
            (external-Runs (transferred_chat command.chat_id group _ _) _ refl refl refl h))
          (λ e. settle-Runs d command _ _)
          (λ response. after_transfer-Runs s d command group _ response))

  run_handoff-Runs :
      (settings : Option Settings) (d : Config) (command : Command)
      → (not c.dry_run
          && (c.execute_human_handoff && setting c.settings (λ s. s.livechat_handoff_enabled)))
        ≡ true
      → Runs c 1 1 (run_handoff settings d command)
  unfolding run_handoff
  run_handoff-Runs none d command h = raise-Runs Item c 1 1 _
  run_handoff-Runs (some s) d command h =
      dependency-Runs 1 command _
        (>>=-Runs 0 1 1 _ _ (reads-Runs _) (λ group. transfer-Runs s d command group h))

pub process_real_handoff-Runs :
    (c : Config) (command : Command)
    → c.dry_run ≡ false
    → Runs c 1 1 (process_real_handoff c command)
unfolding process_real_handoff run_handoff
process_real_handoff-Runs c command wet = asking-Runs 1 1 _ _ (λ env.
    unless_blocked-Runs 1 _ _ _ (λ why. weaken-Runs 1 1 _ (settle_as-Runs c command _ _))
      (λ free.
        run_handoff-Runs c.settings c command
          (permitted c.dry_run _ wet (handoff_permitted env command c.settings _ free))))
