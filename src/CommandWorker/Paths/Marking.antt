-- ===== src/CommandWorker/Paths/Marking.antt =====
-- The steps that the paths share.
use ai_customer_service.Prelude.{
  ℕ, ◌≡◌, refl, Bool, true, false, Option, none, some, String, Fields, ◌is◌, or_text,
}
use ai_customer_service.Queue.Commands.{Command}
use ai_customer_service.CommandWorker.Effects.{
  Action, marked_status, marked_processing_failed, marked_sent, inserted_result,
}
use ai_customer_service.CommandWorker.Config.{Config}
use ai_customer_service.CommandWorker.Records.{Item}
use ai_customer_service.CommandWorker.Marking.{
  mark_command_status, settle_as, settle, finish, emit, unless_blocked,
}
use ai_customer_service.CommandWorker.Rules.{
  Runs, pure-Runs, perform-Runs, settling-Runs, if-Runs, result-Runs, then_pure-Runs,
}

module _ {c : Config} where
  pub mark_command_status-Runs :
      (most id : ℕ) (status : String) (error : Option String)
      → Runs c 0 1 (mark_command_status most id status error)
  unfolding mark_command_status
  mark_command_status-Runs most id status error =
      if-Runs 0 1 (status is "RETRYABLE") _ _
        (settling-Runs (marked_processing_failed id (or_text error status) most) _ refl refl refl
          refl)
        (then_pure-Runs _ _ (settling-Runs (marked_status id status error) _ refl refl refl refl))

  pub settle_as-Runs :
      (d : Config) (command : Command) (status : String) (error : Option String)
      → Runs c 0 1 (settle_as d command status error)
  unfolding settle_as
  settle_as-Runs d command status error =
      result-Runs _ _ (mark_command_status-Runs d.max_retries command.id status error)

  pub settle-Runs :
      (d : Config) (command : Command) (status : String) (error : Option String)
      → Runs c 0 1 (settle d command status error)
  unfolding settle
  settle-Runs d command status error =
      result-Runs _ _ (mark_command_status-Runs d.max_retries command.id status error)

  pub finish-Runs : (command : Command) (r : Item) → Runs c 0 1 (finish command r)
  unfolding finish
  finish-Runs command r =
      then_pure-Runs _ _ (settling-Runs (marked_sent command.id) _ refl refl refl refl)

  pub emit-Runs : (b : Bool) (row : Fields) → Runs c 0 0 (emit b row)
  unfolding emit
  emit-Runs false row = pure-Runs 0 _
  emit-Runs true row = perform-Runs (inserted_result row) _ refl refl refl refl

  -- What is allowed needs to keep the rules only where there is no reason against it.
  pub unless_blocked-Runs :
      (n : ℕ) (reason : Option String) (refused : String → Action Item) (allowed : Action Item)
      → ((why : String) → Runs c n 1 (refused why))
      → (reason ≡ none → Runs c n 1 allowed)
      → Runs c n 1 (unless_blocked reason refused allowed)
  unfolding unless_blocked
  unless_blocked-Runs n none refused allowed h h' = h' refl
  unless_blocked-Runs n (some why) refused allowed h h' = h why
