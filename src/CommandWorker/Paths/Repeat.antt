-- ===== src/CommandWorker/Paths/Repeat.antt =====
-- A handoff whose transfer is known to have succeeded.
use ai_customer_service.Prelude.{
  ℕ, ◌≡◌, ap, ◌∙◌, true, Option, none, some, [], ◌∷◌, ◌is◌, is_in, Fields, bool, obj, get, put,
  fields, is_true, dict_of,
}
use ai_customer_service.Queue.Commands.{Command, merge_payload}
use ai_customer_service.Queue.Commands.Merged.{get-merge_put, get-merge_one}
use ai_customer_service.CommandWorker.Config.{Config, Settings, human_handoff}
use ai_customer_service.CommandWorker.Records.{Item}
use ai_customer_service.CommandWorker.Handoff.{
  stage_of, transfer, run_handoff, process_real_handoff,
}
use ai_customer_service.CommandWorker.Process.{process_real_command}
use ai_customer_service.CommandWorker.Rules.{
  Runs, raise-Runs, reads-Runs, step-Runs, then-Runs, else-Runs, asking-Runs,
}
use ai_customer_service.CommandWorker.Paths.Marking.{settle_as-Runs, unless_blocked-Runs}
use ai_customer_service.CommandWorker.Paths.Handoff.{dependency-Runs}

-- What `_record_handoff_stage` has merged into the payload is read from it again.
pub merged_stage :
    (before again : Command) (stage : Fields)
    → again.payload_json
      ≡ (merge_payload
          (obj (
            fields
              (("human_handoff_stage", obj (put "transfer_succeeded" (bool true) stage)) ∷ [])))
          before).payload_json
    → is_true (get "transfer_succeeded" (stage_of again)) ≡ true
unfolding merge_payload
merged_stage before again stage h =
    let inner = put "transfer_succeeded" (bool true) stage in
    let merged = get-merge_one "human_handoff_stage" inner before.payload_json in
    let there = ap (λ j. get "human_handoff_stage" (dict_of j)) h ∙ merged in
    let flag =
      ap (λ j. get "transfer_succeeded" (dict_of j)) there
      ∙ get-merge_put "transfer_succeeded" true stage _ in
    ap is_true flag

-- `done`: the stage of the command says that the transfer succeeded.
module _ (c : Config) (command : Command)
    (done : is_true (get "transfer_succeeded" (stage_of command)) ≡ true) where
  transferred-Runs : (s : Settings) (group : Option ℕ) → Runs c 0 1 (transfer s c command group)
  unfolding transfer
  transferred-Runs s group = then-Runs 0 1 _ _ _ done (settle_as-Runs c command _ _)

  run_again-Runs : (settings : Option Settings) → Runs c 0 1 (run_handoff settings c command)
  unfolding run_handoff
  run_again-Runs none = raise-Runs Item c 0 1 _
  run_again-Runs (some s) =
      dependency-Runs 0 command _ (step-Runs 0 1 _ _ (reads-Runs _) (transferred-Runs s))

  handoff_again-Runs : Runs c 0 1 (process_real_handoff c command)
  unfolding process_real_handoff
  handoff_again-Runs = asking-Runs 0 1 _ _ (λ env.
      unless_blocked-Runs 0 _ _ _ (λ why. settle_as-Runs c command _ _)
        (λ free. run_again-Runs c.settings))

  pub real_again-Runs :
      command.command_type ≡ human_handoff → Runs c 0 1 (process_real_command c command)
  unfolding process_real_command
  real_again-Runs h = else-Runs 0 1 _ _ _ (ap (λ t. t is "telegram.remind_case") h) (
      else-Runs 0 1 _ _ _
        (ap (λ t. is_in t ("telegram.send_case_card" ∷ "telegram.append_to_case" ∷ [])) h)
        (else-Runs 0 1 _ _ _ (ap (λ t. t is "backend.query") h) (
          else-Runs 0 1 _ _ _ (ap (λ t. t is "pending_reply.lookup") h)
            (then-Runs 0 1 _ _ _ (ap (λ t. t is human_handoff) h) handoff_again-Runs))))
