-- ===== src/CommandWorker/Outcome.antt =====
-- What the processing of one command comes to, whatever the database and the clients answer
-- (src/app/workers/external_command_worker.py).
use ai_customer_service.Prelude.{◌≤◌, ◌≡◌, true, [], ◌∷◌, arith, Fields, bool, obj, put, fields}
use ai_customer_service.Queue.Commands.{Command, merge_payload}
use ai_customer_service.CommandWorker.Effects.{Env}
use ai_customer_service.CommandWorker.Config.{Config, human_handoff}
use ai_customer_service.CommandWorker.Process.{process_one_pending_command}
use ai_customer_service.CommandWorker.Restraint.{Restrained, externals, AllPermitted}
use ai_customer_service.CommandWorker.Rules.{Runs-Restrained}
use ai_customer_service.CommandWorker.Paths.Process.{
  process_one_pending_command-Runs, processing-Runs,
}
use ai_customer_service.CommandWorker.Paths.Repeat.{merged_stage, real_again-Runs}

-- The processing of a command makes at most one call of LiveChat, Telegram, the backend or the
-- look-up of a reply, and none on a dry run; and each such call is one whose flag of the command
-- line was given and, but for the look-up, whose setting is on.
pub process_one_pending_command-restrained :
    (c : Config) (command : Command) (env : Env)
    → let t = (process_one_pending_command c command env []).1 in
      (externals t ≤ 1) × AllPermitted c t
unfolding Restrained
process_one_pending_command-restrained c command env =
    let (few, all) = Runs-Restrained (process_one_pending_command-Runs c command) env [] in
    (omega (arith, few), all tt)

-- Once the payload of a handoff has been merged, as `_record_handoff_stage` does it, with a stage
-- whose transfer_succeeded is set, no later processing of a handoff with that payload makes a call
-- of LiveChat, Telegram, the backend or the look-up of a reply, and so transfers the chat again,
-- whatever the payload was before and whatever else of the row has changed.
pub process_one_pending_command-transfers_once :
    (c : Config) (env : Env) (before again : Command) (stage : Fields)
    → again.command_type ≡ human_handoff
    → again.payload_json
      ≡ (merge_payload
          (obj (
            fields
              (("human_handoff_stage", obj (put "transfer_succeeded" (bool true) stage)) ∷ [])))
          before).payload_json
    → externals (process_one_pending_command c again env []).1 ≡ 0
unfolding Restrained
process_one_pending_command-transfers_once c env before again stage h merged =
    let done = merged_stage before again stage merged in
    let (few, all) =
      Runs-Restrained (processing-Runs c again 0 (λ wet. real_again-Runs c again done h)) env [] in
    omega (arith, few)
