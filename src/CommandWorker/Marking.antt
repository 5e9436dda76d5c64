-- ===== src/CommandWorker/Marking.antt =====
-- Steps that the processing of every command shares (src/app/workers/external_command_worker.py).
use ai_customer_service.Prelude.{
  ℕ, String, Bool, true, false, Option, none, some, [], if◌then◌else◌, ◌is◌, or_text, Json, Fields,
  null,
}
use ai_customer_service.Prelude.Actions.{pure, perform, ◌>>=◌, ◌>>◌}
use ai_customer_service.Queue.Commands.{Command}
use ai_customer_service.CommandWorker.Effects.{
  Action, writing, marked_status, marked_processing_failed, marked_sent, inserted_result,
}
use ai_customer_service.CommandWorker.Config.{Config}
use ai_customer_service.CommandWorker.Records.{Item, item_of}

-- `_mark_command_status` on an `ExternalCommandRepository`, which has all the methods that the
-- function looks for. It returns the status that the row has then.
unfoldable pub mark_command_status : ℕ → ℕ → String → Option String → Action String
mark_command_status most id status error =
    if status is "RETRYABLE"
    then perform (marked_processing_failed id (or_text error status) most)
        (λ env n. env.failed_status n)
    else do writing (marked_status id status error); pure status

-- The command is marked, and the item says so: with the status given, or the one the row has.
unfoldable pub settle_as : Config → Command → String → Option String → Action Item
settle_as c command status error =
    mark_command_status c.max_retries command.id status error >>= λ final.
    pure (item_of command status error [])

unfoldable pub settle : Config → Command → String → Option String → Action Item
settle c command status error =
    mark_command_status c.max_retries command.id status error >>= λ final.
    pure (item_of command final error [])

-- `mark_sent`, and the item.
unfoldable pub finish : Command → Item → Action Item
finish command item = do writing (marked_sent command.id); pure item

-- `if emit_result: result_insert = await result_repository.insert_idempotent(record)`
unfoldable pub emit : Bool → Fields → Action Json
emit false row = pure null
emit true row = perform (inserted_result row) λ env n. env.insert_result n

-- Where there is a reason not to run, the command is settled with it.
unfoldable pub unless_blocked : Option String → (String → Action Item) → Action Item → Action Item
unless_blocked none refused allowed = allowed
unless_blocked (some reason) refused allowed = refused reason
