-- ===== src/CommandWorker/Paths/Queries.antt =====
-- Queries of the backend, and look-ups of a reply.
use ai_customer_service.Prelude.{
  ◌≡◌, refl, true, false, not, ◌&&◌, Option, String, Json, Fields, List,
}
use ai_customer_service.Queue.Commands.{Command}
use ai_customer_service.CommandWorker.Effects.{queried_backend, looked_up_reply}
use ai_customer_service.CommandWorker.Config.{Config}
use ai_customer_service.CommandWorker.Queries.{
  fail_query, finish_query, use_query_result, run_query, process_real_backend_query_command,
  run_lookup, process_real_pending_reply_lookup_command,
}
use ai_customer_service.CommandWorker.Restraint.{setting}
use ai_customer_service.CommandWorker.Rules.{
  Runs, reads-Runs, external-Runs, if-Runs, test-Runs, >>=-Runs, result-Runs, weaken-Runs,
}
use ai_customer_service.CommandWorker.Paths.Marking.{
  mark_command_status-Runs, settle_as-Runs, finish-Runs, emit-Runs, unless_blocked-Runs,
}
use ai_customer_service.CommandWorker.Paths.Permits.{backend_permitted, permitted}

module _ {c : Config} where
  fail_query-Runs :
      (d : Config) (command : Command) (result : Fields) (status : String) (reason : Option String)
      (shown : List (String × Json))
      → Runs c 0 1 (fail_query d command result status reason shown)
  unfolding fail_query
  fail_query-Runs d command result status reason shown =
      >>=-Runs 0 0 1 _ _ (emit-Runs _ _)
        (λ inserted. result-Runs _ _ (mark_command_status-Runs _ _ _ _))

  finish_query-Runs :
      (d : Config) (command : Command) (result : Fields)
      → Runs c 0 1 (finish_query d command result)
  unfolding finish_query
  finish_query-Runs d command result =
      >>=-Runs 0 0 1 _ _ (emit-Runs _ _) (λ inserted. finish-Runs _ _)

  use_query_result-Runs :
      (d : Config) (command : Command) (result : Fields)
      → Runs c 0 1 (use_query_result d command result)
  unfolding use_query_result
  use_query_result-Runs d command result = if-Runs 0 1 _ _ _ (finish_query-Runs d command result) (
      >>=-Runs 0 0 1 _ _ (reads-Runs _) (λ status.
        >>=-Runs 0 0 1 _ _ (reads-Runs _)
          (λ reason. fail_query-Runs d command result status reason _)))

  run_query-Runs :
      (d : Config) (command : Command)
      → (not c.dry_run && (c.execute_backend && setting c.settings (λ s. s.backend_query_enabled)))
        ≡ true
      → Runs c 1 1 (run_query d command)
  unfolding run_query
  run_query-Runs d command p =
      >>=-Runs 1 0 1 _ _ (external-Runs (queried_backend _ _ command.chat_id) _ refl refl refl p)
        (λ result. use_query_result-Runs d command _)

  run_lookup-Runs :
      (d : Config) (command : Command)
      → (not c.dry_run && c.execute_pending_reply_lookup) ≡ true
      → Runs c 1 1 (run_lookup d command)
  unfolding run_lookup
  run_lookup-Runs d command p =
      >>=-Runs 1 0 1 _ _
        (external-Runs (looked_up_reply _ _ command.conversation_id) _ refl refl refl p)
        (λ found. >>=-Runs 0 0 1 _ _ (emit-Runs _ _) (λ inserted. finish-Runs _ _))

pub query-Runs :
    (c : Config) (command : Command)
    → c.dry_run ≡ false
    → Runs c 1 1 (process_real_backend_query_command c command)
unfolding process_real_backend_query_command
query-Runs c command wet =
    unless_blocked-Runs 1 _ _ _ (λ why. weaken-Runs 1 1 _ (fail_query-Runs c command _ _ _ _))
      (λ free.
        run_query-Runs c command (permitted c.dry_run _ wet (backend_permitted c.settings _ free)))

pub lookup-Runs :
    (c : Config) (command : Command)
    → c.dry_run ≡ false
    → Runs c 1 1 (process_real_pending_reply_lookup_command c command)
unfolding process_real_pending_reply_lookup_command
lookup-Runs c command wet =
    test-Runs 1 1 c.execute_pending_reply_lookup _ _
      (λ on. run_lookup-Runs c command (permitted c.dry_run _ wet on))
      (λ off. weaken-Runs 1 1 _ (settle_as-Runs c command _ _))
