-- ===== src/Queue/Results/Examples.antt =====
-- A queue of two results (src/app/db/repositories.py).
use ai_customer_service.Prelude.{
  ℕ, ◌≡◌, ◌≢◌, refl, false, String, none, List, [], ◌∷◌, arith, ◌==◌, map, All, null,
}
use ai_customer_service.Queue.Lease.{no_lease}
use ai_customer_service.Queue.Results.{
  CommandResult, lease_pending, lease_pending_by_id, mark_processed,
}
use ai_customer_service.Queue.Results.Leases.{
  IsOrdered, mark_processed_final, lease_pending_by_id-excludes,
}

abbrev result : ℕ → String → CommandResult
result id conversation = record {
  id = id;
  external_command_id = id;
  tenant_id = "default";
  conversation_id = conversation;
  chat_id = "chat";
  thread_id = none;
  inbound_event_id = none;
  command_type = "backend.query";
  result_type = "backend.query.result";
  result_json = null;
  status = "PENDING";
  retry_count = 0;
  last_error = none;
  dedup_key = conversation;
  lease = no_lease;
  attempted_at = none;
  processed_at = none;
  created_at = 0;
}

abbrev two_results : List CommandResult
two_results = result 1 "a" ∷ result 2 "b" ∷ []

two_results-IsOrdered : IsOrdered two_results
two_results-IsOrdered = ((omega arith, tt), (tt, tt))

mark_processed_final_example :
    All
      (λ (r : CommandResult). (r.id == 1) ≡ false)
      (lease_pending 9 20 "w" 60 (mark_processed 5 1 two_results)).0
mark_processed_final_example =
    mark_processed_final 5 9 20 1 "w" 60 two_results two_results-IsOrdered

lease_pending_by_id-excludes_example :
    let (mine, left) = lease_pending_by_id 5 1 "w" 60 two_results in
    let (theirs, _) = lease_pending 9 20 "v" 60 left in
    All (λ (r : CommandResult). All (λ (r' : CommandResult). r.id ≢ r'.id) theirs) mine
lease_pending_by_id-excludes_example =
    lease_pending_by_id-excludes 5 9 20 1 "w" "v" 60 60 two_results two_results-IsOrdered
      (omega arith)

-- The other result is left for the other worker.
other_test :
    map
      (λ (r : CommandResult). r.id)
      (lease_pending 9 20 "v" 60 (lease_pending_by_id 5 1 "w" 60 two_results).1).0
    ≡ 2 ∷ []
unfolding lease_pending lease_pending_by_id
other_test = refl
