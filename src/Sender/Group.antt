-- ===== src/Sender/Group.antt =====
-- `process_message_group` and `process_next_batch` (src/app/workers/sender_worker.py).
use ai_customer_service.Prelude.{false, some, List, [], ◌∷◌, if◌then◌else◌, ◌is◌}
use ai_customer_service.Queue.Outbound.{EnvInt}
use ai_customer_service.Sender.Effects.{
  text_of, Answer, value, raises, Task, Result, released_lease, Action, pure, ◌>>=◌, ◌>>◌, attempt,
  writing,
}
use ai_customer_service.Sender.Classify.{result}
use ai_customer_service.Sender.Delivery.{process_pending_message}

unfoldable pub release_all : List Task → Action (Unit {0})
unfolding writing
release_all [] = pure tt
release_all (m ∷ ms) = do writing (released_lease m.id); release_all ms

-- A message whose processing raised is released, and counts as FAILED_UNKNOWN.
unfoldable pub result_or_release : Task → Answer Result → Action Result
unfolding writing
result_or_release m (value r) = pure r
result_or_release m (raises e) = do
  writing (released_lease m.id)
  pure (result "FAILED_UNKNOWN" (some (text_of e)) false)

-- One message of the group, its exceptions caught.
unfoldable pub process_one : EnvInt → Task → Action Result
unfolding process_pending_message result_or_release
process_one max_retries m = do
  answer ← attempt (process_pending_message max_retries m)
  result_or_release m answer

abbrev pub only : Result → Unit {0} → Action (List Result)
only r u = pure (r ∷ [])

abbrev pub first : Result → List Result → Action (List Result)
first r rs = pure (r ∷ rs)

-- After a result that is not SENT the rest of the group is released.
unfoldable pub go_on : List Task → Action (List Result) → Result → Action (List Result)
unfolding release_all
go_on rest continuation r =
    if r.status is "SENT"
    then (do rs ← continuation; first r rs)
    else (do u ← release_all rest; only r u)

unfoldable pub process_message_group : EnvInt → List Task → Action (List Result)
unfolding process_one go_on
process_message_group max_retries [] = pure []
process_message_group max_retries (m ∷ ms) = do
  r ← process_one max_retries m
  go_on ms (process_message_group max_retries ms) r
