-- ===== src/Sender/Settled.antt =====
-- No message of a group keeps the lease that it was processed under
-- (src/app/workers/sender_worker.py).
use ai_customer_service.Prelude.{ℕ, ◌≡◌, Bool, true, false, List, ◌==◌, any, All}
use ai_customer_service.Sender.{
  Answer, Call, Task, Trace, marked_failed, marked_sent_with_message, raises, released_lease, value,
}

-- A call that ends the lease of a message: its state is set, or the lease released.
abbrev pub settles : ℕ → Call → Bool
settles id (marked_failed id' status error retryable) = id' == id
settles id (marked_sent_with_message id' text error) = id' == id
settles id (released_lease id') = id' == id
settles id _ = false

abbrev pub is_settled : Trace → Task → Bool
is_settled t m = any (settles m.id) t

-- Of a result: the message is settled.
Settled : {A : Type 0} → Task → Answer A → Trace → Type 0
Settled m (raises e) t = Unit {0}
Settled m (value a) t = is_settled t m ≡ true

-- Of the results of a group: every message is settled.
AllSettled : {A : Type 0} → List Task → Answer A → Trace → Type 0
AllSettled ms (raises e) t = Unit {0}
AllSettled ms (value a) t = All (λ m. is_settled t m ≡ true) ms
