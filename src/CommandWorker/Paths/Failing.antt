-- ===== src/CommandWorker/Paths/Failing.antt =====
-- A row that fails, and then the record of why, which may raise.
use ai_customer_service.Prelude.{ℕ, ◌+◌, ◌≡◌, refl, Option, String, Fields, ◌∷◌, length, arith}
use ai_customer_service.Prelude.Actions.{
  pure, perform, continue, ◌>>=◌, ◌>>◌, Answer, value, raises, returns,
}
use ai_customer_service.CommandWorker.Effects.{
  Env, Exn, Action, Trace, writing, marked_status, recorded_handoff_failure,
}
use ai_customer_service.CommandWorker.Config.{Config}
use ai_customer_service.CommandWorker.Counting.{Settles, settled, unrecorded, if_returned}
use ai_customer_service.CommandWorker.Restraint.{
  perform-Restrained, pure-Restrained, >>=-Restrained,
}
use ai_customer_service.CommandWorker.Rules.{Runs, runs}

module _ {B : Type 0} (id : ℕ) (status : String) (reason : Option String) (owner : String)
    (failure : Fields) (b : B) where
  abbrev record_it : Action B
  record_it = writing (recorded_handoff_failure owner failure) >> pure b

  abbrev pub fail_and_record : Action B
  fail_and_record = writing (marked_status id status reason) >> record_it

  -- The row has been settled, by `s`.
  recorded :
      (s u : ℕ) (a : Answer Exn (Unit {0})) (env : Env) (t : Trace)
      → settled t + u ≡ s + unrecorded t + 1
      → let r =
          continue a (λ _. pure b) env ((recorded_handoff_failure owner failure, returns a) ∷ t) in
        settled r.1 + u ≡ s + unrecorded r.1 + if_returned r.0 1
  unfolding pure
  recorded s u (value v) env t e = omega arith
  recorded s u (raises e) env t h = omega arith

  marked :
      (a : Answer Exn (Unit {0})) (env : Env) (t : Trace)
      → let r = continue a (λ _. record_it) env ((marked_status id status reason, returns a) ∷ t) in
        settled r.1 + unrecorded t ≡ settled t + unrecorded r.1 + if_returned r.0 1
  unfolding ◌>>◌ ◌>>=◌ perform
  marked (value v) env t =
      let t' : Trace = (marked_status id status reason, returns {X = Exn} (value v)) ∷ t in
      recorded (settled t) (unrecorded t) (env.write (length t')) env t' (omega arith)
  marked (raises e) env t = omega arith

  fail_and_record-Settles : Settles 1 fail_and_record
  unfolding Settles ◌>>◌ ◌>>=◌ perform
  fail_and_record-Settles env t = marked (env.write (length t)) env t

  pub fail_and_record-Runs : (c : Config) → Runs c 0 1 fail_and_record
  unfolding ◌>>◌
  fail_and_record-Runs c = runs fail_and_record-Settles (
      >>=-Restrained c 0 0 _ _ (perform-Restrained c (marked_status id status reason) _ refl refl)
        (λ _.
          >>=-Restrained c 0 0 _ _
            (perform-Restrained c (recorded_handoff_failure owner failure) _ refl refl)
            (λ _. pure-Restrained c 0 b)))
