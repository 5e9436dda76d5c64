-- ===== src/Idle/Candidates.antt =====
-- The loop over the idle conversations and its summary
-- (src/app/workers/livechat_idle_timer.py).
use ai_customer_service.Prelude.{
  ℕ, String, Bool, Option, none, List, [], ◌∷◌, if◌then◌else◌, ◌is◌, is_in, or_text, filter, length,
}
use text.Mathlib.Text.{starts_with}
use ai_customer_service.Idle.Effects.{Conversation, Env, Outcome, Trace, Step, go, stop, raised}
use ai_customer_service.Idle.Defs.{candidates}
use ai_customer_service.Idle.Timer.{process_idle_conversation}

abbrev add_result : Outcome → Step (List Outcome) → Step (List Outcome)
add_result o (go os) = go (o ∷ os)
add_result o s = s

-- The result of a conversation before the others; an exception ends the loop there.
unfoldable pub add_results :
    Step Outcome → Step (List Outcome) → Trace → Trace → Step (List Outcome) × Trace
add_results (go o) rest t t' = (add_result o rest, t')
add_results (stop o) rest t t' = (add_result o rest, t')
add_results (raised e) rest t t' = (raised e, t)

module _ (env : Env) (followup_seconds close_seconds now : ℕ) where
  -- The loop over the candidates.
  unfoldable pub process_candidates : List Conversation → Trace → Step (List Outcome) × Trace
  unfolding process_idle_conversation add_results
  process_candidates [] t = (go [], t)
  process_candidates (c ∷ cs) t =
      let (r, t') = process_idle_conversation c followup_seconds close_seconds now env t in
      let (rest, t'') = process_candidates cs t' in add_results r rest t' t''

  unfoldable pub process_idle_conversations :
      ℕ → List Conversation → Trace → Step (List Outcome) × Trace
  unfolding process_candidates candidates
  process_idle_conversations limit rows t = process_candidates (candidates limit now rows) t

pub record Summary : Type 0 where
  pub processed : ℕ
  pub followup_sent : ℕ
  pub close_text_sent : ℕ
  pub closed : ℕ
  pub failed : ℕ
  pub reset : ℕ
  pub first_error : Option String

-- The first text of an error that is not empty.
unfoldable pub first_error_of : List Outcome → Option String
first_error_of [] = none
first_error_of (o ∷ os) =
    let rest = first_error_of os in if or_text o.error "" is "" then rest else o.error

abbrev pub count_status : (String → Bool) → List Outcome → ℕ
count_status p results = length (filter (λ (o : Outcome). p o.status) results)

unfoldable pub summarize_results : List Outcome → Summary
unfolding first_error_of
summarize_results results = record {
  processed = length results;
  followup_sent = count_status (λ s. s is "FOLLOWUP_SENT") results;
  close_text_sent = count_status (λ s. s is "CLOSE_TEXT_SENT") results;
  closed = count_status (λ s. is_in s ("CLOSED" ∷ "CLOSED_ALREADY_IN_LIVECHAT" ∷ [])) results;
  failed = count_status (λ s. starts_with s "FAILED") results;
  reset = count_status (λ s. s is "RESET_BY_CUSTOMER") results;
  first_error = first_error_of results;
}
