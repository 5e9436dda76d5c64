-- ===== src/Sender/Human.antt =====
-- While a person serves the conversation the sender is silent
-- (src/app/workers/sender_worker.py).
use ai_customer_service.Prelude.{
  ℕ, suc, ◌≡◌, String, Bool, true, false, not, ◌&&◌, Option, none, some, [], ◌∷◌, if◌then◌else◌,
  ◌is◌, length,
}
use ai_customer_service.Sender.{
  Action, Answer, Call, Env, Result, Trace, raises, sent_buttons, sent_image, sent_image_content,
  sent_text, value,
}

-- The calls that reach the customer.
abbrev is_delivery : Call → Bool
is_delivery (sent_text chat text id) = true
is_delivery (sent_buttons chat menu) = true
is_delivery (sent_image chat ref) = true
is_delivery (sent_image_content chat) = true
is_delivery _ = false

unfoldable pub deliveries : Trace → ℕ
deliveries [] = 0
deliveries (call ∷ t) = let rest = deliveries t in if is_delivery call then suc rest else rest

-- What the database says of the conversation before the message is processed.
unfoldable pub is_taken_over : Env → Trace → Option String → Bool
is_taken_over env t none = false
is_taken_over env t (some id) = not (id is "") && env.human_active (length t) id

-- The result, where there is one, says that the message was skipped.
unfoldable pub is_skipped : Answer Result → Bool
is_skipped (value r) = r.status is "SKIPPED_HUMAN_ACTIVE"
is_skipped (raises e) = true

abbrev Skips : Env → Trace → Action Result → Type 0
Skips env t action =
    (deliveries (action env t).1 ≡ deliveries t) × (is_skipped (action env t).0 ≡ true)
