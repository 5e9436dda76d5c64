-- ===== src/Database/Inserted.antt =====
-- Messages and commands that are inserted twice (src/app/db/repositories.py).

use ai_customer_service.Prelude.{
  ℕ, ◌≡◌, refl, ◌∙◌, String, Bool, true, ◌||◌, some, List, [], ◌∷◌, ◌++◌, any, arith, eq_refl,
  Bool-cases, inl, inr, ◌is◌, All, Json,
}
use ai_customer_service.Queue.Outbound
use ai_customer_service.Queue.Outbound.{OutboundMessage, outbound_dedup_key}
use ai_customer_service.Queue.Commands
use ai_customer_service.Queue.Commands.{Command, dedup_key_of}
use ai_customer_service.Database.{insert_outbounds, insert_commands}

any_append :
    {A : Type 0} (p : A → Bool) (xs : List A) (y : A) → any p (xs ++ y ∷ []) ≡ (any p xs || p y)
any_append p [] y = ground arith
any_append p (x ∷ xs) y = ground (arith, any_append p xs y)

abbrev has_message : String → List OutboundMessage → Bool
has_message key = any (λ (row : OutboundMessage). row.dedup_key is key)

abbrev in_conversation : String → Outbound.Draft → Outbound.Draft
in_conversation id m = record m { conversation_id = some id }

inserted_has :
    (now : ℕ) (m : Outbound.Draft) (t : Outbound.Table)
    → has_message (outbound_dedup_key m) (Outbound.insert_idempotent now m t).1.rows ≡ true
unfolding Outbound.insert_idempotent
inserted_has now m t = elim (Bool-cases (has_message (outbound_dedup_key m) t.rows)) [
  | inl e ↦ rw e e
  | inr e ↦ rw e (any_append _ t.rows _ ∙ ground (arith, eq_refl (outbound_dedup_key m)))
]

insert_keeps :
    (now : ℕ) (key : String) (m : Outbound.Draft) (t : Outbound.Table)
    → has_message key t.rows ≡ true
    → has_message key (Outbound.insert_idempotent now m t).1.rows ≡ true
unfolding Outbound.insert_idempotent
insert_keeps now key m t h = elim (Bool-cases (has_message (outbound_dedup_key m) t.rows)) [
  | inl e ↦ rw e h
  | inr e ↦ rw e (any_append _ t.rows _ ∙ ground (arith, h))
]

insert_outbounds_keeps :
    (now : ℕ) (id key : String) (ms : List Outbound.Draft) (t : Outbound.Table)
    → has_message key t.rows ≡ true
    → has_message key (insert_outbounds now ms id t).rows ≡ true
unfolding insert_outbounds
insert_outbounds_keeps now id key [] t h = h
insert_outbounds_keeps now id key (m ∷ ms) t h =
    insert_outbounds_keeps now id key ms _ (insert_keeps now key (in_conversation id m) t h)

-- All the messages are there.
pub Has : String → List Outbound.Draft → Outbound.Table → Type 0
Has id ms t =
    All
      (λ (m : Outbound.Draft).
        has_message (outbound_dedup_key (in_conversation id m)) t.rows ≡ true)
      ms

pub insert_outbounds-Has :
    (now : ℕ) (id : String) (ms : List Outbound.Draft) (t : Outbound.Table)
    → Has id ms (insert_outbounds now ms id t)
unfolding Has insert_outbounds
insert_outbounds-Has now id [] t = tt
insert_outbounds-Has now id (m ∷ ms) t = (
  insert_outbounds_keeps now id _ ms _ (inserted_has now (in_conversation id m) t),
  insert_outbounds-Has now id ms _,
)

insert_idempotent_again :
    (now : ℕ) (m : Outbound.Draft) (t : Outbound.Table)
    → has_message (outbound_dedup_key m) t.rows ≡ true
    → (Outbound.insert_idempotent now m t).1 ≡ t
unfolding Outbound.insert_idempotent
insert_idempotent_again now m t h = rw h refl

pub insert_outbounds_again :
    (now : ℕ) (id : String) (ms : List Outbound.Draft) (t : Outbound.Table)
    → Has id ms t
    → insert_outbounds now ms id t ≡ t
unfolding Has insert_outbounds
insert_outbounds_again now id [] t h = refl
insert_outbounds_again now id (m ∷ ms) t (h, hs) =
    rw (insert_idempotent_again now (in_conversation id m) t h)
      (insert_outbounds_again now id ms t hs)

module _ (digest : Json → String) where
  abbrev has_command : String → List Command → Bool
  has_command key = any (λ (row : Command). row.dedup_key is key)

  abbrev of_conversation : String → Commands.Draft → Commands.Draft
  of_conversation id m = record m { conversation_id = id }

  inserted_has_command :
      (now : ℕ) (m : Commands.Draft) (t : Commands.Table)
      → has_command (dedup_key_of digest m) (Commands.insert_idempotent digest now m t).1.rows
        ≡ true
  unfolding Commands.insert_idempotent
  inserted_has_command now m t = elim (Bool-cases (has_command (dedup_key_of digest m) t.rows)) [
    | inl e ↦ rw e e
    | inr e ↦ rw e (any_append _ t.rows _ ∙ ground (arith, eq_refl (dedup_key_of digest m)))
  ]

  insert_keeps_command :
      (now : ℕ) (key : String) (m : Commands.Draft) (t : Commands.Table)
      → has_command key t.rows ≡ true
      → has_command key (Commands.insert_idempotent digest now m t).1.rows ≡ true
  unfolding Commands.insert_idempotent
  insert_keeps_command now key m t h =
      elim (Bool-cases (has_command (dedup_key_of digest m) t.rows)) [
        | inl e ↦ rw e h
        | inr e ↦ rw e (any_append _ t.rows _ ∙ ground (arith, h))
      ]

  insert_commands_keeps :
      (now : ℕ) (id key : String) (ms : List Commands.Draft) (t : Commands.Table)
      → has_command key t.rows ≡ true
      → has_command key (insert_commands digest now ms id t).rows ≡ true
  unfolding insert_commands
  insert_commands_keeps now id key [] t h = h
  insert_commands_keeps now id key (m ∷ ms) t h =
      insert_commands_keeps now id key ms _
        (insert_keeps_command now key (of_conversation id m) t h)

  -- All the commands are there.
  pub HasCommands : String → List Commands.Draft → Commands.Table → Type 0
  HasCommands id ms t =
      All
        (λ (m : Commands.Draft).
          has_command (dedup_key_of digest (of_conversation id m)) t.rows ≡ true)
        ms

  pub insert_commands-HasCommands :
      (now : ℕ) (id : String) (ms : List Commands.Draft) (t : Commands.Table)
      → HasCommands id ms (insert_commands digest now ms id t)
  unfolding HasCommands insert_commands
  insert_commands-HasCommands now id [] t = tt
  insert_commands-HasCommands now id (m ∷ ms) t = (
    insert_commands_keeps now id _ ms _ (inserted_has_command now (of_conversation id m) t),
    insert_commands-HasCommands now id ms _,
  )

  insert_command_again :
      (now : ℕ) (m : Commands.Draft) (t : Commands.Table)
      → has_command (dedup_key_of digest m) t.rows ≡ true
      → (Commands.insert_idempotent digest now m t).1 ≡ t
  unfolding Commands.insert_idempotent
  insert_command_again now m t h = rw h refl

  pub insert_commands_again :
      (now : ℕ) (id : String) (ms : List Commands.Draft) (t : Commands.Table)
      → HasCommands id ms t
      → insert_commands digest now ms id t ≡ t
  unfolding HasCommands insert_commands
  insert_commands_again now id [] t h = refl
  insert_commands_again now id (m ∷ ms) t (h, hs) =
      rw (insert_command_again now (of_conversation id m) t h)
        (insert_commands_again now id ms t hs)
