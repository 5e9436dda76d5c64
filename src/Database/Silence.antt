-- ===== src/Database/Silence.antt =====
-- What a takeover by a person leaves for the bot to send (src/app/db/repositories.py).
use mathlib.Core.Path.{subst}
use ai_customer_service.Prelude.{
  ℕ, ◌≡◌, refl, sym, ap, ◌∙◌, String, Bool, true, false, Option, none, some, List, [], ◌∷◌, ◌++◌,
  any, arith, eq_iff, eq_refl, Bool-cases, inl, inr, if◌then◌else◌, ◌is◌, upper_is, ◌⊎◌,
}
use ai_customer_service.Database.{
  Conversation, conversation_id_for_chat, find_conversation, update_conversation, upsert,
  with_thread, new_conversation, inherit_unfinished_thread_state, is_fresh_ai_state, loaded,
  loaded_row, inherited, get_or_create, is_locked,
}

-- The first row with the id is that of a conversation that a person serves.
abbrev pub serves : String → List Conversation → Bool
serves id [] = false
serves id (c ∷ cs) =
    let rest = serves id cs in if c.conversation_id is id then c.status is "HUMAN_ACTIVE" else rest

-- A change of a row leaves its key alone.
abbrev pub Keeps : (Conversation → Conversation) → Type 0
Keeps set = (c : Conversation) → (set c).conversation_id ≡ c.conversation_id

pub serves-update :
    (id other : String) (set : Conversation → Conversation) (cs : List Conversation)
    → Keeps set
    → ((c : Conversation)
        → c.conversation_id is other ≡ true
        → c.conversation_id is id ≡ true
        → c.status is "HUMAN_ACTIVE" ≡ true
        → (set c).status is "HUMAN_ACTIVE" ≡ true)
    → serves id cs ≡ true
    → serves id (update_conversation other set cs) ≡ true
serves-update id other set [] keeps stays h = h
serves-update id other set (c ∷ cs) keeps stays h =
    let ih = serves-update id other set cs keeps stays in
    let same = ap (λ (s : String). s is id) (keeps c) in
    elim (Bool-cases (c.conversation_id is other)) [
      | inl e ↦ (let on = stays c e in rw e (ground (arith, same, on, ih, h)))
      | inr e ↦ rw e (ground (arith, ih, h))
    ]

serves-append :
    (id : String) (cs ds : List Conversation) → serves id cs ≡ true → serves id (cs ++ ds) ≡ true
serves-append id [] ds h = cc
serves-append id (c ∷ cs) ds h = ground (arith, serves-append id cs ds)

pub serves-upsert :
    (now n : ℕ) (id other chat : String) (thread : Option String)
    (set : Conversation → Conversation) (cs : List Conversation)
    → Keeps set
    → ((c : Conversation) → (set c).status ≡ c.status)
    → serves id cs ≡ true
    → serves id (upsert now n other chat thread set cs) ≡ true
serves-upsert now n id other chat thread set cs keeps same h =
    elim (Bool-cases (any (λ (c : Conversation). c.conversation_id is other) cs)) [
      | inl e ↦ rw e (
          serves-update id other set cs keeps
            (λ c _ _ k. ap (λ (s : String). s is "HUMAN_ACTIVE") (same c) ∙ k) h)
      | inr e ↦ rw e (serves-append id cs _ h)
    ]

abbrev pub is_there : String → List Conversation → Bool
is_there id = any (λ (c : Conversation). c.conversation_id is id)

there-append :
    (id : String) (cs : List Conversation) (c : Conversation)
    → c.conversation_id is id ≡ true
    → is_there id (cs ++ c ∷ []) ≡ true
there-append id [] c h = ground (arith, h)
there-append id (x ∷ xs) c h = ground (arith, there-append id xs c h)

there-update :
    (id : String) (set : Conversation → Conversation) (cs : List Conversation)
    → Keeps set
    → is_there id cs ≡ true
    → is_there id (update_conversation id set cs) ≡ true
there-update id set [] keeps h = h
there-update id set (c ∷ cs) keeps h =
    ground (arith, there-update id set cs keeps, ap (λ (s : String). s is id) (keeps c))

pub there-upsert :
    (now n : ℕ) (id chat : String) (thread : Option String) (set : Conversation → Conversation)
    (cs : List Conversation)
    → Keeps set
    → is_there id (upsert now n id chat thread set cs) ≡ true
there-upsert now n id chat thread set cs keeps = elim (Bool-cases (is_there id cs)) [
  | inl e ↦ rw e (there-update id set cs keeps e)
  | inr e ↦ rw e (there-append id cs (new_conversation now n id chat thread) (eq_refl id))
]

-- A change that makes a conversation served.
pub served_by :
    (id : String) (set : Conversation → Conversation) (cs : List Conversation)
    → Keeps set
    → ((c : Conversation) → (set c).status is "HUMAN_ACTIVE" ≡ true)
    → is_there id cs ≡ true
    → serves id (update_conversation id set cs) ≡ true
served_by id set [] keeps on h = cc
served_by id set (c ∷ cs) keeps on h =
    ground (arith, served_by id set cs keeps on, ap (λ (s : String). s is id) (keeps c), on c)

picked :
    (here : Bool) (c r : Conversation) (rest : Option Conversation)
    → (if here then some c else rest) ≡ some r
    → ((here ≡ true) × (c ≡ r)) ⊎ ((here ≡ false) × (rest ≡ some r))
picked true c r rest h = inl (refl, cc)
picked false c r rest h = inr (refl, h)

pub found_lem :
    (id : String) (cs : List Conversation) (r : Conversation)
    → find_conversation id cs ≡ some r
    → (r.conversation_id is id ≡ true) × (serves id cs ≡ r.status is "HUMAN_ACTIVE")
found_lem id [] r h = cc
found_lem id (c ∷ cs) r h =
    elim (picked (c.conversation_id is id) c r (find_conversation id cs) h) [
      | inl (e, same) ↦
          subst
            (λ (x : Conversation).
              (x.conversation_id is id ≡ true) × (serves id (c ∷ cs) ≡ x.status is "HUMAN_ACTIVE"))
            same (e, rw e refl)
      | inr (e, later) ↦ (let ih = found_lem id cs r later in (ih.0, rw e ih.1))
    ]

pub inherited_keeps :
    (o : Option Conversation) (r : Conversation)
    → (inherited o r).conversation_id ≡ r.conversation_id
unfolding inherit_unfinished_thread_state
inherited_keeps none r = refl
inherited_keeps (some p) r = ground arith

status_not_fresh :
    (status : String)
    → status ≡ "HUMAN_ACTIVE"
    → upper_is (if status is "" then "AI_ACTIVE" else status) "AI_ACTIVE" ≡ false
status_not_fresh status e =
    subst (λ s. upper_is (if s is "" then "AI_ACTIVE" else s) "AI_ACTIVE" ≡ false) (sym e) refl

not_fresh : (r : Conversation) → r.status ≡ "HUMAN_ACTIVE" → is_fresh_ai_state r ≡ false
unfolding is_fresh_ai_state
not_fresh r e = ground (arith, status_not_fresh r.status e)

-- A served conversation inherits nothing, and is locked.
inherited_locked :
    (o : Option Conversation) (r : Conversation)
    → r.status ≡ "HUMAN_ACTIVE"
    → is_locked (inherited o r).status ≡ true
unfolding inherit_unfinished_thread_state
inherited_locked none r e = subst (λ s. is_locked s ≡ true) (sym e) refl
inherited_locked (some p) r e = rw (not_fresh r e) (subst (λ s. is_locked s ≡ true) (sym e) refl)

pub loaded_row_lem :
    (o : Option Conversation) (chat : String) (thread : Option String) (cs : List Conversation)
    (c : Conversation)
    → loaded_row thread chat cs o ≡ some c
    → (r : Conversation) × (o ≡ some r) × (loaded thread chat cs r ≡ c)
loaded_row_lem none chat thread cs c h = cc
loaded_row_lem (some r) chat thread cs c h = (r, refl, cc)

pub eq_of_is : (s t : String) → s is t ≡ true → s ≡ t
eq_of_is s t h = (eq_iff s t).0 h

-- What `get_or_create` returns for the conversation is locked.
pub created_locked :
    (now n : ℕ) (id chat : String) (thread : Option String) (cs : List Conversation)
    (c : Conversation)
    → serves id cs ≡ true
    → (get_or_create now n chat thread cs).0 ≡ some c
    → c.conversation_id is id ≡ true
    → is_locked c.status ≡ true
unfolding get_or_create
created_locked now n id chat thread cs c h e same =
    let key = conversation_id_for_chat chat thread in
    let rows = upsert now n key chat thread (with_thread now thread) cs in
    let (r, found, is_c) = loaded_row_lem (find_conversation key rows) chat thread rows c e in
    let (here, served) = found_lem key rows r found in
    let id_of : c.conversation_id ≡ r.conversation_id =
      ap (λ (x : Conversation). x.conversation_id) (sym is_c) ∙ inherited_keeps _ r in
    let is_id : id ≡ key =
      sym (eq_of_is c.conversation_id id same) ∙ id_of ∙ eq_of_is r.conversation_id key here in
    let on : serves key rows ≡ true =
      subst (λ (s : String). serves s rows ≡ true) is_id
        (serves-upsert now n id key chat thread (with_thread now thread) cs (λ x. refl) (λ x. refl)
          h) in
    let human = eq_of_is r.status "HUMAN_ACTIVE" (sym served ∙ on) in
    subst (λ (x : Conversation). is_locked x.status ≡ true) is_c (inherited_locked _ r human)
