-- ===== src/CommandWorker/Restraint.antt =====
-- The calls that leave the program, which the arguments of the worker permit.
use ai_customer_service.Prelude.{
  ℕ, ◌+◌, ◌≤◌, ◌≡◌, Bool, true, false, not, ◌&&◌, Option, none, some, if◌then◌else◌, arith, All,
}
use ai_customer_service.Prelude.Actions.{
  pure, perform, reads, lift, raise, continue, go_on, try_else, ◌>>=◌, Answer, value, raises,
}
use ai_customer_service.CommandWorker.Effects.{
  Env, Exn, Call, Action, Trace, transferred_chat, sent_case_card, appended_to_case,
  sent_case_followup, queried_backend, looked_up_reply,
}
use ai_customer_service.CommandWorker.Config.{Config, Settings}
use ai_customer_service.CommandWorker.Counting.{count}

-- The calls of LiveChat, Telegram and the backend, and the look-up of a reply.
abbrev pub is_external : Call → Bool
is_external (transferred_chat chat group agents requester) = true
is_external (sent_case_card text) = true
is_external (appended_to_case text reply_to) = true
is_external (sent_case_followup text) = true
is_external (queried_backend row tenant chat) = true
is_external (looked_up_reply identity tenant conversation) = true
is_external _ = false

abbrev pub setting : Option Settings → (Settings → Bool) → Bool
setting none f = false
setting (some s) f = f s

-- The flag of the command line that a call wants, and the setting.
abbrev pub is_permitted : Config → Call → Bool
is_permitted c (transferred_chat chat group agents requester) =
    not c.dry_run
    && (c.execute_human_handoff && setting c.settings (λ s. s.livechat_handoff_enabled))
is_permitted c (sent_case_card text) =
    not c.dry_run && (c.execute_telegram && setting c.settings (λ s. s.telegram_sop_enabled))
is_permitted c (appended_to_case text reply_to) =
    not c.dry_run && (c.execute_telegram && setting c.settings (λ s. s.telegram_sop_enabled))
is_permitted c (sent_case_followup text) =
    not c.dry_run && (c.execute_telegram && setting c.settings (λ s. s.telegram_sop_enabled))
is_permitted c (queried_backend row tenant chat) =
    not c.dry_run && (c.execute_backend && setting c.settings (λ s. s.backend_query_enabled))
is_permitted c (looked_up_reply identity tenant conversation) =
    not c.dry_run && c.execute_pending_reply_lookup
is_permitted c _ = true

abbrev pub externals : Trace → ℕ
externals = count λ e. is_external e.0

abbrev pub AllPermitted : Config → Trace → Type 0
AllPermitted c = All λ e. is_permitted c e.0 ≡ true

-- An action that makes at most `n` external calls, all of them permitted.
unfoldable pub Restrained : {A : Type 0} → Config → ℕ → Action A → Type 0
Restrained c n m =
    (env : Env) (t : Trace)
    → let r = m env t in (externals r.1 ≤ n + externals t) × (AllPermitted c t → AllPermitted c r.1)

pub raise-Restrained :
    (A : Type 0) (c : Config) (n : ℕ) (e : Exn) → Restrained {A = A} c n (raise e)
unfolding Restrained raise
raise-Restrained A c n e env t = (omega arith, λ h. h)

module _ {A : Type 0} (c : Config) where
  pub pure-Restrained : (n : ℕ) (a : A) → Restrained c n (pure a)
  unfolding Restrained pure
  pure-Restrained n a env t = (omega arith, λ h. h)

  pub lift-Restrained : (a : Answer Exn A) → Restrained c 0 (lift a)
  unfolding Restrained lift
  lift-Restrained a env t = (omega arith, λ h. h)

  pub reads-Restrained : (f : Env → Answer Exn A) → Restrained c 0 (reads f)
  unfolding Restrained reads
  reads-Restrained f env t = (omega arith, λ h. h)

  pub weaken-Restrained : (n : ℕ) (m : Action A) → Restrained c 0 m → Restrained c n m
  unfolding Restrained
  weaken-Restrained n m h env t = let (few, all) = h env t in (omega arith, all)

  pub perform-Restrained :
      (call : Call) (ask : Env → ℕ → Answer Exn A)
      → is_external call ≡ false
      → is_permitted c call ≡ true
      → Restrained c 0 (perform call ask)
  unfolding Restrained perform
  perform-Restrained call ask h p env t = (rw h (omega arith), λ all. (p, all))

  pub external-Restrained :
      (call : Call) (ask : Env → ℕ → Answer Exn A)
      → is_external call ≡ true
      → is_permitted c call ≡ true
      → Restrained c 1 (perform call ask)
  unfolding Restrained perform
  external-Restrained call ask h p env t = (rw h (omega arith), λ all. (p, all))

  pub if-Restrained :
      (n : ℕ) (b : Bool) (m k : Action A)
      → Restrained c n m
      → Restrained c n k
      → Restrained c n (if b then m else k)
  if-Restrained n true m k h h' = h
  if-Restrained n false m k h h' = h'

module _ {A B : Type 0} (c : Config) where
  continue-Restrained :
      (n k e : ℕ) (a : Answer Exn A) (f : A → Action B) (env : Env) (t : Trace)
      → ((x : A) → Restrained c k (f x))
      → externals t ≤ n + e
      → let r = continue a f env t in
        (externals r.1 ≤ n + k + e) × (AllPermitted c t → AllPermitted c r.1)
  unfolding Restrained
  continue-Restrained n k e (value a) f env t h le =
      let (few, all) = h a env t in (omega arith, all)
  continue-Restrained n k e (raises x) f env t h le = (omega arith, λ all. all)

  pub >>=-Restrained :
      (n k : ℕ) (m : Action A) (f : A → Action B)
      → Restrained c n m
      → ((a : A) → Restrained c k (f a))
      → Restrained c (n + k) (m >>= f)
  unfolding Restrained ◌>>=◌
  >>=-Restrained n k m f h h' env t =
      let (few, all) = h env t in
      let (few', all') =
        continue-Restrained n k (externals t) (m env t).0 f env (m env t).1 h' few in
      (few', λ p. all' (all p))

  go_on-Restrained :
      (n k e : ℕ) (a : Answer Exn A) (g : Exn → Action B) (f : A → Action B) (env : Env) (t : Trace)
      → ((x : Exn) → Restrained c k (g x))
      → ((x : A) → Restrained c k (f x))
      → externals t ≤ n + e
      → let r = go_on a g f env t in
        (externals r.1 ≤ n + k + e) × (AllPermitted c t → AllPermitted c r.1)
  unfolding Restrained
  go_on-Restrained n k e (value a) g f env t h h' le =
      let (few, all) = h' a env t in (omega arith, all)
  go_on-Restrained n k e (raises x) g f env t h h' le =
      let (few, all) = h x env t in (omega arith, all)

  pub try_else-Restrained :
      (n k : ℕ) (m : Action A) (g : Exn → Action B) (f : A → Action B)
      → Restrained c n m
      → ((e : Exn) → Restrained c k (g e))
      → ((a : A) → Restrained c k (f a))
      → Restrained c (n + k) (try_else m g f)
  unfolding Restrained try_else
  try_else-Restrained n k m g f h h' h'' env t =
      let (few, all) = h env t in
      let (few', all') =
        go_on-Restrained n k (externals t) (m env t).0 g f env (m env t).1 h' h'' few in
      (few', λ p. all' (all p))

  pub asking-Restrained :
      (n : ℕ) (f : Env → A) (g : A → Action B)
      → ((env : Env) → Restrained c n (g (f env)))
      → Restrained c n (reads (λ env. value (f env)) >>= g)
  unfolding Restrained reads ◌>>=◌
  asking-Restrained n f g h env t = h env env t
