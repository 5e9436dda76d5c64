-- ===== src/CommandWorker/Counting.antt =====
-- Counts of the calls that an action makes, and the rules by which they add up.
use ai_customer_service.Prelude.{
  ℕ, ◌+◌, ◌≡◌, refl, Bool, true, false, not, ◌&&◌, List, [], ◌∷◌, length, if◌then◌else◌, arith,
}
use ai_customer_service.Prelude.Actions.{
  pure, perform, reads, lift, raise, continue, go_on, try_else, ◌>>=◌, ◌>>◌, Answer, value, raises,
  returns,
}
use ai_customer_service.CommandWorker.Effects.{
  Env, Exn, Call, Action, Trace, marked_status, marked_processing_failed, marked_sent,
  marked_dry_run_done, released_lease, recorded_handoff_failure,
}

-- The calls that end the lease of the row: its state is set, or the lease released.
abbrev pub is_settling : Call → Bool
is_settling (marked_status id status error) = true
is_settling (marked_processing_failed id error most) = true
is_settling (marked_sent id) = true
is_settling (marked_dry_run_done id) = true
is_settling (released_lease id) = true
is_settling _ = false

abbrev pub is_failure_record : Call → Bool
is_failure_record (recorded_handoff_failure id failure) = true
is_failure_record _ = false

module _ {A : Type 0} where
  abbrev pub count : (A → Bool) → List A → ℕ
  count p [] = 0
  count p (x ∷ xs) = if p x then 1 + count p xs else count p xs

-- The calls that have set the row's state or released it.
abbrev pub settled : Trace → ℕ
settled = count λ e. is_settling e.0 && e.1

-- The records of a failed handoff that could not be written.
abbrev pub unrecorded : Trace → ℕ
unrecorded = count λ e. is_failure_record e.0 && not e.1

abbrev pub if_returned : {A : Type 0} → Answer Exn A → ℕ → ℕ
if_returned (value a) k = k
if_returned (raises e) k = 0

-- An action that settles the row `k` times where it returns, and not at all where it raises; a
-- failure of a handoff that could not be recorded is a row settled before an exception.
unfoldable pub Settles : {A : Type 0} → ℕ → Action A → Type 0
Settles k m =
    (env : Env) (t : Trace)
    → let r = m env t in settled r.1 + unrecorded t ≡ settled t + unrecorded r.1 + if_returned r.0 k

pub raise-Settles : (A : Type 0) (k : ℕ) (e : Exn) → Settles {A = A} k (raise e)
unfolding Settles pure perform reads lift raise ◌>>=◌ ◌>>◌ try_else
raise-Settles A k e env t = omega arith

module _ {A : Type 0} where
  pub pure-Settles : (a : A) → Settles 0 (pure a)
  unfolding Settles pure perform reads lift raise ◌>>=◌ ◌>>◌ try_else
  pure-Settles a env t = omega arith

  returned_zero : (a : Answer Exn A) → if_returned a 0 ≡ 0
  returned_zero (value a) = refl
  returned_zero (raises e) = refl

  pub lift-Settles : (a : Answer Exn A) → Settles 0 (lift a)
  unfolding Settles pure perform reads lift raise ◌>>=◌ ◌>>◌ try_else
  lift-Settles a env t = rw (returned_zero a) (omega arith)

  pub reads-Settles : (f : Env → Answer Exn A) → Settles 0 (reads f)
  unfolding Settles pure perform reads lift raise ◌>>=◌ ◌>>◌ try_else
  reads-Settles f env t = rw (returned_zero (f env)) (omega arith)

  -- A call that is no write of the row's state.
  pub perform-Settles :
      (call : Call) (ask : Env → ℕ → Answer Exn A)
      → is_settling call ≡ false
      → is_failure_record call ≡ false
      → Settles 0 (perform call ask)
  unfolding Settles pure perform reads lift raise ◌>>=◌ ◌>>◌ try_else
  perform-Settles call ask h k env t = rw (h, k, returned_zero (ask env (length t))) (omega arith)

  settling_once :
      (call : Call) (a : Answer Exn A) (t : Trace)
      → is_settling call ≡ true
      → is_failure_record call ≡ false
      → settled ((call, returns a) ∷ t) + unrecorded t
        ≡ settled t + unrecorded ((call, returns a) ∷ t) + if_returned a 1
  settling_once call (value a) t h k = rw (h, k) (omega arith)
  settling_once call (raises e) t h k = rw (h, k) (omega arith)

  pub settling-Settles :
      (call : Call) (ask : Env → ℕ → Answer Exn A)
      → is_settling call ≡ true
      → is_failure_record call ≡ false
      → Settles 1 (perform call ask)
  unfolding Settles pure perform reads lift raise ◌>>=◌ ◌>>◌ try_else
  settling-Settles call ask h k env t = settling_once call (ask env (length t)) t h k

  pub if-Settles :
      (k : ℕ) (b : Bool) (m n : Action A)
      → Settles k m
      → Settles k n
      → Settles k (if b then m else n)
  if-Settles k true m n h h' = h
  if-Settles k false m n h h' = h'

module _ {A B : Type 0} where
  continue-Settles :
      (k : ℕ) (a : Answer Exn A) (f : A → Action B) (s u : ℕ) (env : Env) (t : Trace)
      → ((x : A) → Settles k (f x))
      → settled t + u ≡ s + unrecorded t
      → let r = continue a f env t in settled r.1 + u ≡ s + unrecorded r.1 + if_returned r.0 k
  unfolding Settles pure perform reads lift raise ◌>>=◌ ◌>>◌ try_else
  continue-Settles k (value a) f s u env t h e = let h' = h a env t in omega arith
  continue-Settles k (raises x) f s u env t h e = omega arith

  pub >>=-Settles :
      (k : ℕ) (m : Action A) (f : A → Action B)
      → Settles 0 m
      → ((a : A) → Settles k (f a))
      → Settles k (m >>= f)
  unfolding Settles pure perform reads lift raise ◌>>=◌ ◌>>◌ try_else
  >>=-Settles k m f h h' env t =
      let e = h env t in
      let z = returned_zero (m env t).0 in
      continue-Settles k (m env t).0 f (settled t) (unrecorded t) env (m env t).1 h' (omega arith)

  go_on-Settles :
      (k : ℕ) (a : Answer Exn A) (g : Exn → Action B) (f : A → Action B) (s u : ℕ) (env : Env)
      (t : Trace)
      → ((e : Exn) → Settles k (g e))
      → ((x : A) → Settles k (f x))
      → settled t + u ≡ s + unrecorded t
      → let r = go_on a g f env t in settled r.1 + u ≡ s + unrecorded r.1 + if_returned r.0 k
  unfolding Settles pure perform reads lift raise ◌>>=◌ ◌>>◌ try_else
  go_on-Settles k (value a) g f s u env t h h' e = let c = h' a env t in omega arith
  go_on-Settles k (raises x) g f s u env t h h' e = let c = h x env t in omega arith

  pub try_else-Settles :
      (k : ℕ) (m : Action A) (g : Exn → Action B) (f : A → Action B)
      → Settles 0 m
      → ((e : Exn) → Settles k (g e))
      → ((a : A) → Settles k (f a))
      → Settles k (try_else m g f)
  unfolding Settles pure perform reads lift raise ◌>>=◌ ◌>>◌ try_else
  try_else-Settles k m g f h h' h'' env t =
      let e = h env t in
      let z = returned_zero (m env t).0 in
      go_on-Settles k (m env t).0 g f (settled t) (unrecorded t) env (m env t).1 h' h''
        (omega arith)

  finish_with :
      (a : Answer Exn A) (f : A → B) (s u : ℕ) (env : Env) (t : Trace)
      → settled t + u ≡ s + unrecorded t + if_returned a 1
      → let r = continue a (λ x. pure (f x)) env t in
        settled r.1 + u ≡ s + unrecorded r.1 + if_returned r.0 1
  unfolding pure
  finish_with (value a) f s u env t e = omega arith
  finish_with (raises x) f s u env t e = omega arith

  -- What is settled stays so where only a value is computed then.
  pub result-Settles : (m : Action A) (f : A → B) → Settles 1 m → Settles 1 (m >>= λ a. pure (f a))
  unfolding Settles pure perform reads lift raise ◌>>=◌ ◌>>◌ try_else
  result-Settles m f h env t =
      finish_with (m env t).0 f (settled t) (unrecorded t) env (m env t).1 (h env t)

  fall_back :
      (a : Answer Exn A) (g : Exn → Action B) (f : A → B) (s u : ℕ) (env : Env) (t : Trace)
      → ((e : Exn) → Settles 1 (g e))
      → settled t + u ≡ s + unrecorded t + if_returned a 1
      → let r = go_on a g (λ x. pure (f x)) env t in
        settled r.1 + u ≡ s + unrecorded r.1 + if_returned r.0 1
  unfolding Settles pure perform reads lift raise ◌>>=◌ ◌>>◌ try_else
  fall_back (value a) g f s u env t h e = omega arith
  fall_back (raises x) g f s u env t h e = let c = h x env t in omega arith

  -- An action that settles, with another that does where it raises.
  pub recover-Settles :
      (m : Action A) (g : Exn → Action B) (f : A → B)
      → Settles 1 m
      → ((e : Exn) → Settles 1 (g e))
      → Settles 1 (try_else m g (λ a. pure (f a)))
  unfolding Settles pure perform reads lift raise ◌>>=◌ ◌>>◌ try_else
  recover-Settles m g f h h' env t =
      fall_back (m env t).0 g f (settled t) (unrecorded t) env (m env t).1 h' (h env t)

  -- What follows a function of the environment needs to settle for the values it takes only.
  pub asking-Settles :
      (k : ℕ) (f : Env → A) (g : A → Action B)
      → ((env : Env) → Settles k (g (f env)))
      → Settles k (reads (λ env. value (f env)) >>= g)
  unfolding Settles reads ◌>>=◌
  asking-Settles k f g h env t = h env env t
