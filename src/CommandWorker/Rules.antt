-- ===== src/CommandWorker/Rules.antt =====
-- The rules for what an action calls and what it settles, in one judgement.
use mathlib.Core.Path.{subst}
use ai_customer_service.Prelude.{sym, arith, ℕ, ◌+◌, ◌≡◌, Bool, true, false, if◌then◌else◌, refl}
use ai_customer_service.Prelude.Actions.{
  pure, perform, reads, lift, raise, try_else, ◌>>=◌, ◌>>◌, Answer, value,
}
use ai_customer_service.CommandWorker.Effects.{Env, Exn, Call, Action}
use ai_customer_service.CommandWorker.Config.{Config}
use ai_customer_service.CommandWorker.Counting.{
  is_settling, is_failure_record, Settles, pure-Settles, raise-Settles, lift-Settles, reads-Settles,
  perform-Settles, settling-Settles, if-Settles, >>=-Settles, try_else-Settles, result-Settles,
  recover-Settles, asking-Settles,
}
use ai_customer_service.CommandWorker.Restraint.{
  is_external, is_permitted, Restrained, pure-Restrained, raise-Restrained, lift-Restrained,
  weaken-Restrained, reads-Restrained, perform-Restrained, external-Restrained, if-Restrained,
  >>=-Restrained, try_else-Restrained, asking-Restrained,
}

-- At most `n` external calls, all permitted, and the row settled `k` times.
pub data Runs {A : Type 0} (c : Config) (n k : ℕ) (m : Action A) : Type 0 where
  runs : Settles k m → Restrained c n m → Runs c n k m

pub Runs-Settles : {A : Type 0} {c : Config} {n k : ℕ} {m : Action A} → Runs c n k m → Settles k m
Runs-Settles (runs s r) = s

pub Runs-Restrained :
    {A : Type 0} {c : Config} {n k : ℕ} {m : Action A} → Runs c n k m → Restrained c n m
Runs-Restrained (runs s r) = r

pub raise-Runs : (A : Type 0) (c : Config) (n k : ℕ) (e : Exn) → Runs {A = A} c n k (raise e)
raise-Runs A c n k e = runs (raise-Settles A k e) (raise-Restrained A c n e)

module _ {A : Type 0} {c : Config} where
  pub pure-Runs : (n : ℕ) (a : A) → Runs c n 0 (pure a)
  pure-Runs n a = runs (pure-Settles a) (pure-Restrained c n a)

  pub weaken-Runs : (n k : ℕ) (m : Action A) → Runs c 0 k m → Runs c n k m
  weaken-Runs n k m (runs s r) = runs s (weaken-Restrained c n m r)

  pub lift-Runs : (a : Answer Exn A) → Runs c 0 0 (lift a)
  lift-Runs a = runs (lift-Settles a) (lift-Restrained c a)

  pub reads-Runs : (f : Env → Answer Exn A) → Runs c 0 0 (reads f)
  reads-Runs f = runs (reads-Settles f) (reads-Restrained c f)

  -- A call within the program that leaves the row's state.
  pub perform-Runs :
      (call : Call) (ask : Env → ℕ → Answer Exn A)
      → is_settling call ≡ false
      → is_failure_record call ≡ false
      → is_external call ≡ false
      → is_permitted c call ≡ true
      → Runs c 0 0 (perform call ask)
  perform-Runs call ask h h' e p =
      runs (perform-Settles call ask h h') (perform-Restrained c call ask e p)

  pub settling-Runs :
      (call : Call) (ask : Env → ℕ → Answer Exn A)
      → is_settling call ≡ true
      → is_failure_record call ≡ false
      → is_external call ≡ false
      → is_permitted c call ≡ true
      → Runs c 0 1 (perform call ask)
  settling-Runs call ask h h' e p =
      runs (settling-Settles call ask h h') (perform-Restrained c call ask e p)

  pub external-Runs :
      (call : Call) (ask : Env → ℕ → Answer Exn A)
      → is_settling call ≡ false
      → is_failure_record call ≡ false
      → is_external call ≡ true
      → is_permitted c call ≡ true
      → Runs c 1 0 (perform call ask)
  external-Runs call ask h h' e p =
      runs (perform-Settles call ask h h') (external-Restrained c call ask e p)

  pub if-Runs :
      (n k : ℕ) (b : Bool) (m m' : Action A)
      → Runs c n k m
      → Runs c n k m'
      → Runs c n k (if b then m else m')
  if-Runs n k b m m' (runs s r) (runs s' r') =
      runs (if-Settles k b m m' s s') (if-Restrained c n b m m' r r')

  -- The same, where each branch may use what the test says.
  pub test-Runs :
      (n k : ℕ) (b : Bool) (m m' : Action A)
      → (b ≡ true → Runs c n k m)
      → (b ≡ false → Runs c n k m')
      → Runs c n k (if b then m else m')
  test-Runs n k true m m' h h' = h refl
  test-Runs n k false m m' h h' = h' refl

  pub else-Runs :
      (n k : ℕ) (b : Bool) (m m' : Action A)
      → b ≡ false
      → Runs c n k m'
      → Runs c n k (if b then m else m')
  else-Runs n k b m m' h r = subst (λ x. Runs c n k (if x then m else m')) (sym h) r

  pub then-Runs :
      (n k : ℕ) (b : Bool) (m m' : Action A)
      → b ≡ true
      → Runs c n k m
      → Runs c n k (if b then m else m')
  then-Runs n k b m m' h r = subst (λ x. Runs c n k (if x then m else m')) (sym h) r

module _ {A B : Type 0} {c : Config} where
  pub >>=-Runs :
      (n n' k : ℕ) (m : Action A) (f : A → Action B)
      → Runs c n 0 m
      → ((a : A) → Runs c n' k (f a))
      → Runs c (n + n') k (m >>= f)
  >>=-Runs n n' k m f (runs s r) h =
      runs (>>=-Settles k m f s (λ a. Runs-Settles (h a)))
        (>>=-Restrained c n n' m f r (λ a. Runs-Restrained (h a)))

  -- First an action that makes no external call.
  pub step-Runs :
      (n k : ℕ) (m : Action A) (f : A → Action B)
      → Runs c 0 0 m
      → ((a : A) → Runs c n k (f a))
      → Runs c n k (m >>= f)
  step-Runs n k m f h h' = subst (λ x. Runs c x k (m >>= f)) (omega arith) (>>=-Runs 0 n k m f h h')

  pub try_else-Runs :
      (n n' k : ℕ) (m : Action A) (g : Exn → Action B) (f : A → Action B)
      → Runs c n 0 m
      → ((e : Exn) → Runs c n' k (g e))
      → ((a : A) → Runs c n' k (f a))
      → Runs c (n + n') k (try_else m g f)
  try_else-Runs n n' k m g f (runs s r) h h' =
      runs (try_else-Settles k m g f s (λ e. Runs-Settles (h e)) (λ a. Runs-Settles (h' a))) (
        try_else-Restrained c n n' m g f r (λ e. Runs-Restrained (h e))
          (λ a. Runs-Restrained (h' a)))

  pub asking-Runs :
      (n k : ℕ) (f : Env → A) (g : A → Action B)
      → ((env : Env) → Runs c n k (g (f env)))
      → Runs c n k (reads (λ env. value (f env)) >>= g)
  asking-Runs n k f g h =
      runs (asking-Settles k f g (λ env. Runs-Settles (h env)))
        (asking-Restrained c n f g (λ env. Runs-Restrained (h env)))

  -- Only a value is computed after the row has been settled.
  pub result-Runs : (m : Action A) (f : A → B) → Runs c 0 1 m → Runs c 0 1 (m >>= λ a. pure (f a))
  result-Runs m f (runs s r) =
      runs (result-Settles m f s) (>>=-Restrained c 0 0 m _ r (λ a. pure-Restrained c 0 (f a)))

  pub recover-Runs :
      (n : ℕ) (m : Action A) (g : Exn → Action B) (f : A → B)
      → Runs c n 1 m
      → ((e : Exn) → Runs c 0 1 (g e))
      → Runs c n 1 (try_else m g (λ a. pure (f a)))
  recover-Runs n m g f (runs s r) h =
      subst (λ x. Runs c x 1 (try_else m g (λ a. pure (f a)))) (omega arith)
        (runs (recover-Settles m g f s (λ e. Runs-Settles (h e))) (
          try_else-Restrained c n 0 m g _ r (λ e. Runs-Restrained (h e))
            (λ a. pure-Restrained c 0 (f a))))

module _ {B : Type 0} {c : Config} where
  pub >>-Runs :
      (n n' k : ℕ) (m : Action (Unit {0})) (m' : Action B)
      → Runs c n 0 m
      → Runs c n' k m'
      → Runs c (n + n') k (m >> m')
  unfolding ◌>>◌
  >>-Runs n n' k m m' h h' = >>=-Runs n n' k m (λ _. m') h (λ _. h')

  pub then_pure-Runs : (m : Action (Unit {0})) (b : B) → Runs c 0 1 m → Runs c 0 1 (m >> pure b)
  unfolding ◌>>◌
  then_pure-Runs m b h = result-Runs m (λ _. b) h
