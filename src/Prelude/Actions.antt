-- ===== src/Prelude/Actions.antt =====
-- Actions of a worker: `async` functions of Python that call a database and clients, and may raise.
-- What the calls answer is an environment `E`, a function of the number of calls made before; an
-- exception is of type `X`. A call of type `C` is recorded with whether it returned.
use Prim.Native.Nat.{ℕ}
use mathlib.Core.Bool.{Bool, true, false}
use mathlib.Core.List.{List, ◌∷◌}
use ai_customer_service.Prelude.Lists.{length}

pub data Answer (X : Type 0) (A : Type 0) : Type 0 where
  value : A → Answer X A
  raises : X → Answer X A

module _ {X A : Type 0} where
  abbrev pub returns : Answer X A → Bool
  returns (value a) = true
  returns (raises e) = false

-- The calls made, the newest first.
abbrev pub Trace : Type 0 → Type 0
Trace C = List (C × Bool)

abbrev pub Action : Type 0 → Type 0 → Type 0 → Type 0 → Type 0
Action E X C A = E → Trace C → Answer X A × Trace C

module _ {E X C A : Type 0} where
  unfoldable pub pure : A → Action E X C A
  pure a env t = (value a, t)

  unfoldable pub lift : Answer X A → Action E X C A
  lift a env t = (a, t)

  unfoldable pub raise : X → Action E X C A
  raise e env t = (raises e, t)

  -- One call.
  unfoldable pub perform : C → (E → ℕ → Answer X A) → Action E X C A
  perform call ask env t = let r = ask env (length t) in (r, (call, returns r) ∷ t)

  -- A function of what does not change in the environment.
  unfoldable pub reads : (E → Answer X A) → Action E X C A
  reads f env t = (f env, t)

module _ {E X C A B : Type 0} where
  abbrev pub continue : Answer X A → (A → Action E X C B) → Action E X C B
  continue (value a) f env t = f a env t
  continue (raises e) f env t = (raises e, t)

  abbrev pub go_on : Answer X A → (X → Action E X C B) → (A → Action E X C B) → Action E X C B
  go_on (value a) h f env t = f a env t
  go_on (raises e) h f env t = h e env t

  infixl 5 ◌>>=◌
  unfoldable pub ◌>>=◌ : Action E X C A → (A → Action E X C B) → Action E X C B
  ◌>>=◌ m f env t = let (r, t') = m env t in continue r f env t'

  -- `try: m; except Exception as e: return h(e)`, then the rest.
  unfoldable pub try_else :
      Action E X C A → (X → Action E X C B) → (A → Action E X C B) → Action E X C B
  try_else m h f env t = let (r, t') = m env t in go_on r h f env t'

module _ {E X C B : Type 0} where
  infixl 5 ◌>>◌
  unfoldable pub ◌>>◌ : Action E X C (Unit {0}) → Action E X C B → Action E X C B
  unfolding ◌>>=◌
  m >> k = m >>= λ _. k
