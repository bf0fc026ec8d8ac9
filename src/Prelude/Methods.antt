-- ===== src/Prelude/Methods.antt =====
-- Methods on `&mut self` that may fail: the state that a method left stands also beside an error.
pub mod Triple
use candy_runtime.Prelude.Results.{Result, ok, err}
use mathlib.Core.Bool.{Bool, true, false}
use mathlib.Core.Option.{Option, none, some}

abbrev pub Method : Type 0 → Type 0 → Type 0 → Type 0
Method E S A = S → Result E A × S

-- The `?` operator.
abbrev pub and_then : {E S A C : Type 0} → Result E A × S → (A → Method E S C) → Result E C × S
and_then (ok a, s) f = f a s
and_then (err e, s) f = (err e, s)

module _ {E S : Type 0} where
  unfoldable pub pure : {A : Type 0} → A → Method E S A
  pure a s = (ok a, s)

  unfoldable pub raise : {A : Type 0} → E → Method E S A
  raise e s = (err e, s)

  -- `if refused { return Err(e); }`
  unfoldable pub raise_if : Bool → E → Method E S (Unit {0})
  unfolding pure raise
  raise_if true e = raise e
  raise_if false e = pure tt

  -- `option.ok_or(e)?`
  unfoldable pub or_raise : {A : Type 0} → Option A → E → Method E S A
  unfolding pure raise
  or_raise none e = raise e
  or_raise (some a) e = pure a

  -- `result?`
  unfoldable pub from_result : {A : Type 0} → Result E A → Method E S A
  unfolding pure raise
  from_result (ok a) = pure a
  from_result (err e) = raise e

  -- A result that is looked at, as by `match`.
  unfoldable pub attempt : {A : Type 0} → Method E S A → Method E S (Result E A)
  attempt m s = let (r, s') = m s in (ok r, s')

  infixl 5 ◌>>=◌ ◌>>◌
  unfoldable pub ◌>>=◌ : {A C : Type 0} → Method E S A → (A → Method E S C) → Method E S C
  (m >>= f) s = and_then (m s) f

  unfoldable pub ◌>>◌ : {C : Type 0} → Method E S (Unit {0}) → Method E S C → Method E S C
  unfolding ◌>>=◌
  m >> k = m >>= λ _. k
