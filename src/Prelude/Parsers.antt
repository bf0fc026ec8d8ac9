-- ===== src/Prelude/Parsers.antt =====
-- Readers of bytes that may fail with an error of type `E`. The state is the bytes that are left; a
-- reader that fails is not used again.
pub mod Reads
pub mod Exact
pub mod Ensures
use candy_runtime.Prelude.Results.{Result, ok, err}
use Prim.Native.Nat.{ℕ, zero, suc}
use mathlib.Core.List.{List, [], ◌∷◌}

abbrev pub Parser : Type 0 → Type 0 → Type 0
Parser E A = List ℕ → Result E (A × List ℕ)

module _ {E : Type 0} where
  abbrev pub and_then :
      {A C : Type 0} → Result E (A × List ℕ) → (A → Parser E C) → Result E (C × List ℕ)
  and_then (ok (a, rest)) f = f a rest
  and_then (err e) f = err e

  unfoldable pub pure : {A : Type 0} → A → Parser E A
  pure a input = ok (a, input)

  -- A result that does not read, such as of a conversion or a check.
  unfoldable pub lift : {A : Type 0} → Result E A → Parser E A
  lift (ok a) input = ok (a, input)
  lift (err e) input = err e

  infixl 5 ◌>>=◌ ◌>>◌
  unfoldable pub ◌>>=◌ : {A C : Type 0} → Parser E A → (A → Parser E C) → Parser E C
  unfolding pure lift
  (m >>= f) input = and_then (m input) f

  unfoldable pub ◌>>◌ : {C : Type 0} → Parser E (Unit {0}) → Parser E C → Parser E C
  unfolding ◌>>=◌
  m >> k = m >>= λ _. k

  -- The next `n` bytes, or the error.
  unfoldable pub take_bytes : E → ℕ → Parser E (List ℕ)
  take_bytes e zero input = ok ([], input)
  take_bytes e (suc n) [] = err e
  take_bytes e (suc n) (byte ∷ input) =
      and_then (take_bytes e n input) λ bytes rest. ok (byte ∷ bytes, rest)

  -- `for _ in 0..count { values.push(…) }`
  unfoldable pub read_many : {A : Type 0} → ℕ → Parser E A → Parser E (List A)
  read_many zero item = pure []
  read_many (suc n) item = do value ← item; values ← read_many n item; pure (value ∷ values)

-- A reader that is made for one input.
abbrev pub result_of : {E A : Type 0} → Result E (A × List ℕ) → Result E A
result_of (ok (a, rest)) = ok a
result_of (err e) = err e
