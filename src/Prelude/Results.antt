-- ===== src/Prelude/Results.antt =====
-- Rust's `Result<A, E>` with the `?` operator as bind.
use mathlib.Core.Bool.{Bool, true, false}

pub data Result {ℓ} (E : Type 0) (A : Type ℓ) : Type ℓ where
  ok : A → Result E A
  err : E → Result E A

infixl 5 ◌>>=◌ ◌>>◌
-- `m?`, followed by the rest of the function.
abbrev pub ◌>>=◌ {ℓ κ} :
    {X : Type 0} {A : Type ℓ} {C : Type κ} → Result X A → (A → Result X C) → Result X C
ok a >>= rest = rest a
err x >>= rest = err x

abbrev pub ◌>>◌ {κ} : {X : Type 0} {C : Type κ} → Result X (Unit {0}) → Result X C → Result X C
ok done >> rest = rest
err x >> rest = err x

-- `if refused { return Err(error); }`
abbrev pub refuse_if : {X : Type 0} → Bool → X → Result X (Unit {0})
refuse_if true x = err x
refuse_if false x = ok tt
