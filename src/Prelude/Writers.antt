-- ===== src/Prelude/Writers.antt =====
-- Bytes that are appended for each of several values.
use Prim.Native.Nat.{ℕ}
use mathlib.Core.List.{List, [], ◌∷◌, ◌++◌}

-- `for value in values { … }`
unfoldable pub encode_each : {A : Type 0} → (A → List ℕ) → List A → List ℕ
encode_each encode [] = []
encode_each encode (value ∷ values) = encode value ++ encode_each encode values
