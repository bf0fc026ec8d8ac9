-- ===== src/Prelude/Parsers/Reads.antt =====
-- Reading back what was written, whatever follows it.
use candy_runtime.Prelude.Results.{Result, ok}
use candy_runtime.Prelude.Lists.{length, All}
use Prim.Native.Nat.{ℕ}
use mathlib.Core.Path.{◌≡◌, refl, subst}
use mathlib.Core.List.{List, [], ◌∷◌, ◌++◌, append_assoc, append-nil}
use candy_runtime.Prelude.Writers.{encode_each}
use candy_runtime.Prelude.Parsers.{Parser, pure, lift, ◌>>=◌, ◌>>◌, take_bytes, read_many}

-- The reader takes `bytes` for `a` and leaves the rest.
pub record Reads {E A : Type 0} (m : Parser E A) (bytes : List ℕ) (a : A) : Type 0 where
  pub run : (rest : List ℕ) → m (bytes ++ rest) ≡ ok (a, rest)

module _ {E A C : Type 0} where
  pub Reads-bind :
      {m : Parser E A} (f : A → Parser E C) {bytes more : List ℕ} {a : A} {c : C}
      → Reads m bytes a
      → Reads (f a) more c
      → Reads (m >>= f) (bytes ++ more) c
  unfolding ◌>>=◌
  Reads-bind f {bytes = bytes} {more = more} h k = record {
    run = λ rest. rw (append_assoc bytes more rest, h.run (more ++ rest)) (k.run rest);
  }

  -- A step that reads nothing.
  pub Reads-step :
      {m : Parser E A} (f : A → Parser E C) {bytes : List ℕ} {a : A} {c : C}
      → Reads m [] a
      → Reads (f a) bytes c
      → Reads (m >>= f) bytes c
  Reads-step f h k = Reads-bind f h k

  -- The last step that reads.
  pub Reads-last :
      {m : Parser E A} (f : A → Parser E C) {bytes : List ℕ} {a : A} {c : C}
      → Reads m bytes a
      → Reads (f a) [] c
      → Reads (m >>= f) bytes c
  Reads-last {m = m} f {bytes = bytes} {c = c} h k =
      subst (λ t. Reads (m >>= f) t c) (append-nil bytes) (Reads-bind f h k)

pub Reads-pure : {E A : Type 0} (a : A) → Reads {E = E} (pure a) [] a
unfolding pure
Reads-pure a = record { run = λ rest. refl }

pub Reads-lift : {E A : Type 0} {r : Result E A} (a : A) → r ≡ ok a → Reads (lift r) [] a
unfolding lift
Reads-lift a e = record { run = λ rest. rw e refl }

-- A check that passes.
pub Reads-check :
    {E C : Type 0} (r : Result E (Unit {0})) {k : Parser E C} {bytes : List ℕ} {c : C}
    → r ≡ ok tt
    → Reads k bytes c
    → Reads (lift r >> k) bytes c
unfolding ◌>>◌
Reads-check r e h = Reads-step _ (Reads-lift tt e) h

pub Reads-fixed :
    {E : Type 0} (e : E) (bytes : List ℕ) {n : ℕ}
    → length bytes ≡ n
    → Reads (take_bytes e n) bytes bytes
unfolding take_bytes
Reads-fixed x [] e = record { run = λ rest. rw (← e) refl }
Reads-fixed x (b ∷ bytes) e = record {
  run = λ rest. rw (← e) (rw ((Reads-fixed x bytes refl).run rest) refl);
}

pub Reads-many :
    {E A : Type 0} {item : Parser E A} {encode : A → List ℕ} {P : A → Type 0} (xs : List A)
    → ((a : A) → P a → Reads item (encode a) a)
    → All P xs
    → Reads (read_many (length xs) item) (encode_each encode xs) xs
unfolding read_many encode_each
Reads-many [] h p = Reads-pure []
Reads-many (x ∷ xs) h p =
    Reads-bind _ (h x p.0) (Reads-last _ (Reads-many xs h p.1) (Reads-pure (x ∷ xs)))
