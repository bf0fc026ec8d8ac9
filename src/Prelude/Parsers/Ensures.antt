-- ===== src/Prelude/Parsers/Ensures.antt =====
-- What holds of every value that a reader accepts, and readers that fail.
use candy_runtime.Prelude.Results.{Result, ok, err}
use candy_runtime.Prelude.Tests.{if◌then◌else◌}
use candy_runtime.Prelude.Parsers.{Parser, pure, lift, ◌>>=◌, ◌>>◌}
use candy_runtime.Prelude.Parsers.Exact.{inverted}
use candy_runtime.Prelude.Parsers.Reads.{Reads, Reads-lift}
use Prim.Native.Nat.{ℕ}
use mathlib.Core.Bool.{Bool, true, false}
use mathlib.Core.Path.{◌≡◌, refl, subst}
use mathlib.Core.List.{List, [], ◌++◌, append_assoc}

pub record Ensures {E A : Type 0} (m : Parser E A) (P : A → Type 0) : Type 0 where
  pub run : (input : List ℕ) (a : A) (rest : List ℕ) → m input ≡ ok (a, rest) → P a

pub Ensures-any : {E A : Type 0} (m : Parser E A) → Ensures m (λ a. Unit {0})
Ensures-any m = record { run = λ input a rest e. tt }

pub Ensures-bind :
    {E A C : Type 0} {m : Parser E A} {f : A → Parser E C} {R : A → Type 0} {P : C → Type 0}
    → Ensures m R
    → ((a : A) → R a → Ensures (f a) P)
    → Ensures (m >>= f) P
unfolding ◌>>=◌
Ensures-bind {m = m} {f = f} h k = record {
  run = λ input c rest e.
      let (a, middle, first, second) = inverted (m input) f e in
      (k a (h.run input a middle first)).run middle c rest second;
}

-- A step of which nothing has to be known.
pub Ensures-after :
    {E A C : Type 0} (m : Parser E A) {f : A → Parser E C} {P : C → Type 0}
    → ((a : A) → Ensures (f a) P)
    → Ensures (m >>= f) P
Ensures-after m k = Ensures-bind (Ensures-any m) (λ a known. k a)

pub Ensures-lift : {E A : Type 0} (r : Result E A) → Ensures (lift r) (λ a. r ≡ ok a)
unfolding lift
Ensures-lift (ok a) = record { run = λ input b rest e. cc }
Ensures-lift (err x) = record { run = λ input b rest e. cc }

pub Ensures-check :
    {E C : Type 0} (r : Result E (Unit {0})) {k : Parser E C} {P : C → Type 0}
    → (r ≡ ok tt → Ensures k P)
    → Ensures (lift r >> k) P
unfolding ◌>>◌
Ensures-check r h = Ensures-bind (Ensures-lift r) (λ a e. h e)

pub Ensures-pure : {E A : Type 0} {P : A → Type 0} (a : A) → P a → Ensures {E = E} (pure a) P
unfolding pure
Ensures-pure {P = P} a p = record {
  run = λ input b rest e. (let same_value : a ≡ b = cc in subst P same_value p);
}

pub Ensures-err : {E A : Type 0} {P : A → Type 0} (e : E) → Ensures (lift {A = A} (err e)) P
unfolding lift
Ensures-err x = record { run = λ input a rest e. cc }

pub Ensures-if :
    {E A : Type 0} (b : Bool) {m n : Parser E A} {P : A → Type 0}
    → Ensures m P
    → Ensures n P
    → Ensures (if b then m else n) P
Ensures-if true h k = h
Ensures-if false h k = k

-- The bytes make the reader fail, whatever follows them.
pub record Fails {E A : Type 0} (m : Parser E A) (bytes : List ℕ) (e : E) : Type 0 where
  pub run : (rest : List ℕ) → m (bytes ++ rest) ≡ err e

pub Fails-later :
    {E A C : Type 0} {m : Parser E A} (f : A → Parser E C) {bytes more : List ℕ} {a : A} {e : E}
    → Reads m bytes a
    → Fails (f a) more e
    → Fails (m >>= f) (bytes ++ more) e
unfolding ◌>>=◌
Fails-later f {bytes = bytes} {more = more} h k = record {
  run = λ rest. rw (append_assoc bytes more rest, h.run (more ++ rest)) (k.run rest);
}

pub Fails-step :
    {E A C : Type 0} {m : Parser E A} (f : A → Parser E C) {bytes : List ℕ} {a : A} {e : E}
    → Reads m [] a
    → Fails (f a) bytes e
    → Fails (m >>= f) bytes e
Fails-step f h k = Fails-later f h k

pub Fails-check :
    {E C : Type 0} (r : Result E (Unit {0})) {k : Parser E C} {bytes : List ℕ} {e : E}
    → r ≡ ok tt
    → Fails k bytes e
    → Fails (lift r >> k) bytes e
unfolding ◌>>◌
Fails-check r passed h = Fails-step _ (Reads-lift tt passed) h

pub Fails-first :
    {E A C : Type 0} {m : Parser E A} (f : A → Parser E C) {bytes : List ℕ} {e : E}
    → Fails m bytes e
    → Fails (m >>= f) bytes e
unfolding ◌>>=◌
Fails-first f h = record { run = λ rest. rw (h.run rest) refl }

pub Fails-append :
    {E A : Type 0} {m : Parser E A} {bytes : List ℕ} (more : List ℕ) {e : E}
    → Fails m bytes e
    → Fails m (bytes ++ more) e
Fails-append {bytes = bytes} more h = record {
  run = λ rest. rw (append_assoc bytes more rest) (h.run (more ++ rest));
}
