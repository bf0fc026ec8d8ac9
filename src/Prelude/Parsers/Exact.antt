-- ===== src/Prelude/Parsers/Exact.antt =====
-- What an accepting reader took from its input.
use candy_runtime.Prelude.Results.{Result, ok, err}
use candy_runtime.Prelude.Lists.{length, All}
use candy_runtime.Prelude.Tests.{◌==◌, if◌then◌else◌}
use Prim.Native.Nat.{ℕ, zero, suc, ◌<◌}
use mathlib.Core.Path.{◌≡◌, refl, ap, ◌∙◌, subst, sym}
use mathlib.Core.Bool.{Bool, true, false}
use mathlib.Core.List.{List, [], ◌∷◌, ◌++◌, append_assoc, append-nil}
use native.Mathlib.Omega.{arith}
use candy_runtime.Prelude.Writers.{encode_each}
use candy_runtime.Prelude.Parsers.{Parser, and_then, pure, lift, ◌>>=◌, ◌>>◌, take_bytes, read_many}

abbrev pub AreBytes : List ℕ → Type 0
AreBytes input = All (λ b. b < 256) input

-- The input is some used bytes, of which `Q` speaks, and the rest.
abbrev pub Split : {A : Type 0} → (A → List ℕ → Type 0) → List ℕ → A → List ℕ → Type 0
Split Q input a rest = (used : List ℕ) × (input ≡ used ++ rest) × AreBytes rest × Q a used

pub record Exact {E A : Type 0} (m : Parser E A) (Q : A → List ℕ → Type 0) : Type 0 where
  pub run :
      (input : List ℕ) (a : A) (rest : List ℕ)
      → AreBytes input
      → m input ≡ ok (a, rest)
      → Split Q input a rest

pub bytes_behind : (used rest : List ℕ) → AreBytes (used ++ rest) → AreBytes rest
bytes_behind [] rest h = h
bytes_behind (b ∷ used) rest h = bytes_behind used rest h.1

module _ {E A C : Type 0} where
  pub inverted :
      (r : Result E (A × List ℕ)) (f : A → Parser E C) {p : C × List ℕ}
      → and_then r f ≡ ok p
      → (a : A) × (rest : List ℕ) × (r ≡ ok (a, rest)) × (f a rest ≡ ok p)
  inverted (ok (a, rest)) f h = (a, rest, refl, h)
  inverted (err e) f h = cc

  pub Exact-bind :
      {m : Parser E A} {f : A → Parser E C} {R : A → List ℕ → Type 0} {Q : C → List ℕ → Type 0}
      → Exact m R
      → ((a : A) (used : List ℕ) → R a used → Exact (f a) (λ c more. Q c (used ++ more)))
      → Exact (m >>= f) Q
  unfolding ◌>>=◌
  Exact-bind {m = m} {f = f} h k = record {
    run = λ input c rest bytes e.
        let (a, middle, first, second) = inverted (m input) f e in
        let (used, split, bytes', r) = h.run input a middle bytes first in
        let (more, split', bytes'', q) = (k a used r).run middle c rest bytes' second in
        (
          used ++ more,
          split ∙ ap (λ t. used ++ t) split' ∙ sym (append_assoc used more rest),
          bytes'',
          q,
        );
  }

nothing_used :
    {A : Type 0} (Q : A → List ℕ → Type 0) (input : List ℕ) (a b : A) (rest : List ℕ)
    → Q a []
    → AreBytes input
    → a ≡ b
    → input ≡ rest
    → Split Q input b rest
nothing_used Q input a b rest q bytes e same_input =
    ([], same_input, subst AreBytes same_input bytes, subst (λ c. Q c []) e q)

module _ {E A : Type 0} {Q : A → List ℕ → Type 0} where
  pub Exact-pure : (a : A) → Q a [] → Exact {E = E} (pure a) Q
  unfolding pure
  Exact-pure a q = record {
    run = λ input b rest bytes e. nothing_used Q input a b rest q bytes (cc) (cc);
  }

  pub Exact-lift : (r : Result E A) → ((a : A) → r ≡ ok a → Q a []) → Exact (lift r) Q
  unfolding lift
  Exact-lift (ok a) h = record {
    run = λ input b rest bytes e. nothing_used Q input a b rest (h a refl) bytes (cc) (cc);
  }
  Exact-lift (err x) h = record { run = λ input b rest bytes e. cc }

pub Exact-weaken :
    {E A : Type 0} {m : Parser E A} {R Q : A → List ℕ → Type 0}
    → Exact m R
    → ((a : A) (used : List ℕ) → R a used → Q a used)
    → Exact m Q
Exact-weaken h k = record {
  run = λ input a rest bytes e.
      let (used, split, bytes', r) = h.run input a rest bytes e in
      (used, split, bytes', k a used r);
}

abbrev pub IsFixed : ℕ → List ℕ → List ℕ → Type 0
IsFixed n bytes used = (used ≡ bytes) × (length bytes ≡ n)

fixed_split :
    {E : Type 0} (e : E) (n : ℕ) (input bytes rest : List ℕ)
    → take_bytes e n input ≡ ok (bytes, rest)
    → (input ≡ bytes ++ rest) × (length bytes ≡ n)
unfolding take_bytes
fixed_split x zero input bytes rest e = ground arith
fixed_split x (suc n) [] bytes rest e = cc
fixed_split x (suc n) (b ∷ input) bytes rest e =
    let (tail, rest', first, second) = inverted (take_bytes x n input) _ e in
    let (split, same_length) = fixed_split x n input tail rest' first in ground arith

pub Exact-IsFixed : {E : Type 0} (e : E) (n : ℕ) → Exact (take_bytes e n) (IsFixed n)
Exact-IsFixed x n = record {
  run = λ input bytes rest h e.
      let (split, same_length) = fixed_split x n input bytes rest e in
      (bytes, split, bytes_behind bytes rest (subst AreBytes split h), (refl, same_length));
}

-- A step that reads nothing, and its equation.
pub Exact-value :
    {E A : Type 0} (r : Result E A) → Exact (lift r) (λ a used. (used ≡ []) × (r ≡ ok a))
Exact-value r = Exact-lift r (λ a e. (refl, e))

-- A check that passed.
pub Exact-check :
    {E C : Type 0} (r : Result E (Unit {0})) {k : Parser E C} {Q : C → List ℕ → Type 0}
    → (r ≡ ok tt → Exact k Q)
    → Exact (lift r >> k) Q
unfolding lift ◌>>◌
Exact-check (ok done) h = record { run = λ input c rest bytes e. (h refl).run input c rest bytes e }
Exact-check (err x) h = record { run = λ input c rest bytes e. cc }

pub Exact-if :
    {E A : Type 0} (b : Bool) {m n : Parser E A} {Q : A → List ℕ → Type 0}
    → (b ≡ true → Exact m Q)
    → (b ≡ false → Exact n Q)
    → Exact (if b then m else n) Q
Exact-if true h k = h refl
Exact-if false h k = k refl

-- The case of a tag that was compared.
pub Exact-tag :
    {E A : Type 0} {m : Parser E A} (Q : ℕ → A → List ℕ → Type 0) (tag t : ℕ)
    → (tag == t) ≡ true
    → Exact m (Q t)
    → Exact m (Q tag)
Exact-tag {m = m} Q tag t e h =
    let same_tag : t ≡ tag = ground arith in subst (λ n. Exact m (Q n)) same_tag h

pub Exact-many :
    {E A : Type 0} {item : Parser E A} (encode : A → List ℕ) (P : A → Type 0) (n : ℕ)
    → Exact item (λ a used. (used ≡ encode a) × P a)
    → Exact
        (read_many n item)
        (λ xs used. (used ≡ encode_each encode xs) × (length xs ≡ n) × All P xs)
unfolding read_many encode_each
Exact-many encode P zero h = Exact-pure [] (refl, refl, tt)
Exact-many encode P (suc n) h = Exact-bind h λ x used e.
    Exact-bind (Exact-many encode P n h) λ xs used' e'.
      Exact-pure (x ∷ xs) (rw append-nil (rw (e.0, e'.0) refl), ap suc e'.1, (e.1, e'.2))
