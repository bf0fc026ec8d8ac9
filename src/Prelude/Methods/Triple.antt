-- ===== src/Prelude/Methods/Triple.antt =====
-- Pre- and postconditions of methods: what holds behind a success, and what holds behind an error.
use mathlib.Core.Path.{◌≡◌, refl, subst}
use mathlib.Core.Bool.{Bool, true, false}
use mathlib.Core.Option.{Option, none, some}
use candy_runtime.Prelude.Tests.{if◌then◌else◌}
use candy_runtime.Prelude.Results.{Result, ok, err}
use candy_runtime.Prelude.Methods.{
  Method, pure, raise, raise_if, or_raise, from_result, attempt, ◌>>=◌, ◌>>◌, and_then,
}

-- `Q` holds of the value and the state behind a success, `R` of the state behind an error.
abbrev pub Post : {E S A : Type 0} → (A → S → Type 0) → (S → Type 0) → Result E A × S → Type 0
Post Q R (ok a, s) = Q a s
Post Q R (err e, s) = R s

-- From `P`, the method `m` ends in `Q` or in `R`.
pub record Triple {E S A : Type 0} (P : S → Type 0) (m : Method E S A) (Q : A → S → Type 0)
    (R : S → Type 0) : Type 0 where
  pub run : (s : S) → P s → Post Q R (m s)

-- The method keeps `P`, with a success and with an error.
abbrev pub Keeps : {E S A : Type 0} → (S → Type 0) → Method E S A → Type 0
Keeps P m = Triple P m (λ _. P) P

module _ {E S A C : Type 0} (Q : C → S → Type 0) (R : S → Type 0) (M : A → S → Type 0) where
  Post-and_then :
      (p : Result E A × S) (f : A → Method E S C)
      → Post M R p
      → ((a : A) → Triple (M a) (f a) Q R)
      → Post Q R (and_then p f)
  Post-and_then (ok a, s) f h k = (k a).run s h
  Post-and_then (err e, s) f h k = h

module _ {E S A C : Type 0} {P R : S → Type 0} {Q : C → S → Type 0} where
  pub bind_rule :
      {M : A → S → Type 0} {m : Method E S A} {f : A → Method E S C}
      → Triple P m M R
      → ((a : A) → Triple (M a) (f a) Q R)
      → Triple P (m >>= f) Q R
  unfolding ◌>>=◌
  bind_rule {M} {m} {f} hm hf = record { run = λ s p. Post-and_then Q R M (m s) f (hm.run s p) hf }

  -- The value that the option has.
  pub or_raise_rule :
      (o : Option A) (e : E) {f : A → Method E S C}
      → ((s : S) → P s → R s)
      → ((a : A) → o ≡ some a → Triple P (f a) Q R)
      → Triple P (or_raise o e >>= f) Q R
  unfolding ◌>>=◌ or_raise
  or_raise_rule none e hr hf = record { run = hr }
  or_raise_rule (some a) e hr hf = record { run = λ s p. (hf a refl).run s p }

module _ {E S C : Type 0} {P R : S → Type 0} {Q : C → S → Type 0} where
  pub seq_rule :
      {M : S → Type 0} {m : Method E S (Unit {0})} {k : Method E S C}
      → Triple P m (λ _. M) R
      → Triple M k Q R
      → Triple P (m >> k) Q R
  unfolding ◌>>◌
  seq_rule {M} {m} hm hk = bind_rule {M = λ _. M} {m = m} hm (λ _. hk)

  -- Behind a check that was passed.
  pub raise_if_rule :
      (b : Bool) (e : E) {k : Method E S C}
      → ((s : S) → P s → R s)
      → (b ≡ false → Triple P k Q R)
      → Triple P (raise_if b e >> k) Q R
  unfolding ◌>>◌ ◌>>=◌ raise_if
  raise_if_rule true e hr hk = record { run = hr }
  raise_if_rule false e hr hk = record { run = λ s p. (hk refl).run s p }

  pub if_rule :
      (b : Bool) {m k : Method E S C}
      → (b ≡ true → Triple P m Q R)
      → (b ≡ false → Triple P k Q R)
      → Triple P (if b then m else k) Q R
  if_rule true hm hk = hm refl
  if_rule false hm hk = hk refl

  pub pure_rule : (c : C) → ((s : S) → P s → Q c s) → Triple {E = E} P (pure c) Q R
  unfolding pure
  pure_rule c h = record { run = h }

  pub raise_rule : (e : E) → ((s : S) → P s → R s) → Triple P (raise {A = C} e) Q R
  unfolding raise
  raise_rule e h = record { run = h }

  pub weaken :
      {P' : S → Type 0} {Q' : C → S → Type 0} {R' : S → Type 0} {m : Method E S C}
      → ((s : S) → P s → P' s)
      → ((c : C) (s : S) → Q' c s → Q c s)
      → ((s : S) → R' s → R s)
      → Triple P' m Q' R'
      → Triple P m Q R
  weaken {Q' = Q'} {R' = R'} {m = m} hp hq hr t = record {
    run = λ s p. post (m s) (t.run s (hp s p));
  }
    where
      post : (x : Result E C × S) → Post Q' R' x → Post Q R x
      post (ok c, s) h = hq c s h
      post (err e, s) h = hr s h

kept : {E S A : Type 0} (P : S → Type 0) (p : Result E A × S) → Post (λ _. P) P p → P p.1
kept P (ok a, s) h = h
kept P (err e, s) h = h

-- What a triple says of a run that succeeds.
pub Triple-success :
    {E S A : Type 0} {P R : S → Type 0} {Q : A → S → Type 0} {m : Method E S A} {a : A} {t : S}
    → Triple P m Q R
    → (s : S) → P s
    → m s ≡ (ok a, t)
    → Q a t
Triple-success {R = R} {Q = Q} h s p e = subst (Post Q R) e (h.run s p)

-- What every part of a method keeps, the method keeps.
module _ {E S A : Type 0} {P : S → Type 0} where
  pub keep_bind :
      {C : Type 0} {m : Method E S C} {f : C → Method E S A}
      → Keeps P m
      → ((c : C) → Keeps P (f c))
      → Keeps P (m >>= f)
  keep_bind hm hf = bind_rule hm hf

  pub keep_seq :
      {m : Method E S (Unit {0})} {k : Method E S A} → Keeps P m → Keeps P k → Keeps P (m >> k)
  keep_seq hm hk = seq_rule hm hk

  pub keep_branch :
      (b : Bool) {m k : Method E S A} → Keeps P m → Keeps P k → Keeps P (if b then m else k)
  keep_branch true hm hk = hm
  keep_branch false hm hk = hk

  pub keep_pure : (a : A) → Keeps {E = E} P (pure a)
  keep_pure a = pure_rule a (λ s p. p)

  pub keep_raise : (e : E) → Keeps P (raise {A = A} e)
  keep_raise e = raise_rule e (λ s p. p)

  pub keep_or_raise : (o : Option A) (e : E) → Keeps P (or_raise o e)
  unfolding or_raise
  keep_or_raise none e = keep_raise e
  keep_or_raise (some a) e = keep_pure a

  pub keep_from_result : (r : Result E A) → Keeps P (from_result r)
  unfolding from_result
  keep_from_result (ok a) = keep_pure a
  keep_from_result (err e) = keep_raise e

  pub keep_attempt : {m : Method E S A} → Keeps P m → Keeps P (attempt m)
  unfolding attempt
  keep_attempt {m} h = record { run = λ s p. kept P (m s) (h.run s p) }

  -- A method that keeps `P` ends in it.
  pub Keeps-ends : {m : Method E S A} → Keeps P m → (s : S) → P s → P (m s).1
  Keeps-ends {m} h s p = kept P (m s) (h.run s p)

module _ {E S : Type 0} {P : S → Type 0} where
  pub keep_raise_if : (b : Bool) (e : E) → Keeps P (raise_if b e)
  unfolding raise_if
  keep_raise_if true e = keep_raise e
  keep_raise_if false e = keep_pure tt

pub ruleset keeping = (
  keep_bind, keep_seq, keep_branch, keep_pure, keep_raise, keep_or_raise, keep_from_result,
  keep_attempt, keep_raise_if,
)
