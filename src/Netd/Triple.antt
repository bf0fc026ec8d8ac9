-- ===== src/Netd/Triple.antt =====
-- Pre- and postconditions of the methods: what holds of the state behind a success, and behind an
-- error.
use candy_runtime.Prelude.{
  Bool, true, false, ◌≡◌, refl, Option, none, some, Result, ok, err, if◌then◌else◌,
}
use candy_runtime.Netd.Record.{TransactionRecord, NetworkError, BackendStage}
use candy_runtime.Netd.Interface.{
  ⊤, Tx, NetworkTransaction, ◌>>=◌, ◌>>◌, pure, raise, raise_if, or_cleanup, clean_after,
  return_result, current, read, at_stage, stage_result, continue,
}

abbrev pub Pred : Type 0 → Type 0 → Type 1
Pred B J = NetworkTransaction B J → Type 0

-- `Q` holds behind a success, `E` behind an error.
abbrev pub Post :
    {B J A : Type 0} → Pred B J → Pred B J → Result NetworkError A × NetworkTransaction B J → Type 0
Post Q E (ok a, s) = Q s
Post Q E (err e, s) = E s

-- From `P`, the method `m` ends in `Q` or in `E`.
pub record Triple {B J A : Type 0} (P : Pred B J) (m : Tx B J A) (Q E : Pred B J) : Type 0 where
  pub run : (s : NetworkTransaction B J) → P s → Post Q E (m s)

-- The conjunction with the record in hand.
abbrev pub Holding : {B J : Type 0} → Pred B J → TransactionRecord → Pred B J
Holding P r s = P s × (s.retained ≡ some r)

abbrev pub Implies : {B J : Type 0} → Pred B J → Pred B J → Type 0
Implies {B} {J} P Q = (s : NetworkTransaction B J) → P s → Q s

module _ {B J A C : Type 0} (Q R E : Pred B J) where
  Post-continue :
      (p : Result NetworkError A × NetworkTransaction B J) (f : A → Tx B J C)
      → Post R E p
      → ((a : A) → Triple R (f a) Q E)
      → Post Q E (continue p f)
  Post-continue (ok a, s) f h k = (k a).run s h
  Post-continue (err e, s) f h k = h

module _ {B J A C : Type 0} {P Q R E : Pred B J} where
  pub bind_rule :
      {m : Tx B J A} {f : A → Tx B J C}
      → Triple P m R E
      → ((a : A) → Triple R (f a) Q E)
      → Triple P (m >>= f) Q E
  unfolding ◌>>=◌
  bind_rule {m} {f} hm hf = record { run = λ s p. Post-continue Q R E (m s) f (hm.run s p) hf }

module _ {B J C : Type 0} (Q E : Pred B J) where
  Post-clean_after :
      (p : Result NetworkError C × NetworkTransaction B J) (k : Tx B J ⊤) (R : Pred B J)
      → Post Q R p
      → ((s : NetworkTransaction B J) → R s → E (k s).1)
      → Post Q E (clean_after p k)
  Post-clean_after (ok c, s) k R h hk = h
  Post-clean_after (err e, s) k R h hk = hk s h

  Post-stage_result :
      (stage : BackendStage) (p : Result NetworkError C × NetworkTransaction B J)
      → Post Q E p
      → Post Q E (stage_result stage p)
  Post-stage_result stage (ok c, s) h = h
  Post-stage_result stage (err e, s) h = h

module _ {B J C : Type 0} {P Q R E : Pred B J} where
  pub seq_rule :
      {m : Tx B J ⊤} {k : Tx B J C} → Triple P m R E → Triple R k Q E → Triple P (m >> k) Q E
  unfolding ◌>>◌
  seq_rule {m} {k} hm hk = bind_rule {m = m} hm (λ _. hk)

module _ {B J C : Type 0} {P Q E : Pred B J} where
  -- The record that `current` reads is the one in memory.
  pub current_rule :
      {f : TransactionRecord → Tx B J C}
      → Implies P E
      → ((r : TransactionRecord) → Triple (Holding P r) (f r) Q E)
      → Triple P (current >>= f) Q E
  unfolding ◌>>=◌
  current_rule {f} he hf = record { run = λ s p. by_record s p s.retained refl }
    where
      by_record :
          (s : NetworkTransaction B J)
          → P s
          → (o : Option TransactionRecord) → s.retained ≡ o
          → Post Q E (continue (read o s) f)
      by_record s p none e = he s p
      by_record s p (some r) e = (hf r).run s (p, e)

  pub if_rule :
      {b : Bool} {m n : Tx B J C}
      → (b ≡ true → Triple P m Q E)
      → (b ≡ false → Triple P n Q E)
      → Triple P (if b then m else n) Q E
  if_rule {b = true} hm hn = hm refl
  if_rule {b = false} hm hn = hn refl

  pub raise_if_rule :
      (b : Bool) (e : NetworkError) {m : Tx B J C}
      → Implies P E
      → (b ≡ false → Triple P m Q E)
      → Triple P (raise_if b e >> m) Q E
  unfolding ◌>>◌
  raise_if_rule true e he hm = record { run = he }
  raise_if_rule false e he hm = record { run = λ s p. (hm refl).run s p }

  pub raise_rule : (e : NetworkError) → Implies P E → Triple P (raise {A = C} e) Q E
  unfolding raise
  raise_rule e he = record { run = he }

  pub pure_rule : (c : C) → Implies P Q → Triple P (pure c) Q E
  unfolding pure
  pure_rule c hq = record { run = hq }

  pub weaken :
      {P' Q' : Pred B J} {m : Tx B J C}
      → Implies P P'
      → Implies Q' Q
      → Triple P' m Q' E
      → Triple P m Q E
  weaken {Q' = Q'} {m = m} hp hq t = record { run = λ s p. post (m s) (t.run s (hp s p)) }
    where
      post : (x : Result NetworkError C × NetworkTransaction B J) → Post Q' E x → Post Q E x
      post (ok c, s) h = hq s h
      post (err e, s) h = h

  pub or_cleanup_rule :
      {R : Pred B J} {m : Tx B J C} (k : Tx B J ⊤)
      → Triple P m Q R
      → ((s : NetworkTransaction B J) → R s → E (k s).1)
      → Triple P (or_cleanup m k) Q E
  unfolding or_cleanup
  or_cleanup_rule {R} {m} k hm hk = record {
    run = λ s p. Post-clean_after Q E (m s) k R (hm.run s p) hk;
  }

  pub at_stage_rule :
      {m : Tx B J C} (stage : BackendStage) → Triple P m Q E → Triple P (at_stage m stage) Q E
  unfolding at_stage
  at_stage_rule {m} stage h = record { run = λ s p. Post-stage_result Q E stage (m s) (h.run s p) }

-- What every part of a method keeps, the method keeps. `raises` is what an error needs.
module _ {B J A : Type 0} {P E : Pred B J} where
  pub keep_bind :
      {C : Type 0} {m : Tx B J C} {f : C → Tx B J A}
      → Triple P m P E
      → ((c : C) → Triple P (f c) P E)
      → Triple P (m >>= f) P E
  keep_bind hm hf = bind_rule hm hf

  pub keep_seq :
      {m : Tx B J ⊤} {k : Tx B J A} → Triple P m P E → Triple P k P E → Triple P (m >> k) P E
  keep_seq hm hk = seq_rule hm hk

  pub keep_if :
      (b : Bool) {m n : Tx B J A}
      → Triple P m P E
      → Triple P n P E
      → Triple P (if b then m else n) P E
  keep_if true hm hn = hm
  keep_if false hm hn = hn

  pub keep_pure : (a : A) → Triple P (pure a) P E
  keep_pure a = pure_rule a (λ s p. p)

  pub keep_at_stage :
      {m : Tx B J A} (stage : BackendStage) → Triple P m P E → Triple P (at_stage m stage) P E
  keep_at_stage stage h = at_stage_rule stage h

  pub keep_raise : (raises : Implies P E) (e : NetworkError) → Triple P (raise {A = A} e) P E
  keep_raise raises e = raise_rule e raises

  pub keep_current :
      (raises : Implies P E) {f : TransactionRecord → Tx B J A}
      → ((r : TransactionRecord) → Triple P (f r) P E)
      → Triple P (current >>= f) P E
  keep_current raises hf = current_rule raises (λ r. record { run = λ s p. (hf r).run s p.0 })

module _ {B J : Type 0} {P E : Pred B J} where
  pub keep_raise_if :
      (raises : Implies P E) (b : Bool) (e : NetworkError) → Triple P (raise_if b e) P E
  unfolding raise_if
  keep_raise_if raises true e = raise_rule e raises
  keep_raise_if raises false e = keep_pure tt

  pub keep_return_result :
      (raises : Implies P E) (r : Result NetworkError ⊤) → Triple P (return_result r) P E
  unfolding return_result
  keep_return_result raises (ok a) = keep_pure a
  keep_return_result raises (err e) = raise_rule e raises

pub ruleset keeping = (keep_bind, keep_seq, keep_if, keep_pure, keep_at_stage)
