-- ===== src/Netd/V2/Leads.antt =====
-- What a method leads to from a known durable state: the state is followed from one `persist` to the
-- next.
use candy_runtime.Prelude.{
  Bool, true, false, Option, some, Result, ok, err, ◌≡◌, refl, if◌then◌else◌,
}
use mathlib.Core.Path.{subst, sym}
use candy_runtime.Prelude.Methods.{◌>>=◌, ◌>>◌, pure, raise, raise_if, or_raise, and_then}
use candy_runtime.Prelude.Methods.Triple.{
  Triple, Keeps, Post, bind_rule, seq_rule, if_rule, pure_rule, raise_rule, raise_if_rule,
  or_raise_rule, weaken,
}
use candy_runtime.Netd.Interface.{⊤}
use candy_runtime.Netd.V2.State.{State}
use candy_runtime.Netd.V2.Service.{
  Infra, Infrastructure, InfrastructureService, InfrastructureError, from_world, the_state,
  set_state, unwrap, panic, persist, failing,
}
use candy_runtime.Netd.V2.Rules.{On}

abbrev pub Is : State → State → Type 0
Is s₀ s = s ≡ s₀

-- From the state `s₀` to `Q` behind a success and to `G` behind an error
abbrev pub Leads :
    {W A : Type 0} → State → (State → Type 0) → (A → State → Type 0) → Infra W A → Type 0
Leads {W} s₀ G Q m = Triple (On {W = W} (Is s₀)) m (λ a. On (Q a)) (On G)

abbrev pub Just : {A : Type 0} → (State → Type 0) → A → State → Type 0
Just G a s = G s

pub at_state :
    {W : Type 0} {G : State → Type 0} {s₀ : State}
    → G s₀
    → (s : InfrastructureService W) → On (Is s₀) s
    → On G s
at_state {G = G} g s p = record { held = subst G (sym p.held) g }

reads :
    {W : Type 0} (G : State → Type 0) (s₀ : State)
    → Triple (On {W = W} (Is s₀)) the_state (λ a. On (λ s. (a ≡ s₀) × (s ≡ s₀))) (On G)
unfolding the_state
reads G s₀ = record { run = λ s p. record { held = (p.held, p.held) } }

stored :
    {W : Type 0} (G : State → Type 0) {s₀ : State} (r : Result ⊤ ⊤) (next : State)
    → G s₀
    → (s : InfrastructureService W) → s.state ≡ s₀
    → Post
        (λ _. On (Is next))
        (On G)
        (and_then (failing (λ e. InfrastructureError.journal) r, s) (λ done. set_state next))
unfolding set_state
stored G (ok done) next g s p = record { held = refl }
stored G (err e) next g s p = at_state g s record { held = p }

stores :
    {W : Type 0} {G : State → Type 0} {s₀ : State} ⦃infra : Infrastructure W⦄ (next : State)
    → G s₀
    → Triple (On {W = W} (Is s₀)) (persist next) (λ _. On (Is next)) (On G)
unfolding persist from_world ◌>>◌ ◌>>=◌
stores ⦃infra = infra⦄ next g = record {
  run = λ s p. stored _ (infra.store next s.world).0 next g _ p.held;
}

module _ {W : Type 0} {G : State → Type 0} {s₀ : State} {C : Type 0} {Q : C → State → Type 0} where
  -- A step that keeps every predicate stays in the state.
  pub Leads-bind :
      {A : Type 0} {m : Infra W A} {f : A → Infra W C}
      → G s₀
      → Keeps (On {W = W} (Is s₀)) m
      → ((a : A) → Leads s₀ G Q (f a))
      → Leads s₀ G Q (m >>= f)
  Leads-bind g hm hf = bind_rule (weaken (λ s p. p) (λ a s p. p) (λ s p. at_state g s p) hm) hf

  pub Leads-seq :
      {m : Infra W ⊤} {k : Infra W C}
      → G s₀
      → Keeps (On {W = W} (Is s₀)) m
      → Leads s₀ G Q k
      → Leads s₀ G Q (m >> k)
  Leads-seq g hm hk = seq_rule (weaken (λ s p. p) (λ a s p. p) (λ s p. at_state g s p) hm) hk

  -- The state that is read is known.
  pub Leads-the_state :
      (f : State → Infra W C) → Leads s₀ G Q (f s₀) → Leads s₀ G Q (the_state >>= f)
  Leads-the_state f h = bind_rule (reads G s₀) λ a. record {
    run = λ s p.
        subst (λ t. Post (λ c. On (Q c)) (On G) (f t s)) (sym p.held.0)
          (h.run s record { held = p.held.1 });
  }

  pub Leads-or_raise :
      {A : Type 0} (o : Option A) (e : InfrastructureError) {f : A → Infra W C}
      → G s₀
      → ((a : A) → o ≡ some a → Leads s₀ G Q (f a))
      → Leads s₀ G Q (or_raise o e >>= f)
  Leads-or_raise o e g hf = or_raise_rule o e (λ s p. at_state g s p) hf

  pub Leads-unwrap :
      {A : Type 0} (o : Option A) {f : A → Infra W C}
      → G s₀
      → ((a : A) → o ≡ some a → Leads s₀ G Q (f a))
      → Leads s₀ G Q (unwrap o >>= f)
  unfolding unwrap
  Leads-unwrap o g hf = Leads-or_raise o panic g hf

  pub Leads-raise_if :
      (b : Bool) (e : InfrastructureError) {k : Infra W C}
      → G s₀
      → (b ≡ false → Leads s₀ G Q k)
      → Leads s₀ G Q (raise_if b e >> k)
  Leads-raise_if b e g hk = raise_if_rule b e (λ s p. at_state g s p) hk

  pub Leads-pure : (c : C) → Q c s₀ → Leads {W = W} s₀ G Q (pure c)
  Leads-pure c q = pure_rule c (λ s p. at_state {G = Q c} q s p)

  pub Leads-raise : (e : InfrastructureError) → G s₀ → Leads {W = W} s₀ G Q (raise e)
  Leads-raise e g = raise_rule e (λ s p. at_state g s p)

  pub Leads-if :
      (b : Bool) {m k : Infra W C}
      → (b ≡ true → Leads s₀ G Q m)
      → (b ≡ false → Leads s₀ G Q k)
      → Leads s₀ G Q (if b then m else k)
  Leads-if b hm hk = if_rule b hm hk

  -- The rest begins in the state that is stored.
  pub Leads-persist_seq :
      ⦃infra : Infrastructure W⦄ {next : State} {k : Infra W C}
      → G s₀
      → Leads next G Q k
      → Leads s₀ G Q (persist next >> k)
  Leads-persist_seq {next} g hk = seq_rule (stores next g) hk

  -- Whatever the first part ends with, the rest keeps `G`.
  pub Leads-then :
      {A : Type 0} {m : Infra W A} {f : A → Infra W C}
      → Leads s₀ G (Just G) m
      → ((a : A) → Triple (On {W = W} G) (f a) (λ c. On (Q c)) (On G))
      → Leads s₀ G Q (m >>= f)
  Leads-then hm hf = bind_rule hm hf

  pub Leads-then_seq :
      {m : Infra W ⊤} {k : Infra W C}
      → Leads s₀ G (Just G) m
      → Triple (On {W = W} G) k (λ c. On (Q c)) (On G)
      → Leads s₀ G Q (m >> k)
  Leads-then_seq hm hk = seq_rule hm hk

module _ {W : Type 0} {G : State → Type 0} {C : Type 0} {Q : C → State → Type 0} where
  -- From any state of `G`, by the state that it is.
  pub from_each :
      {m : Infra W C}
      → ((s₀ : State) → G s₀ → Leads s₀ G Q m)
      → Triple (On {W = W} G) m (λ c. On (Q c)) (On G)
  from_each h = record { run = λ s p. (h s.state p.held).run s record { held = refl } }

module _ {W : Type 0} {G : State → Type 0} {s₀ : State} ⦃infra : Infrastructure W⦄ where
  pub Leads-persist : (next : State) → G s₀ → G next → Leads {W = W} s₀ G (Just G) (persist next)
  Leads-persist next g h =
      weaken (λ s p. p) (λ a s p. record { held = subst G (sym p.held) h }) (λ s p. p)
        (stores next g)

-- A step that keeps `G`, and then the rest.
module _ {W : Type 0} {G : State → Type 0} {C : Type 0} {Q : C → State → Type 0} where
  pub keep_then :
      {m : Infra W ⊤} {k : Infra W C}
      → Keeps (On {W = W} G) m
      → Triple (On {W = W} G) k (λ c. On (Q c)) (On G)
      → Triple (On {W = W} G) (m >> k) (λ c. On (Q c)) (On G)
  keep_then hm hk = seq_rule hm hk
