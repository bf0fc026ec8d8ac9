-- ===== src/Netd/V2/Endings.antt =====
-- How a method that looks at a result, or that is a handler of linux/common/apps/candy-netd/src/v2.rs, leads
-- from a known durable state.
use candy_runtime.Prelude.{ℕ, Bool, true, false, Option, none, some, Result, ok, err, ◌≡◌, refl}
use candy_runtime.Prelude.Methods.{◌>>=◌, ◌>>◌, pure, raise, raise_if, or_raise, attempt, and_then}
use candy_runtime.Prelude.Methods.Triple.{Triple, Post, weaken}
use candy_runtime.Netd.Interface.{⊤}
use candy_runtime.Netd.V2.State.{State, ForwardRecord}
use candy_runtime.Netd.V2.Infra.{Outcome, answered, changed}
use candy_runtime.Proto.V2.{Body, ForwardOwner}
use candy_runtime.Netd.V2.Exchange.{same_owner}
use candy_runtime.Netd.V2.Service.{
  Infra, Infrastructure, InfrastructureService, InfrastructureError, from_world, set_state, persist,
  failing,
}
use candy_runtime.Netd.V2.Rules.{On}
use candy_runtime.Netd.V2.Leads.{
  at_state, Is, Leads, Just, Leads-pure, from_each, Leads-the_state, Leads-or_raise, Leads-unwrap,
  Leads-raise_if, Leads-if, Leads-persist, Leads-persist_seq, Leads-bind, Leads-seq, Leads-raise,
}

attempted :
    {W A : Type 0} {G : State → Type 0} (p : Result InfrastructureError A × InfrastructureService W)
    → Post (λ _. On G) (On G) p
    → On G p.1
attempted (ok a, s) h = h
attempted (err e, s) h = h

module _ {W : Type 0} {G : State → Type 0} {s₀ : State} {A : Type 0} where
  pub Leads-attempt : {m : Infra W A} → Leads s₀ G (Just G) m → Leads s₀ G (Just G) (attempt m)
  unfolding attempt
  Leads-attempt {m} h = record { run = λ s p. attempted (m s) (h.run s p) }

-- A `persist` whose result is looked at: a failure has changed nothing.
module _ {W : Type 0} {G : State → Type 0} {s₀ : State} {C : Type 0} {Q : C → State → Type 0} where
  stored_then :
      (next : State) (f : Result InfrastructureError ⊤ → Infra W C)
      → Leads next G Q (f (ok tt))
      → ((e : InfrastructureError) → Leads s₀ G Q (f (err e)))
      → (r : Result ⊤ ⊤) (s : InfrastructureService W) → s.state ≡ s₀
      → Post
          (λ c. On (Q c))
          (On G)
          (and_then
            (attempt
              (λ t.
                and_then (failing (λ e. InfrastructureError.journal) r, t) (λ done. set_state next))
              s)
            f)
  unfolding set_state attempt
  stored_then next f hk he (ok done) s p = hk.run _ record { held = refl }
  stored_then next f hk he (err e) s p = (he InfrastructureError.journal).run s record { held = p }

  pub Leads-stored :
      ⦃infra : Infrastructure W⦄ (next : State) (f : Result InfrastructureError ⊤ → Infra W C)
      → Leads next G Q (f (ok tt))
      → ((e : InfrastructureError) → Leads s₀ G Q (f (err e)))
      → Leads s₀ G Q (attempt (persist next) >>= f)
  unfolding persist from_world set_state attempt ◌>>◌ ◌>>=◌
  Leads-stored ⦃infra = infra⦄ next f hk he = record {
    run = λ s p. stored_then next f hk he (infra.store next s.world).0 _ p.held;
  }

-- The record of the owner is the record that there is.
owned_post :
    {W : Type 0} {G : State → Type 0} {s₀ : State} {C : Type 0} {Q : C → State → Type 0}
    ⦃infra : Infrastructure W⦄
    → (f : ForwardRecord) (k : ForwardRecord → Infra W C) (refused : Bool) (e : InfrastructureError)
    → G s₀
    → Leads s₀ G Q (k f)
    → (s : InfrastructureService W) → On (Is s₀) s
    → Post (λ c. On (Q c)) (On G) (and_then ((raise_if refused e >> pure f) s) k)
unfolding raise_if pure raise ◌>>◌ ◌>>=◌
owned_post f k true e g h s p = at_state g s p
owned_post f k false e g h s p = h.run s p

module _ {W : Type 0} {G : State → Type 0} {s₀ : State} {C : Type 0} {Q : C → State → Type 0} where
  pub Leads-same_owner :
      ⦃infra : Infrastructure W⦄ (o : Option ForwardRecord) (owner : ForwardOwner)
      {f : ForwardRecord → Infra W C}
      → G s₀
      → ((a : ForwardRecord) → o ≡ some a → Leads s₀ G Q (f a))
      → Leads s₀ G Q (same_owner o owner >>= f)
  unfolding same_owner or_raise raise pure ◌>>=◌
  Leads-same_owner none owner g hf = record { run = λ s p. at_state g s p }
  Leads-same_owner (some a) owner {f} g hf = record {
    run = λ s p. owned_post a f _ _ g (hf a refl) s p;
  }

-- What a handler of `process` leaves: a state that holds, and one that holds if it is to be stored.
abbrev pub Ends : (State → Type 0) → Outcome → State → Type 0
Ends G (answered body descriptor) s = G s
Ends G (changed next) s = G s × G next

module _ {W : Type 0} {G : State → Type 0} {s₀ : State} where
  pub Leads-answered :
      (b : Body) (fd : Option ℕ) → G s₀ → Leads {W = W} s₀ G (Ends G) (pure (answered b fd))
  Leads-answered b fd g = Leads-pure _ g

  pub Leads-changed :
      (next : State) → G s₀ → G next → Leads {W = W} s₀ G (Ends G) (pure (changed next))
  Leads-changed next g h = Leads-pure _ (g, h)

module _ {W : Type 0} {G : State → Type 0} where
  pub then_answered :
      (b : Body) (fd : Option ℕ)
      → Triple {E = InfrastructureError}
          (On {W = W} G)
          (pure (answered b fd))
          (λ o. On (Ends G o))
          (On G)
  then_answered b fd = from_each λ s h. Leads-answered b fd h

module _ {W : Type 0} {G : State → Type 0} {s₀ : State} {C : Type 0} {Q : C → State → Type 0} where
  -- What holds from every state of `G` holds from this one.
  pub Leads-from :
      {m : Infra W C} → G s₀ → Triple (On {W = W} G) m (λ c. On (Q c)) (On G) → Leads s₀ G Q m
  Leads-from g t = weaken (λ s p. at_state g s p) (λ c s p. p) (λ s p. p) t

-- The rules that follow the state
pub ruleset leading = (
  Leads-the_state, Leads-same_owner, Leads-or_raise, Leads-unwrap, Leads-raise_if, Leads-if,
  Leads-persist, Leads-persist_seq, Leads-bind, Leads-seq, Leads-answered, Leads-changed,
  Leads-pure, Leads-raise,
)
