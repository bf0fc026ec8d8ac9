-- ===== src/Netd/V2/Repair.antt =====
-- What the requests about the infrastructure in linux/common/apps/candy-netd/src/v2.rs leave in the
-- durable state.
use candy_runtime.Prelude.{ℕ, ◌<◌, false, List, Option, none, some, ◌≡◌, refl, arith, ok}
use mathlib.Core.Path.{subst, sym}
use candy_runtime.Prelude.Methods.Triple.{Triple, Keeps, weaken, keep_seq, Triple-success}
use candy_runtime.Proto.V2.{Request, active}
use candy_runtime.Netd.V2.State.{
  State, ForwardRecord, PendingPolicy, IoOwner, in_phase, is_loadable, is_loadable_record,
  valid_pending_policy, all_some, Phase-discrete,
}
use candy_runtime.Netd.V2.Service.{Infrastructure, InfrastructureService}
use candy_runtime.Netd.V2.Rules.{
  On, steps, Keeps-complete_creation, Keeps-from_world, Keeps-any_io_owner_alive, Keeps-identity,
  Keeps-the_lifecycle_fd,
}
use candy_runtime.Netd.V2.Leads.{
  Is, Leads-bind, Leads-seq, Leads-the_state, Leads-unwrap, Leads-pure, Leads-raise_if,
  Leads-persist_seq,
}
use candy_runtime.Netd.V2.Steps.{
  Keeps-fence_lost, Keeps-hold_lifecycle_fd, Keeps-process_start_ticks,
}
use candy_runtime.Netd.V2.Settled.{Anything}
use candy_runtime.Netd.V2.Infra.{
  Outcome, repair_interface, repair_intent, revoked_phase, infra_acquire_io_fd, with_io_owner,
}
use candy_runtime.Netd.V2.Device.{complete_creation}

-- A policy intent stands beside a revoked record.
abbrev HasStaleIntent : Option ForwardRecord → Type 0
HasStaleIntent none = ⊥
HasStaleIntent (some f) =
    (p : PendingPolicy) × ((f.pending_policy ≡ some p) × (in_phase active f ≡ false))

abbrev Stale : State → Type 0
Stale s = HasStaleIntent s.forward

policy_refused :
    (s : State) (f : ForwardRecord) (p : PendingPolicy)
    → in_phase active f ≡ false
    → valid_pending_policy s f (some p) ≡ false
policy_refused s f p h = rw h (ground arith)

record_refused :
    (s : State) (f : ForwardRecord) (p : PendingPolicy)
    → f.pending_policy ≡ some p
    → in_phase active f ≡ false
    → is_loadable_record s f ≡ false
unfolding is_loadable_record
record_refused s f p e h =
    let refused =
      subst (λ o. valid_pending_policy s f o ≡ false) (sym e) (policy_refused s f p h) in
    simp refused (ground arith)

all_refused :
    (s : State) (o : Option ForwardRecord)
    → HasStaleIntent o
    → all_some (is_loadable_record s) o ≡ false
all_refused s none h = elim h [ ]
all_refused s (some f) h = record_refused s f h.0 h.1.0 h.1.1

-- Such a state is not loaded.
Stale-unloadable : (s : State) → Stale s → is_loadable s ≡ false
unfolding is_loadable
Stale-unloadable s h = rw (all_refused s s.forward h) (ground arith)

revoked_intent :
    (o : Option ForwardRecord) (f : ForwardRecord) (p : PendingPolicy)
    → o ≡ some f
    → f.pending_policy ≡ some p
    → HasStaleIntent (revoked_phase o)
unfolding Phase-discrete
revoked_intent o f p e h = subst (λ q. HasStaleIntent (revoked_phase q)) (sym e) (p, (h, refl))

-- The owner is the process of the request, in the epoch `e`.
abbrev IsHeldBy : Request → ℕ → Option IoOwner → Type 0
IsHeldBy request e none = ⊥
IsHeldBy request e (some owner) =
    (owner.io_epoch ≡ e)
    × ((owner.pid ≡ request.caller_pid) × (owner.instance_id ≡ request.caller_instance_id))

abbrev pub Acquired : State → Request → ℕ → State → Type 0
Acquired s request e t =
    (s.last_io_epoch < e)
    × ((t.last_io_epoch ≡ e)
        × (IsHeldBy request e t.io_owner × ((t.forward ≡ s.forward) × (t.candidate ≡ s.candidate))))

module _ {W : Type 0} ⦃infra : Infrastructure W⦄ where
  Keeps-Stale_creation : Keeps (On {W = W} Stale) complete_creation
  Keeps-Stale_creation = Keeps-complete_creation λ s i b h. h

  repaired-Stale :
      (s : State) (f : ForwardRecord) (p : PendingPolicy)
      → s.forward ≡ some f
      → f.pending_policy ≡ some p
      → Triple (On {W = W} (Is s)) (repair_interface s) (λ o. On Stale) (On Anything)
  unfolding repair_interface repair_intent
  repaired-Stale s f p e h = Leads-bind tt (Keeps-any_io_owner_alive s.io_owner) λ alive.
      Leads-raise_if _ _ tt λ dead. Leads-seq tt (Keeps-fence_lost s.forward) (
        Leads-bind tt (Keeps-from_world _ _) λ marker.
          Leads-bind tt (Keeps-from_world _ _) λ boot_id. Leads-persist_seq tt (
            weaken
              (λ t q. record { held = subst Stale (sym q.held) (revoked_intent s.forward f p e h) })
              (λ o t q. q) (λ t q. record { held = tt })
              (keep_seq Keeps-Stale_creation (search steps depth 12))))

  -- The repair of a lost interface, where the retained record has a policy intent: a success ends in a
  -- state that the checks of `load` do not accept.
  pub repair_interface_unloadable :
      (s t : InfrastructureService W) (o : Outcome) (f : ForwardRecord) (p : PendingPolicy)
      → s.state.forward ≡ some f
      → f.pending_policy ≡ some p
      → repair_interface s.state s ≡ (ok o, t)
      → is_loadable t.state ≡ false
  repair_interface_unloadable s t o f p e h run =
      Stale-unloadable t.state
        (Triple-success (repaired-Stale s.state f p e h) s record { held = refl } run).held

  acquired :
      (s : State) (request : Request) (i : List ℕ) (g e : ℕ)
      → Triple
          (On {W = W} (Is s))
          (infra_acquire_io_fd request i g e s)
          (λ o. On (Acquired s request e))
          (On Anything)
  unfolding infra_acquire_io_fd with_io_owner
  acquired s request i g e = Leads-bind tt (Keeps-identity i g) λ spec.
      Leads-bind tt (Keeps-any_io_owner_alive s.io_owner) λ alive. Leads-raise_if _ _ tt λ dead.
        Leads-raise_if _ _ tt λ fresh. Leads-bind tt Keeps-the_lifecycle_fd λ held.
          Leads-bind tt (Keeps-hold_lifecycle_fd held) λ fd.
            Leads-bind tt (Keeps-from_world _ _) λ descriptor.
              Leads-bind tt (Keeps-from_world _ _) λ boot_id.
                Leads-bind tt (Keeps-process_start_ticks request.caller_pid) λ ticks.
                  Leads-persist_seq tt (
                    Leads-the_state _
                      (Leads-unwrap _ tt λ ifindex p. Leads-pure _ (ground (arith, fresh))))

  -- A request for the I/O descriptor that succeeds has an epoch above the last one, which becomes the
  -- last one; the I/O owner is the process of the caller in that epoch; the retained record and the
  -- candidate are as before.
  pub infra_acquire_io_fd-advances :
      (request : Request) (i : List ℕ) (g e : ℕ) (s t : InfrastructureService W) (o : Outcome)
      → infra_acquire_io_fd request i g e s.state s ≡ (ok o, t)
      → Acquired s.state request e t.state
  infra_acquire_io_fd-advances request i g e s t o run =
      (Triple-success (acquired s.state request i g e) s record { held = refl } run).held
