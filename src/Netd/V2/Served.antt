-- ===== src/Netd/V2/Served.antt =====
-- `process` of linux/common/apps/candy-netd/src/v2.rs keeps the fencing tokens, whatever the request.
use candy_runtime.Prelude.{ℕ, Bool, true, false, List, Option, none, some, ◌≡◌, refl, arith}
use candy_runtime.Prelude.Methods.{◌>>◌}
use candy_runtime.Prelude.Methods.Triple.{
  Triple, Keeps, bind_rule, keep_branch, keep_pure, keep_bind, keep_seq, keep_raise_if, Keeps-ends,
}
use candy_runtime.Proto.V2.{
  InfraSpec, Request, Operation, in_domain, infra_ensure, infra_acquire_io_fd, infra_release_io,
  infra_retire, forward_prepare, forward_commit, forward_authorize, forward_commit_authorized,
  forward_revoke, forward_guard, forward_lease_renew, forward_failed_prefixes,
  forward_policy_update,
}
use candy_runtime.Proto.V2.Operation.{capabilities, infra_status, forward_status}
use candy_runtime.Netd.V2.State.{State}
use candy_runtime.Netd.V2.Service.{Infrastructure, InfrastructureService}
use candy_runtime.Netd.V2.Rules.{
  On, calls, Keeps-complete_creation, Keeps-from_world, Keeps-administrator, Keeps-identity,
  Keeps-any_io_owner_alive, Keeps-the_lifecycle_fd, Keeps-set_lifecycle_fd, Keeps-same_namespace,
}
use candy_runtime.Netd.V2.Leads.{
  Leads, Leads-bind, Leads-seq, Leads-the_state, Leads-unwrap, Leads-raise_if, Leads-raise,
  Leads-persist_seq, from_each, keep_then,
}
use candy_runtime.Netd.V2.Endings.{Ends, leading, Leads-stored, Leads-answered, Leads-from}
use candy_runtime.Netd.V2.Fencing.{IsFenced, creation_IsFenced}
use candy_runtime.Netd.V2.Tokens.{
  repair_intent-IsFenced, creation_intent-IsFenced, with_io_owner-IsFenced,
  without_io_owner_IsFenced, default-IsFenced,
}
use candy_runtime.Netd.V2.Fenced.{recover_expired-IsFenced}
use candy_runtime.Netd.V2.Handlers.{forward_prepare-IsFenced, forward_authorize-IsFenced}
use candy_runtime.Netd.V2.Live
use candy_runtime.Netd.V2.Updates
use candy_runtime.Netd.V2.Infra.{Outcome, answered, changed}
use candy_runtime.Netd.V2.Infra
use candy_runtime.Netd.V2.Process
use candy_runtime.Netd.V2.Forward
use candy_runtime.Netd.V2.Process.{Peer}
use candy_runtime.Netd.V2.Steps.{
  Keeps-fence_lost, Keeps-hold_lifecycle_fd, Keeps-process_start_ticks, Keeps-may_release,
  Keeps-retire_revoked, Keeps-check_peer, Keeps-check_commit, Keeps-after_store,
}
use candy_runtime.Netd.V2.Device

abbrev pub is_retire : Operation → Bool
is_retire (infra_retire i g) = true
is_retire _ = false

normalized_retire :
    {n : ℕ} (o : Operation)
    → (is_retire o ≡ true → n ≡ 0)
    → is_retire (Process.normalized o) ≡ true
    → n ≡ 0
normalized_retire o z h = ground (arith, z)

module _ {W : Type 0} ⦃infra : Infrastructure W⦄ {n : ℕ} where
  Keeps-creation : Keeps (On {W = W} (IsFenced n)) Device.complete_creation
  Keeps-creation = Keeps-complete_creation λ s i b h. creation_IsFenced i b h

  repair_interface-IsFenced :
      (s : State)
      → IsFenced n s
      → Leads {W = W} s (IsFenced n) (Ends (IsFenced n)) (Infra.repair_interface s)
  unfolding Infra.repair_interface
  repair_interface-IsFenced s h = Leads-bind h (Keeps-any_io_owner_alive s.io_owner) λ alive.
      Leads-raise_if _ _ h λ dead. Leads-seq h (Keeps-fence_lost s.forward) (
        Leads-bind h (Keeps-from_world _ _) λ marker. Leads-bind h (Keeps-from_world _ _) λ boot_id.
          Leads-persist_seq h (
            Leads-from (repair_intent-IsFenced s marker boot_id h) (
              keep_then Keeps-creation (
                from_each
                  λ t g. Leads-the_state _ (Leads-unwrap _ g λ ifindex e. Leads-answered _ _ g)))))

  ensure_beside-IsFenced :
      (s : State) (o : Option InfraSpec) (request : Request) (spec : InfraSpec)
      → IsFenced n s
      → Leads {W = W} s (IsFenced n) (Ends (IsFenced n)) (Infra.ensure_beside o request spec s)
  unfolding Infra.ensure_beside ◌>>◌
  ensure_beside-IsFenced s (some existing) request spec h =
      search (leading, calls, repair_interface-IsFenced) depth 40
  ensure_beside-IsFenced s none request spec h = Leads-bind h (Keeps-from_world _ _) λ present.
      Leads-raise_if _ _ h λ absent. Leads-bind h (Keeps-from_world _ _) λ marker.
        Leads-bind h (Keeps-from_world _ _) λ boot_id. Leads-persist_seq h (
          Leads-from (creation_intent-IsFenced s spec request.caller_instance_id marker boot_id h)
            (keep_then Keeps-creation (from_each λ t g. Leads-the_state _ (Leads-answered _ _ g))))

  infra_acquire_io_fd-IsFenced :
      (s : State) (request : Request) (i : List ℕ) (g e : ℕ)
      → IsFenced n s
      → Leads {W = W} s (IsFenced n) (Ends (IsFenced n)) (Infra.infra_acquire_io_fd request i g e s)
  unfolding Infra.infra_acquire_io_fd
  infra_acquire_io_fd-IsFenced s request i g e h = Leads-bind h (Keeps-identity i g) λ spec.
      Leads-bind h (Keeps-any_io_owner_alive s.io_owner) λ alive. Leads-raise_if _ _ h λ dead.
        Leads-raise_if _ _ h λ fresh. Leads-bind h Keeps-the_lifecycle_fd λ held.
          Leads-bind h (Keeps-hold_lifecycle_fd held) λ fd.
            Leads-bind h (Keeps-from_world _ _) λ descriptor.
              Leads-bind h (Keeps-from_world _ _) λ boot_id.
                Leads-bind h (Keeps-process_start_ticks request.caller_pid) λ ticks.
                  Leads-persist_seq h (
                    Leads-from (with_io_owner-IsFenced s _ h) (
                      from_each λ t g.
                        Leads-the_state _ (Leads-unwrap _ g λ ifindex e. Leads-answered _ _ g)))

  infra_release_io-IsFenced :
      (s : State) (request : Request) (i : List ℕ) (g e : ℕ)
      → IsFenced n s
      → Leads {W = W} s (IsFenced n) (Ends (IsFenced n)) (Infra.infra_release_io request i g e s)
  unfolding Infra.infra_release_io
  infra_release_io-IsFenced s request i g e h =
      search (leading, calls, Keeps-may_release, without_io_owner_IsFenced) depth 40

  infra_retire-IsFenced :
      (s : State) (request : Request) (i : List ℕ) (g : ℕ)
      → IsFenced n s
      → n ≡ 0
      → Leads {W = W} s (IsFenced n) (Ends (IsFenced n)) (Infra.infra_retire request i g s)
  unfolding Infra.infra_retire ◌>>◌
  infra_retire-IsFenced s request i g h z = Leads-seq h (Keeps-administrator request) (
      Leads-bind h (Keeps-identity i g) λ spec.
        Leads-bind h (Keeps-any_io_owner_alive s.io_owner) λ alive. Leads-raise_if _ _ h λ dead.
          Leads-seq h (Keeps-retire_revoked s.forward s) (
            Leads-seq h (Keeps-from_world _ _) (
              Leads-seq h (Keeps-set_lifecycle_fd none)
                (Leads-persist_seq h (Leads-answered _ _ (default-IsFenced z))))))

  dispatch-IsFenced :
      (s : State) (request : Request) (o : Operation) (b : Bool) (now : ℕ)
      → IsFenced n s
      → (is_retire o ≡ true → n ≡ 0)
      → Leads {W = W} s (IsFenced n) (Ends (IsFenced n)) (Process.dispatch request o b s now)
  unfolding Process.dispatch Infra.infra_ensure Forward.status_answer ◌>>◌
  dispatch-IsFenced s request (in_domain i d o) b now h z = Leads-raise _ h
  dispatch-IsFenced s request capabilities b now h z = Leads-raise _ h
  dispatch-IsFenced s request (forward_commit_authorized o r) b now h z = Leads-raise _ h
  dispatch-IsFenced s request infra_status b now h z = Leads-answered _ _ h
  dispatch-IsFenced s request (infra_ensure spec) b now h z =
      Leads-seq h (Keeps-same_namespace spec) (ensure_beside-IsFenced s s.spec request spec h)
  dispatch-IsFenced s request (infra_acquire_io_fd i g e) b now h z =
      infra_acquire_io_fd-IsFenced s request i g e h
  dispatch-IsFenced s request (infra_release_io i g e) b now h z =
      infra_release_io-IsFenced s request i g e h
  dispatch-IsFenced s request (infra_retire i g) b now h z =
      infra_retire-IsFenced s request i g h (z refl)
  dispatch-IsFenced s request (forward_prepare i g o d) b now h z =
      forward_prepare-IsFenced s request i g o d now h
  dispatch-IsFenced s request (forward_authorize o a) b now h z =
      forward_authorize-IsFenced s request o a now h
  dispatch-IsFenced s request (forward_commit o) b now h z =
      Live.forward_commit-IsFenced s request o b now h
  dispatch-IsFenced s request (forward_guard o) b now h z =
      Live.forward_guard-IsFenced s request o now h
  dispatch-IsFenced s request (forward_revoke o) b now h z =
      Live.forward_revoke-IsFenced s request o now h
  dispatch-IsFenced s request (forward_lease_renew o) b now h z =
      Live.forward_lease_renew-IsFenced s request o now h
  dispatch-IsFenced s request (forward_failed_prefixes o r f) b now h z =
      Updates.forward_failed_prefixes-IsFenced s request o r f now h
  dispatch-IsFenced s request (forward_policy_update o r g x d) b now h z =
      Updates.forward_policy_update-IsFenced s request o _ now h
  dispatch-IsFenced s request forward_status b now h z = Leads-answered _ _ h

  conclude-IsFenced :
      (o : Outcome)
      → Triple
          (On {W = W} (Ends (IsFenced n) o))
          (Process.conclude o)
          (λ _. On (IsFenced n))
          (On (IsFenced n))
  unfolding Process.conclude
  conclude-IsFenced (answered body fd) = keep_pure _
  conclude-IsFenced (changed next) = record {
    run = λ s p.
        (Leads-stored next Process.after_store (Leads-from p.held.1 (Keeps-after_store _))
            (λ e. Leads-from p.held.0 (Keeps-after_store _))).run
          s record { held = refl };
  }

  process_authorized-IsFenced :
      (request : Request) (now : ℕ)
      → (is_retire (Process.normalized request.operation) ≡ true → n ≡ 0)
      → Keeps (On {W = W} (IsFenced n)) (Process.process_authorized request now)
  unfolding Process.process_authorized
  process_authorized-IsFenced request now z = keep_bind (recover_expired-IsFenced now) λ recovered.
      keep_seq (Keeps-check_commit request request.operation now) (
        from_each λ s h. Leads-the_state _ (
          Leads-raise_if _ _ h λ a.
            Leads-raise_if _ _ h
              λ b. bind_rule (dispatch-IsFenced s request _ _ now h z) λ o. conclude-IsFenced o))

  served :
      (request : Request) (peer : Peer) (now : ℕ)
      → (is_retire request.operation ≡ true → n ≡ 0)
      → Keeps (On {W = W} (IsFenced n)) (Process.process request peer now)
  unfolding Process.process ◌>>◌
  served request peer now z = keep_seq (keep_raise_if _ _) (
      keep_seq (Keeps-check_peer request peer) (
        keep_branch _ (keep_pure _)
          (process_authorized-IsFenced request now (normalized_retire request.operation z))))

  -- If the tokens of the state are fenced and the last one is at least `n`, this holds of the state
  -- behind every request too, whether it succeeds or fails; for a request that retires the
  -- infrastructure, with `n` 0. Fenced: no owner has a token above the last one, an owner in
  -- preparation has the last one, and without a record the last one is 0.
  pub process-IsFenced :
      (request : Request) (peer : Peer) (now : ℕ) (s : InfrastructureService W)
      → (is_retire request.operation ≡ true → n ≡ 0)
      → IsFenced n s.state
      → IsFenced n (Process.process request peer now s).1.state
  process-IsFenced request peer now s z h =
      (Keeps-ends (served request peer now z) s record { held = h }).held
