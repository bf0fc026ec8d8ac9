-- ===== src/Netd/V2/Authority.antt =====
-- Who may change the forwarding: `administrator` in linux/common/apps/candy-netd/src/v2.rs.
use candy_runtime.Prelude.{
  same-true, ℕ, Bool, true, false, not, List, Option, some, ◌≡◌, refl, arith, Result, ok, err, same,
}
use mathlib.Core.Path.{sym, ◌∙◌}
use candy_runtime.Prelude.Methods.{◌>>◌, raise_if, raise}
use candy_runtime.Prelude.Methods.Triple.{
  Triple, Keeps, Post, bind_rule, seq_rule, weaken, Triple-success, if_rule, keep_raise_if,
}
use candy_runtime.Proto.V2.{
  Request, Operation, Body, in_domain, infra_ensure, infra_acquire_io_fd, infra_retire,
  infra_release_io, forward_prepare, forward_commit, forward_authorize, forward_commit_authorized,
  forward_revoke, forward_guard, forward_lease_renew, forward_failed_prefixes,
  forward_policy_update,
}
use candy_runtime.Proto.V2.Operation.{capabilities, infra_status, forward_status}
use candy_runtime.Netd.V2.State.{State, Text-discrete}
use candy_runtime.Netd.V2.Service.{
  Infra, Infrastructure, InfrastructureError, InfrastructureService, rejected, infra_owner_conflict,
}
use candy_runtime.Netd.V2.Rules.{On, Keeps-identity}
use candy_runtime.Netd.V2.Leads.{Leads, Leads-bind, Leads-the_state, Leads-raise_if, Leads-raise}
use candy_runtime.Netd.V2.Settled.{Anything}
use candy_runtime.Netd.V2.Steps.{Keeps-check_peer, Keeps-check_commit}
use candy_runtime.Netd.V2.Process.{
  Peer, process, process_authorized, dispatch, conclude, normalized, is_capabilities,
}
use candy_runtime.Netd.V2.Infra
use candy_runtime.Netd.V2.Prepare
use candy_runtime.Netd.V2.Commit
use candy_runtime.Netd.V2.Forward
use candy_runtime.Netd.V2.Administered.{Of, recover_expired-Of}
use candy_runtime.Netd.V2.Device

-- The requests that only the administrator may make
abbrev pub needs_administrator : Operation → Bool
needs_administrator (infra_release_io i g e) = true
needs_administrator (infra_retire i g) = true
needs_administrator (forward_prepare i g o d) = true
needs_administrator (forward_authorize o a) = true
needs_administrator (forward_commit o) = true
needs_administrator (forward_commit_authorized o r) = true
needs_administrator (forward_guard o) = true
needs_administrator (forward_revoke o) = true
needs_administrator (forward_lease_renew o) = true
needs_administrator (forward_failed_prefixes o r f) = true
needs_administrator (forward_policy_update o r g h d) = true
needs_administrator _ = false

normalized_needs :
    (o : Operation) → needs_administrator o ≡ true → needs_administrator (normalized o) ≡ true
normalized_needs o h = ground arith

-- A fact that does not depend on the state.
abbrev Fact : {A : Type 0} → Type 0 → A → State → Type 0
Fact F a s = F

facts :
    {W A F : Type 0} (p : Result InfrastructureError A × InfrastructureService W)
    → F
    → Post (λ a. On (Fact F a)) (On Anything) p
facts (ok a, s) f = record { held = f }
facts (err e, s) f = record { held = tt }

known :
    {W A F : Type 0} {P : InfrastructureService W → Type 0} (m : Infra W A)
    → F
    → Triple P m (λ a. On (Fact F a)) (On Anything)
known m f = record { run = λ s p. facts (m s) f }

not_capabilities : (o : Operation) → needs_administrator o ≡ true → is_capabilities o ≡ false
not_capabilities o h = ground arith

module _ {W A : Type 0} {G : State → Type 0} where
  anyway :
      {m : Infra W A} → Keeps (On {W = W} G) m → Triple (On {W = W} G) m (λ _. On G) (On Anything)
  anyway t = weaken (λ s p. p) (λ c s p. p) (λ s p. record { held = tt }) t

  from_any :
      {R : State → Type 0} {Q : A → State → Type 0} {m : Infra W A}
      → ((s₀ : State) → G s₀ → Leads s₀ R Q m)
      → Triple (On {W = W} G) m (λ c. On (Q c)) (On R)
  from_any h = record { run = λ s p. (h s.state p.held).run s record { held = refl } }

module _ {W : Type 0} ⦃infra : Infrastructure W⦄ where
  -- Behind `administrator` the caller is the administrator.
  authorized_first :
      {A : Type 0} (s : State) (request : Request) (k : Infra W A)
      → Leads s Anything
          (Fact (s.administrator ≡ some request.caller_instance_id))
          (Device.administrator request >> k)
  unfolding Device.administrator raise_if raise
  authorized_first s request k =
      seq_rule {M = On (Fact (s.administrator ≡ some request.caller_instance_id) tt)}
        (Leads-the_state _ (
          weaken (λ t p. p) (λ t u p. p) (λ t p. p)
            (checked (same Text-discrete s.administrator (some request.caller_instance_id)) s
              request refl)))
        record { run = λ t p. facts (k t) p.held }
    where
      checked :
          (b : Bool) (s : State) (request : Request)
          → same Text-discrete s.administrator (some request.caller_instance_id) ≡ b
          → Leads {W = W} s Anything
              (Fact (s.administrator ≡ some request.caller_instance_id))
              (raise_if (not b) (rejected infra_owner_conflict))
      checked true s request e = known _ (same-true Text-discrete _ _ e)
      checked false s request e = Leads-raise _ tt

  authorized_dispatch :
      (s : State) (request : Request) (o : Operation) (b : Bool) (now : ℕ)
      → needs_administrator o ≡ true
      → Leads {W = W} s Anything
          (Fact (s.administrator ≡ some request.caller_instance_id))
          (dispatch request o b s now)
  unfolding dispatch Infra.infra_release_io Infra.infra_retire Prepare.forward_prepare
      Prepare.forward_authorize Commit.forward_commit Forward.forward_guard Forward.forward_revoke
      Forward.forward_lease_renew Forward.forward_failed_prefixes Forward.forward_policy_update
  authorized_dispatch s request (infra_release_io i g e) b now h =
      Leads-bind tt (Keeps-identity i g) λ spec. authorized_first s request _
  authorized_dispatch s request (infra_retire i g) b now h = authorized_first s request _
  authorized_dispatch s request (forward_prepare i g o d) b now h = authorized_first s request _
  authorized_dispatch s request (forward_authorize o a) b now h = authorized_first s request _
  authorized_dispatch s request (forward_commit o) b now h = authorized_first s request _
  authorized_dispatch s request (forward_commit_authorized o r) b now h = Leads-raise _ tt
  authorized_dispatch s request (forward_guard o) b now h = authorized_first s request _
  authorized_dispatch s request (forward_revoke o) b now h = authorized_first s request _
  authorized_dispatch s request (forward_lease_renew o) b now h = authorized_first s request _
  authorized_dispatch s request (forward_failed_prefixes o r f) b now h =
      authorized_first s request _
  authorized_dispatch s request (forward_policy_update o r g x d) b now h =
      authorized_first s request _
  authorized_dispatch s request capabilities b now h = known _ (ground arith)
  authorized_dispatch s request (in_domain i d o) b now h = known _ (ground arith)
  authorized_dispatch s request (infra_ensure spec) b now h = known _ (ground arith)
  authorized_dispatch s request infra_status b now h = known _ (ground arith)
  authorized_dispatch s request (infra_acquire_io_fd i g e) b now h = known _ (ground arith)
  authorized_dispatch s request forward_status b now h = known _ (ground arith)

  dispatched :
      (a : Option (List ℕ)) (request : Request) (now : ℕ)
      → needs_administrator request.operation ≡ true
      → Triple
          (On {W = W} (Of a))
          (process_authorized request now)
          (λ r. On (Fact (a ≡ some request.caller_instance_id) r))
          (On Anything)
  unfolding process_authorized
  dispatched a request now h = bind_rule (anyway (recover_expired-Of a now)) λ recovered.
      seq_rule (anyway (Keeps-check_commit request request.operation now)) (
        from_any λ s g. Leads-the_state _ (
          Leads-raise_if _ _ tt λ b. Leads-raise_if _ _ tt λ c.
            bind_rule (authorized_dispatch s request _ _ now (normalized_needs request.operation h))
              λ o. record { run = λ t p. facts (conclude o t) (sym g ∙ p.held) }))

  administered :
      (a : Option (List ℕ)) (request : Request) (peer : Peer) (now : ℕ)
      → needs_administrator request.operation ≡ true
      → Triple
          (On {W = W} (Of a))
          (process request peer now)
          (λ r. On (Fact (a ≡ some request.caller_instance_id) r))
          (On Anything)
  unfolding process ◌>>◌
  administered a request peer now h = seq_rule (anyway (keep_raise_if _ _)) (
      seq_rule (anyway (Keeps-check_peer request peer)) (
        if_rule (is_capabilities request.operation)
          (λ b. known _ (ground (arith, not_capabilities request.operation h)))
          (λ b. dispatched a request now h)))

  -- A request to release the I/O owner, to retire the infrastructure or to change the forwarding that
  -- succeeds names as its caller the administrator of the state before the request.
  pub process_administrator :
      (request : Request) (peer : Peer) (now : ℕ) (s t : InfrastructureService W)
      (r : Body × Option ℕ)
      → needs_administrator request.operation ≡ true
      → process request peer now s ≡ (ok r, t)
      → s.state.administrator ≡ some request.caller_instance_id
  process_administrator request peer now s t r h e =
      (Triple-success (administered s.state.administrator request peer now h) s
        record { held = refl } e).held
