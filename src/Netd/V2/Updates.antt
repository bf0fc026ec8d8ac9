-- ===== src/Netd/V2/Updates.antt =====
-- The updates of failed prefixes and of a policy in linux/common/apps/candy-netd/src/v2.rs keep the fencing
-- tokens.
use candy_runtime.Prelude.{same, ◌==◌, ℕ, Bool, List, some, ◌≡◌, refl, if◌then◌else◌}
use candy_runtime.Prelude.Methods.{◌>>◌}
use candy_runtime.Proto.Prefix.{Ipv4Prefix}
use candy_runtime.Proto.V2.{ForwardOwner, Request, prepared}
use candy_runtime.Netd.V2.State.{State, ForwardRecord, PendingPolicy, in_phase, Prefixes-discrete}
use candy_runtime.Netd.V2.Service.{Infrastructure}
use candy_runtime.Netd.V2.Rules.{
  calls, Keeps-from_world, Keeps-administrator, Keeps-ensure_live, Keeps-identity,
}
use candy_runtime.Netd.V2.Leads.{
  Leads, Leads-bind, Leads-seq, Leads-or_raise, Leads-unwrap, Leads-raise_if, Leads-persist_seq,
  Leads-then_seq, Leads-if,
}
use candy_runtime.Netd.V2.Endings.{Ends, leading, Leads-answered, then_answered, Leads-same_owner}
use candy_runtime.Netd.V2.Fencing.{IsFenced, same_phase_IsFenced}
use candy_runtime.Netd.V2.Tokens.{with_current-IsFenced}
use candy_runtime.Netd.V2.Fenced.{reconcile-IsFenced}
use candy_runtime.Netd.V2.Forward
use candy_runtime.Netd.V2.Recovery

module _ {W : Type 0} ⦃infra : Infrastructure W⦄ {n : ℕ} where
  publish_failures-IsFenced :
      (s : State) (b : Bool) (f : ForwardRecord) (revision : ℕ) (target : List Ipv4Prefix)
      → IsFenced n s
      → (if b then s.candidate else s.forward) ≡ some f
      → Leads {W = W} s
          (IsFenced n)
          (Ends (IsFenced n))
          (Forward.publish_failures f s b revision target)
  unfolding Forward.publish_failures Recovery.repaired_failures
  publish_failures-IsFenced s b f revision target h e =
      let intent = with_current-IsFenced s b f _ h e refl refl in
      Leads-persist_seq h (
        Leads-seq intent (Keeps-from_world _ _) (
          Leads-unwrap _ intent λ g e'.
            Leads-persist_seq intent
              (Leads-answered _ _ (same_phase_IsFenced g _ intent e' refl refl))))

  apply_failures-IsFenced :
      (s : State) (b : Bool) (f : ForwardRecord) (revision : ℕ) (target : List Ipv4Prefix)
      → IsFenced n s
      → (if b then s.candidate else s.forward) ≡ some f
      → Leads {W = W} s
          (IsFenced n)
          (Ends (IsFenced n))
          (Forward.apply_failures f s b revision target)
  unfolding Forward.apply_failures
  apply_failures-IsFenced s b f revision target h e =
      Leads-if (in_phase prepared f)
        (λ p.
          Leads-persist_seq h (Leads-answered _ _ (with_current-IsFenced s b f _ h e refl refl)))
        (λ p. Leads-raise_if _ _ h λ a.
          Leads-if (same Prefixes-discrete f.failed_prefixes target)
            (λ q.
              Leads-persist_seq h
                (Leads-answered _ _ (with_current-IsFenced s b f _ h e refl refl)))
            (λ q. publish_failures-IsFenced s b f revision target h e))

  pub forward_failed_prefixes-IsFenced :
      (s : State) (request : Request) (owner : ForwardOwner) (revision : ℕ)
      (failed : List Ipv4Prefix) (now : ℕ)
      → IsFenced n s
      → Leads {W = W} s
          (IsFenced n)
          (Ends (IsFenced n))
          (Forward.forward_failed_prefixes request owner revision failed s now)
  unfolding Forward.forward_failed_prefixes ◌>>◌
  forward_failed_prefixes-IsFenced s request owner revision failed now h =
      Leads-seq h (Keeps-administrator request) (
        Leads-seq h (Keeps-ensure_live owner now) (
          Leads-or_raise _ _ h λ spec p. Leads-bind h (Keeps-identity _ _) λ retained.
            Leads-same_owner _ _ h λ f e. Leads-raise_if _ _ h λ valid.
              Leads-raise_if _ _ h λ fresh. Leads-raise_if _ _ h λ idle.
                Leads-if (revision == Forward.latest_revision f) (λ q. Leads-answered _ _ h)
                  (λ q. apply_failures-IsFenced s _ f revision _ h e)))

  apply_policy-IsFenced :
      (s : State) (f : ForwardRecord) (intent : PendingPolicy) (now : ℕ)
      → IsFenced n s
      → s.forward ≡ some f
      → Leads {W = W} s (IsFenced n) (Ends (IsFenced n)) (Forward.apply_policy f intent s now)
  unfolding Forward.apply_policy Forward.with_metadata
  apply_policy-IsFenced s f intent now h e =
      search
        (
          leading,
          calls,
          Leads-then_seq,
          reconcile-IsFenced,
          then_answered,
          same_phase_IsFenced f _ h e refl refl,
        )
        depth 40

  pub forward_policy_update-IsFenced :
      (s : State) (request : Request) (owner : ForwardOwner) (intent : PendingPolicy) (now : ℕ)
      → IsFenced n s
      → Leads {W = W} s
          (IsFenced n)
          (Ends (IsFenced n))
          (Forward.forward_policy_update request owner intent s now)
  unfolding Forward.forward_policy_update ◌>>◌
  forward_policy_update-IsFenced s request owner intent now h =
      Leads-seq h (Keeps-administrator request) (
        Leads-seq h (Keeps-ensure_live owner now) (
          Leads-or_raise _ _ h λ spec p. Leads-bind h (Keeps-identity _ _) λ retained.
            Leads-raise_if _ _ h λ alone. Leads-same_owner _ _ h λ f e.
              Leads-raise_if _ _ h λ running. Leads-raise_if _ _ h λ repaired.
                Leads-raise_if _ _ h λ settled. Leads-raise_if _ _ h λ kept.
                  Leads-raise_if _ _ h λ fresh.
                    Leads-if (intent.revision == f.policy_revision) (λ q. Leads-answered _ _ h)
                      (λ q. apply_policy-IsFenced s f intent now h e)))
