-- ===== src/Netd/V2/Live.antt =====
-- The handlers of a live owner in linux/common/apps/candy-netd/src/v2.rs keep the fencing tokens.
use candy_runtime.Prelude.{ℕ, Bool, none, some, ◌≡◌, refl, Result, ok, err, is_some}
use candy_runtime.Prelude.Methods.{◌>>◌}
use candy_runtime.Prelude.Methods.Triple.{Keeps, keep_pure}
use candy_runtime.Proto.V2.{ForwardOwner, Request, preparing}
use candy_runtime.Netd.Interface.{⊤}
use candy_runtime.Netd.V2.State.{State, ForwardRecord, in_phase, Phase-discrete}
use candy_runtime.Netd.V2.Service.{Infrastructure, InfrastructureError}
use candy_runtime.Netd.V2.Rules.{On, steps, calls, Keeps-fence_policy_intent}
use candy_runtime.Netd.V2.Leads.{
  Leads, Leads-unwrap, Leads-pure, Leads-persist, Leads-then_seq, from_each, keep_then, Leads-if,
}
use candy_runtime.Netd.V2.Endings.{Ends, leading, Leads-changed, then_answered, Leads-same_owner}
use candy_runtime.Netd.V2.Fencing.{
  IsFenced, same_phase_IsFenced, with_phase_IsFenced, without_candidate_IsFenced,
}
use candy_runtime.Netd.V2.Tokens.{renewed-IsFenced}
use candy_runtime.Netd.V2.Fenced.{rollback-IsFenced}
use candy_runtime.Netd.V2.Handlers.{commit_candidate-IsFenced}
use candy_runtime.Netd.V2.Commit
use candy_runtime.Netd.V2.Forward
use candy_runtime.Netd.V2.Recovery

cancelled-IsFenced :
    {n : ℕ} (s : State) (f : ForwardRecord)
    → IsFenced n s
    → s.forward ≡ some f
    → IsFenced n record s { forward = some (Recovery.with_cancelled_intent f) }
unfolding Recovery.with_cancelled_intent
cancelled-IsFenced s f h e = same_phase_IsFenced f _ h e refl refl

revoked-IsFenced :
    {n : ℕ} (s : State) (f : ForwardRecord)
    → IsFenced n s
    → s.forward ≡ some f
    → IsFenced n record s {
      forward = some (Recovery.revoked_record (Recovery.with_cancelled_intent f));
      candidate = none;
    }
unfolding Recovery.revoked_record Recovery.with_cancelled_intent Phase-discrete
revoked-IsFenced s f h e = without_candidate_IsFenced (with_phase_IsFenced f _ h e refl refl)

module _ {W : Type 0} ⦃infra : Infrastructure W⦄ where
  Keeps-or_reject :
      {P : State → Type 0} (r : Result InfrastructureError ⊤) (f : ForwardRecord)
      → Keeps (On {W = W} P) (Commit.or_reject r f)
  unfolding Commit.or_reject
  Keeps-or_reject (ok done) f = keep_pure _
  Keeps-or_reject (err e) f = search steps depth 12

module _ {W : Type 0} ⦃infra : Infrastructure W⦄ {n : ℕ} where
  commit_first-IsFenced :
      (s : State) (owner : ForwardOwner)
      → IsFenced n s
      → Leads {W = W} s (IsFenced n) (Ends (IsFenced n)) (Commit.commit_first owner s)
  unfolding Commit.commit_first Phase-discrete
  commit_first-IsFenced s owner h =
      search (leading, calls, Keeps-or_reject, with_phase_IsFenced) depth 40

  pub forward_commit-IsFenced :
      (s : State) (request : Request) (owner : ForwardOwner) (b : Bool) (now : ℕ)
      → IsFenced n s
      → Leads {W = W} s
          (IsFenced n)
          (Ends (IsFenced n))
          (Commit.forward_commit request owner b s now)
  unfolding Commit.forward_commit ◌>>◌
  forward_commit-IsFenced s request owner b now h =
      search (leading, calls, commit_first-IsFenced, commit_candidate-IsFenced) depth 40

  pub forward_guard-IsFenced :
      (s : State) (request : Request) (owner : ForwardOwner) (now : ℕ)
      → IsFenced n s
      → Leads {W = W} s (IsFenced n) (Ends (IsFenced n)) (Forward.forward_guard request owner s now)
  unfolding Forward.forward_guard ◌>>◌ Phase-discrete
  forward_guard-IsFenced s request owner now h =
      search (leading, calls, with_phase_IsFenced) depth 40

  pub forward_lease_renew-IsFenced :
      (s : State) (request : Request) (owner : ForwardOwner) (now : ℕ)
      → IsFenced n s
      → Leads {W = W} s
          (IsFenced n)
          (Ends (IsFenced n))
          (Forward.forward_lease_renew request owner s now)
  unfolding Forward.forward_lease_renew ◌>>◌
  forward_lease_renew-IsFenced s request owner now h =
      search (leading, calls, renewed-IsFenced) depth 40

  revoke_candidate-IsFenced :
      (s : State) (c : ForwardRecord) (now : ℕ)
      → IsFenced n s
      → Leads {W = W} s (IsFenced n) (Ends (IsFenced n)) (Forward.revoke_candidate c s now)
  unfolding Forward.revoke_candidate ◌>>◌
  revoke_candidate-IsFenced s c now h =
      Leads-then_seq
        (Leads-if (in_phase preparing c)
          (λ b. Leads-unwrap _ h λ previous e. rollback-IsFenced s previous c now h e)
          (λ b. Leads-persist _ h (without_candidate_IsFenced h)))
        (then_answered _ _)

  -- Whatever was stored of the cancellation, the record that is revoked is the one that was read.
  revoke_forward-IsFenced :
      (s : State) (owner : ForwardOwner)
      → IsFenced n s
      → Leads {W = W} s (IsFenced n) (Ends (IsFenced n)) (Forward.revoke_forward owner s)
  unfolding Forward.revoke_forward
  revoke_forward-IsFenced s owner h = Leads-same_owner _ _ h λ f e.
      Leads-then_seq
        (Leads-if (is_some f.pending_policy) (λ b. Leads-persist _ h (cancelled-IsFenced s f h e))
          (λ b. Leads-pure _ h))
        (keep_then (Keeps-fence_policy_intent _)
          (from_each λ t g. Leads-changed _ g (revoked-IsFenced s f h e)))

  pub forward_revoke-IsFenced :
      (s : State) (request : Request) (owner : ForwardOwner) (now : ℕ)
      → IsFenced n s
      → Leads {W = W} s
          (IsFenced n)
          (Ends (IsFenced n))
          (Forward.forward_revoke request owner s now)
  unfolding Forward.forward_revoke ◌>>◌
  forward_revoke-IsFenced s request owner now h =
      search (leading, calls, revoke_candidate-IsFenced, revoke_forward-IsFenced) depth 40
