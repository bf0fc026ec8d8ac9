-- ===== src/Netd/V2/Administered.antt =====
-- The recovery of linux/common/apps/candy-netd/src/v2.rs does not change the administrator.
use candy_runtime.Prelude.{ℕ, Bool, List, Option, none, some, ◌≡◌, Result, ok, err}
use candy_runtime.Prelude.Methods.Triple.{Keeps, keep_seq, keep_bind, keep_pure}
use candy_runtime.Proto.Prefix.{Ipv4Prefix}
use candy_runtime.Netd.Interface.{⊤}
use candy_runtime.Netd.V2.State.{State, ForwardRecord}
use candy_runtime.Netd.V2.Service.{Infrastructure, InfrastructureError}
use candy_runtime.Netd.V2.Rules.{On, calls, Keeps-complete_creation, Keeps-fence_policy_intent}
use candy_runtime.Netd.V2.Leads.{
  Leads, Just, Leads-the_state, Leads-pure, Leads-then, Leads-then_seq, from_each,
}
use candy_runtime.Netd.V2.Endings.{leading, Leads-attempt}
use candy_runtime.Netd.V2.Exchange
use candy_runtime.Netd.V2.Recovery

-- The administrator is `a`.
abbrev pub Of : Option (List ℕ) → State → Type 0
Of a s = s.administrator ≡ a

module _ {W : Type 0} ⦃infra : Infrastructure W⦄ (a : Option (List ℕ)) where
  rollback-Of :
      (s : State) (previous candidate : ForwardRecord) (now : ℕ)
      → Of a s
      → Leads {W = W} s (Of a) (Just (Of a)) (Exchange.rollback_replacement previous candidate now)
  unfolding Exchange.rollback_replacement
  rollback-Of s previous candidate now h = search (leading, calls) depth 40

  reconcile-Of :
      (s : State) (now : ℕ)
      → Of a s
      → Leads {W = W} s (Of a) (Just (Of a)) (Exchange.reconcile_live_policy now)
  unfolding Exchange.reconcile_live_policy
  reconcile-Of s now h = search (leading, calls) depth 40 fits 5000

  candidate-Of :
      (s : State) (o : Option ForwardRecord) (now : ℕ)
      → Of a s
      → Leads {W = W} s (Of a) (Just (Of a)) (Recovery.recover_candidate o now)
  unfolding Recovery.recover_candidate
  candidate-Of s none now h = Leads-pure _ h
  candidate-Of s (some c) now h =
      search (leading, calls, Leads-then_seq, rollback-Of, keep_pure) depth 40

  cancelled-Of :
      (s : State) → Of a s → Leads {W = W} s (Of a) (Just (Of a)) Recovery.recover_cancelled
  unfolding Recovery.recover_cancelled
  cancelled-Of s h = search (leading, calls) depth 40

  policy-Of :
      (s : State) (now : ℕ)
      → Of a s
      → Leads {W = W} s (Of a) (Just (Of a)) (Recovery.recover_policy now)
  unfolding Recovery.recover_policy
  policy-Of s now h =
      search (leading, calls, Leads-then, Leads-attempt, reconcile-Of, keep_pure) depth 40

  finish-Of :
      (s : State) (r : Result InfrastructureError ⊤) (target : List Ipv4Prefix)
      → Of a s
      → Leads {W = W} s (Of a) (Just (Of a)) (Recovery.finish_failures r target)
  unfolding Recovery.finish_failures
  finish-Of s (ok done) target h = search (leading, calls) depth 40
  finish-Of s (err e) target h = Leads-pure _ h

  repair-Of :
      (s : State) (f : ForwardRecord) (o : Option (List Ipv4Prefix))
      → Of a s
      → Leads {W = W} s (Of a) (Just (Of a)) (Recovery.repair_failures f o)
  unfolding Recovery.repair_failures
  repair-Of s f none h = Leads-pure _ h
  repair-Of s f (some target) h = search (leading, calls, finish-Of) depth 40

  failures-Of :
      (s : State) (o : Option ForwardRecord) (now : ℕ)
      → Of a s
      → Leads {W = W} s (Of a) (Just (Of a)) (Recovery.recover_failures o now)
  unfolding Recovery.recover_failures
  failures-Of s none now h = Leads-pure _ h
  failures-Of s (some f) now h = search (leading, calls, repair-Of) depth 40

  revoke-Of :
      (s : State) (f : ForwardRecord)
      → Of a s
      → Leads {W = W} s (Of a) (Just (Of a)) (Recovery.revoke_expired f)
  unfolding Recovery.revoke_expired Recovery.persist_cancelled Recovery.finish_revocation
  revoke-Of s f h =
      Leads-then_seq (search leading depth 20)
        (keep_seq (Keeps-fence_policy_intent _) (from_each λ t g. search (leading, calls) depth 20))

  settle-Of :
      (s : State) (o : Option ForwardRecord) (recovered : Bool) (now : ℕ)
      → Of a s
      → Leads {W = W} s (Of a) (Just (Of a)) (Recovery.settle o recovered now)
  unfolding Recovery.settle Recovery.settle_live
  settle-Of s none recovered now h = search (leading, calls) depth 40
  settle-Of s (some f) recovered now h = search (leading, calls, revoke-Of) depth 40

  -- The recovery does not change the administrator.
  pub recover_expired-Of : (now : ℕ) → Keeps (On {W = W} (Of a)) (Recovery.recover_expired now)
  unfolding Recovery.recover_expired
  recover_expired-Of now = keep_seq (Keeps-complete_creation λ s i b h. h) (
      from_each λ s h. Leads-the_state _ (
        Leads-then (candidate-Of s s.candidate now h) λ x.
          keep_bind (from_each λ s h. cancelled-Of s h) λ y.
            keep_bind (from_each λ s h. policy-Of s now h) λ z. from_each λ s h. Leads-the_state _ (
              Leads-then (failures-Of s s.forward now h)
                λ u. from_each λ s h. Leads-the_state _ (settle-Of s s.forward _ now h))))
