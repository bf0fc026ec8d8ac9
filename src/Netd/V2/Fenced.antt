-- ===== src/Netd/V2/Fenced.antt =====
-- The service keeps the fencing tokens: each method of linux/common/apps/candy-netd/src/v2.rs, from
-- the recovery to the answer.
use candy_runtime.Prelude.{ℕ, Bool, List, Option, none, some, ◌≡◌, refl, Result, ok, err}
use candy_runtime.Prelude.Methods.Triple.{Keeps, keep_pure, keep_bind, keep_seq}
use candy_runtime.Proto.Prefix.{Ipv4Prefix}
use candy_runtime.Netd.Interface.{⊤}
use candy_runtime.Netd.V2.State.{State, ForwardRecord, Phase-discrete}
use candy_runtime.Netd.V2.Service.{Infrastructure, InfrastructureError}
use candy_runtime.Netd.V2.Rules.{On, calls, Keeps-complete_creation, Keeps-fence_policy_intent}
use candy_runtime.Netd.V2.Leads.{
  Leads, Just, Leads-the_state, Leads-pure, Leads-then, Leads-then_seq, from_each,
}
use candy_runtime.Netd.V2.Endings.{leading, Leads-attempt}
use candy_runtime.Netd.V2.Fencing.{
  IsFenced, creation_IsFenced, same_phase_IsFenced, with_phase_IsFenced, without_candidate_IsFenced,
  settled-IsFenced,
}
use candy_runtime.Netd.V2.Exchange
use candy_runtime.Netd.V2.Recovery

module _ {W : Type 0} ⦃infra : Infrastructure W⦄ {n : ℕ} where
  pub rollback-IsFenced :
      (s : State) (previous candidate : ForwardRecord) (now : ℕ)
      → IsFenced n s
      → s.forward ≡ some previous
      → Leads {W = W} s
          (IsFenced n)
          (Just (IsFenced n))
          (Exchange.rollback_replacement previous candidate now)
  unfolding Exchange.rollback_replacement
  rollback-IsFenced s previous candidate now h e =
      search (leading, calls, settled-IsFenced _ previous h e) depth 40

  pub reconcile-IsFenced :
      (s : State) (now : ℕ)
      → IsFenced n s
      → Leads {W = W} s (IsFenced n) (Just (IsFenced n)) (Exchange.reconcile_live_policy now)
  unfolding Exchange.reconcile_live_policy Exchange.published
  reconcile-IsFenced s now h = search (leading, calls, same_phase_IsFenced) depth 40 fits 5000

  recover_candidate-IsFenced :
      (s : State) (o : Option ForwardRecord) (now : ℕ)
      → IsFenced n s
      → Leads {W = W} s (IsFenced n) (Just (IsFenced n)) (Recovery.recover_candidate o now)
  unfolding Recovery.recover_candidate
  recover_candidate-IsFenced s none now h = Leads-pure _ h
  recover_candidate-IsFenced s (some c) now h =
      search
        (leading, calls, Leads-then_seq, rollback-IsFenced, keep_pure, without_candidate_IsFenced)
        depth 40

  recover_cancelled-IsFenced :
      (s : State)
      → IsFenced n s
      → Leads {W = W} s (IsFenced n) (Just (IsFenced n)) Recovery.recover_cancelled
  unfolding Recovery.recover_cancelled Phase-discrete
  recover_cancelled-IsFenced s h = search (leading, calls, with_phase_IsFenced) depth 40

  recover_policy-IsFenced :
      (s : State) (now : ℕ)
      → IsFenced n s
      → Leads {W = W} s (IsFenced n) (Just (IsFenced n)) (Recovery.recover_policy now)
  unfolding Recovery.recover_policy
  recover_policy-IsFenced s now h =
      search (leading, calls, Leads-then, Leads-attempt, reconcile-IsFenced, keep_pure) depth 40

  finish_failures-IsFenced :
      (s : State) (r : Result InfrastructureError ⊤) (target : List Ipv4Prefix)
      → IsFenced n s
      → Leads {W = W} s (IsFenced n) (Just (IsFenced n)) (Recovery.finish_failures r target)
  unfolding Recovery.finish_failures Recovery.repaired_failures
  finish_failures-IsFenced s (ok done) target h =
      search (leading, calls, same_phase_IsFenced) depth 40
  finish_failures-IsFenced s (err e) target h = Leads-pure _ h

  repair_failures-IsFenced :
      (s : State) (f : ForwardRecord) (o : Option (List Ipv4Prefix))
      → IsFenced n s
      → Leads {W = W} s (IsFenced n) (Just (IsFenced n)) (Recovery.repair_failures f o)
  unfolding Recovery.repair_failures
  repair_failures-IsFenced s f none h = Leads-pure _ h
  repair_failures-IsFenced s f (some target) h =
      search (leading, calls, finish_failures-IsFenced) depth 40

  recover_failures-IsFenced :
      (s : State) (o : Option ForwardRecord) (now : ℕ)
      → IsFenced n s
      → Leads {W = W} s (IsFenced n) (Just (IsFenced n)) (Recovery.recover_failures o now)
  unfolding Recovery.recover_failures
  recover_failures-IsFenced s none now h = Leads-pure _ h
  recover_failures-IsFenced s (some f) now h =
      search (leading, calls, repair_failures-IsFenced) depth 40

  persist_cancelled-IsFenced :
      (s : State) (f : ForwardRecord)
      → IsFenced n s
      → s.forward ≡ some f
      → Leads {W = W} s (IsFenced n) (Just (IsFenced n)) (Recovery.persist_cancelled f)
  unfolding Recovery.persist_cancelled Recovery.with_cancelled_intent
  persist_cancelled-IsFenced s f h e = search (leading, same_phase_IsFenced) depth 40

  finish_revocation-IsFenced :
      (s : State)
      → IsFenced n s
      → Leads {W = W} s (IsFenced n) (Just (IsFenced n)) Recovery.finish_revocation
  unfolding Recovery.finish_revocation Recovery.revoked_record Phase-discrete
  finish_revocation-IsFenced s h = search (leading, calls, with_phase_IsFenced) depth 40

  revoke_expired-IsFenced :
      (s : State) (f : ForwardRecord)
      → IsFenced n s
      → s.forward ≡ some f
      → Leads {W = W} s (IsFenced n) (Just (IsFenced n)) (Recovery.revoke_expired f)
  unfolding Recovery.revoke_expired
  revoke_expired-IsFenced s f h e =
      Leads-then_seq (persist_cancelled-IsFenced s f h e)
        (keep_seq (Keeps-fence_policy_intent _) (from_each finish_revocation-IsFenced))

  settle-IsFenced :
      (s : State) (o : Option ForwardRecord) (recovered : Bool) (now : ℕ)
      → IsFenced n s
      → s.forward ≡ o
      → Leads {W = W} s (IsFenced n) (Just (IsFenced n)) (Recovery.settle o recovered now)
  unfolding Recovery.settle Recovery.settle_live
  settle-IsFenced s none recovered now h e = search (leading, calls) depth 40
  settle-IsFenced s (some f) recovered now h e =
      search (leading, calls, revoke_expired-IsFenced) depth 40

  -- The recovery keeps the tokens fenced.
  pub recover_expired-IsFenced :
      (now : ℕ) → Keeps (On {W = W} (IsFenced n)) (Recovery.recover_expired now)
  unfolding Recovery.recover_expired
  recover_expired-IsFenced now =
      keep_seq (Keeps-complete_creation λ s i b h. creation_IsFenced i b h) (
        from_each λ s h. Leads-the_state _ (
          Leads-then (recover_candidate-IsFenced s s.candidate now h) λ a.
            keep_bind (from_each λ s h. recover_cancelled-IsFenced s h) λ b.
              keep_bind (from_each λ s h. recover_policy-IsFenced s now h) λ c. from_each λ s h.
                Leads-the_state _ (
                  Leads-then (recover_failures-IsFenced s s.forward now h) λ d.
                    from_each λ s h. Leads-the_state _ (settle-IsFenced s s.forward _ now h refl))))
