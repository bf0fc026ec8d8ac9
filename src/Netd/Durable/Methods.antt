-- ===== src/Netd/Durable/Methods.antt =====
-- Each method, when it reports success, leaves the journal in step with the record.
use candy_runtime.Prelude.{ℕ, Bool, false, ok, err, List, Option, none, some, Result, ◌≡◌}
use candy_runtime.Proto.Declaration.{PrepareDeclaration}
use candy_runtime.Proto.Request.{LeaseOwner}
use candy_runtime.Netd.Record.{
  TransactionRecord, NetworkError, TransactionPhase, prepared, active, draining,
}
use candy_runtime.Netd.Interface.{NetworkBackend, NetworkJournal, ⊤, NetworkTransaction, or_cleanup}
use candy_runtime.Netd.Triple.{keep_raise_if, keep_raise, keep_seq, keep_pure, Post}
use candy_runtime.Netd.Durable.Rules.{Durability, IsDurable, Anything, Keeps}
use candy_runtime.Netd.Transaction.Cleanup.{cleanup_record}
use candy_runtime.Proto.Prefix.{Ipv4Prefix}
use candy_runtime.Netd.Transaction.Lifecycle
use candy_runtime.Netd.Transaction.Lifecycle.{valid_or_backend, or_invalid}
use candy_runtime.Netd.Transaction.Replace
use candy_runtime.Netd.Transaction.Replace.{or_restore, restored_by}
use candy_runtime.Netd.Transaction.Policy
use candy_runtime.Netd.Transaction.Policy.{when}
use candy_runtime.Netd.Transaction.Recover
use candy_runtime.Netd.Transaction.Controller.{ControllerCall, perform}
use candy_runtime.Netd.Durable.Parts.{parts, raises, chosen}

module _ {B J : Type 0} ⦃backend : NetworkBackend B⦄ ⦃journal : NetworkJournal J⦄
    (durability : Durability journal) where
  prepare_first-Keeps :
      (owner : LeaseOwner) (d : PrepareDeclaration)
      → Keeps {B = B} durability (Lifecycle.prepare_first owner d)
  unfolding Lifecycle.prepare_first
  prepare_first-Keeps owner d = search parts depth 30

  prepare_beside-Keeps :
      (o : Option TransactionRecord) (owner : LeaseOwner) (d : PrepareDeclaration)
      → Keeps {B = B} durability (Lifecycle.prepare_beside o owner d)
  unfolding Lifecycle.prepare_beside
  prepare_beside-Keeps none owner d = prepare_first-Keeps owner d
  prepare_beside-Keeps (some r) owner d = search parts depth 30

  prepare-Keeps :
      (owner : LeaseOwner) (d : PrepareDeclaration)
      → Keeps {B = B} durability (Lifecycle.prepare owner d)
  unfolding Lifecycle.prepare
  prepare-Keeps owner d = record { run = λ s p. (prepare_beside-Keeps s.retained owner d).run s p }

  commit_candidate-Keeps :
      (c : PrepareDeclaration) (now timeout : ℕ)
      → Keeps {B = B} durability (Lifecycle.commit_candidate c now timeout)
  unfolding Lifecycle.commit_candidate
  commit_candidate-Keeps c now timeout = search parts depth 30

  commit_steps-Keeps :
      (d : PrepareDeclaration)
      → Keeps {B = B} durability (or_cleanup (Lifecycle.commit_steps d) cleanup_record)
  unfolding Lifecycle.commit_steps
  commit_steps-Keeps d = search parts depth 30

  commit_phase-Keeps :
      (phase : TransactionPhase) (r : TransactionRecord) (now timeout : ℕ)
      → Keeps {B = B} durability (Lifecycle.commit_phase phase r now timeout)
  unfolding Lifecycle.commit_phase
  commit_phase-Keeps prepared r now timeout =
      chosen durability r.recovery_candidate (commit_steps-Keeps r.declaration)
        (λ c. commit_candidate-Keeps c now timeout)
  commit_phase-Keeps draining r now timeout = keep_pure tt
  commit_phase-Keeps active r now timeout = keep_pure tt
  commit_phase-Keeps _ r now timeout = keep_raise (raises durability) _

  commit_with_drain-Keeps :
      (owner : LeaseOwner) (now : ℕ) (timeout : ℕ)
      → Keeps {B = B} durability (Lifecycle.commit_with_drain owner now timeout)
  unfolding Lifecycle.commit_with_drain
  commit_with_drain-Keeps owner now timeout = search (parts, commit_phase-Keeps) depth 30

  drain_old-Keeps :
      (owner : LeaseOwner) (now : ℕ) → Keeps {B = B} durability (Lifecycle.drain_old owner now)
  unfolding Lifecycle.drain_old
  drain_old-Keeps owner now = search parts depth 30

  rollback-Keeps : (owner : LeaseOwner) → Keeps {B = B} durability (Lifecycle.rollback owner)
  unfolding Lifecycle.rollback
  rollback-Keeps owner = search parts depth 30

  withdraw_prefixes-Keeps :
      (owner : LeaseOwner) (ps : List Ipv4Prefix)
      → Keeps {B = B} durability (Lifecycle.withdraw_prefixes owner ps)
  unfolding Lifecycle.withdraw_prefixes
  withdraw_prefixes-Keeps owner ps = search parts depth 30

  set_failed_prefixes-Keeps :
      (owner : LeaseOwner) (ps : List Ipv4Prefix)
      → Keeps {B = B} durability (Lifecycle.set_failed_prefixes owner ps)
  unfolding Lifecycle.set_failed_prefixes
  set_failed_prefixes-Keeps owner ps = search parts depth 30

  renew_lease-Keeps : (owner : LeaseOwner) → Keeps {B = B} durability (Lifecycle.renew_lease owner)
  unfolding Lifecycle.renew_lease
  renew_lease-Keeps owner = search parts depth 30

  update_mtu-Keeps :
      (owner : LeaseOwner) (mtu : ℕ) → Keeps {B = B} durability (Lifecycle.update_mtu owner mtu)
  unfolding Lifecycle.update_mtu
  update_mtu-Keeps owner mtu = search parts depth 30

  suspend-Keeps : (owner : LeaseOwner) → Keeps {B = B} durability (Lifecycle.suspend owner)
  unfolding Lifecycle.suspend
  suspend-Keeps owner = search parts depth 30

  resume-Keeps : (owner : LeaseOwner) → Keeps {B = B} durability (Lifecycle.resume owner)
  unfolding Lifecycle.resume
  resume-Keeps owner = search parts depth 30

  stage_replacement-Keeps :
      (owner : LeaseOwner) (d : PrepareDeclaration) (r : TransactionRecord)
      → Keeps {B = B} durability (Replace.stage_replacement owner d r)
  unfolding Replace.stage_replacement
  stage_replacement-Keeps owner d r = search parts depth 30

  replace_declaration-Keeps :
      (owner : LeaseOwner) (d : PrepareDeclaration) (r : TransactionRecord)
      → Keeps {B = B} durability (Replace.replace_declaration owner d r)
  unfolding Replace.replace_declaration
  replace_declaration-Keeps owner d r = keep_seq (keep_raise_if (raises durability) _ _) (
      chosen durability r.recovery_candidate (stage_replacement-Keeps owner d r)
        (λ c. keep_raise_if (raises durability) _ _))

  prepare_replacement-Keeps :
      (owner : LeaseOwner) (d : PrepareDeclaration)
      → Keeps {B = B} durability (Replace.prepare_replacement owner d)
  unfolding Replace.prepare_replacement
  prepare_replacement-Keeps owner d = search (parts, replace_declaration-Keeps) depth 30

  reconfigure_inactive-Keeps :
      (owner : LeaseOwner) (d : PrepareDeclaration) (r : TransactionRecord)
      → Keeps {B = B} durability (Replace.reconfigure_inactive owner d r)
  unfolding Replace.reconfigure_inactive
  reconfigure_inactive-Keeps owner d r = search parts depth 30

  reconfigure-Keeps :
      (owner : LeaseOwner) (d : PrepareDeclaration)
      → Keeps {B = B} durability (Replace.reconfigure owner d)
  unfolding Replace.reconfigure
  reconfigure-Keeps owner d =
      search (parts, prepare_replacement-Keeps, reconfigure_inactive-Keeps) depth 30

  update_policy-Keeps :
      (owner : LeaseOwner) (d : PrepareDeclaration)
      → Keeps {B = B} durability (Policy.update_policy owner d)
  unfolding Policy.update_policy
  update_policy-Keeps owner d = search parts depth 30

  recover_policy_update-Keeps : Keeps {B = B} durability Policy.recover_policy_update
  unfolding Policy.recover_policy_update
  recover_policy_update-Keeps = search parts depth 30

  recover_record-Keeps :
      (alive : Bool) (now : ℕ) (r : TransactionRecord)
      → Keeps {B = B} durability (Recover.recover_record alive now r)
  unfolding Recover.recover_record Lifecycle.discard_candidate
  recover_record-Keeps alive now r =
      search (parts, recover_policy_update-Keeps, drain_old-Keeps) depth 30

  recover_retained-Keeps :
      (o : Option TransactionRecord) (alive : Bool) (now : ℕ)
      → Keeps {B = B} durability (Recover.recover_retained o alive now)
  unfolding Recover.recover_retained
  recover_retained-Keeps none alive now = keep_pure false
  recover_retained-Keeps (some r) alive now = recover_record-Keeps alive now r

  -- A successful recovery of an orphan, whether it did anything or not, keeps the journal in step.
  pub recover_orphan-Keeps :
      (alive : Bool) (now : ℕ) → Keeps {B = B} durability (Recover.recover_orphan alive now)
  unfolding Recover.recover_orphan
  recover_orphan-Keeps alive now = record {
    run = λ s p. (recover_retained-Keeps s.retained alive now).run s p;
  }

  perform-Keeps :
      (call : ControllerCall) (owner : LeaseOwner) → Keeps {B = B} durability (perform call owner)
  unfolding perform Lifecycle.commit
  perform-Keeps (ControllerCall.prepare d) owner = prepare-Keeps owner d
  perform-Keeps ControllerCall.commit owner = commit_with_drain-Keeps owner 0 0
  perform-Keeps (ControllerCall.commit_with_drain now timeout) owner =
      commit_with_drain-Keeps owner now timeout
  perform-Keeps (ControllerCall.drain_old now) owner = drain_old-Keeps owner now
  perform-Keeps (ControllerCall.set_failed_prefixes ps) owner = set_failed_prefixes-Keeps owner ps
  perform-Keeps ControllerCall.rollback owner = rollback-Keeps owner
  perform-Keeps ControllerCall.renew_lease owner = renew_lease-Keeps owner
  perform-Keeps (ControllerCall.update_mtu mtu) owner = update_mtu-Keeps owner mtu
  perform-Keeps ControllerCall.suspend owner = suspend-Keeps owner
  perform-Keeps (ControllerCall.reconfigure d) owner = reconfigure-Keeps owner d
  perform-Keeps (ControllerCall.update_policy d) owner = update_policy-Keeps owner d
  perform-Keeps ControllerCall.resume owner = resume-Keeps owner

  -- A call that reports success leaves the journal in step, if it was before.
  pub perform-IsDurable :
      (call : ControllerCall) (owner : LeaseOwner) (s : NetworkTransaction B J)
      → IsDurable durability s
      → (perform call owner s).0 ≡ ok tt
      → IsDurable durability (perform call owner s).1
  perform-IsDurable call owner s p h =
      succeeded (perform call owner s) ((perform-Keeps call owner).run s p) h
    where
      succeeded :
          (q : Result NetworkError ⊤ × NetworkTransaction B J)
          → Post (IsDurable durability) Anything q
          → q.0 ≡ ok tt
          → IsDurable durability q.1
      succeeded (ok done, s) p h = p
      succeeded (err e, s) p h = cc
