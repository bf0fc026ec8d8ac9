-- ===== src/Netd/V2/Exchange.antt =====
-- How linux/common/apps/candy-netd/src/v2.rs replaces the policy of a live owner: the fencing of a
-- policy intent, its publication, and the installation and the rollback of a candidate.
use candy_runtime.Prelude.{
  ℕ, Bool, true, false, not, ◌&&◌, ◌||◌, List, Option, none, some, is_some, is_empty, keep_if, any,
  same, if◌then◌else◌,
}
use candy_runtime.Prelude.Methods.{◌>>=◌, ◌>>◌, pure, raise_if, or_raise}
use candy_runtime.Proto.Prefix.{Ipv4Prefix, Ipv4Prefix-discrete, Bytes-discrete}
use candy_runtime.Proto.Declaration.{PrepareDeclaration, is_local}
use candy_runtime.Proto.V2.{ForwardOwner, ForwardOwner-discrete, active, guarded, revoked}
use candy_runtime.Netd.Record.{SysctlChange}
use candy_runtime.Netd.Interface.{⊤}
use candy_runtime.Netd.V2.State.{ForwardRecord, PendingPolicy, owner_is_live, in_phase}
use candy_runtime.Netd.V2.Service.{
  Infra, Infrastructure, rejected, forward_owner_expired, forward_missing, stale_forward_owner,
  forward_policy_repair_pending, forward_policy_intent_missing, forward_policy_cancelled,
  infra_missing, guard_previous, guard_candidate, remove_previous_firewall, candidate_sysctls,
  candidate_firewall, remove_previous_routes, candidate_routes, live_policy_routes_firewall,
  from_backend, from_os, at, the_state, persist,
}
use candy_runtime.Netd.V2.Device.{identity}

unfoldable pub without_local : PrepareDeclaration → PrepareDeclaration
without_local d = record d { routes = keep_if (λ r. not (is_local r.kind)) d.routes }

-- The failed prefixes that the routes of the new declaration still have
unfoldable pub still_failed : PrepareDeclaration → List Ipv4Prefix → List Ipv4Prefix
still_failed d failed =
    keep_if (λ p. any (λ r. same Ipv4Prefix-discrete r.prefix p && not (is_local r.kind)) d.routes)
      failed

-- The record with the intent published
unfoldable pub published : ForwardRecord → PendingPolicy → ForwardRecord
published f p = record f {
  declaration = p.declaration;
  policy_revision = p.revision;
  policy_generation = some p.generation;
  policy_hash = some p.authorization_snapshot_sha256;
  failed_prefixes = still_failed p.declaration f.failed_prefixes;
  pending_policy = none;
}

unfoldable pub settled : Bool → ForwardRecord → ForwardRecord
settled old_live f = if old_live then f else record f { phase = revoked }

module _ {W : Type 0} ⦃infra : Infrastructure W⦄ where
  unfoldable pub ensure_live : ForwardOwner → ℕ → Infra W ⊤
  ensure_live owner now = raise_if (not (owner_is_live owner now)) (rejected forward_owner_expired)

  unfoldable pub same_owner : Option ForwardRecord → ForwardOwner → Infra W ForwardRecord
  same_owner o owner = do
    current ← or_raise o (rejected forward_missing)
    raise_if (not (same ForwardOwner-discrete current.owner owner)) (rejected stale_forward_owner)
    pure current

  unfoldable pub reject_remote : Option PendingPolicy → Infra W ⊤
  reject_remote none = pure tt
  reject_remote (some p) =
      if is_empty (without_local p.declaration).routes
      then pure tt
      else from_backend (infra.reject_forwarding (without_local p.declaration))

  unfoldable pub discard_intent : PrepareDeclaration → Option PendingPolicy → Infra W ⊤
  discard_intent d none = pure tt
  discard_intent d (some p) = from_backend (infra.discard_live_policy d p.declaration)

  unfoldable pub fence_policy_intent : ForwardRecord → Infra W ⊤
  fence_policy_intent f = do
    from_backend (infra.reject_forwarding f.declaration)
    reject_remote f.pending_policy
    from_backend (infra.remove_firewall f.declaration)
    discard_intent f.declaration f.pending_policy

  unfoldable pub reconcile_live_policy : ℕ → Infra W ⊤
  reconcile_live_policy now = do
    s ← the_state
    forward ← or_raise s.forward (rejected forward_missing)
    ensure_live forward.owner now
    raise_if
        (not (in_phase active forward)
          || is_some s.candidate
          || is_some forward.pending_failed_prefixes)
        (rejected forward_policy_repair_pending)
    pending ← or_raise forward.pending_policy (rejected forward_policy_intent_missing)
    raise_if pending.cancelled (rejected forward_policy_cancelled)
    spec ← or_raise s.spec (rejected infra_missing)
    retained_spec ← identity spec.infra_id spec.generation
    at live_policy_routes_firewall (
        infra.update_live_policy forward.declaration pending.declaration
          (still_failed pending.declaration forward.failed_prefixes))
    now_state ← the_state
    persist record now_state { forward = some (published forward pending) }

  -- `previous.phase == Guarded` keeps the policy of the live owner in the kernel.
  unfoldable pub install_replacement : ForwardRecord → ForwardRecord → List SysctlChange → Infra W ⊤
  install_replacement previous candidate sysctls = do
    if in_phase guarded previous
        then at guard_previous (infra.guard_forwarding previous.declaration)
        else (at guard_previous (infra.reject_forwarding previous.declaration)
            >> at guard_candidate (infra.reject_forwarding candidate.declaration))
    at remove_previous_firewall (infra.remove_firewall previous.declaration)
    at candidate_sysctls (infra.prepare_sysctls candidate.declaration sysctls)
    at candidate_firewall (infra.prepare_firewall candidate.declaration)
    at remove_previous_routes
        (infra.remove_stale_forwarding previous.declaration candidate.declaration)
    at candidate_routes
        (infra.restore_forwarding_with_failures candidate.declaration candidate.failed_prefixes)

  -- `self.state.boot_id == current_boot_id()?`
  unfoldable pub same_boot : Infra W Bool
  same_boot = do
    boot_id ← from_os infra.current_boot_id
    s ← the_state
    pure (same Bytes-discrete s.boot_id boot_id)

  -- `test && self.state.boot_id == current_boot_id()?`
  unfoldable pub and_same_boot : Bool → Infra W Bool
  and_same_boot false = pure false
  and_same_boot true = same_boot

  unfoldable pub rollback_replacement : ForwardRecord → ForwardRecord → ℕ → Infra W ⊤
  rollback_replacement previous candidate now = do
    guarded_live ← and_same_boot (in_phase guarded previous && owner_is_live previous.owner now)
    if guarded_live
        then from_backend (infra.guard_forwarding previous.declaration)
        else (from_backend (infra.reject_forwarding candidate.declaration)
            >> from_backend (infra.reject_forwarding previous.declaration))
    from_backend (infra.remove_firewall candidate.declaration)
    old_live ← and_same_boot (
        (in_phase active previous || in_phase guarded previous) && owner_is_live previous.owner now)
    if old_live then from_backend (infra.prepare_firewall previous.declaration) else pure tt
    from_backend (infra.remove_stale_forwarding candidate.declaration previous.declaration)
    if old_live
        then from_backend
            (infra.restore_forwarding_with_failures previous.declaration previous.failed_prefixes)
        else pure tt
    s ← the_state
    persist record s { forward = some (settled old_live previous); candidate = none }
