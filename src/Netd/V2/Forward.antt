-- ===== src/Netd/V2/Forward.antt =====
-- The requests of a live owner in `process` of linux/common/apps/candy-netd/src/v2.rs: guard, revoke,
-- lease, failed prefixes, policy and status.
use candy_runtime.Prelude.{
  ℕ, Bool, true, false, not, ◌&&◌, ◌||◌, List, [], Option, none, some, ◌==◌, ltb, same, is_some,
  unwrap_or, if◌then◌else◌,
}
use candy_runtime.Prelude.Methods.{◌>>=◌, ◌>>◌, pure, raise_if, or_raise}
use candy_runtime.Proto.Prefix.{Ipv4Prefix, sort_prefixes, Bytes-discrete}
use candy_runtime.Proto.Declaration.{PrepareDeclaration-discrete}
use candy_runtime.Proto.V2.{
  ForwardOwner, Request, ack, forward_status, preparing, prepared, active, guarded, revoked,
}
use candy_runtime.Netd.V2.State.{
  State, ForwardRecord, PendingPolicy, Number-discrete, Text-discrete, Prefixes-discrete, in_phase,
  are_failed_prefixes, changes_infrastructure,
}
use candy_runtime.Netd.V2.Service.{
  Infra, Infrastructure, rejected, infra_missing, forward_missing, stale_forward_owner,
  invalid_forward_phase, invalid_failed_prefix, stale_failure_revision,
  forward_prefix_repair_pending, forward_policy_repair_pending, forward_not_active,
  forward_candidate_pending, infra_policy_attribute_conflict, stale_policy_revision,
  failed_prefix_routes, from_backend, at, unwrap, persist,
}
use candy_runtime.Netd.V2.Device.{administrator, identity}
use candy_runtime.Netd.V2.Exchange.{
  ensure_live, same_owner, fence_policy_intent, reconcile_live_policy, rollback_replacement,
}
use candy_runtime.Netd.V2.Recovery.{with_cancelled_intent, revoked_record, repaired_failures}
use candy_runtime.Netd.V2.Infra.{Outcome, answered, changed}
use candy_runtime.Netd.V2.Prepare.{is_owned}
use candy_runtime.Netd.V2.Commit.{with_phase}

-- The renewal keeps the identity of the owner and its cap, and does not shorten the lease.
unfoldable pub may_renew : ForwardRecord → ForwardOwner → Bool
may_renew f o =
    same Bytes-discrete f.owner.domain_id o.domain_id
    && (f.owner.signed_generation == o.signed_generation)
    && (f.owner.worker_epoch == o.worker_epoch)
    && (f.owner.fencing_token == o.fencing_token)
    && (f.owner.auth_deadline_mono_ms == o.auth_deadline_mono_ms)
    && not (ltb f.owner.auth_deadline_mono_ms o.lease_deadline_mono_ms)
    && not (ltb o.lease_deadline_mono_ms f.owner.lease_deadline_mono_ms)
    && not (in_phase revoked f)

abbrev pub with_current : State → Bool → ForwardRecord → State
with_current next true f = record next { candidate = some f }
with_current next false f = record next { forward = some f }

unfoldable pub latest_revision : ForwardRecord → ℕ
latest_revision f = unwrap_or f.pending_failure_revision f.failure_revision

unfoldable pub is_stale_failure : ForwardRecord → ℕ → List Ipv4Prefix → Bool
is_stale_failure f revision target =
    ltb revision (latest_revision f)
    || ((revision == latest_revision f)
        && not
            (same Prefixes-discrete target (unwrap_or f.pending_failed_prefixes f.failed_prefixes)))

unfoldable pub is_stale_policy : ForwardRecord → PendingPolicy → Bool
is_stale_policy f p =
    ltb p.revision f.policy_revision
    || ltb p.generation (unwrap_or f.policy_generation f.owner.signed_generation)
    || ((p.revision == f.policy_revision)
        && (not (same PrepareDeclaration-discrete f.declaration p.declaration)
            || not (same Number-discrete f.policy_generation (some p.generation))
            || not (same Text-discrete f.policy_hash (some p.authorization_snapshot_sha256))))

-- The metadata of a policy whose declaration is in the kernel
unfoldable pub with_metadata : ForwardRecord → PendingPolicy → ForwardRecord
with_metadata f p = record f {
  policy_revision = p.revision;
  policy_generation = some p.generation;
  policy_hash = some p.authorization_snapshot_sha256;
}

abbrev pub from_forward : {A : Type 0} → Option ForwardRecord → A → (ForwardRecord → A) → A
from_forward none d field = d
from_forward (some f) d field = field f

abbrev pub revision_of : Option PendingPolicy → Option ℕ
revision_of none = none
revision_of (some p) = some p.revision

-- `ForwardStatus`
unfoldable pub status_answer : State → Outcome
status_answer next =
    answered
      (forward_status record {
        owner = from_forward next.forward none (λ f. some f.owner);
        phase = from_forward next.forward none (λ f. some f.phase);
        candidate_owner = from_forward next.candidate none (λ f. some f.owner);
        last_fencing_token = next.last_fencing_token;
        failure_revision = from_forward next.forward 0 (λ f. f.failure_revision);
        failed_prefixes = from_forward next.forward [] (λ f. f.failed_prefixes);
        pending_failure_revision = from_forward next.forward none (λ f. f.pending_failure_revision);
        pending_failed_prefixes = from_forward next.forward none (λ f. f.pending_failed_prefixes);
        active_policy_revision = from_forward next.forward 0 (λ f. f.policy_revision);
        active_policy_generation = from_forward next.forward none (λ f. f.policy_generation);
        active_policy_hash = from_forward next.forward none (λ f. f.policy_hash);
        pending_policy_revision =
            from_forward next.forward none (λ f. revision_of f.pending_policy);
      })
      none

module _ {W : Type 0} ⦃infra : Infrastructure W⦄ where
  unfoldable pub forward_guard : Request → ForwardOwner → State → ℕ → Infra W Outcome
  forward_guard request owner next now = do
    administrator request
    ensure_live owner now
    current ← same_owner next.forward owner
    if in_phase guarded current then pure (answered ack none) else (do
      raise_if (not (in_phase active current)) (rejected invalid_forward_phase)
      persist record next { forward = some (with_phase guarded current) }
      from_backend (infra.guard_forwarding current.declaration)
      pure (answered ack none))

  unfoldable pub revoke_candidate : ForwardRecord → State → ℕ → Infra W Outcome
  revoke_candidate candidate next now = do
    if in_phase preparing candidate
        then (do previous ← unwrap next.forward; rollback_replacement previous candidate now)
        else persist record next { candidate = none }
    pure (answered ack none)

  unfoldable pub revoke_forward : ForwardOwner → State → Infra W Outcome
  revoke_forward owner next = do
    current ← same_owner next.forward owner
    let cancelled = with_cancelled_intent current
    if is_some current.pending_policy
        then persist record next { forward = some cancelled }
        else pure tt
    fence_policy_intent cancelled
    pure (changed record next { forward = some (revoked_record cancelled); candidate = none })

  unfoldable pub forward_revoke : Request → ForwardOwner → State → ℕ → Infra W Outcome
  forward_revoke request owner next now = do
    administrator request
    if is_owned next.candidate owner
        then (do candidate ← unwrap next.candidate; revoke_candidate candidate next now)
        else revoke_forward owner next

  unfoldable pub forward_lease_renew : Request → ForwardOwner → State → ℕ → Infra W Outcome
  forward_lease_renew request owner next now = do
    administrator request
    ensure_live owner now
    current ← or_raise next.forward (rejected forward_missing)
    raise_if (not (may_renew current owner)) (rejected stale_forward_owner)
    pure (changed record next { forward = some (record current { owner = owner }) })

  -- The intent is stored, the routes are changed, and the result is stored.
  unfoldable pub publish_failures :
      ForwardRecord → State → Bool → ℕ → List Ipv4Prefix → Infra W Outcome
  publish_failures current next is_candidate revision target = do
    let pending = record current {
      pending_failed_prefixes = some target;
      pending_failure_revision = some revision;
    }
    let intent = with_current next is_candidate pending
    persist intent
    at failed_prefix_routes
        (infra.update_failed_forward_prefixes current.declaration current.failed_prefixes target)
    retained ← unwrap intent.forward
    persist record intent { forward = some (repaired_failures retained target revision) }
    pure (answered ack none)

  unfoldable pub apply_failures :
      ForwardRecord → State → Bool → ℕ → List Ipv4Prefix → Infra W Outcome
  apply_failures current next is_candidate revision target =
      if in_phase prepared current
      then (do
        persist (
            with_current next is_candidate
              record current { failure_revision = revision; failed_prefixes = target })
        pure (answered ack none))
      else (do
        raise_if (not (in_phase active current)) (rejected forward_not_active)
        if same Prefixes-discrete current.failed_prefixes target
            then (do
              persist
                  (with_current next is_candidate record current { failure_revision = revision })
              pure (answered ack none))
            else publish_failures current next is_candidate revision target)

  unfoldable pub forward_failed_prefixes :
      Request → ForwardOwner → ℕ → List Ipv4Prefix → State → ℕ → Infra W Outcome
  forward_failed_prefixes request owner revision failed next now = do
    administrator request
    ensure_live owner now
    spec ← or_raise next.spec (rejected infra_missing)
    retained_spec ← identity spec.infra_id spec.generation
    let is_candidate = is_owned next.candidate owner
    current ← same_owner (if is_candidate then next.candidate else next.forward) owner
    raise_if (not (are_failed_prefixes current.declaration failed)) (rejected invalid_failed_prefix)
    let target = sort_prefixes failed
    raise_if (is_stale_failure current revision target) (rejected stale_failure_revision)
    raise_if (is_some current.pending_failed_prefixes) (rejected forward_prefix_repair_pending)
    if revision == latest_revision current
        then pure (answered ack none)
        else apply_failures current next is_candidate revision target

  unfoldable pub apply_policy : ForwardRecord → PendingPolicy → State → ℕ → Infra W Outcome
  apply_policy current intent next now =
      if same PrepareDeclaration-discrete current.declaration intent.declaration
      then (do
        persist record next { forward = some (with_metadata current intent) }
        pure (answered ack none))
      else (do
        from_backend (infra.validate_forwarding_replacement current.declaration intent.declaration)
        persist record next { forward = some (record current { pending_policy = some intent }) }
        reconcile_live_policy now
        pure (answered ack none))

  -- The revision, the generation, the hash and the declaration of the request are in `intent`.
  unfoldable pub forward_policy_update :
      Request → ForwardOwner → PendingPolicy → State → ℕ → Infra W Outcome
  forward_policy_update request owner intent next now = do
    administrator request
    ensure_live owner now
    spec ← or_raise next.spec (rejected infra_missing)
    retained_spec ← identity spec.infra_id spec.generation
    raise_if (is_some next.candidate) (rejected forward_candidate_pending)
    current ← same_owner next.forward owner
    raise_if (not (in_phase active current)) (rejected forward_not_active)
    raise_if (is_some current.pending_failed_prefixes) (rejected forward_prefix_repair_pending)
    raise_if (is_some current.pending_policy) (rejected forward_policy_repair_pending)
    raise_if (changes_infrastructure current.declaration intent.declaration)
        (rejected infra_policy_attribute_conflict)
    raise_if (is_stale_policy current intent) (rejected stale_policy_revision)
    if intent.revision == current.policy_revision
        then pure (answered ack none)
        else apply_policy current intent next now
