-- ===== src/Netd/V2/Prepare.antt =====
-- `ForwardPrepare` and `ForwardAuthorize` in `process` of linux/common/apps/candy-netd/src/v2.rs.
use candy_runtime.Prelude.{
  ℕ, Bool, true, false, not, ◌&&◌, ◌||◌, List, Option, none, some, ◌==◌, ltb, leb, same,
  if◌then◌else◌,
}
use candy_runtime.Prelude.Methods.{◌>>=◌, ◌>>◌, pure, raise, raise_if, or_raise}
use candy_runtime.Proto.Prefix.{Bytes-discrete}
use candy_runtime.Proto.Declaration.{PrepareDeclaration, PrepareDeclaration-discrete}
use candy_runtime.Proto.V2.{
  ForwardOwner, ForwardOwner-discrete, ForwardAuthority, ForwardAuthority-discrete, Request, ack,
  Phase, preparing, prepared, active, guarded, revoked,
}
use candy_runtime.Netd.Record.BackendStage.{
  preflight, sysctl_prepare, route_prepare, firewall_prepare,
}
use candy_runtime.Netd.V2.State.{
  State, ForwardRecord, IoOwner, Number-discrete, in_phase, new_record,
}
use candy_runtime.Netd.V2.Service.{
  Infra, Infrastructure, InfrastructureError, rejected, infra_config_conflict,
  forward_candidate_pending, unsupported_multi_domain, stale_forward_owner,
  forward_preparation_pending, infra_policy_attribute_conflict, io_owner_missing,
  forward_authority_io_mismatch, forward_authority_conflict, from_backend, at_backend, unwrap,
  persist,
}
use candy_runtime.Netd.V2.Device.{administrator, identity, io_owner_alive}
use candy_runtime.Netd.V2.Exchange.{ensure_live, same_owner}
use candy_runtime.Netd.V2.Infra.{Outcome, answered, changed}

abbrev pub is_owner : ForwardOwner → ForwardRecord → Bool
is_owner owner f = same ForwardOwner-discrete f.owner owner

abbrev pub is_for : ForwardOwner → PrepareDeclaration → ForwardRecord → Bool
is_for owner d f = is_owner owner f && same PrepareDeclaration-discrete f.declaration d

-- `record.is_some_and(|record| record.owner == *owner)`
abbrev pub is_owned : Option ForwardRecord → ForwardOwner → Bool
is_owned none owner = false
is_owned (some f) owner = is_owner owner f

abbrev pub is_retry : ForwardOwner → ForwardRecord → Bool
is_retry owner previous = is_owner owner previous && in_phase preparing previous

abbrev pub max : ℕ → ℕ → ℕ
max a b = if ltb a b then b else a

-- The generation, the epoch or the fencing token of the request does not advance.
unfoldable pub is_stale : ForwardOwner → PrepareDeclaration → ForwardRecord → ℕ → Bool
is_stale owner d previous last =
    ltb owner.signed_generation previous.owner.signed_generation
    || ((owner.signed_generation == previous.owner.signed_generation)
        && not (same PrepareDeclaration-discrete d previous.declaration))
    || ltb owner.worker_epoch previous.owner.worker_epoch
    || (leb owner.fencing_token (max previous.owner.fencing_token last)
        && not (is_retry owner previous))

abbrev pub same_flag : Bool → Bool → Bool
same_flag true b = b
same_flag false b = not b

abbrev pub may_be_replaced : ForwardRecord → Bool
may_be_replaced f = in_phase active f || in_phase guarded f || in_phase revoked f

-- The routing table and the shared sysctls stay with the infrastructure.
unfoldable pub same_attributes : PrepareDeclaration → PrepareDeclaration → Bool
same_attributes previous d =
    (previous.table_id == d.table_id)
    && same_flag previous.firewall.require_ipv4_forwarding d.firewall.require_ipv4_forwarding
    && same_flag previous.firewall.manage_rp_filter d.firewall.manage_rp_filter

unfoldable pub with_candidate : State → ForwardOwner → PrepareDeclaration → State
with_candidate next owner d = record next {
  candidate = some (new_record owner d prepared);
  last_fencing_token = owner.fencing_token;
}

unfoldable pub with_forward : State → ForwardOwner → PrepareDeclaration → Phase → State
with_forward next owner d phase = record next {
  forward = some (new_record owner d phase);
  last_fencing_token = owner.fencing_token;
}

abbrev pub has_other_authority : Option ForwardAuthority → ForwardAuthority → Bool
has_other_authority none authority = false
has_other_authority (some old) authority = not (same ForwardAuthority-discrete old authority)

unfoldable pub names_holder : ForwardAuthority → IoOwner → Bool
names_holder a io =
    (a.io_pid == io.pid)
    && (a.io_epoch == io.io_epoch)
    && same Number-discrete (some a.io_start_ticks) io.start_ticks

unfoldable pub with_authority : State → Bool → ForwardRecord → ForwardAuthority → State
with_authority next true f a = record next { candidate = some (record f { authority = some a }) }
with_authority next false f a = record next { forward = some (record f { authority = some a }) }

module _ {W : Type 0} ⦃infra : Infrastructure W⦄ where
  -- The intent is stored before the kernel is changed.
  unfoldable pub prepare_first : ForwardOwner → PrepareDeclaration → State → Infra W Outcome
  prepare_first owner d next = do
    persist (with_forward next owner d preparing)
    at_backend sysctl_prepare (infra.prepare_sysctls d next.sysctls)
    at_backend route_prepare (infra.reject_forwarding d)
    from_backend (infra.remove_firewall d)
    at_backend firewall_prepare (infra.prepare_firewall d)
    pure (changed (with_forward next owner d prepared))

  -- A candidate beside the retained record does not touch the kernel.
  unfoldable pub prepare_candidate :
      ForwardOwner → PrepareDeclaration → ForwardRecord → State → Infra W Outcome
  prepare_candidate owner d previous next = do
    from_backend (infra.validate_forwarding_replacement previous.declaration d)
    persist (with_candidate next owner d)
    pure (answered ack none)

  unfoldable pub prepare_beside :
      Option ForwardRecord → ForwardOwner → PrepareDeclaration → State → Infra W Outcome
  prepare_beside none owner d next = do
    sysctls ← at_backend preflight (infra.preflight d)
    prepare_first owner d record next { sysctls = sysctls }
  prepare_beside (some previous) owner d next =
      if is_for owner d previous && in_phase prepared previous
      then pure (answered ack none)
      else (do
        raise_if (not (same Bytes-discrete previous.owner.domain_id owner.domain_id))
            (rejected unsupported_multi_domain)
        raise_if (is_stale owner d previous next.last_fencing_token) (rejected stale_forward_owner)
        raise_if (not (may_be_replaced previous) && not (is_retry owner previous))
            (rejected forward_preparation_pending)
        raise_if (not (same_attributes previous.declaration d))
            (rejected infra_policy_attribute_conflict)
        if is_retry owner previous
            then prepare_first owner d next
            else prepare_candidate owner d previous next)

  unfoldable pub prepare_without :
      Option ForwardRecord → ForwardOwner → PrepareDeclaration → State → Infra W Outcome
  prepare_without (some candidate) owner d next =
      if is_for owner d candidate
      then pure (answered ack none)
      else raise (rejected forward_candidate_pending)
  prepare_without none owner d next = prepare_beside next.forward owner d next

  unfoldable pub forward_prepare :
      Request → List ℕ → ℕ → ForwardOwner → PrepareDeclaration → State → ℕ → Infra W Outcome
  forward_prepare request infra_id generation owner d next now = do
    administrator request
    spec ← identity infra_id generation
    ensure_live owner now
    raise_if
        (not (same Bytes-discrete d.overlay_router_ipv4 spec.overlay_router_ipv4)
          || not (d.effective_mtu == spec.mtu))
        (rejected infra_config_conflict)
    prepare_without next.candidate owner d next

  -- `is_candidate`: the record is the candidate.
  unfoldable pub authorize_record :
      ForwardAuthority → State → Bool → ForwardRecord → Infra W Outcome
  authorize_record authority next is_candidate current = do
    hash ← or_raise (infra.declaration_hash current.declaration) InfrastructureError.journal
    raise_if
        (not (in_phase prepared current)
          || not (same Bytes-discrete authority.declaration_hash hash)
          || has_other_authority current.authority authority)
        (rejected forward_authority_conflict)
    pure (changed (with_authority next is_candidate current authority))

  unfoldable pub forward_authorize :
      Request → ForwardOwner → ForwardAuthority → State → ℕ → Infra W Outcome
  forward_authorize request owner authority next now = do
    administrator request
    ensure_live owner now
    io ← or_raise next.io_owner (rejected io_owner_missing)
    raise_if (not (names_holder authority io)) (rejected forward_authority_io_mismatch)
    alive ← io_owner_alive io
    raise_if (not alive) (rejected forward_authority_io_mismatch)
    if is_owned next.candidate owner
        then (do current ← unwrap next.candidate; authorize_record authority next true current)
        else (do
          current ← same_owner next.forward owner
          authorize_record authority next false current)
