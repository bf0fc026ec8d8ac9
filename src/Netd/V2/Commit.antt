-- ===== src/Netd/V2/Commit.antt =====
-- `ForwardCommit` in `process` of linux/common/apps/candy-netd/src/v2.rs.
use candy_runtime.Prelude.{
  ℕ, Bool, false, not, ◌&&◌, Option, none, some, same, is_some, if◌then◌else◌, Result, ok, err,
}
use candy_runtime.Prelude.Methods.{◌>>=◌, ◌>>◌, pure, raise, raise_if, or_raise, attempt}
use candy_runtime.Proto.Declaration.{PrepareDeclaration-discrete}
use candy_runtime.Proto.V2.{ForwardOwner, Request, ack, Phase, preparing, prepared, active}
use candy_runtime.Netd.Interface.{⊤}
use candy_runtime.Netd.V2.State.{State, ForwardRecord, Prefixes-discrete, in_phase}
use candy_runtime.Netd.V2.Service.{
  Infra, Infrastructure, InfrastructureError, rejected, infra_missing, forward_missing,
  forward_authority_receipt_required, invalid_forward_phase, repair_pending, from_backend, unwrap,
  persist,
}
use candy_runtime.Netd.V2.Device.{administrator, identity}
use candy_runtime.Netd.V2.Exchange.{
  ensure_live, same_owner, install_replacement, rollback_replacement,
}
use candy_runtime.Netd.V2.Infra.{Outcome, answered, changed}
use candy_runtime.Netd.V2.Prepare.{is_owned}

abbrev pub with_phase : Phase → ForwardRecord → ForwardRecord
with_phase p f = record f { phase = p }

-- The record of this owner, the candidate first
abbrev pub record_of : State → ForwardOwner → Option ForwardRecord
record_of next owner =
    if is_owned next.candidate owner
    then next.candidate
    else if is_owned next.forward owner
    then next.forward
    else none

abbrev pub has_authority : Option ForwardRecord → Bool
has_authority none = false
has_authority (some f) = is_some f.authority

-- The owner changes and nothing in the kernel does.
unfoldable pub keeps_policy : ForwardRecord → ForwardRecord → Bool
keeps_policy previous candidate =
    in_phase active previous
    && same PrepareDeclaration-discrete candidate.declaration previous.declaration
    && same Prefixes-discrete candidate.failed_prefixes previous.failed_prefixes
    && not (is_some previous.pending_failed_prefixes)
    && not (is_some candidate.pending_failed_prefixes)

-- The candidate is the forwarding policy.
unfoldable pub committed : State → ForwardRecord → State
committed next candidate = record next {
  forward = some (with_phase active candidate);
  candidate = none;
}

module _ {W : Type 0} ⦃infra : Infrastructure W⦄ where
  unfoldable pub after_rollback :
      {A : Type 0} → InfrastructureError → Result InfrastructureError ⊤ → Infra W A
  after_rollback e (ok done) = raise e
  after_rollback e (err recovery) = raise (repair_pending e recovery)

  unfoldable pub or_rollback :
      Result InfrastructureError ⊤ → ForwardRecord → ForwardRecord → ℕ → Infra W ⊤
  or_rollback (ok done) previous candidate now = pure tt
  or_rollback (err e) previous candidate now = do
    recovery ← attempt (rollback_replacement previous candidate now)
    after_rollback e recovery

  unfoldable pub exchange : ForwardRecord → ForwardRecord → State → ℕ → Infra W Outcome
  exchange previous candidate next now = do
    persist record next { candidate = some (with_phase preparing candidate) }
    installed ← attempt (install_replacement previous (with_phase preparing candidate) next.sysctls)
    or_rollback installed previous (with_phase preparing candidate) now
    stored ← attempt (persist (committed next candidate))
    or_rollback stored previous (with_phase active candidate) now
    pure (answered ack none)

  unfoldable pub commit_candidate : ForwardRecord → State → ℕ → Infra W Outcome
  commit_candidate candidate next now = do
    previous ← or_raise next.forward (rejected forward_missing)
    from_backend (infra.validate_forwarding_replacement previous.declaration candidate.declaration)
    if keeps_policy previous candidate
        then (do persist (committed next candidate); pure (answered ack none))
        else exchange previous candidate next now

  unfoldable pub or_reject : Result InfrastructureError ⊤ → ForwardRecord → Infra W ⊤
  or_reject (ok done) current = pure tt
  or_reject (err e) current = do from_backend (infra.reject_forwarding current.declaration); raise e

  unfoldable pub commit_first : ForwardOwner → State → Infra W Outcome
  commit_first owner next = do
    current ← same_owner next.forward owner
    if in_phase active current then pure (answered ack none) else (do
      raise_if (not (in_phase prepared current)) (rejected invalid_forward_phase)
      restored ← attempt (
          from_backend
            (infra.restore_forwarding_with_failures current.declaration current.failed_prefixes))
      or_reject restored current
      pure (changed record next { forward = some (with_phase active current) }))

  unfoldable pub forward_commit : Request → ForwardOwner → Bool → State → ℕ → Infra W Outcome
  forward_commit request owner authenticated next now = do
    administrator request
    ensure_live owner now
    spec ← or_raise next.spec (rejected infra_missing)
    retained ← identity spec.infra_id spec.generation
    raise_if (has_authority (record_of next owner) && not authenticated)
        (rejected forward_authority_receipt_required)
    if is_owned next.candidate owner
        then (do candidate ← unwrap next.candidate; commit_candidate candidate next now)
        else commit_first owner next
