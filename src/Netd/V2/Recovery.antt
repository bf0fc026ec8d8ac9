-- ===== src/Netd/V2/Recovery.antt =====
-- `recover_expired` of linux/common/apps/candy-netd/src/v2.rs, step by step.
use candy_runtime.Prelude.{
  ℕ, Bool, true, false, not, ◌&&◌, ◌||◌, List, Option, none, some, is_some, if◌then◌else◌, Result,
  ok, err,
}
use candy_runtime.Prelude.Methods.{◌>>=◌, ◌>>◌, pure, or_raise, attempt}
use candy_runtime.Proto.Prefix.{Ipv4Prefix}
use candy_runtime.Proto.V2.{preparing, prepared, active, guarded, revoked}
use candy_runtime.Netd.Interface.{⊤}
use candy_runtime.Netd.V2.State.{ForwardRecord, PendingPolicy, owner_is_live, in_phase}
use candy_runtime.Netd.V2.Service.{
  Infra, Infrastructure, InfrastructureError, rejected, forward_missing, from_backend, the_state,
  is_restarting, end_restart, unwrap, persist,
}
use candy_runtime.Netd.V2.Device.{identity, complete_creation}
use candy_runtime.Netd.V2.Exchange.{
  fence_policy_intent, reconcile_live_policy, and_same_boot, same_boot, rollback_replacement,
}

abbrev pub succeeded : {A : Type 0} → Result InfrastructureError A → Bool
succeeded (ok a) = true
succeeded (err e) = false

-- The policy intent is cancelled.
abbrev pub is_cancelled : Option PendingPolicy → Bool
is_cancelled none = false
is_cancelled (some p) = p.cancelled

abbrev pub has_cancelled : Option ForwardRecord → Bool
has_cancelled none = false
has_cancelled (some f) = is_cancelled f.pending_policy

abbrev pub is_live_active : ForwardRecord → ℕ → Bool
is_live_active f now = in_phase active f && owner_is_live f.owner now

abbrev pub has_live_intent : Option ForwardRecord → ℕ → Bool
has_live_intent none now = false
has_live_intent (some f) now = is_some f.pending_policy && is_live_active f now

-- The record with its policy intent marked as cancelled
abbrev pub cancel : Option PendingPolicy → Option PendingPolicy
cancel none = none
cancel (some p) = some (record p { cancelled = true })

unfoldable pub with_cancelled_intent : ForwardRecord → ForwardRecord
with_cancelled_intent f = record f { pending_policy = cancel f.pending_policy }

-- The record that is revoked, with nothing left to repair
unfoldable pub revoked_record : ForwardRecord → ForwardRecord
revoked_record f = record f {
  phase = revoked;
  pending_policy = none;
  pending_failed_prefixes = none;
  pending_failure_revision = none;
}

unfoldable pub repaired_failures : ForwardRecord → List Ipv4Prefix → ℕ → ForwardRecord
repaired_failures f target revision = record f {
  failed_prefixes = target;
  failure_revision = revision;
  pending_failed_prefixes = none;
  pending_failure_revision = none;
}

module _ {W : Type 0} ⦃infra : Infrastructure W⦄ where
  unfoldable pub recover_candidate : Option ForwardRecord → ℕ → Infra W Bool
  recover_candidate none now = pure false
  recover_candidate (some candidate) now =
      if in_phase preparing candidate
      then (do
        s ← the_state
        previous ← or_raise s.forward (rejected forward_missing)
        rollback_replacement previous candidate now
        pure true)
      else (do
        restarting ← is_restarting
        if restarting || not (owner_is_live candidate.owner now)
            then (do s ← the_state; persist record s { candidate = none }; pure true)
            else pure false)

  unfoldable pub recover_cancelled : Infra W Bool
  recover_cancelled = do
    s ← the_state
    if has_cancelled s.forward
        then (do
          forward ← unwrap s.forward
          fence_policy_intent forward
          t ← the_state
          retained ← unwrap t.forward
          persist record t {
            forward = some (record retained { phase = revoked; pending_policy = none });
          }
          pure true)
        else pure false

  unfoldable pub recover_policy : ℕ → Infra W Bool
  recover_policy now = do
    s ← the_state
    live ← and_same_boot (has_live_intent s.forward now)
    if live
        then (do result ← attempt (reconcile_live_policy now); pure (succeeded result))
        else pure false

  unfoldable pub finish_failures : Result InfrastructureError ⊤ → List Ipv4Prefix → Infra W Bool
  finish_failures (err e) target = pure false
  finish_failures (ok done) target = do
    s ← the_state
    retained ← unwrap s.forward
    revision ← unwrap retained.pending_failure_revision
    persist record s { forward = some (repaired_failures retained target revision) }
    pure true

  unfoldable pub repair_failures : ForwardRecord → Option (List Ipv4Prefix) → Infra W Bool
  repair_failures f none = pure false
  repair_failures f (some target) = do
    s ← the_state
    spec ← unwrap s.spec
    retained_spec ← identity spec.infra_id spec.generation
    result ←
        attempt (
          from_backend
            (infra.update_failed_forward_prefixes f.declaration f.failed_prefixes target))
    finish_failures result target

  unfoldable pub recover_failures : Option ForwardRecord → ℕ → Infra W Bool
  recover_failures none now = pure false
  recover_failures (some f) now = do
    live ← and_same_boot (is_live_active f now)
    if live then repair_failures f f.pending_failed_prefixes else pure false

  unfoldable pub persist_cancelled : ForwardRecord → Infra W ⊤
  persist_cancelled f = do
    s ← the_state
    if is_some f.pending_policy
        then persist record s { forward = some (with_cancelled_intent f) }
        else pure tt

  unfoldable pub finish_revocation : Infra W Bool
  finish_revocation = do
    s ← the_state
    retained ← unwrap s.forward
    persist record s { forward = some (revoked_record retained) }
    end_restart
    pure true

  -- The owner has expired, or a restart has interrupted its preparation.
  unfoldable pub revoke_expired : ForwardRecord → Infra W Bool
  revoke_expired f = do
    persist_cancelled f
    fence_policy_intent (with_cancelled_intent f)
    finish_revocation

  unfoldable pub settle_live : ForwardRecord → Bool → ℕ → Infra W Bool
  settle_live f recovered now = do
    restarting ← is_restarting
    unchanged ← same_boot
    if in_phase guarded f && unchanged && owner_is_live f.owner now
        then (do from_backend (infra.guard_forwarding f.declaration); end_restart; pure true)
        else if not (restarting && (in_phase preparing f || in_phase prepared f))
            && unchanged
            && owner_is_live f.owner now
        then (do end_restart; pure recovered)
        else revoke_expired f

  unfoldable pub settle : Option ForwardRecord → Bool → ℕ → Infra W Bool
  settle none recovered now = do end_restart; pure recovered
  settle (some f) recovered now =
      if in_phase revoked f then (do end_restart; pure recovered) else settle_live f recovered now

  unfoldable pub recover_expired : ℕ → Infra W Bool
  recover_expired now = do
    complete_creation
    first ← the_state
    candidate_recovered ← recover_candidate first.candidate now
    cancelled_recovered ← recover_cancelled
    policy_recovered ← recover_policy now
    repaired ← the_state
    failures_recovered ← recover_failures repaired.forward now
    last ← the_state
    settle last.forward
        (candidate_recovered || cancelled_recovered || policy_recovered || failures_recovered) now
