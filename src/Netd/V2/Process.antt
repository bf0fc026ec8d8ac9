-- ===== src/Netd/V2/Process.antt =====
-- `process` of linux/common/apps/candy-netd/src/v2.rs: one request of a peer.
use candy_runtime.Prelude.{
  ℕ, Bool, true, false, not, ◌&&◌, ◌||◌, Option, none, some, ◌==◌, same, is_some, if◌then◌else◌,
  Result, ok, err,
}
use candy_runtime.Prelude.Methods.{◌>>=◌, ◌>>◌, pure, raise, raise_if, or_raise, attempt}
use candy_runtime.Proto.V2.{
  ForwardOwner, ForwardAuthority, ForwardAuthority-discrete, ForwardAuthorityReceipt, Operation,
  Request, Body, ack, in_domain, infra_ensure, infra_acquire_io_fd, infra_release_io, infra_retire,
  forward_prepare, forward_commit, forward_authorize, forward_commit_authorized, forward_revoke,
  forward_guard, forward_lease_renew, forward_failed_prefixes, forward_policy_update, guarded,
}
use candy_runtime.Proto.V2.Operation.{capabilities, infra_status, forward_status}
use candy_runtime.Proto.V2.Validate.{validate_request}
use candy_runtime.Netd.Interface.{⊤}
use candy_runtime.Netd.V2.State.{State, ForwardRecord, IoOwner, in_phase, passes, proof_is_fresh}
use candy_runtime.Netd.V2.Service.{
  Infra, Infrastructure, InfrastructureError, rejected, invalid_request, unauthorized_peer,
  domain_router_required, io_owner_missing, forward_authority_missing,
  forward_authority_receipt_mismatch, forward_prefix_repair_pending, forward_policy_repair_pending,
  from_backend, the_state, panic, persist,
}
use candy_runtime.Netd.V2.Device.{administrator, io_owner_alive, business_process_epoch_alive}
use candy_runtime.Netd.V2.Recovery.{recover_expired}
use candy_runtime.Netd.V2.Infra.{Outcome, answered, changed, status_of}
use candy_runtime.Netd.V2.Prepare.{names_holder}
use candy_runtime.Netd.V2.Commit.{record_of}
use candy_runtime.Netd.V2.Forward.{status_answer}
use candy_runtime.Netd.V2.Infra
use candy_runtime.Netd.V2.Prepare
use candy_runtime.Netd.V2.Commit
use candy_runtime.Netd.V2.Forward

-- `PeerCredentials` of linux/common/apps/candy-netd/src/lib.rs
pub record Peer : Type 0 where
  pub uid : ℕ
  pub gid : ℕ
  pub pid : ℕ

abbrev pub is_capabilities : Operation → Bool
is_capabilities capabilities = true
is_capabilities _ = false

-- What the pending repair of a failure snapshot holds back
abbrev pub replaces_forwarding : Operation → Bool
replaces_forwarding (forward_prepare i g o d) = true
replaces_forwarding (forward_commit o) = true
replaces_forwarding _ = false

-- What the pending publication of a policy holds back
abbrev pub changes_routes : Operation → Bool
changes_routes (forward_prepare i g o d) = true
changes_routes (forward_commit o) = true
changes_routes (forward_guard o) = true
changes_routes (forward_failed_prefixes o r f) = true
changes_routes _ = false

abbrev pub has_pending_failures : Option ForwardRecord → Bool
has_pending_failures none = false
has_pending_failures (some f) = is_some f.pending_failed_prefixes

abbrev pub has_pending_policy : Option ForwardRecord → Bool
has_pending_policy none = false
has_pending_policy (some f) = is_some f.pending_policy

abbrev pub is_authority : Option ForwardAuthority → ForwardAuthority → Bool
is_authority none a = false
is_authority (some b) a = same ForwardAuthority-discrete b a

-- `ForwardCommitAuthorized` is treated as `ForwardCommit` once its receipt is accepted.
abbrev pub normalized : Operation → Operation
normalized (forward_commit_authorized owner receipt) = forward_commit owner
normalized operation = operation

abbrev pub is_authorized_commit : Operation → Bool
is_authorized_commit (forward_commit_authorized owner receipt) = true
is_authorized_commit _ = false

-- The part of the receipt that is decided without looking at the processes
unfoldable pub names_candidate : ForwardRecord → IoOwner → ForwardAuthorityReceipt → Bool
names_candidate f io receipt =
    is_authority f.authority receipt.authority && names_holder receipt.authority io

-- The part that is decided after the I/O owner was found alive
unfoldable pub proves_owner : ForwardOwner → ForwardAuthorityReceipt → ℕ → Bool
proves_owner owner receipt now =
    receipt.owner_active
    && (receipt.authorization_deadline_mono_ms == owner.auth_deadline_mono_ms)
    && proof_is_fresh now receipt.packet_proof_reported_mono_ms

module _ {W : Type 0} ⦃infra : Infrastructure W⦄ where
  unfoldable pub check_peer : Request → Peer → Infra W ⊤
  check_peer request peer s =
      raise_if
        (not (peer.uid == s.allowed_uid)
          || not (peer.gid == s.allowed_gid)
          || not (peer.pid == request.caller_pid))
        (rejected unauthorized_peer) s

  unfoldable pub check_receipt : Request → ForwardOwner → ForwardAuthorityReceipt → ℕ → Infra W ⊤
  check_receipt request owner receipt now = do
    administrator request
    s ← the_state
    current ← or_raise (record_of s owner) (rejected forward_authority_missing)
    io ← or_raise s.io_owner (rejected io_owner_missing)
    raise_if (not (names_candidate current io receipt))
        (rejected forward_authority_receipt_mismatch)
    holder ← io_owner_alive io
    raise_if (not holder || not (proves_owner owner receipt now))
        (rejected forward_authority_receipt_mismatch)
    business ←
        business_process_epoch_alive receipt.authority.candidate_pid
          receipt.authority.candidate_start_ticks
    raise_if (not business) (rejected forward_authority_receipt_mismatch)

  unfoldable pub check_commit : Request → Operation → ℕ → Infra W ⊤
  check_commit request (forward_commit_authorized owner receipt) now =
      check_receipt request owner receipt now
  check_commit request _ now = pure tt

  unfoldable pub dispatch : Request → Operation → Bool → State → ℕ → Infra W Outcome
  dispatch request (in_domain i h o) authenticated next now =
      raise (rejected domain_router_required)
  dispatch request capabilities authenticated next now = raise panic
  dispatch request (forward_commit_authorized o r) authenticated next now = raise panic
  dispatch request infra_status authenticated next now = pure (status_of next)
  dispatch request (infra_ensure spec) authenticated next now = Infra.infra_ensure request spec next
  dispatch request (infra_acquire_io_fd i g e) authenticated next now =
      Infra.infra_acquire_io_fd request i g e next
  dispatch request (infra_release_io i g e) authenticated next now =
      Infra.infra_release_io request i g e next
  dispatch request (infra_retire i g) authenticated next now = Infra.infra_retire request i g next
  dispatch request (forward_prepare i g o d) authenticated next now =
      Prepare.forward_prepare request i g o d next now
  dispatch request (forward_authorize o a) authenticated next now =
      Prepare.forward_authorize request o a next now
  dispatch request (forward_commit o) authenticated next now =
      Commit.forward_commit request o authenticated next now
  dispatch request (forward_guard o) authenticated next now =
      Forward.forward_guard request o next now
  dispatch request (forward_revoke o) authenticated next now =
      Forward.forward_revoke request o next now
  dispatch request (forward_lease_renew o) authenticated next now =
      Forward.forward_lease_renew request o next now
  dispatch request (forward_failed_prefixes o r f) authenticated next now =
      Forward.forward_failed_prefixes request o r f next now
  dispatch request (forward_policy_update o r g h d) authenticated next now =
      Forward.forward_policy_update request o
        record {
          cancelled = false;
          revision = r;
          generation = g;
          authorization_snapshot_sha256 = h;
          declaration = d;
        }
        next now
  dispatch request forward_status authenticated next now = pure (status_answer next)

  -- `let _ =`: the kernel is fenced, and the outcome of that is not looked at.
  unfoldable pub fence_stored : Option ForwardRecord → Infra W ⊤
  fence_stored none = pure tt
  fence_stored (some f) = do
    fenced ← attempt (
        from_backend (
          if in_phase guarded f
          then infra.guard_forwarding f.declaration
          else infra.reject_forwarding f.declaration))
    pure tt

  unfoldable pub after_store : Result InfrastructureError ⊤ → Infra W (Body × Option ℕ)
  after_store (ok done) = pure (ack, none)
  after_store (err e) = do s ← the_state; fence_stored s.forward; raise e

  unfoldable pub conclude : Outcome → Infra W (Body × Option ℕ)
  conclude (answered body descriptor) = pure (body, descriptor)
  conclude (changed next) = do stored ← attempt (persist next); after_store stored

  unfoldable pub process_authorized : Request → ℕ → Infra W (Body × Option ℕ)
  process_authorized request now = do
    recovered ← recover_expired now
    check_commit request request.operation now
    s ← the_state
    let operation = normalized request.operation
    raise_if (has_pending_failures s.forward && replaces_forwarding operation)
        (rejected forward_prefix_repair_pending)
    raise_if (has_pending_policy s.forward && changes_routes operation)
        (rejected forward_policy_repair_pending)
    outcome ← dispatch request operation (is_authorized_commit request.operation) s now
    conclude outcome

  unfoldable pub process : Request → Peer → ℕ → Infra W (Body × Option ℕ)
  process request peer now = do
    raise_if (not (passes (validate_request request))) (rejected invalid_request)
    check_peer request peer
    if is_capabilities request.operation
        then pure (Body.capabilities 2 true false, none)
        else process_authorized request now
