-- ===== src/Netd/V2/Tests.antt =====
-- Runs of the service over a world in memory, in which every call succeeds. The world is the marker of
-- the interface, if there is one.
use candy_runtime.Prelude.{
  ℕ, ◌≡◌, refl, ℕ_discrete, true, false, Option, none, some, List, [], ◌∷◌, Result, ok, arith,
}
use candy_runtime.Proto.Tests.{declared}
use candy_runtime.Proto.V2.{
  InfraSpec, ForwardOwner, Request, forward_lease_renew, active, revoked, ack, Body,
}
use candy_runtime.Prelude.Methods.{
  ◌>>=◌, ◌>>◌, pure, raise, raise_if, or_raise, from_result, attempt,
}
use candy_runtime.Netd.V2.Service.{
  from_world, in_world, the_state, the_lifecycle_fd, is_restarting, set_state, set_lifecycle_fd,
  end_restart, unwrap, persist, Infrastructure, InfrastructureService, found, delivered,
}
use candy_runtime.Netd.V2.Device.{
  administrator, verify_device_ownership, identity, any_io_owner_alive, same_namespace, after_stamp,
  open_device, complete_creation,
}
use candy_runtime.Netd.V2.Exchange.{
  and_same_boot, same_boot, fence_policy_intent, reject_remote, discard_intent, ensure_live,
}
use candy_runtime.Netd.V2.Recovery.{
  recover_candidate, recover_cancelled, recover_policy, recover_failures, repair_failures,
  with_cancelled_intent, revoked_record, persist_cancelled, finish_revocation, revoke_expired,
  settle_live, settle, recover_expired,
}
use candy_runtime.Netd.V2.State.{
  Phase-discrete, Number-discrete, Text-discrete, owner_is_live, State, default_state, new_record,
  ForwardRecord, PendingPolicy, is_loadable,
}
use candy_runtime.Netd.V2.Infra.{
  fence_lost, repair_intent, hold_lifecycle_fd, process_start_ticks, with_io_owner,
  repair_interface, infra_acquire_io_fd, answered,
}
use candy_runtime.Netd.V2.Process.{
  process_authorized, check_peer, check_commit, dispatch, conclude, after_store, process, Peer,
}
use candy_runtime.Netd.V2.Forward.{may_renew}
use candy_runtime.Proto.V2.Validate.{validate_request, validate_operation, validate_owner}
use candy_runtime.Proto.Prefix.{Bytes-discrete}
use candy_runtime.Netd.V2.Forward
use candy_runtime.Netd.V2.Fencing.{IsFenced}
use candy_runtime.Netd.V2.Served.{process-IsFenced}
use candy_runtime.Netd.V2.Settled.{IsSettled, recover_expired-IsSettled}
use candy_runtime.Netd.V2.Repair.{
  repair_interface_unloadable, infra_acquire_io_fd-advances, Acquired,
}
use candy_runtime.Netd.V2.Authority.{process_administrator}

abbrev World : Type 0
World = Option (List ℕ)

abbrev reply : {E A : Type 0} → A → World → Result E A × World
reply a w = (ok a, w)

abbrev index_of : World → Option ℕ
index_of none = none
index_of (some m) = some 7

instance abbrev reliable_world : Infrastructure World
reliable_world = record {
  preflight = λ d. reply [];
  prepare_sysctls = λ d c. reply tt;
  restore_sysctls = λ d c. reply tt;
  prepare_firewall = λ d. reply tt;
  remove_firewall = λ d. reply tt;
  update_live_policy = λ d t f. reply tt;
  discard_live_policy = λ d t. reply tt;
  interface_identity = λ w. (ok (index_of w), w);
  interface_ownership_marker = λ w. (ok w, w);
  stamp_infrastructure_ownership = λ m w. (ok tt, some m);
  ensure_infrastructure = λ s. reply 7;
  retire_infrastructure = λ w. (ok tt, none);
  reject_forwarding = λ d. reply tt;
  guard_forwarding = λ d. reply tt;
  restore_forwarding_with_failures = λ d f. reply tt;
  update_failed_forward_prefixes = λ d p f. reply tt;
  validate_forwarding_replacement = λ d t. reply tt;
  retire_forwarding = λ d. reply tt;
  remove_stale_forwarding = λ d t. reply tt;
  create_exclusive = reply 3;
  create_persistent = reply 3;
  enable_persistence = λ fd. reply tt;
  duplicate = λ fd. reply 4;
  store = λ s. reply tt;
  current_boot_id = reply (1 ∷ []);
  new_ownership_marker = reply (9 ∷ []);
  namespace = reply (1, 2);
  process_identity = λ pid. reply (found 83 500);
  signal = λ pid w. (delivered, w);
  declaration_hash = λ d. none;
}

abbrev id16 : List ℕ
id16 = 1 ∷ 0 ∷ 0 ∷ 0 ∷ 0 ∷ 0 ∷ 0 ∷ 0 ∷ 0 ∷ 0 ∷ 0 ∷ 0 ∷ 0 ∷ 0 ∷ 0 ∷ 2 ∷ []

abbrev infra_spec : InfraSpec
infra_spec = record {
  infra_id = id16;
  generation = 1;
  netns_device = 1;
  netns_inode = 2;
  overlay_router_ipv4 = 100 ∷ 64 ∷ 0 ∷ 2 ∷ [];
  mtu = 1200;
}

abbrev owner_until : ℕ → ForwardOwner
owner_until lease = record {
  domain_id = id16;
  signed_generation = 1;
  worker_epoch = 1;
  fencing_token = 4;
  auth_deadline_mono_ms = 9000;
  lease_deadline_mono_ms = lease;
}

abbrev forwarding : State
forwarding = record default_state {
  boot_id = 1 ∷ [];
  spec = some infra_spec;
  ifindex = some 7;
  ownership_marker = some (8 ∷ []);
  administrator = some id16;
  forward = some (new_record (owner_until 1000) declared active);
  last_fencing_token = 4;
}

abbrev service_of : State → World → InfrastructureService World
service_of s w = record {
  allowed_uid = 0;
  allowed_gid = 0;
  world = w;
  state = s;
  lifecycle_fd = none;
  restart_recovery_pending = false;
}

abbrev running : InfrastructureService World
running = service_of forwarding (some (8 ∷ []))

abbrev renewal : Request
renewal = record {
  request_id = 1;
  caller_instance_id = id16;
  caller_pid = 42;
  operation = forward_lease_renew (owner_until 2000);
}

abbrev root : Peer
root = record { uid = 0; gid = 0; pid = 42 }

abbrev renewed : InfrastructureService World
renewed =
    service_of
      (record forwarding { forward = some (new_record (owner_until 2000) declared active) })
      (some (8 ∷ []))

renewal_runs : process renewal root 10 running ≡ (ok (ack, none), renewed)
unfolding process process_authorized check_peer check_commit dispatch conclude after_store ◌>>=◌
    ◌>>◌ pure raise raise_if or_raise from_result attempt from_world in_world the_state
    the_lifecycle_fd is_restarting set_state set_lifecycle_fd end_restart unwrap persist
    Bytes-discrete ℕ_discrete Number-discrete Text-discrete recover_expired recover_candidate
    recover_cancelled recover_policy recover_failures repair_failures with_cancelled_intent
    revoked_record persist_cancelled finish_revocation revoke_expired settle_live settle
    and_same_boot same_boot fence_policy_intent reject_remote discard_intent ensure_live
    Phase-discrete owner_is_live complete_creation administrator Forward.forward_lease_renew
    may_renew validate_request validate_operation validate_owner
renewal_runs = refl

process-IsFenced_example : IsFenced 4 (process renewal root 10 running).1.state
process-IsFenced_example =
    process-IsFenced renewal root 10 running (λ h. ground arith)
      record {
        reached = omega arith;
        forward_fenced = (omega arith, λ h. refl);
        candidate_fenced = tt;
      }

process_administrator_example : running.state.administrator ≡ some renewal.caller_instance_id
process_administrator_example =
    process_administrator renewal root 10 running renewed (ack, none) refl renewal_runs

-- The lease has run out: the record is revoked.
abbrev expired : InfrastructureService World
expired =
    service_of
      (record forwarding { forward = some (new_record (owner_until 1000) declared revoked) })
      (some (8 ∷ []))

expiry_runs : recover_expired 1000 running ≡ (ok true, expired)
unfolding ◌>>=◌ ◌>>◌ pure raise raise_if or_raise from_result attempt from_world in_world the_state
    the_lifecycle_fd is_restarting set_state set_lifecycle_fd end_restart unwrap persist
    Bytes-discrete ℕ_discrete Number-discrete Text-discrete recover_expired recover_candidate
    recover_cancelled recover_policy recover_failures repair_failures with_cancelled_intent
    revoked_record persist_cancelled finish_revocation revoke_expired settle_live settle
    and_same_boot same_boot fence_policy_intent reject_remote discard_intent ensure_live
    Phase-discrete owner_is_live complete_creation
expiry_runs = refl

recover_expired-IsSettled_example :
    IsSettled 1000 (some (new_record (owner_until 1000) declared revoked))
recover_expired-IsSettled_example = recover_expired-IsSettled 1000 true running expired expiry_runs

abbrev intended : PendingPolicy
intended = record {
  cancelled = false;
  revision = 1;
  generation = 1;
  authorization_snapshot_sha256 = [];
  declaration = declared;
}

abbrev publishing : ForwardRecord
publishing = record (new_record (owner_until 1000) declared active) {
  pending_policy = some intended;
}

-- The interface is gone while a policy is published.
abbrev lost : InfrastructureService World
lost = service_of (record forwarding { forward = some publishing }) none

repair_pair : repair_interface lost.state lost ≡ (
  ok (answered (Body.infra_status (some infra_spec) (some 7) none) none),
  (repair_interface lost.state lost).1,
)
unfolding repair_interface fence_lost repair_intent ◌>>=◌ ◌>>◌ pure raise raise_if or_raise
    from_result attempt from_world in_world the_state the_lifecycle_fd is_restarting set_state
    set_lifecycle_fd end_restart unwrap persist Bytes-discrete ℕ_discrete Number-discrete
    Text-discrete verify_device_ownership identity same_namespace after_stamp open_device
    complete_creation any_io_owner_alive
repair_pair = refl

repair_interface_unloadable_example : is_loadable (repair_interface lost.state lost).1.state ≡ false
repair_interface_unloadable_example =
    repair_interface_unloadable lost (repair_interface lost.state lost).1
      (answered (Body.infra_status (some infra_spec) (some 7) none) none) publishing intended refl
      refl repair_pair

acquire_runs : infra_acquire_io_fd renewal id16 1 6 running.state running ≡ (
  ok (answered (Body.io_fd infra_spec 7 6) (some 4)),
  (infra_acquire_io_fd renewal id16 1 6 running.state running).1,
)
unfolding infra_acquire_io_fd hold_lifecycle_fd process_start_ticks with_io_owner ◌>>=◌ ◌>>◌ pure
    raise raise_if or_raise from_result attempt from_world in_world the_state the_lifecycle_fd
    is_restarting set_state set_lifecycle_fd end_restart unwrap persist Bytes-discrete ℕ_discrete
    Number-discrete Text-discrete verify_device_ownership identity same_namespace after_stamp
    open_device complete_creation any_io_owner_alive
acquire_runs = refl

infra_acquire_io_fd-advances_example :
    Acquired forwarding renewal 6
      (infra_acquire_io_fd renewal id16 1 6 running.state running).1.state
infra_acquire_io_fd-advances_example =
    infra_acquire_io_fd-advances renewal id16 1 6 running
      (infra_acquire_io_fd renewal id16 1 6 running.state running).1
      (answered (Body.io_fd infra_spec 7 6) (some 4)) acquire_runs
