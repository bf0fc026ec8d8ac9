-- ===== src/Netd/Service.antt =====
-- `NetdService` of linux/common/apps/candy-netd/src/lib.rs: a request of a peer goes through the
-- session and then to the network transaction.
pub mod Answers
pub mod Events
pub mod Tests
use candy_runtime.Netd.Reply.{
  PeerCredentials, Host, NetdService, default_drain_timeout_ms, max_drain_timeout_ms,
  drain_timeout_ms, session_error_code, network_error_code, Reply, response, is_same_pid, with_pid,
  reply, refuse, accept, drop_tun, is_unauthorized, answered, committed, rolled_back, duplicated,
  reset, recovered, shut, is_status, with_network,
}
use candy_runtime.Prelude.{
  ℕ, Bool, true, false, not, ◌||◌, List, [], ◌∷◌, Option, none, some, Result, ok, err, ltb, ◌==◌,
  if◌then◌else◌, length,
}
use candy_runtime.Proto.Request.{LeaseOwner, NetdOperation, NetdRequest}
use candy_runtime.Proto.Session.{NetdSessionError, NetdSession, new_session, apply}
use candy_runtime.Proto.Codec.Response.{ErrorCode, ResponseBody, NetdResponse}
use candy_runtime.Netd.Record.{
  BackendStage, preflight, link_prepare, route_prepare, firewall_prepare, sysctl_prepare,
  link_activate, policy_activate, NetworkError, conflict, invalid_transition, backend,
  backend_stage, journal, drain_pending,
}
use candy_runtime.Netd.Interface.{⊤, NetworkBackend, NetworkJournal, NetworkTransaction}
use candy_runtime.Netd.Transaction.Recover.{recover_orphan}
use candy_runtime.Netd.Transaction.Controller.{ControllerCall, perform, retained_owner}

module _ {B J H : Type 0} ⦃backend : NetworkBackend B⦄ ⦃journal : NetworkJournal J⦄
    ⦃host : Host H⦄ where
  unfoldable pub call :
      ControllerCall → LeaseOwner → NetdService B J H → Result NetworkError ⊤ × NetdService B J H
  call c owner s =
      let (result, network) = perform c owner s.network in (result, record s { network = network })

  unfoldable pub watch_owner : LeaseOwner → NetdService B J H → NetdService B J H
  watch_owner owner s =
      if is_same_pid s.owner_pidfd owner.pid
      then s
      else (let (descriptor, h) = host.open_pidfd owner.pid s.host in
          record s { owner_pidfd = with_pid owner.pid descriptor; host = h })

  -- After the call of the network; the TUN is the descriptor `tun`.
  abbrev pub prepared_with :
      NetdRequest → NetdSession → ℕ → Result NetworkError ⊤ × NetdService B J H → Reply B J H
  prepared_with r next tun (err e, s) = refuse r (network_error_code e) (drop_tun s)
  prepared_with r next tun (ok done, s) =
      let watched = watch_owner r.owner s in
      duplicated r next watched (host.duplicate tun watched.host)

  abbrev pub created :
      ControllerCall → NetdRequest → NetdSession → NetdService B J H → Option ℕ × H → Reply B J H
  created c r next s (none, h) = refuse r ErrorCode.system_failure (record s { host = h })
  created c r next s (some tun, h) =
      prepared_with r next tun (call c r.owner (record s { tun = some tun; host = h }))

  -- The TUN is created where there is none.
  abbrev pub prepare_on :
      Option ℕ → ControllerCall → NetdRequest → NetdSession → NetdService B J H → Reply B J H
  prepare_on (some tun) c r next s = prepared_with r next tun (call c r.owner s)
  prepare_on none c r next s = created c r next s (host.create s.host)

  abbrev pub commit_at : NetdRequest → NetdSession → NetdService B J H → ℕ × H → Reply B J H
  commit_at r next s (now, h) =
      committed r next (ResponseBody.committed r.owner.generation) (
        call (ControllerCall.commit_with_drain now drain_timeout_ms) r.owner
          (record s { host = h }))

  -- The match on the operation, after the session has accepted it.
  unfoldable pub process_operation :
      NetdOperation → NetdRequest → NetdSession → NetdService B J H → Reply B J H
  process_operation (NetdOperation.prepare d) r next s =
      prepare_on s.tun (ControllerCall.prepare d) r next s
  process_operation NetdOperation.commit r next s = commit_at r next s (host.monotonic_ms s.host)
  process_operation NetdOperation.rollback r next s =
      rolled_back r next (ResponseBody.rolled_back r.owner.generation)
        (call ControllerCall.rollback r.owner s)
  process_operation NetdOperation.status r next s =
      accept r next (ResponseBody.status next.phase r.owner.generation) s
  process_operation NetdOperation.lease_renew r next s =
      answered r next (ResponseBody.lease_renewed r.owner.generation)
        (call ControllerCall.renew_lease r.owner s)
  process_operation (NetdOperation.mtu_update mtu) r next s =
      answered r next (ResponseBody.mtu_updated r.owner.generation mtu)
        (call (ControllerCall.update_mtu mtu) r.owner s)
  process_operation NetdOperation.suspend r next s =
      answered r next (ResponseBody.suspended r.owner.generation)
        (call ControllerCall.suspend r.owner s)
  process_operation (NetdOperation.reconfigure d) r next s =
      answered r next (ResponseBody.reconfigured r.owner.generation)
        (call (ControllerCall.reconfigure d) r.owner s)
  process_operation (NetdOperation.policy_update d) r next s =
      answered r next (ResponseBody.policy_updated r.owner.generation)
        (call (ControllerCall.update_policy d) r.owner s)
  process_operation NetdOperation.resume r next s =
      answered r next (ResponseBody.resumed r.owner.generation)
        (call ControllerCall.resume r.owner s)
  process_operation (NetdOperation.drain now) r next s =
      answered r next (ResponseBody.drained r.owner.generation)
        (call (ControllerCall.drain_old now) r.owner s)
  process_operation (NetdOperation.withdraw_prefixes ps) r next s =
      answered r next (ResponseBody.prefixes_withdrawn r.owner.generation (length ps))
        (call (ControllerCall.set_failed_prefixes ps) r.owner s)

  -- The session is changed on a copy, which is kept only with an answer that is no error.
  abbrev pub process_applied :
      Result NetdSessionError ⊤ × NetdSession → NetdRequest → NetdService B J H → Reply B J H
  process_applied (err e, next) r s = refuse r (session_error_code e) s
  process_applied (ok done, next) r s = process_operation r.operation r next s

  unfoldable pub process : NetdRequest → PeerCredentials → NetdService B J H → Reply B J H
  process r peer s =
      if is_unauthorized r peer s
      then refuse r ErrorCode.unauthorized_peer s
      else if is_status r.operation
      then reply r (ResponseBody.status s.session.phase r.owner.generation) s
      else process_applied (apply r s.session) r s

  -- `owner_is_alive`
  abbrev pub alive_by : Option (ℕ × ℕ) → ℕ → NetdService B J H → Bool × H
  alive_by none pid s = host.process_is_alive pid s.host
  alive_by (some (retained_pid, descriptor)) pid s =
      if retained_pid == pid
      then (let (ready, h) = host.pidfd_is_ready descriptor s.host in (not ready, h))
      else host.process_is_alive pid s.host

  abbrev pub owner_is_alive : Option LeaseOwner → NetdService B J H → Bool × H
  owner_is_alive none s = (false, s.host)
  owner_is_alive (some owner) s = alive_by s.owner_pidfd owner.pid s

  abbrev pub recover_with :
      ℕ → NetdService B J H → Bool × H → Result NetworkError Bool × NetdService B J H
  recover_with now s (alive, h) =
      let (result, network) = recover_orphan alive now s.network in
      recovered (result, record s { network = network; host = h })

  -- `NetdService::recover_orphan`
  unfoldable pub recover : ℕ → NetdService B J H → Result NetworkError Bool × NetdService B J H
  recover now s = recover_with now s (owner_is_alive (retained_owner s.network) s)

  abbrev pub shutdown_of :
      Option LeaseOwner → NetdService B J H → Result NetworkError Bool × NetdService B J H
  shutdown_of none s = (ok false, s)
  shutdown_of (some owner) s = shut (call ControllerCall.rollback owner s)

  unfoldable pub shutdown : NetdService B J H → Result NetworkError Bool × NetdService B J H
  shutdown s = shutdown_of (retained_owner s.network) s
