-- ===== src/Netd/Reply.antt =====
-- The state and the answers of `NetdService` of linux/common/apps/candy-netd/src/lib.rs. The trait
-- `TunFactory` and the calls of the operating system are one interface; a descriptor is its number.
use candy_runtime.Prelude.{
  ℕ, Bool, true, false, not, ◌||◌, Option, none, some, Result, ok, err, ltb, ◌==◌, if◌then◌else◌,
}
use candy_runtime.Proto.Request.{NetdOperation, NetdRequest}
use candy_runtime.Proto.Session.{NetdSessionError, NetdSession, new_session}
use candy_runtime.Proto.Codec.Response.{ErrorCode, ResponseBody, NetdResponse}
use candy_runtime.Netd.Record.{
  preflight, link_prepare, route_prepare, firewall_prepare, sysctl_prepare, link_activate,
  policy_activate, NetworkError, conflict, invalid_transition, backend, backend_stage, journal,
  drain_pending,
}
use candy_runtime.Netd.Interface.{⊤, NetworkTransaction}

pub record PeerCredentials : Type 0 where
  pub pid : ℕ
  pub uid : ℕ
  pub gid : ℕ

-- What the service asks of its host, `H`: a TUN device, a second descriptor of it, a descriptor of a
-- process, whether a process lives, by its descriptor or by its number, and the monotonic clock.
pub record Host (H : Type 0) : Type 0 where
  pub create : H → Option ℕ × H
  pub duplicate : ℕ → H → Option ℕ × H
  pub open_pidfd : ℕ → H → Option ℕ × H
  pub pidfd_is_ready : ℕ → H → Bool × H
  pub process_is_alive : ℕ → H → Bool × H
  pub monotonic_ms : H → ℕ × H

pub record NetdService (B J H : Type 0) : Type 0 where
  pub allowed_uid : ℕ
  pub allowed_gid : ℕ
  pub session : NetdSession
  pub tun : Option ℕ
  pub owner_pidfd : Option (ℕ × ℕ)
  pub host : H
  pub network : NetworkTransaction B J

abbrev pub default_drain_timeout_ms : ℕ
default_drain_timeout_ms = 2000

abbrev pub max_drain_timeout_ms : ℕ
max_drain_timeout_ms = 30000

-- `DEFAULT_DRAIN_TIMEOUT_MS.min(MAX_DRAIN_TIMEOUT_MS)`
abbrev pub drain_timeout_ms : ℕ
drain_timeout_ms =
    if ltb max_drain_timeout_ms default_drain_timeout_ms
    then max_drain_timeout_ms
    else default_drain_timeout_ms

abbrev pub session_error_code : NetdSessionError → ErrorCode
session_error_code NetdSessionError.generation_conflict = ErrorCode.generation_conflict
session_error_code NetdSessionError.owner_mismatch = ErrorCode.generation_conflict
session_error_code NetdSessionError.invalid_transition = ErrorCode.invalid_request
session_error_code NetdSessionError.invalid_declaration = ErrorCode.invalid_request

abbrev pub network_error_code : NetworkError → ErrorCode
network_error_code conflict = ErrorCode.generation_conflict
network_error_code invalid_transition = ErrorCode.invalid_request
network_error_code backend = ErrorCode.system_failure
network_error_code (backend_stage preflight) = ErrorCode.preflight_failed
network_error_code (backend_stage link_prepare) = ErrorCode.link_prepare_failed
network_error_code (backend_stage route_prepare) = ErrorCode.route_prepare_failed
network_error_code (backend_stage firewall_prepare) = ErrorCode.firewall_prepare_failed
network_error_code (backend_stage sysctl_prepare) = ErrorCode.sysctl_prepare_failed
network_error_code (backend_stage link_activate) = ErrorCode.link_activate_failed
network_error_code (backend_stage policy_activate) = ErrorCode.policy_activate_failed
network_error_code journal = ErrorCode.system_failure
network_error_code drain_pending = ErrorCode.drain_pending

-- The response, the descriptor that is passed with it, and the service after it.
pub record Reply (B J H : Type 0) : Type 0 where
  pub body : ResponseBody
  pub request_id : ℕ
  pub transferred : Option ℕ
  pub after : NetdService B J H

abbrev pub response : {B J H : Type 0} → Reply B J H → NetdResponse
response reply = record { request_id = reply.request_id; body = reply.body }

abbrev pub is_same_pid : Option (ℕ × ℕ) → ℕ → Bool
is_same_pid none pid = false
is_same_pid (some (retained_pid, descriptor)) pid = retained_pid == pid

abbrev pub with_pid : ℕ → Option ℕ → Option (ℕ × ℕ)
with_pid pid none = none
with_pid pid (some descriptor) = some (pid, descriptor)

module _ {B J H : Type 0} where
  -- An answer without a descriptor.
  abbrev pub reply : NetdRequest → ResponseBody → NetdService B J H → Reply B J H
  reply r body s = record { body = body; request_id = r.request_id; transferred = none; after = s }

  abbrev pub refuse : NetdRequest → ErrorCode → NetdService B J H → Reply B J H
  refuse r code s = reply r (ResponseBody.error code) s

  -- `self.session = next_session`
  abbrev pub accept : NetdRequest → NetdSession → ResponseBody → NetdService B J H → Reply B J H
  accept r next body s = reply r body (record s { session = next })

  abbrev pub drop_tun : NetdService B J H → NetdService B J H
  drop_tun s = record s { tun = none }

  abbrev pub is_unauthorized : NetdRequest → PeerCredentials → NetdService B J H → Bool
  is_unauthorized r peer s =
      not (peer.uid == s.allowed_uid)
      || not (peer.gid == s.allowed_gid)
      || not (r.owner.pid == peer.pid)

  abbrev pub answered :
      NetdRequest
      → NetdSession
      → ResponseBody
      → Result NetworkError ⊤ × NetdService B J H
      → Reply B J H
  answered r next body (ok done, s) = accept r next body s
  answered r next body (err e, s) = refuse r (network_error_code e) s

  -- `commit` also closes the TUN where it fails, `rollback` where it succeeds.
  abbrev pub committed :
      NetdRequest
      → NetdSession
      → ResponseBody
      → Result NetworkError ⊤ × NetdService B J H
      → Reply B J H
  committed r next body (ok done, s) = accept r next body s
  committed r next body (err e, s) = refuse r (network_error_code e) (drop_tun s)

  abbrev pub rolled_back :
      NetdRequest
      → NetdSession
      → ResponseBody
      → Result NetworkError ⊤ × NetdService B J H
      → Reply B J H
  rolled_back r next body (ok done, s) =
      accept r next body (record s { tun = none; owner_pidfd = none })
  rolled_back r next body (err e, s) = refuse r (network_error_code e) s

  abbrev pub duplicated : NetdRequest → NetdSession → NetdService B J H → Option ℕ × H → Reply B J H
  duplicated r next s (none, h) = refuse r ErrorCode.system_failure (record s { host = h })
  duplicated r next s (some descriptor, h) = record {
    body = ResponseBody.prepared r.owner.generation true;
    request_id = r.request_id;
    transferred = some descriptor;
    after = record s { session = next; host = h };
  }

  -- The session and the descriptors of a service that holds nothing.
  abbrev pub reset : NetdService B J H → NetdService B J H
  reset s = record s { session = new_session; tun = none; owner_pidfd = none }

  abbrev pub recovered :
      Result NetworkError Bool × NetdService B J H → Result NetworkError Bool × NetdService B J H
  recovered (ok true, s) = (ok true, reset s)
  recovered (ok false, s) = (ok false, s)
  recovered (err e, s) = (err e, s)

  abbrev pub shut :
      Result NetworkError ⊤ × NetdService B J H → Result NetworkError Bool × NetdService B J H
  shut (ok done, s) = (ok true, reset s)
  shut (err e, s) = (err e, s)

abbrev pub is_status : NetdOperation → Bool
is_status NetdOperation.status = true
is_status _ = false

abbrev pub with_network : {B J H : Type 0} → ℕ → ℕ → H → NetworkTransaction B J → NetdService B J H
with_network uid gid h network = record {
  allowed_uid = uid;
  allowed_gid = gid;
  session = new_session;
  tun = none;
  owner_pidfd = none;
  host = h;
  network = network;
}
