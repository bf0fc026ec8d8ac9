-- ===== src/Proto/V2.antt =====
-- The requests and answers of the second protocol version,
-- linux/common/crates/candy-netd-proto/src/v2.rs. A text is the list of its bytes; the JSON codec is
-- that of serde.
pub mod Validate
use candy_runtime.Prelude.{ℕ, Bool, true, false, List, [], Option, ℕ_discrete}
use candy_runtime.Proto.Prefix.{Ipv4Prefix}
use candy_runtime.Proto.Declaration.{PrepareDeclaration}

pub record InfraSpec : Type 0 where
  pub infra_id : List ℕ
  pub generation : ℕ
  pub netns_device : ℕ
  pub netns_inode : ℕ
  pub overlay_router_ipv4 : List ℕ
  pub mtu : ℕ

pub record ForwardOwner : Type 0 where
  pub domain_id : List ℕ
  pub signed_generation : ℕ
  pub worker_epoch : ℕ
  pub fencing_token : ℕ
  pub auth_deadline_mono_ms : ℕ
  pub lease_deadline_mono_ms : ℕ

pub record ForwardAuthority : Type 0 where
  pub transaction_id : List ℕ
  pub authority_revision : ℕ
  pub signed_control_hash : List ℕ
  pub declaration_hash : List ℕ
  pub snapshot_closure_hash : List ℕ
  pub io_epoch : ℕ
  pub io_pid : ℕ
  pub io_start_ticks : ℕ
  pub candidate_pid : ℕ
  pub candidate_start_ticks : ℕ

pub record ForwardAuthorityReceipt : Type 0 where
  pub authority : ForwardAuthority
  pub owner_active : Bool
  pub authorization_deadline_mono_ms : ℕ
  pub packet_proof_reported_mono_ms : ℕ

unfoldable pub InfraSpec-discrete : Discrete InfraSpec
InfraSpec-discrete = hlevel ℕ_discrete

unfoldable pub ForwardOwner-discrete : Discrete ForwardOwner
ForwardOwner-discrete = hlevel ℕ_discrete

unfoldable pub ForwardAuthority-discrete : Discrete ForwardAuthority
ForwardAuthority-discrete = hlevel ℕ_discrete

-- The named fields of a variant are the arguments of its constructor, in the same order.
pub data Operation : Type 0 where
  capabilities : Operation
  in_domain : List ℕ → List ℕ → Operation → Operation
  infra_ensure : InfraSpec → Operation
  infra_status : Operation
  infra_acquire_io_fd infra_release_io : List ℕ → ℕ → ℕ → Operation
  infra_retire : List ℕ → ℕ → Operation
  forward_prepare : List ℕ → ℕ → ForwardOwner → PrepareDeclaration → Operation
  forward_commit : ForwardOwner → Operation
  forward_authorize : ForwardOwner → ForwardAuthority → Operation
  forward_commit_authorized : ForwardOwner → ForwardAuthorityReceipt → Operation
  forward_revoke forward_guard forward_lease_renew : ForwardOwner → Operation
  forward_failed_prefixes : ForwardOwner → ℕ → List Ipv4Prefix → Operation
  forward_policy_update : ForwardOwner → ℕ → ℕ → List ℕ → PrepareDeclaration → Operation
  forward_status : Operation

pub record Request : Type 0 where
  pub request_id : ℕ
  pub caller_instance_id : List ℕ
  pub caller_pid : ℕ
  pub operation : Operation

pub data Phase : Type 0 where
  preparing prepared active guarded revoked : Phase

pub record ForwardStatus : Type 0 where
  pub owner : Option ForwardOwner
  pub phase : Option Phase
  pub candidate_owner : Option ForwardOwner
  pub last_fencing_token : ℕ
  pub failure_revision : ℕ
  pub failed_prefixes : List Ipv4Prefix
  pub pending_failure_revision : Option ℕ
  pub pending_failed_prefixes : Option (List Ipv4Prefix)
  pub active_policy_revision : ℕ
  pub active_policy_generation : Option ℕ
  pub active_policy_hash : Option (List ℕ)
  pub pending_policy_revision : Option ℕ

pub data Body : Type 0 where
  capabilities : ℕ → Bool → Bool → Body
  infra_status : Option InfraSpec → Option ℕ → Option ℕ → Body
  io_fd : InfraSpec → ℕ → ℕ → Body
  forward_status : ForwardStatus → Body
  ack : Body
  error : List ℕ → List ℕ → List ℕ → Body
