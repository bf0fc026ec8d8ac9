-- ===== src/Netd/V2/Service.antt =====
-- `InfrastructureService` of linux/common/apps/candy-netd/src/v2.rs: its errors, its state, and what it
-- uses of the backend, the TUN factory, the journal file and the operating system, which are
-- parameters. The text of an error stands for the error itself.
use candy_runtime.Prelude.{ℕ, Bool, false, List, Option, Result, ok, err}
use candy_runtime.Prelude.Methods.{Method, ◌>>◌, or_raise}
use candy_runtime.Proto.Prefix.{Ipv4Prefix}
use candy_runtime.Proto.Declaration.{PrepareDeclaration}
use candy_runtime.Proto.V2.{InfraSpec}
use candy_runtime.Netd.Record.{SysctlChange, NetworkError, BackendStage, backend_stage}
use candy_runtime.Netd.Interface.{⊤, Call}
use candy_runtime.Netd.V2.State.{State}

-- The `code` of a rejection.
pub data RejectCode : Type 0 where
  invalid_request unauthorized_peer domain_router_required : RejectCode
  infra_owner_conflict infra_missing infra_generation_conflict infra_identity_conflict : RejectCode
  infra_ownership_conflict infra_intent_invalid infra_namespace_conflict : RejectCode
  infra_unowned_interface infra_config_conflict infra_policy_attribute_conflict : RejectCode
  io_owner_missing io_owner_alive stale_io_epoch forwarding_active : RejectCode
  forward_authority_missing forward_authority_receipt_mismatch : RejectCode
  forward_authority_io_mismatch forward_authority_conflict : RejectCode
  forward_authority_receipt_required forward_prefix_repair_pending : RejectCode
  forward_policy_repair_pending forward_policy_cancelled forward_policy_intent_missing : RejectCode
  forward_candidate_pending forward_missing unsupported_multi_domain stale_forward_owner :
      RejectCode
  forward_preparation_pending invalid_forward_phase stale_failure_revision : RejectCode
  forward_not_active stale_policy_revision forward_owner_expired invalid_failed_prefix : RejectCode

-- The `stage` of a transition error.
pub data Stage : Type 0 where
  guard_previous guard_candidate remove_previous_firewall candidate_sysctls : Stage
  candidate_firewall remove_previous_routes candidate_routes : Stage
  failed_prefix_routes live_policy_routes_firewall : Stage

-- `Ipc` and `ResourceBudget` are errors of code that is not modelled; an `io::Error` is one value.
pub data InfrastructureError : Type 0 where
  rejected : RejectCode → InfrastructureError
  journal : InfrastructureError
  backend : NetworkError → InfrastructureError
  platform : InfrastructureError
  transition : Stage → NetworkError → InfrastructureError
  repair_pending : InfrastructureError → InfrastructureError → InfrastructureError
  -- Not an error of the source: the panic of an `unwrap()`
  panic : InfrastructureError

-- A call of the operating system, which changes the world outside.
abbrev pub Io : Type 0 → Type 0 → Type 0
Io W A = W → Result ⊤ A × W

-- What `/proc/<pid>/stat` tells: the state and the start ticks of a process.
pub data Identity : Type 0 where
  found : ℕ → ℕ → Identity
  not_found : Identity

-- The answer of `kill(pid, 0)`.
pub data Signal : Type 0 where
  delivered not_permitted no_process : Signal

pub record Infrastructure (W : Type 0) : Type 0 where
  pub preflight : PrepareDeclaration → Call W (List SysctlChange)
  pub prepare_sysctls : PrepareDeclaration → List SysctlChange → Call W ⊤
  pub restore_sysctls : PrepareDeclaration → List SysctlChange → Call W ⊤
  pub prepare_firewall : PrepareDeclaration → Call W ⊤
  pub remove_firewall : PrepareDeclaration → Call W ⊤
  pub update_live_policy : PrepareDeclaration → PrepareDeclaration → List Ipv4Prefix → Call W ⊤
  pub discard_live_policy : PrepareDeclaration → PrepareDeclaration → Call W ⊤
  pub interface_identity : Call W (Option ℕ)
  pub interface_ownership_marker : Call W (Option (List ℕ))
  pub stamp_infrastructure_ownership : List ℕ → Call W ⊤
  pub ensure_infrastructure : InfraSpec → Call W ℕ
  pub retire_infrastructure : Call W ⊤
  pub reject_forwarding : PrepareDeclaration → Call W ⊤
  pub guard_forwarding : PrepareDeclaration → Call W ⊤
  pub restore_forwarding_with_failures : PrepareDeclaration → List Ipv4Prefix → Call W ⊤
  pub update_failed_forward_prefixes :
      PrepareDeclaration → List Ipv4Prefix → List Ipv4Prefix → Call W ⊤
  pub validate_forwarding_replacement : PrepareDeclaration → PrepareDeclaration → Call W ⊤
  pub retire_forwarding : PrepareDeclaration → Call W ⊤
  pub remove_stale_forwarding : PrepareDeclaration → PrepareDeclaration → Call W ⊤
  pub create_exclusive : Io W ℕ
  pub create_persistent : Io W ℕ
  pub enable_persistence : ℕ → Io W ⊤
  pub duplicate : ℕ → Io W ℕ
  pub store : State → Io W ⊤
  pub current_boot_id : Io W (List ℕ)
  pub new_ownership_marker : Io W (List ℕ)
  -- The device and the inode of the network namespace of this thread.
  pub namespace : Io W (ℕ × ℕ)
  pub process_identity : ℕ → Io W Identity
  pub signal : ℕ → W → Signal × W
  -- The hash of a declaration in JSON
  pub declaration_hash : PrepareDeclaration → Option (List ℕ)

pub record InfrastructureService (W : Type 0) : Type 0 where
  pub allowed_uid : ℕ
  pub allowed_gid : ℕ
  pub world : W
  pub state : State
  pub lifecycle_fd : Option ℕ
  pub restart_recovery_pending : Bool

abbrev pub Infra : Type 0 → Type 0 → Type 0
Infra W A = Method InfrastructureError (InfrastructureService W) A

-- The error of a call becomes the error of the service.
abbrev pub failing :
    {E A : Type 0} → (E → InfrastructureError) → Result E A → Result InfrastructureError A
failing wrap (ok a) = ok a
failing wrap (err e) = err (wrap e)

module _ {W : Type 0} where
  -- A call whose error `wrap` turns into one of the service.
  unfoldable pub from_world :
      {E A : Type 0} → (E → InfrastructureError) → (W → Result E A × W) → Infra W A
  from_world wrap f s = let (r, w) = f s.world in (failing wrap r, record s { world = w })

  -- A call that cannot fail.
  unfoldable pub in_world : {A : Type 0} → (W → A × W) → Infra W A
  in_world f s = let (a, w) = f s.world in (ok a, record s { world = w })

  abbrev pub from_backend : {A : Type 0} → Call W A → Infra W A
  from_backend f = from_world backend f

  abbrev pub at : {A : Type 0} → Stage → Call W A → Infra W A
  at stage f = from_world (transition stage) f

  abbrev pub at_backend : {A : Type 0} → BackendStage → Call W A → Infra W A
  at_backend stage f = from_world (λ e. backend (backend_stage stage)) f

  abbrev pub from_os : {A : Type 0} → Io W A → Infra W A
  from_os f = from_world (λ e. journal) f

  abbrev pub from_platform : {A : Type 0} → Io W A → Infra W A
  from_platform f = from_world (λ e. platform) f

  unfoldable pub the_state : Infra W State
  the_state s = (ok s.state, s)

  unfoldable pub the_lifecycle_fd : Infra W (Option ℕ)
  the_lifecycle_fd s = (ok s.lifecycle_fd, s)

  unfoldable pub is_restarting : Infra W Bool
  is_restarting s = (ok s.restart_recovery_pending, s)

  unfoldable pub set_state : State → Infra W ⊤
  set_state next s = (ok tt, record s { state = next })

  unfoldable pub set_lifecycle_fd : Option ℕ → Infra W ⊤
  set_lifecycle_fd fd s = (ok tt, record s { lifecycle_fd = fd })

  unfoldable pub unwrap : {A : Type 0} → Option A → Infra W A
  unwrap o = or_raise o panic

  unfoldable pub end_restart : Infra W ⊤
  end_restart s = (ok tt, record s { restart_recovery_pending = false })

  module _ ⦃infra : Infrastructure W⦄ where
    unfoldable pub persist : State → Infra W ⊤
    persist next = from_os (infra.store next) >> set_state next
