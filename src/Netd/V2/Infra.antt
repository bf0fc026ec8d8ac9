-- ===== src/Netd/V2/Infra.antt =====
-- The requests about the infrastructure itself in `process` of
-- linux/common/apps/candy-netd/src/v2.rs. Each handler has the copy `next` of the state.
use candy_runtime.Prelude.{
  ℕ, Bool, true, false, not, List, Option, none, some, ◌==◌, leb, same, is_some, if◌then◌else◌,
}
use candy_runtime.Prelude.Methods.{◌>>=◌, ◌>>◌, pure, raise_if, from_result}
use candy_runtime.Proto.V2.{
  InfraSpec, InfraSpec-discrete, Request, Body, infra_status, io_fd, ack, revoked,
}
use candy_runtime.Netd.Interface.{⊤}
use candy_runtime.Netd.V2.State.{State, ForwardRecord, IoOwner, in_phase, default_state}
use candy_runtime.Netd.V2.Service.{
  Infra, Infrastructure, rejected, infra_generation_conflict, infra_unowned_interface,
  io_owner_alive, stale_io_epoch, forwarding_active, from_backend, from_os, from_platform,
  the_state, the_lifecycle_fd, set_lifecycle_fd, unwrap, persist,
}
use candy_runtime.Netd.V2.Device.{
  administrator, identity, same_namespace, any_io_owner_alive, complete_creation, start_ticks_of,
}
use candy_runtime.Netd.V2.Device

-- What a handler ends with: an answer with its descriptor, or a state that `process` has to store.
pub data Outcome : Type 0 where
  answered : Body → Option ℕ → Outcome
  changed : State → Outcome

abbrev pub io_epoch_of : Option IoOwner → Option ℕ
io_epoch_of none = none
io_epoch_of (some owner) = some owner.io_epoch

-- `Body::InfraStatus` of a state
abbrev pub status_of : State → Outcome
status_of s = answered (infra_status s.spec s.ifindex (io_epoch_of s.io_owner)) none

abbrev pub revoked_phase : Option ForwardRecord → Option ForwardRecord
revoked_phase none = none
revoked_phase (some f) = some (record f { phase = revoked })

-- The intent to create the lost interface again, as it is stored
unfoldable pub repair_intent : State → List ℕ → List ℕ → State
repair_intent s marker boot_id = record s {
  forward = revoked_phase s.forward;
  candidate = none;
  creation_pending = true;
  ownership_marker = some marker;
  ifindex = none;
  io_owner = none;
  boot_id = boot_id;
}

-- The intent of the first creation
unfoldable pub creation_intent : State → InfraSpec → List ℕ → List ℕ → List ℕ → State
creation_intent s spec caller marker boot_id = record s {
  spec = some spec;
  ownership_marker = some marker;
  creation_pending = true;
  administrator = some caller;
  boot_id = boot_id;
}

unfoldable pub with_io_owner : State → IoOwner → State
with_io_owner s owner = record s { io_owner = some owner; last_io_epoch = owner.io_epoch }

module _ {W : Type 0} ⦃infra : Infrastructure W⦄ where
  unfoldable pub fence_lost : Option ForwardRecord → Infra W ⊤
  fence_lost none = pure tt
  fence_lost (some f) =
      from_backend (infra.reject_forwarding f.declaration)
      >> from_backend (infra.remove_firewall f.declaration)

  unfoldable pub repair_interface : State → Infra W Outcome
  repair_interface next = do
    alive ← any_io_owner_alive next.io_owner
    raise_if alive (rejected io_owner_alive)
    fence_lost next.forward
    marker ← from_os infra.new_ownership_marker
    boot_id ← from_os infra.current_boot_id
    persist (repair_intent next marker boot_id)
    complete_creation
    s ← the_state
    ifindex ← unwrap s.ifindex
    pure (answered (infra_status s.spec (some ifindex) none) none)

  unfoldable pub ensure_beside : Option InfraSpec → Request → InfraSpec → State → Infra W Outcome
  ensure_beside (some existing) request spec next = do
    administrator request
    raise_if (not (same InfraSpec-discrete existing spec)) (rejected infra_generation_conflict)
    present ← from_backend infra.interface_identity
    if is_some present
        then (do retained ← identity spec.infra_id spec.generation; pure (status_of next))
        else repair_interface next
  ensure_beside none request spec next = do
    present ← from_backend infra.interface_identity
    raise_if (is_some present) (rejected infra_unowned_interface)
    marker ← from_os infra.new_ownership_marker
    boot_id ← from_os infra.current_boot_id
    persist (creation_intent next spec request.caller_instance_id marker boot_id)
    complete_creation
    s ← the_state
    pure (answered (infra_status s.spec s.ifindex none) none)

  unfoldable pub infra_ensure : Request → InfraSpec → State → Infra W Outcome
  infra_ensure request spec next = same_namespace spec >> ensure_beside next.spec request spec next

  -- The persistent device is opened when no descriptor is held.
  unfoldable pub hold_lifecycle_fd : Option ℕ → Infra W ℕ
  hold_lifecycle_fd (some fd) = pure fd
  hold_lifecycle_fd none = do
    fd ← from_platform infra.create_persistent
    set_lifecycle_fd (some fd)
    pure fd

  unfoldable pub process_start_ticks : ℕ → Infra W (Option ℕ)
  process_start_ticks pid = do
    process ← from_os (infra.process_identity pid)
    from_result (start_ticks_of process)

  unfoldable pub infra_acquire_io_fd : Request → List ℕ → ℕ → ℕ → State → Infra W Outcome
  infra_acquire_io_fd request infra_id generation io_epoch next = do
    spec ← identity infra_id generation
    alive ← any_io_owner_alive next.io_owner
    raise_if alive (rejected io_owner_alive)
    raise_if (leb io_epoch next.last_io_epoch) (rejected stale_io_epoch)
    held ← the_lifecycle_fd
    fd ← hold_lifecycle_fd held
    descriptor ← from_os (infra.duplicate fd)
    boot_id ← from_os infra.current_boot_id
    ticks ← process_start_ticks request.caller_pid
    persist (
        with_io_owner next record {
          instance_id = request.caller_instance_id;
          pid = request.caller_pid;
          io_epoch = io_epoch;
          boot_id = boot_id;
          start_ticks = ticks;
        })
    s ← the_state
    ifindex ← unwrap s.ifindex
    pure (answered (io_fd spec ifindex io_epoch) (some descriptor))

  -- The owner of this epoch, and it is not alive.
  unfoldable pub may_release : Option IoOwner → ℕ → Infra W Bool
  may_release none io_epoch = pure false
  may_release (some owner) io_epoch =
      if owner.io_epoch == io_epoch
      then (do alive ← Device.io_owner_alive owner; pure (not alive))
      else pure false

  unfoldable pub infra_release_io : Request → List ℕ → ℕ → ℕ → State → Infra W Outcome
  infra_release_io request infra_id generation io_epoch next = do
    spec ← identity infra_id generation
    administrator request
    exited ← may_release next.io_owner io_epoch
    raise_if (not exited) (rejected io_owner_alive)
    pure (changed record next { io_owner = none })

  unfoldable pub retire_revoked : Option ForwardRecord → State → Infra W ⊤
  retire_revoked none next = pure tt
  retire_revoked (some f) next = do
    raise_if (not (in_phase revoked f)) (rejected forwarding_active)
    from_backend (infra.retire_forwarding f.declaration)
    from_backend (infra.restore_sysctls f.declaration next.sysctls)

  unfoldable pub infra_retire : Request → List ℕ → ℕ → State → Infra W Outcome
  infra_retire request infra_id generation next = do
    administrator request
    spec ← identity infra_id generation
    alive ← any_io_owner_alive next.io_owner
    raise_if alive (rejected io_owner_alive)
    retire_revoked next.forward next
    from_backend infra.retire_infrastructure
    set_lifecycle_fd none
    persist default_state
    pure (answered ack none)
