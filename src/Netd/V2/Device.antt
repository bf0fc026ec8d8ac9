-- ===== src/Netd/V2/Device.antt =====
-- The device and the processes behind it: the helpers of linux/common/apps/candy-netd/src/v2.rs that
-- compare the kernel with the durable state, and the completion of an interrupted creation.
use candy_runtime.Prelude.{
  ℕ, Bool, true, false, not, ◌&&◌, ◌||◌, List, Option, none, some, ◌==◌, same, is_some,
  if◌then◌else◌, Result, ok, err,
}
use candy_runtime.Prelude.Methods.{◌>>=◌, ◌>>◌, pure, raise, raise_if, or_raise, attempt}
use candy_runtime.Proto.Prefix.{Bytes-discrete}
use candy_runtime.Proto.V2.{InfraSpec, Request}
use candy_runtime.Netd.Interface.{⊤}
use candy_runtime.Netd.V2.State.{IoOwner, Number-discrete, Text-discrete}
use candy_runtime.Netd.V2.Service.{
  Infra, Infrastructure, InfrastructureError, Identity, found, not_found, Signal, delivered,
  not_permitted, no_process, rejected, infra_owner_conflict, infra_missing,
  infra_generation_conflict, infra_identity_conflict, infra_ownership_conflict,
  infra_intent_invalid, infra_namespace_conflict, from_backend, from_os, from_platform, in_world,
  the_state, the_lifecycle_fd, set_lifecycle_fd, persist, unwrap,
}

-- `matches!(state, 'Z' | 'X' | 'x')`
abbrev pub is_dead : ℕ → Bool
is_dead status = (status == 90) || (status == 88) || (status == 120)

-- `matches!(state, 'Z' | 'X')`
abbrev pub is_zombie : ℕ → Bool
is_zombie status = (status == 90) || (status == 88)

abbrev pub is_epoch : ℕ → Identity → Bool
is_epoch ticks (found status current) = not (is_dead status) && (current == ticks)
is_epoch ticks not_found = false

abbrev pub start_ticks_of : Identity → Result InfrastructureError (Option ℕ)
start_ticks_of (found status ticks) = ok (some ticks)
start_ticks_of not_found = err InfrastructureError.journal

abbrev pub may_signal : Signal → Bool
may_signal delivered = true
may_signal not_permitted = true
may_signal no_process = false

-- The boot is known and differs.
abbrev pub boot_differs : Result InfrastructureError (List ℕ) → IoOwner → Bool
boot_differs (ok boot_id) owner = not (same Bytes-discrete boot_id owner.boot_id)
boot_differs (err e) owner = false

module _ {W : Type 0} ⦃infra : Infrastructure W⦄ where
  unfoldable pub administrator : Request → Infra W ⊤
  administrator request = do
    s ← the_state
    raise_if (not (same Text-discrete s.administrator (some request.caller_instance_id)))
        (rejected infra_owner_conflict)

  unfoldable pub verify_device_ownership : Infra W ⊤
  verify_device_ownership = do
    s ← the_state
    raise_if (not (is_some s.ownership_marker)) (rejected infra_ownership_conflict)
    marker ← from_backend infra.interface_ownership_marker
    raise_if (not (same Text-discrete marker s.ownership_marker))
        (rejected infra_ownership_conflict)

  unfoldable pub identity : List ℕ → ℕ → Infra W InfraSpec
  identity infra_id generation = do
    s ← the_state
    spec ← or_raise s.spec (rejected infra_missing)
    raise_if
        (not (same Bytes-discrete spec.infra_id infra_id) || not (spec.generation == generation))
        (rejected infra_generation_conflict)
    ifindex ← from_backend infra.interface_identity
    raise_if (not (same Number-discrete ifindex s.ifindex)) (rejected infra_identity_conflict)
    verify_device_ownership
    pure spec

  -- `business_process_epoch_alive`
  unfoldable pub business_process_epoch_alive : ℕ → ℕ → Infra W Bool
  business_process_epoch_alive pid ticks = do
    process ← from_os (infra.process_identity pid)
    pure (is_epoch ticks process)

  unfoldable pub signal_reaches : ℕ → Infra W Bool
  signal_reaches pid = do answer ← in_world (infra.signal pid); pure (may_signal answer)

  -- What the identity of the process decides; a failure to read it retains the ownership.
  unfoldable pub process_alive : Result InfrastructureError Identity → IoOwner → Infra W Bool
  process_alive (ok (found status ticks)) owner =
      if is_zombie status || not (same Number-discrete (some ticks) owner.start_ticks)
      then pure false
      else signal_reaches owner.pid
  process_alive (ok not_found) owner = pure false
  process_alive (err e) owner = pure true

  unfoldable pub io_owner_alive : IoOwner → Infra W Bool
  io_owner_alive owner = do
    boot_id ← attempt (from_os infra.current_boot_id)
    if boot_differs boot_id owner then pure false else (do
      process ← attempt (from_os (infra.process_identity owner.pid))
      process_alive process owner)

  -- `owner.is_some_and(io_owner_alive)`
  unfoldable pub any_io_owner_alive : Option IoOwner → Infra W Bool
  any_io_owner_alive none = pure false
  any_io_owner_alive (some owner) = io_owner_alive owner

  -- The check of the namespace that a specification names.
  unfoldable pub same_namespace : InfraSpec → Infra W ⊤
  same_namespace spec = do
    ns ← from_os infra.namespace
    let (device, inode) = ns
    raise_if (not (spec.netns_device == device) || not (spec.netns_inode == inode))
        (rejected infra_namespace_conflict)

  unfoldable pub after_stamp : Result InfrastructureError ⊤ → Infra W ⊤
  after_stamp (ok done) = pure tt
  after_stamp (err e) = set_lifecycle_fd none >> raise e

  -- Opens the device: a new one is stamped, one that is there has to bear the marker.
  unfoldable pub open_device : Option ℕ → List ℕ → Infra W ⊤
  open_device none marker = do
    descriptor ← from_platform infra.create_exclusive
    set_lifecycle_fd (some descriptor)
    stamped ← attempt (from_backend (infra.stamp_infrastructure_ownership marker))
    after_stamp stamped
  open_device (some ifindex) marker = do
    verify_device_ownership
    fd ← the_lifecycle_fd
    if is_some fd then pure tt else (do
      descriptor ← from_platform infra.create_persistent
      set_lifecycle_fd (some descriptor))

  unfoldable pub complete_creation : Infra W ⊤
  complete_creation = do
    s ← the_state
    if not s.creation_pending then pure tt else (do
      spec ← or_raise s.spec (rejected infra_intent_invalid)
      marker ← or_raise s.ownership_marker (rejected infra_intent_invalid)
      same_namespace spec
      present ← from_backend infra.interface_identity
      open_device present marker
      verify_device_ownership
      held ← the_lifecycle_fd
      descriptor ← unwrap held
      from_platform (infra.enable_persistence descriptor)
      ifindex ← from_backend (infra.ensure_infrastructure spec)
      boot_id ← from_os infra.current_boot_id
      persist record s { ifindex = some ifindex; creation_pending = false; boot_id = boot_id })
