-- ===== src/Netd/V2/Rules.antt =====
-- How the steps of the service keep a predicate on the durable state, which only `persist` changes.
use candy_runtime.Prelude.{ℕ, Bool, true, false, List, Option, none, some, Result, ok, err, arith}
use candy_runtime.Prelude.Methods.{◌>>=◌, ◌>>◌}
use candy_runtime.Prelude.Methods.Triple.{
  Triple, Keeps, Post, keeping, keep_branch, keep_raise, keep_pure, keep_seq, keep_bind,
  keep_or_raise,
}
use candy_runtime.Proto.Declaration.{PrepareDeclaration}
use candy_runtime.Proto.V2.{InfraSpec, ForwardOwner, Request}
use candy_runtime.Netd.Record.{SysctlChange}
use candy_runtime.Netd.Interface.{⊤}
use candy_runtime.Netd.V2.State.{State, ForwardRecord, PendingPolicy, IoOwner}
use candy_runtime.Netd.V2.Service.{
  Infra, Infrastructure, InfrastructureService, InfrastructureError, Identity, found, not_found,
  from_world, in_world, the_state, the_lifecycle_fd, is_restarting, set_state, set_lifecycle_fd,
  end_restart, unwrap, persist, failing,
}
use candy_runtime.Netd.V2.Device
use candy_runtime.Netd.V2.Exchange

-- The predicate on the durable state of the service
pub record On {W : Type 0} (P : State → Type 0) (s : InfrastructureService W) : Type 0 where
  pub held : P s.state

failed :
    {W E A : Type 0} (P : State → Type 0) (wrap : E → InfrastructureError) (r : Result E A)
    → (s : InfrastructureService W) → P s.state
    → Post (λ _. On P) (On P) (failing wrap r, s)
failed P wrap (ok a) s p = record { held = p }
failed P wrap (err e) s p = record { held = p }

module _ {W : Type 0} {P : State → Type 0} where
  pub Keeps-from_world :
      {E A : Type 0} (wrap : E → InfrastructureError) (f : W → Result E A × W)
      → Keeps (On {W = W} P) (from_world wrap f)
  unfolding from_world
  Keeps-from_world wrap f = record { run = λ s p. failed P wrap (f s.world).0 _ p.held }

  pub Keeps-in_world : {A : Type 0} (f : W → A × W) → Keeps (On {W = W} P) (in_world f)
  unfolding in_world
  Keeps-in_world f = record { run = λ s p. record { held = p.held } }

  pub Keeps-the_lifecycle_fd : Keeps (On {W = W} P) the_lifecycle_fd
  unfolding the_lifecycle_fd
  Keeps-the_lifecycle_fd = record { run = λ s p. record { held = p.held } }

  pub Keeps-is_restarting : Keeps (On {W = W} P) is_restarting
  unfolding is_restarting
  Keeps-is_restarting = record { run = λ s p. record { held = p.held } }

  pub Keeps-set_lifecycle_fd : (fd : Option ℕ) → Keeps (On {W = W} P) (set_lifecycle_fd fd)
  unfolding set_lifecycle_fd
  Keeps-set_lifecycle_fd fd = record { run = λ s p. record { held = p.held } }

  pub Keeps-end_restart : Keeps (On {W = W} P) end_restart
  unfolding end_restart
  Keeps-end_restart = record { run = λ s p. record { held = p.held } }

  pub Keeps-unwrap : {A : Type 0} (o : Option A) → Keeps (On {W = W} P) (unwrap o)
  unfolding unwrap
  Keeps-unwrap o = keep_or_raise o _

  pub Keeps-the_state : Keeps (On {W = W} P) the_state
  unfolding the_state
  Keeps-the_state = record { run = λ s p. record { held = p.held } }

module _ {W : Type 0} {P : State → Type 0} {C : Type 0} {Q : C → InfrastructureService W → Type 0}
    {R : InfrastructureService W → Type 0} where
  -- The state that is read is the state of the service.
  pub the_state_rule :
      {f : State → Infra W C}
      → ((s : State) → P s → Triple (On {W = W} P) (f s) Q R)
      → Triple (On P) (the_state >>= f) Q R
  unfolding ◌>>=◌ the_state
  the_state_rule hf = record { run = λ s p. (hf s.state p.held).run s p }

module _ {W : Type 0} ⦃infra : Infrastructure W⦄ {P : State → Type 0} where
  pub Keeps-persist : (next : State) → P next → Keeps (On {W = W} P) (persist next)
  unfolding persist from_world set_state ◌>>◌ ◌>>=◌
  Keeps-persist next h = record { run = λ s p. ground arith }

-- The steps that change at most the world
pub ruleset steps = (
  keeping, Keeps-from_world, Keeps-in_world, Keeps-the_lifecycle_fd, Keeps-is_restarting,
  Keeps-set_lifecycle_fd, Keeps-end_restart, Keeps-unwrap, Keeps-the_state,
)

module _ {W : Type 0} ⦃infra : Infrastructure W⦄ {P : State → Type 0} where
  pub Keeps-administrator :
      (request : Request) → Keeps (On {W = W} P) (Device.administrator request)
  unfolding Device.administrator
  Keeps-administrator request = search steps depth 12

  pub Keeps-verify_device_ownership : Keeps (On {W = W} P) Device.verify_device_ownership
  unfolding Device.verify_device_ownership
  Keeps-verify_device_ownership = search steps depth 12

  pub Keeps-identity :
      (infra_id : List ℕ) (generation : ℕ)
      → Keeps (On {W = W} P) (Device.identity infra_id generation)
  unfolding Device.identity
  Keeps-identity infra_id generation = search (steps, Keeps-verify_device_ownership) depth 16

  pub Keeps-same_namespace : (spec : InfraSpec) → Keeps (On {W = W} P) (Device.same_namespace spec)
  unfolding Device.same_namespace
  Keeps-same_namespace spec = search steps depth 12

  pub Keeps-business_process_epoch_alive :
      (pid ticks : ℕ) → Keeps (On {W = W} P) (Device.business_process_epoch_alive pid ticks)
  unfolding Device.business_process_epoch_alive
  Keeps-business_process_epoch_alive pid ticks = search steps depth 12

  Keeps-process_alive :
      (r : Result InfrastructureError Identity) (owner : IoOwner)
      → Keeps (On {W = W} P) (Device.process_alive r owner)
  unfolding Device.process_alive Device.signal_reaches
  Keeps-process_alive (ok (found status ticks)) owner = search steps depth 12
  Keeps-process_alive (ok not_found) owner = keep_pure _
  Keeps-process_alive (err e) owner = keep_pure _

  pub Keeps-io_owner_alive : (owner : IoOwner) → Keeps (On {W = W} P) (Device.io_owner_alive owner)
  unfolding Device.io_owner_alive
  Keeps-io_owner_alive owner = search (steps, Keeps-process_alive) depth 16

  pub Keeps-any_io_owner_alive :
      (o : Option IoOwner) → Keeps (On {W = W} P) (Device.any_io_owner_alive o)
  unfolding Device.any_io_owner_alive
  Keeps-any_io_owner_alive none = keep_pure _
  Keeps-any_io_owner_alive (some owner) = Keeps-io_owner_alive owner

  Keeps-after_stamp :
      (r : Result InfrastructureError ⊤) → Keeps (On {W = W} P) (Device.after_stamp r)
  unfolding Device.after_stamp
  Keeps-after_stamp (ok done) = keep_pure _
  Keeps-after_stamp (err e) = search steps depth 12

  Keeps-open_device :
      (present : Option ℕ) (marker : List ℕ)
      → Keeps (On {W = W} P) (Device.open_device present marker)
  unfolding Device.open_device
  Keeps-open_device none marker = search (steps, Keeps-after_stamp) depth 16
  Keeps-open_device (some ifindex) marker = search (steps, Keeps-verify_device_ownership) depth 16

  -- The completion changes the index, the mark of the creation and the boot.
  pub Keeps-complete_creation :
      ((s : State) (ifindex : Option ℕ) (boot_id : List ℕ)
        → P s
        → P record s { ifindex = ifindex; creation_pending = false; boot_id = boot_id })
      → Keeps (On {W = W} P) Device.complete_creation
  unfolding Device.complete_creation
  Keeps-complete_creation h = the_state_rule λ s p. keep_branch _ (keep_pure _) (
      keep_bind (keep_or_raise _ _) λ spec. keep_bind (keep_or_raise _ _) λ marker.
        search
          (
            steps, Keeps-same_namespace, Keeps-open_device, Keeps-verify_device_ownership,
            Keeps-persist,
          )
          depth 24)

  Keeps-reject_remote : (o : Option PendingPolicy) → Keeps (On {W = W} P) (Exchange.reject_remote o)
  unfolding Exchange.reject_remote
  Keeps-reject_remote none = keep_pure _
  Keeps-reject_remote (some p) = search steps depth 12

  Keeps-discard_intent :
      (d : PrepareDeclaration) (o : Option PendingPolicy)
      → Keeps (On {W = W} P) (Exchange.discard_intent d o)
  unfolding Exchange.discard_intent
  Keeps-discard_intent d none = keep_pure _
  Keeps-discard_intent d (some p) = search steps depth 12

  pub Keeps-fence_policy_intent :
      (f : ForwardRecord) → Keeps (On {W = W} P) (Exchange.fence_policy_intent f)
  unfolding Exchange.fence_policy_intent
  Keeps-fence_policy_intent f = search (steps, Keeps-reject_remote, Keeps-discard_intent) depth 16

  pub Keeps-same_boot : Keeps (On {W = W} P) Exchange.same_boot
  unfolding Exchange.same_boot
  Keeps-same_boot = search steps depth 12

  pub Keeps-and_same_boot : (b : Bool) → Keeps (On {W = W} P) (Exchange.and_same_boot b)
  unfolding Exchange.and_same_boot
  Keeps-and_same_boot false = keep_pure _
  Keeps-and_same_boot true = Keeps-same_boot

  pub Keeps-ensure_live :
      (owner : ForwardOwner) (now : ℕ) → Keeps (On {W = W} P) (Exchange.ensure_live owner now)
  unfolding Exchange.ensure_live
  Keeps-ensure_live owner now = search steps depth 12

  pub Keeps-install_replacement :
      (previous candidate : ForwardRecord) (sysctls : List SysctlChange)
      → Keeps (On {W = W} P) (Exchange.install_replacement previous candidate sysctls)
  unfolding Exchange.install_replacement
  Keeps-install_replacement previous candidate sysctls = search steps depth 20

-- The calls that leave the durable state alone
pub ruleset calls = (
  steps, Keeps-administrator, Keeps-identity, Keeps-same_namespace, Keeps-io_owner_alive,
  Keeps-any_io_owner_alive, Keeps-business_process_epoch_alive, Keeps-fence_policy_intent,
  Keeps-and_same_boot, Keeps-same_boot, Keeps-ensure_live, Keeps-install_replacement,
)
