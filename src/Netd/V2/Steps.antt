-- ===== src/Netd/V2/Steps.antt =====
-- The remaining steps of linux/common/apps/candy-netd/src/v2.rs that keep a predicate on the durable state.
use candy_runtime.Prelude.{ℕ, Option, none, some, Result, ok, err}
use candy_runtime.Prelude.Methods.Triple.{Keeps, keep_pure, keep_raise_if}
use candy_runtime.Proto.V2.{Request, Operation, forward_commit_authorized}
use candy_runtime.Netd.Interface.{⊤}
use candy_runtime.Netd.V2.State.{State, ForwardRecord, IoOwner}
use candy_runtime.Netd.V2.Service.{Infrastructure, InfrastructureError}
use candy_runtime.Netd.V2.Rules.{On, steps, calls}
use candy_runtime.Netd.V2.Infra.{Outcome, answered, changed}
use candy_runtime.Netd.V2.Infra
use candy_runtime.Netd.V2.Process
use candy_runtime.Netd.V2.Process.{Peer}

module _ {W : Type 0} ⦃infra : Infrastructure W⦄ {P : State → Type 0} where
  pub Keeps-fence_lost : (o : Option ForwardRecord) → Keeps (On {W = W} P) (Infra.fence_lost o)
  unfolding Infra.fence_lost
  Keeps-fence_lost none = keep_pure _
  Keeps-fence_lost (some f) = search steps depth 12

  pub Keeps-hold_lifecycle_fd : (o : Option ℕ) → Keeps (On {W = W} P) (Infra.hold_lifecycle_fd o)
  unfolding Infra.hold_lifecycle_fd
  Keeps-hold_lifecycle_fd none = search steps depth 12
  Keeps-hold_lifecycle_fd (some fd) = keep_pure _

  pub Keeps-process_start_ticks : (pid : ℕ) → Keeps (On {W = W} P) (Infra.process_start_ticks pid)
  unfolding Infra.process_start_ticks
  Keeps-process_start_ticks pid = search steps depth 12

  pub Keeps-may_release :
      (o : Option IoOwner) (e : ℕ) → Keeps (On {W = W} P) (Infra.may_release o e)
  unfolding Infra.may_release
  Keeps-may_release none e = keep_pure _
  Keeps-may_release (some owner) e = search calls depth 12

  pub Keeps-retire_revoked :
      (o : Option ForwardRecord) (next : State) → Keeps (On {W = W} P) (Infra.retire_revoked o next)
  unfolding Infra.retire_revoked
  Keeps-retire_revoked none next = keep_pure _
  Keeps-retire_revoked (some f) next = search steps depth 12

  pub Keeps-check_peer :
      (request : Request) (peer : Peer) → Keeps (On {W = W} P) (Process.check_peer request peer)
  unfolding Process.check_peer
  Keeps-check_peer request peer = record { run = λ s p. (keep_raise_if _ _).run s p }

  pub Keeps-check_commit :
      (request : Request) (o : Operation) (now : ℕ)
      → Keeps (On {W = W} P) (Process.check_commit request o now)
  unfolding Process.check_commit Process.check_receipt
  Keeps-check_commit request (forward_commit_authorized owner receipt) now = search calls depth 30
  Keeps-check_commit request _ now = keep_pure _

  pub Keeps-fence_stored :
      (o : Option ForwardRecord) → Keeps (On {W = W} P) (Process.fence_stored o)
  unfolding Process.fence_stored
  Keeps-fence_stored none = keep_pure _
  Keeps-fence_stored (some f) = search steps depth 12

  pub Keeps-after_store :
      (r : Result InfrastructureError ⊤) → Keeps (On {W = W} P) (Process.after_store r)
  unfolding Process.after_store
  Keeps-after_store (ok done) = keep_pure _
  Keeps-after_store (err e) = search (steps, Keeps-fence_stored) depth 12
