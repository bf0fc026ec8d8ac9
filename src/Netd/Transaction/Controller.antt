-- ===== src/Netd/Transaction/Controller.antt =====
-- `NetworkController` of linux/common/apps/candy-netd/src/network.rs: the calls that the service
-- makes, as one type.
use candy_runtime.Prelude.{ℕ, List, Option, none, some}
use candy_runtime.Proto.Prefix.{Ipv4Prefix}
use candy_runtime.Proto.Declaration.{PrepareDeclaration}
use candy_runtime.Proto.Request.{LeaseOwner}
use candy_runtime.Netd.Interface.{⊤, Tx, NetworkBackend, NetworkJournal, NetworkTransaction}
use candy_runtime.Netd.Transaction.Lifecycle
use candy_runtime.Netd.Transaction.Replace
use candy_runtime.Netd.Transaction.Policy

pub data ControllerCall : Type 0 where
  prepare : PrepareDeclaration → ControllerCall
  commit : ControllerCall
  commit_with_drain : ℕ → ℕ → ControllerCall
  drain_old : ℕ → ControllerCall
  set_failed_prefixes : List Ipv4Prefix → ControllerCall
  rollback renew_lease : ControllerCall
  update_mtu : ℕ → ControllerCall
  suspend : ControllerCall
  reconfigure update_policy : PrepareDeclaration → ControllerCall
  resume : ControllerCall

module _ {B J : Type 0} ⦃backend : NetworkBackend B⦄ ⦃journal : NetworkJournal J⦄ where
  unfoldable pub perform : ControllerCall → LeaseOwner → Tx B J ⊤
  perform (prepare d) owner = Lifecycle.prepare owner d
  perform commit owner = Lifecycle.commit owner
  perform (commit_with_drain now timeout) owner = Lifecycle.commit_with_drain owner now timeout
  perform (drain_old now) owner = Lifecycle.drain_old owner now
  perform (set_failed_prefixes ps) owner = Lifecycle.set_failed_prefixes owner ps
  perform rollback owner = Lifecycle.rollback owner
  perform renew_lease owner = Lifecycle.renew_lease owner
  perform (update_mtu mtu) owner = Lifecycle.update_mtu owner mtu
  perform suspend owner = Lifecycle.suspend owner
  perform (reconfigure d) owner = Replace.reconfigure owner d
  perform (update_policy d) owner = Policy.update_policy owner d
  perform resume owner = Lifecycle.resume owner

-- `retained_owner`
abbrev pub retained_owner : {B J : Type 0} → NetworkTransaction B J → Option LeaseOwner
retained_owner s = elim s.retained [ none ↦ none | some r ↦ some r.owner ]
