-- ===== src/Netd/Transaction/Recover.antt =====
-- `recover_orphan` of linux/common/apps/candy-netd/src/network.rs.
use candy_runtime.Prelude.{
  ℕ, Bool, true, false, ◌||◌, ◌&&◌, not, ◌==◌, ltb, Option, none, some, same, is_some, unwrap_or,
  if◌then◌else◌,
}
use candy_runtime.Proto.Declaration.{PrepareDeclaration}
use candy_runtime.Proto.Request.{LeaseOwner, LeaseOwner-discrete}
use candy_runtime.Netd.Record.{
  TransactionRecord, is_rolling_back, is_draining, is_staging, has_tunnel_steps,
  same_tunnel_declaration,
}
use candy_runtime.Netd.Interface.{Tx, NetworkBackend, NetworkJournal, ◌>>=◌, ◌>>◌, pure}
use candy_runtime.Netd.Transaction.Cleanup.{cleanup_record}
use candy_runtime.Netd.Transaction.Lifecycle.{or_invalid, discard_candidate, drain_old}
use candy_runtime.Netd.Transaction.Policy.{recover_policy_update}

-- `record.recovery_candidate_owner == Some(record.owner)`
abbrev pub is_own_candidate : Option LeaseOwner → LeaseOwner → Bool
is_own_candidate none owner = false
is_own_candidate (some candidate) owner = same LeaseOwner-discrete candidate owner

abbrev pub keeps_tunnel : PrepareDeclaration → Option PrepareDeclaration → Bool
keeps_tunnel d none = false
keeps_tunnel d (some candidate) = same_tunnel_declaration d candidate

-- An interrupted policy update, whose tunnel is to be kept.
unfoldable pub is_policy_update : TransactionRecord → Bool
is_policy_update r =
    is_rolling_back r.phase
    && is_own_candidate r.recovery_candidate_owner r.owner
    && has_tunnel_steps r.completed_steps
    && keeps_tunnel r.declaration r.recovery_candidate

abbrev pub has_lease : TransactionRecord → Bool → ℕ → Bool
has_lease r owner_is_alive now = owner_is_alive && ltb now r.owner.lease_deadline_mono_ms

-- The drain window of a living owner is open; a deadline of 0 never closes it.
abbrev pub may_drain_later : TransactionRecord → Bool → ℕ → Bool
may_drain_later r owner_is_alive now =
    owner_is_alive && ((r.drain_deadline_mono_ms == 0) || ltb now r.drain_deadline_mono_ms)

module _ {B J : Type 0} ⦃backend : NetworkBackend B⦄ ⦃journal : NetworkJournal J⦄ where
  unfoldable pub recover_record : Bool → ℕ → TransactionRecord → Tx B J Bool
  recover_record owner_is_alive now r =
      if is_policy_update r
      then recover_policy_update
      else if is_some r.recovery_candidate && is_staging r.phase
      then if has_lease r owner_is_alive now then pure false else (do
        candidate ← or_invalid r.recovery_candidate
        discard_candidate candidate
        pure true)
      else if is_draining r.phase
      then if may_drain_later r owner_is_alive now
        then pure false
        else drain_old (unwrap_or r.recovery_candidate_owner r.owner) now >> pure true
      else if not (is_rolling_back r.phase) && has_lease r owner_is_alive now
      then pure false
      else cleanup_record >> pure true

  unfoldable pub recover_retained : Option TransactionRecord → Bool → ℕ → Tx B J Bool
  unfolding recover_record
  recover_retained none owner_is_alive now = pure false
  recover_retained (some r) owner_is_alive now = recover_record owner_is_alive now r

  unfoldable pub recover_orphan : Bool → ℕ → Tx B J Bool
  unfolding recover_retained
  recover_orphan owner_is_alive now s = recover_retained s.retained owner_is_alive now s
