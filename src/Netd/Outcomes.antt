-- ===== src/Netd/Outcomes.antt =====
-- What single methods of linux/common/apps/candy-netd/src/network.rs do to the record, for every
-- backend and every journal.
use candy_runtime.Prelude.{
  ℕ, bit_and, ◌^◌, ◌-◌, ◌≤◌, ◌<◌, true, false, ◌≡◌, ◌⊎◌, not, ◌||◌, none, some, ok, err, arith,
  List, unwrap_or, any,
}
use candy_runtime.Proto.Prefix.{Ipv4Prefix, sort_prefixes, dedup}
use candy_runtime.Proto.Declaration.{PrepareDeclaration}
use candy_runtime.Proto.Request.{LeaseOwner}
use candy_runtime.Netd.Record.{
  is_active, is_suspended, suspended, without_step, TransactionRecord, NetworkError, prepared,
  active, draining, is_process, is_owner, is_staging, is_draining, is_rolling_back,
  has_remote_route,
}
use candy_runtime.Netd.Interface.{NetworkBackend, NetworkJournal, NetworkTransaction, ◌>>◌, save}
use candy_runtime.Netd.Transaction.Cleanup.{clear_step, set_phase}
use candy_runtime.Netd.Transaction.Lifecycle
use candy_runtime.Netd.Transaction.Recover.{recover_orphan, is_policy_update}

abbrev pub holding : {B J : Type 0} → B → J → TransactionRecord → NetworkTransaction B J
holding b j r = record { backend = b; journal = j; retained = some r }

-- The record with its own owner and declaration, active, and with nothing staged beside it.
abbrev pub given_up : TransactionRecord → TransactionRecord
given_up r = record r {
  phase = active;
  recovery_candidate = none;
  recovery_candidate_owner = none;
  drain_deadline_mono_ms = 0;
}

module _ {B J : Type 0} ⦃backend : NetworkBackend B⦄ ⦃journal : NetworkJournal J⦄ where
  -- A drain of a record with a candidate that succeeds comes from the owner's process, on a draining
  -- record, and not before the drain deadline, and it promotes the candidate: the record it leaves
  -- has the candidate's declaration, the candidate's owner (the caller where the record names
  -- none), phase active, no candidate and no drain deadline; the other fields are unchanged.
  pub drain_old-promotes :
      (owner : LeaseOwner) (now : ℕ) (b : B) (j : J) (r : TransactionRecord)
      {c : PrepareDeclaration}
      → r.recovery_candidate ≡ some c
      → (Lifecycle.drain_old owner now (holding b j r)).0 ≡ ok tt
      → ((Lifecycle.drain_old owner now (holding b j r)).1.retained
          ≡ some (record r {
            owner = unwrap_or r.recovery_candidate_owner owner;
            declaration = c;
            recovery_candidate = none;
            recovery_candidate_owner = none;
            phase = active;
            drain_deadline_mono_ms = 0;
          }))
        × (is_process r.owner owner ≡ true)
        × (r.phase ≡ draining)
        × (r.drain_deadline_mono_ms ≤ now)
  unfolding Lifecycle.drain_old ◌>>◌ save
  drain_old-promotes owner now b j r e h = ground arith

  -- A commit of a prepared replacement by the owner's process that fails, whatever call of the
  -- backend or the journal failed and whatever the clean-up answered, leaves the record with its
  -- old owner and declaration, phase active, no candidate and no drain deadline.
  pub commit-falls_back :
      (owner : LeaseOwner) (now timeout : ℕ) (b : B) (j : J) (r : TransactionRecord)
      {c : PrepareDeclaration} {x : NetworkError}
      → r.recovery_candidate ≡ some c
      → r.phase ≡ prepared
      → is_process r.owner owner ≡ true
      → (Lifecycle.commit_with_drain owner now timeout (holding b j r)).0 ≡ err x
      → (Lifecycle.commit_with_drain owner now timeout (holding b j r)).1.retained
        ≡ some (given_up r)
  unfolding Lifecycle.commit_with_drain ◌>>◌ save
  commit-falls_back owner now timeout b j r e p o h = ground arith

  -- While the owner lives and its lease has not ended, recovery of a record that is neither
  -- rolling back nor draining does nothing and answers that it did nothing.
  pub recover_orphan-waits :
      (now : ℕ) (b : B) (j : J) (r : TransactionRecord)
      → is_rolling_back r.phase ≡ false
      → is_draining r.phase ≡ false
      → now < r.owner.lease_deadline_mono_ms
      → recover_orphan true now (holding b j r) ≡ (ok false, holding b j r)
  unfolding recover_orphan is_policy_update ◌>>◌
  recover_orphan-waits now b j r p q h = ground arith

  -- Failed prefixes that are accepted are recorded sorted and without repetitions, by the record's
  -- owner and generation, on an active or suspended record, and each is a remote route of the
  -- declaration; no other field of the record changes.
  pub set_failed_prefixes-records :
      (owner : LeaseOwner) (ps : List Ipv4Prefix) (b : B) (j : J) (r : TransactionRecord)
      → (Lifecycle.set_failed_prefixes owner ps (holding b j r)).0 ≡ ok tt
      → ((Lifecycle.set_failed_prefixes owner ps (holding b j r)).1.retained
          ≡ some (record r { failed_prefixes = dedup (sort_prefixes ps) }))
        × (is_owner r.owner owner ≡ true)
        × ((is_active r.phase || is_suspended r.phase) ≡ true)
        × (any (λ p. not (has_remote_route r.declaration.routes p)) (dedup (sort_prefixes ps))
            ≡ false)
  unfolding Lifecycle.set_failed_prefixes ◌>>◌ save
  set_failed_prefixes-records owner ps b j r h = ground arith

  -- A renewal that succeeds changes the lease deadline of the record and nothing else of it.
  pub renew_lease-renews :
      (owner : LeaseOwner) (b : B) (j : J) (r : TransactionRecord)
      → (Lifecycle.renew_lease owner (holding b j r)).0 ≡ ok tt
      → (Lifecycle.renew_lease owner (holding b j r)).1.retained
        ≡ some (record r {
          owner = record r.owner { lease_deadline_mono_ms = owner.lease_deadline_mono_ms };
        })
  unfolding Lifecycle.renew_lease ◌>>◌ save
  renew_lease-renews owner b j r h = ground arith

  -- An MTU update that succeeds lowers the declared MTU to the one asked for, which is between 576
  -- and 1400, of an active record, and changes nothing else of the record.
  pub update_mtu-lowers :
      (owner : LeaseOwner) (mtu : ℕ) (b : B) (j : J) (r : TransactionRecord)
      → (Lifecycle.update_mtu owner mtu (holding b j r)).0 ≡ ok tt
      → ((Lifecycle.update_mtu owner mtu (holding b j r)).1.retained
          ≡ some (record r { declaration = record r.declaration { effective_mtu = mtu } }))
        × (r.phase ≡ active)
        × (576 ≤ mtu)
        × (mtu ≤ 1400)
        × (mtu < r.declaration.effective_mtu)
  unfolding Lifecycle.update_mtu ◌>>◌ save
  update_mtu-lowers owner mtu b j r h = ground arith

  -- A rollback of a staged replacement that succeeds comes from the owner's process, drops the
  -- candidate and leaves the record in phase active, with its old owner and declaration and no drain
  -- deadline.
  pub rollback-restores :
      (owner : LeaseOwner) (b : B) (j : J) (r : TransactionRecord) {c : PrepareDeclaration}
      → r.recovery_candidate ≡ some c
      → is_staging r.phase ≡ true
      → (Lifecycle.rollback owner (holding b j r)).0 ≡ ok tt
      → ((Lifecycle.rollback owner (holding b j r)).1.retained ≡ some (given_up r))
        × (is_process r.owner owner ≡ true)
  unfolding Lifecycle.rollback ◌>>◌ save
  rollback-restores owner b j r e p h = ground arith

  -- A suspension that succeeds comes from the record's owner at its generation. A record that is
  -- suspended already stays as it is; otherwise the record was active, and it is left suspended with
  -- the bit of its policy step, 32 of the u16, cleared and nothing else changed.
  pub suspend-clears :
      (owner : LeaseOwner) (b : B) (j : J) (r : TransactionRecord)
      → (Lifecycle.suspend owner (holding b j r)).0 ≡ ok tt
      → (is_owner r.owner owner ≡ true)
        × (((r.phase ≡ suspended) × ((Lifecycle.suspend owner (holding b j r)).1.retained ≡ some r))
            ⊎ ((r.phase ≡ active)
                × ((Lifecycle.suspend owner (holding b j r)).1.retained
                    ≡ some (record r {
                      phase = suspended;
                      completed_steps = bit_and r.completed_steps (2 ^ 16 - 1 - 32);
                    }))))
  unfolding Lifecycle.suspend ◌>>◌ save clear_step set_phase without_step
  suspend-clears owner b j r h = ground arith
