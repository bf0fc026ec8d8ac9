-- ===== src/Netd/Transaction/Replace.antt =====
-- `reconfigure`, `prepare_replacement` and `restore_suspended_after_reconfigure` of
-- linux/common/apps/candy-netd/src/network.rs.
use candy_runtime.Prelude.{
  Bool, ◌||◌, not, ◌==◌, [], none, some, Result, ok, err, same, if◌then◌else◌,
}
use candy_runtime.Proto.Prefix.{Bytes-discrete}
use candy_runtime.Proto.Declaration.{
  PrepareDeclaration, PrepareDeclaration-discrete, FirewallPolicy-discrete, validate_declaration,
}
use candy_runtime.Proto.Request.{LeaseOwner}
use candy_runtime.Netd.Record
use candy_runtime.Netd.Record.{
  TransactionRecord, preparing, prepared, active, rolling_back, NetworkError, conflict,
  invalid_transition, is_active, is_suspended, is_process,
}
use candy_runtime.Netd.Interface.{
  ⊤, Tx, NetworkBackend, NetworkJournal, NetworkTransaction, ◌>>=◌, ◌>>◌, raise, raise_if, attempt,
  ignore, or_cleanup, return_result, current, on_backend, save, replace,
}
use candy_runtime.Netd.Transaction.Cleanup.{note_error, to_result, drop_candidate}
use candy_runtime.Netd.Transaction.Lifecycle.{valid_or_backend}

-- What neither kind of replacement may change.
abbrev pub changes_link : PrepareDeclaration → PrepareDeclaration → Bool
changes_link previous d =
    not (same FirewallPolicy-discrete previous.firewall d.firewall)
    || not (same Bytes-discrete previous.overlay_router_ipv4 d.overlay_router_ipv4)
    || not (previous.effective_mtu == d.effective_mtu)

-- The candidate is written beside the old declaration.
abbrev pub stage_candidate :
    Record.TransactionPhase
    → LeaseOwner
    → PrepareDeclaration
    → TransactionRecord
    → TransactionRecord
stage_candidate phase owner d r = record r {
  phase = phase;
  recovery_candidate = some d;
  recovery_candidate_owner = some owner;
}

module _ {B J : Type 0} where
  -- A change that failed is undone: its own error is returned if that succeeds.
  abbrev pub restore_or : Tx B J ⊤ → NetworkError → Tx B J ⊤
  restore_or restore error = restore >> raise error

  -- `if let Err(error) = change { return match restore { … } }`
  abbrev pub restored_by :
      Result NetworkError ⊤ × NetworkTransaction B J
      → Tx B J ⊤
      → Result NetworkError ⊤ × NetworkTransaction B J
  restored_by (ok done, s) restore = (ok tt, s)
  restored_by (err e, s) restore = restore_or restore e s

  abbrev pub or_restore : Tx B J ⊤ → Tx B J ⊤ → Tx B J ⊤
  or_restore change restore s = restored_by (change s) restore

module _ {B J : Type 0} ⦃backend : NetworkBackend B⦄ ⦃journal : NetworkJournal J⦄ where
  -- All five calls are made; the first error is returned before the record is restored.
  unfoldable pub restore_suspended_after_reconfigure :
      TransactionRecord → PrepareDeclaration → Tx B J ⊤
  restore_suspended_after_reconfigure previous candidate = do
    r1 ← attempt (on_backend (backend.remove_firewall candidate))
    r2 ← attempt (on_backend (backend.remove_routes candidate))
    r3 ← attempt (on_backend (backend.prepare_link previous.declaration))
    r4 ← attempt (on_backend (backend.prepare_routes previous.declaration))
    r5 ← attempt (on_backend (backend.prepare_firewall previous.declaration))
    return_result (
        to_result
          (note_error (note_error (note_error (note_error (note_error none r1) r2) r3) r4) r5))
    replace previous

  unfoldable pub prepare_candidate : PrepareDeclaration → Tx B J ⊤
  prepare_candidate d = do
    valid_or_backend (validate_declaration d)
    checked ← on_backend (backend.preflight d)
    on_backend (backend.prepare_link d)
    on_backend (backend.prepare_routes d)
    on_backend (backend.prepare_firewall d)

  -- `let _ = self.journal.store(record);` behind the removal of a candidate that was not prepared
  unfoldable pub withdraw_candidate : PrepareDeclaration → Tx B J ⊤
  withdraw_candidate d = do
    ignore (on_backend (backend.remove_firewall d))
    ignore (on_backend (backend.remove_routes d))
    r ← current
    ignore (save (record (drop_candidate r) { phase = active }))

  unfoldable pub mark_prepared : Tx B J ⊤
  mark_prepared = do r ← current; save (record r { phase = prepared })

  -- A replacement that no candidate stands in the way of.
  unfoldable pub stage_replacement : LeaseOwner → PrepareDeclaration → TransactionRecord → Tx B J ⊤
  unfolding prepare_candidate withdraw_candidate mark_prepared
  stage_replacement owner d r = do
    save (record (stage_candidate preparing owner d r) { drain_deadline_mono_ms = 0 })
    or_cleanup (prepare_candidate d) (withdraw_candidate d)
    mark_prepared

  -- A declaration that differs: a candidate that is staged already must be this one.
  unfoldable pub replace_declaration :
      LeaseOwner → PrepareDeclaration → TransactionRecord → Tx B J ⊤
  unfolding stage_replacement
  replace_declaration owner d r = do
    raise_if ((r.declaration.table_id == d.table_id) || changes_link r.declaration d)
        invalid_transition
    elim r.recovery_candidate [
      | some candidate ↦ raise_if (not (same PrepareDeclaration-discrete candidate d)) conflict
      | none ↦ stage_replacement owner d r
    ]

  -- Only the lease is handed over.
  unfoldable pub hand_over : LeaseOwner → TransactionRecord → Tx B J ⊤
  hand_over owner r = replace (record r { owner = owner })

  unfoldable pub prepare_replacement : LeaseOwner → PrepareDeclaration → Tx B J ⊤
  unfolding replace_declaration hand_over
  prepare_replacement owner d = do
    r ← current
    raise_if (not (is_process r.owner owner)) conflict
    let unchanged = same PrepareDeclaration-discrete r.declaration d
    if unchanged then hand_over owner r else replace_declaration owner d r

  unfoldable pub exchange_suspended : PrepareDeclaration → PrepareDeclaration → Tx B J ⊤
  exchange_suspended previous d = do
    on_backend (backend.remove_firewall previous)
    on_backend (backend.remove_routes previous)
    on_backend (backend.prepare_link d)
    on_backend (backend.prepare_routes d)
    on_backend (backend.prepare_firewall d)

  -- The replacement record is stored and then taken into memory; a failed store is a failure of
  -- the change.
  unfoldable pub reconfigure_suspended :
      LeaseOwner → PrepareDeclaration → TransactionRecord → Tx B J ⊤
  unfolding exchange_suspended restore_suspended_after_reconfigure
  reconfigure_suspended owner d r = do
    save (stage_candidate rolling_back owner d r)
    or_restore (exchange_suspended r.declaration d) (restore_suspended_after_reconfigure r d)
    or_restore
        (replace (record r {
          owner = owner;
          declaration = d;
          failed_prefixes = [];
          drain_deadline_mono_ms = 0;
        }))
        (restore_suspended_after_reconfigure r d)

  unfoldable pub exchange_declaration :
      LeaseOwner → PrepareDeclaration → TransactionRecord → Tx B J ⊤
  unfolding reconfigure_suspended
  exchange_declaration owner d r = do
    raise_if (changes_link r.declaration d || not (r.declaration.table_id == d.table_id))
        invalid_transition
    reconfigure_suspended owner d r

  -- `reconfigure` of a record that is not active.
  unfoldable pub reconfigure_inactive :
      LeaseOwner → PrepareDeclaration → TransactionRecord → Tx B J ⊤
  unfolding exchange_declaration hand_over
  reconfigure_inactive owner d r = do
    raise_if (not (is_suspended r.phase)) invalid_transition
    let unchanged = same PrepareDeclaration-discrete r.declaration d
    if unchanged then hand_over owner r else exchange_declaration owner d r

  unfoldable pub reconfigure : LeaseOwner → PrepareDeclaration → Tx B J ⊤
  unfolding prepare_replacement reconfigure_inactive
  reconfigure owner d = do
    valid_or_backend (validate_declaration d)
    r ← current
    raise_if (not (is_process r.owner owner)) conflict
    if is_active r.phase then prepare_replacement owner d else reconfigure_inactive owner d r
