-- ===== src/Netd/Transaction/Policy.antt =====
-- `update_policy`, `restore_policy_after_update` and `recover_policy_update` of
-- linux/common/apps/candy-netd/src/network.rs.
use candy_runtime.Prelude.{
  Bool, true, false, ◌||◌, not, ◌==◌, none, same, is_some, keep_if, if◌then◌else◌,
}
use candy_runtime.Proto.Prefix.{Bytes-discrete}
use candy_runtime.Proto.Declaration.{
  PrepareDeclaration, PrepareDeclaration-discrete, Routes-discrete, Exclusions-discrete,
  validate_declaration,
}
use candy_runtime.Proto.Request.{LeaseOwner}
use candy_runtime.Netd.Record.{
  TransactionRecord, active, suspended, rolling_back, conflict, invalid_transition, is_active,
  is_suspended, is_owner, has_step, step_policy_rule, has_remote_route, firewall_policy_changed,
}
use candy_runtime.Netd.Interface.{
  ⊤, Tx, NetworkBackend, NetworkJournal, ◌>>=◌, ◌>>◌, pure, raise_if, attempt, return_result,
  current, on_backend, replace, save,
}
use candy_runtime.Netd.Transaction.Cleanup.{note_error, to_result, drop_candidate}
use candy_runtime.Netd.Transaction.Lifecycle.{valid_or_backend, or_invalid}
use candy_runtime.Netd.Transaction.Replace.{stage_candidate, or_restore}

abbrev pub routes_changed : PrepareDeclaration → PrepareDeclaration → Bool
routes_changed a b = not (same Routes-discrete a.routes b.routes)

-- `table_id`, `overlay_router_ipv4`, `effective_mtu` and `exclusions` are fixed.
abbrev pub changes_tunnel : PrepareDeclaration → PrepareDeclaration → Bool
changes_tunnel a b =
    not (a.table_id == b.table_id)
    || not (same Bytes-discrete a.overlay_router_ipv4 b.overlay_router_ipv4)
    || not (a.effective_mtu == b.effective_mtu)
    || not (same Exclusions-discrete a.exclusions b.exclusions)

-- The record behind a policy update; the failed prefixes that the new routes lack are dropped.
unfoldable pub updated_record : PrepareDeclaration → TransactionRecord → TransactionRecord
updated_record d r = record (drop_candidate r) {
  declaration = d;
  failed_prefixes = keep_if (has_remote_route d.routes) r.failed_prefixes;
}

module _ {B J : Type 0} where
  abbrev pub when : Bool → Tx B J ⊤ → Tx B J ⊤
  when true m = m
  when false m = pure tt

module _ {B J : Type 0} ⦃backend : NetworkBackend B⦄ ⦃journal : NetworkJournal J⦄ where
  -- The policy rule is put back before the noted errors are looked at.
  unfoldable pub restore_policy_after_update : TransactionRecord → PrepareDeclaration → Tx B J ⊤
  restore_policy_after_update previous candidate = do
    r1 ← attempt (
        when (routes_changed previous.declaration candidate)
          (on_backend (backend.reconcile_routes previous.declaration previous.failed_prefixes)))
    r2 ← attempt (
        when (firewall_policy_changed previous.declaration candidate)
          (on_backend (backend.replace_firewall candidate previous.declaration)))
    when (has_step previous.completed_steps step_policy_rule)
        (on_backend (backend.install_policy_rule previous.declaration))
    return_result (to_result (note_error (note_error none r1) r2))
    replace previous

  unfoldable pub exchange_policy : PrepareDeclaration → TransactionRecord → Tx B J ⊤
  exchange_policy d r = do
    when (routes_changed r.declaration d) (
        on_backend
          (backend.reconcile_routes d (keep_if (has_remote_route d.routes) r.failed_prefixes)))
    when (firewall_policy_changed r.declaration d)
        (on_backend (backend.replace_firewall r.declaration d))
    when (is_active r.phase) (on_backend (backend.install_policy_rule d))

  unfoldable pub change_policy : LeaseOwner → PrepareDeclaration → TransactionRecord → Tx B J ⊤
  unfolding exchange_policy restore_policy_after_update updated_record
  change_policy owner d r = do
    save (stage_candidate rolling_back owner d r)
    or_restore (exchange_policy d r) (restore_policy_after_update r d)
    or_restore (replace (updated_record d r)) (restore_policy_after_update r d)

  -- A replay of the retained declaration installs the policy rule of an active one again.
  unfoldable pub repair_rule : PrepareDeclaration → TransactionRecord → Tx B J ⊤
  repair_rule d r = when (is_active r.phase) (on_backend (backend.install_policy_rule d))

  unfoldable pub update_policy : LeaseOwner → PrepareDeclaration → Tx B J ⊤
  unfolding change_policy repair_rule
  update_policy owner d = do
    valid_or_backend (validate_declaration d)
    r ← current
    raise_if (not (is_owner r.owner owner)) conflict
    raise_if
        (not (is_active r.phase || is_suspended r.phase)
          || is_some r.recovery_candidate
          || changes_tunnel r.declaration d)
        invalid_transition
    let unchanged = same PrepareDeclaration-discrete r.declaration d
    if unchanged then repair_rule d r else change_policy owner d r

  unfoldable pub recover_policy_update : Tx B J Bool
  recover_policy_update = do
    r ← current
    candidate ← or_invalid r.recovery_candidate
    when (routes_changed r.declaration candidate)
        (on_backend (backend.reconcile_routes r.declaration r.failed_prefixes))
    when (firewall_policy_changed r.declaration candidate)
        (on_backend (backend.replace_firewall candidate r.declaration))
    when (has_step r.completed_steps step_policy_rule)
        (on_backend (backend.install_policy_rule r.declaration))
    replace (record (drop_candidate r) {
      phase = if has_step r.completed_steps step_policy_rule then active else suspended;
    })
    pure true
