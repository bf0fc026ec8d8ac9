-- ===== src/Netd/Transaction/Lifecycle.antt =====
-- The lifecycle methods of linux/common/apps/candy-netd/src/network.rs: prepare, commit, drain,
-- rollback, failed prefixes, lease, MTU, suspend and resume.
use candy_runtime.Prelude.{
  ℕ, Bool, ◌||◌, ◌&&◌, not, ◌==◌, ltb, leb, List, [], Option, none, some, Result, ok, err, is_some,
  unwrap_or, is_empty, any, if◌then◌else◌, same,
}
use candy_runtime.Proto.Error.{NetdProtocolError}
use candy_runtime.Proto.Prefix.{Ipv4Prefix, sort_prefixes, dedup}
use candy_runtime.Proto.Declaration.{
  PrepareDeclaration, PrepareDeclaration-discrete, validate_declaration,
}
use candy_runtime.Proto.Request.{LeaseOwner, is_valid_mtu}
use candy_runtime.Netd.Record.{
  TransactionRecord, TransactionPhase, preparing, prepared, active, suspended, draining,
  NetworkError, conflict, invalid_transition, drain_pending, preflight, link_prepare, route_prepare,
  firewall_prepare, sysctl_prepare, link_activate, policy_activate, step_link, step_routes,
  step_firewall, step_sysctls, step_link_active, step_policy_rule, is_active, is_suspended,
  is_prepared, is_draining, is_staging, is_owner, is_process, has_remote_route, saturating_add,
}
use candy_runtime.Netd.Interface.{
  ⊤, Tx, NetworkBackend, NetworkJournal, ◌>>=◌, ◌>>◌, pure, raise, raise_if, ignore, or_cleanup,
  current, on_backend, at_stage, save, replace,
}
use candy_runtime.Netd.Transaction.Cleanup.{
  complete_step, clear_step, set_phase, cleanup_record, drop_candidate,
}

-- The record of a first prepare, before its first step.
abbrev pub first_record : LeaseOwner → PrepareDeclaration → TransactionRecord
first_record owner d = record {
  owner = owner;
  declaration = d;
  recovery_candidate = none;
  recovery_candidate_owner = none;
  phase = preparing;
  completed_steps = 0;
  sysctls = [];
  drain_deadline_mono_ms = 0;
  failed_prefixes = [];
}

-- The candidate is dropped and the old declaration stays active.
abbrev pub keep_active : TransactionRecord → TransactionRecord
keep_active r = record (drop_candidate r) { phase = active; drain_deadline_mono_ms = 0 }

-- A replacement is checked by process, anything else by process and generation.
abbrev pub is_candidate_owner : TransactionRecord → LeaseOwner → Bool
is_candidate_owner r owner =
    if is_some r.recovery_candidate then is_process r.owner owner else is_owner r.owner owner

abbrev pub or_invalid : {B J A : Type 0} → Option A → Tx B J A
or_invalid none = raise invalid_transition
or_invalid (some a) = pure a

-- `declaration.validate().map_err(|_| NetworkError::Backend)?`
abbrev pub valid_or_backend : {B J : Type 0} → Result NetdProtocolError ⊤ → Tx B J ⊤
valid_or_backend (ok done) = pure tt
valid_or_backend (err e) = raise NetworkError.backend

module _ {B J : Type 0} ⦃backend : NetworkBackend B⦄ ⦃journal : NetworkJournal J⦄ where
  unfoldable pub prepare_steps : Tx B J ⊤
  prepare_steps = do
    r ← current
    let d = r.declaration
    sysctls ← at_stage (on_backend (backend.preflight d)) preflight
    r' ← current
    save (record r' { sysctls = sysctls })
    complete_step step_sysctls
    r'' ← current
    at_stage (on_backend (backend.prepare_sysctls d r''.sysctls)) sysctl_prepare
    complete_step step_link
    at_stage (on_backend (backend.prepare_link d)) link_prepare
    complete_step step_link_active
    at_stage (on_backend (backend.activate_link d)) link_activate
    complete_step step_routes
    at_stage (on_backend (backend.prepare_routes d)) route_prepare
    complete_step step_firewall
    at_stage (on_backend (backend.prepare_firewall d)) firewall_prepare
    set_phase prepared

  -- A prepare beside a retained record.
  unfoldable pub prepare_again : LeaseOwner → PrepareDeclaration → TransactionRecord → Tx B J ⊤
  prepare_again owner d r = do
    raise_if (not (is_owner r.owner owner)) conflict
    raise_if (not (same PrepareDeclaration-discrete r.declaration d)) conflict
    raise_if (not (is_prepared r.phase || is_active r.phase)) invalid_transition

  unfoldable pub prepare_first : LeaseOwner → PrepareDeclaration → Tx B J ⊤
  unfolding prepare_steps
  prepare_first owner d = do
    valid_or_backend (validate_declaration d)
    replace (first_record owner d)
    or_cleanup prepare_steps cleanup_record

  unfoldable pub prepare_beside :
      Option TransactionRecord → LeaseOwner → PrepareDeclaration → Tx B J ⊤
  unfolding prepare_again prepare_first
  prepare_beside (some r) owner d = prepare_again owner d r
  prepare_beside none owner d = prepare_first owner d

  unfoldable pub prepare : LeaseOwner → PrepareDeclaration → Tx B J ⊤
  unfolding prepare_beside
  prepare owner d s = prepare_beside s.retained owner d s

  -- The cutover to a prepared candidate, up to the write of the new phase.
  unfoldable pub activate_candidate : PrepareDeclaration → ℕ → ℕ → Tx B J ⊤
  activate_candidate candidate now timeout = do
    on_backend (backend.activate_link candidate)
    on_backend (backend.install_policy_rule candidate)
    r ← current
    save (record r { phase = draining; drain_deadline_mono_ms = saturating_add now timeout })

  -- `if let Some(record) = self.record.as_mut() { …; let _ = self.journal.store(record); }`
  unfoldable pub keep_record : Option TransactionRecord → Tx B J ⊤
  keep_record none = pure tt
  keep_record (some r) = ignore (save (keep_active r))

  unfoldable pub keep_old : Tx B J ⊤
  unfolding keep_record
  keep_old s = keep_record s.retained s

  -- A candidate that cannot be activated is removed and the old declaration stays active.
  unfoldable pub abandon_candidate : PrepareDeclaration → Tx B J ⊤
  unfolding keep_old
  abandon_candidate candidate = do
    ignore (on_backend (backend.remove_policy_rule candidate))
    ignore (on_backend (backend.remove_firewall candidate))
    ignore (on_backend (backend.remove_routes candidate))
    keep_old

  unfoldable pub commit_candidate : PrepareDeclaration → ℕ → ℕ → Tx B J ⊤
  unfolding activate_candidate abandon_candidate
  commit_candidate candidate now timeout =
      or_cleanup (activate_candidate candidate now timeout) (abandon_candidate candidate)

  -- The cutover of a first declaration.
  unfoldable pub commit_steps : PrepareDeclaration → Tx B J ⊤
  commit_steps d = do
    complete_step step_policy_rule
    at_stage (on_backend (backend.install_policy_rule d)) policy_activate
    set_phase active

  -- The branches of `commit_with_drain` past the ownership check, by the phase.
  unfoldable pub commit_phase : TransactionPhase → TransactionRecord → ℕ → ℕ → Tx B J ⊤
  unfolding commit_candidate commit_steps
  commit_phase draining r now timeout = pure tt
  commit_phase prepared r now timeout = elim r.recovery_candidate [
    | some candidate ↦ commit_candidate candidate now timeout
    | none ↦ or_cleanup (commit_steps r.declaration) cleanup_record
  ]
  commit_phase active r now timeout = pure tt
  commit_phase _ r now timeout = raise invalid_transition

  unfoldable pub commit_with_drain : LeaseOwner → ℕ → ℕ → Tx B J ⊤
  unfolding commit_phase
  commit_with_drain owner now timeout = do
    r ← current
    raise_if (not (is_candidate_owner r owner)) conflict
    commit_phase r.phase r now timeout

  unfoldable pub commit : LeaseOwner → Tx B J ⊤
  unfolding commit_with_drain
  commit owner = commit_with_drain owner 0 0

  -- The candidate takes the place of the old declaration, whose resources are removed first.
  unfoldable pub promote_candidate : LeaseOwner → TransactionRecord → Tx B J ⊤
  promote_candidate owner r = do
    candidate ← or_invalid r.recovery_candidate
    let candidate_owner = unwrap_or r.recovery_candidate_owner owner
    on_backend (backend.remove_policy_rule r.declaration)
    on_backend (backend.remove_firewall r.declaration)
    on_backend (backend.remove_routes r.declaration)
    r' ← current
    save (record (keep_active r') { owner = candidate_owner; declaration = candidate })

  -- `drain_old` of a record that is not already promoted.
  unfoldable pub drain_record : LeaseOwner → ℕ → TransactionRecord → Tx B J ⊤
  unfolding promote_candidate
  drain_record owner now r = do
    raise_if (not (is_draining r.phase)) invalid_transition
    raise_if (not (r.drain_deadline_mono_ms == 0) && ltb now r.drain_deadline_mono_ms) drain_pending
    promote_candidate owner r

  unfoldable pub drain_old : LeaseOwner → ℕ → Tx B J ⊤
  unfolding drain_record
  drain_old owner now = do
    r ← current
    raise_if (not (is_candidate_owner r owner)) conflict
    let promoted = is_active r.phase && not (is_some r.recovery_candidate)
    if promoted then pure tt else drain_record owner now r

  -- A staged candidate is withdrawn; the old declaration stays active.
  unfoldable pub discard_candidate : PrepareDeclaration → Tx B J ⊤
  discard_candidate candidate = do
    on_backend (backend.remove_firewall candidate)
    on_backend (backend.remove_routes candidate)
    r ← current
    save (keep_active r)

  unfoldable pub rollback_candidate : LeaseOwner → TransactionRecord → Tx B J ⊤
  unfolding discard_candidate
  rollback_candidate owner r = do
    raise_if (not (is_process r.owner owner)) conflict
    candidate ← or_invalid r.recovery_candidate
    discard_candidate candidate

  unfoldable pub rollback_record : LeaseOwner → TransactionRecord → Tx B J ⊤
  rollback_record owner r = do raise_if (not (is_owner r.owner owner)) conflict; cleanup_record

  unfoldable pub rollback : LeaseOwner → Tx B J ⊤
  unfolding rollback_candidate rollback_record
  rollback owner = do
    r ← current
    let staged = is_some r.recovery_candidate && is_staging r.phase
    if staged then rollback_candidate owner r else rollback_record owner r

  unfoldable pub withdraw_prefixes : LeaseOwner → List Ipv4Prefix → Tx B J ⊤
  withdraw_prefixes owner prefixes = do
    raise_if (is_empty prefixes) invalid_transition
    r ← current
    raise_if (not (is_owner r.owner owner)) conflict
    raise_if (not (is_active r.phase)) invalid_transition
    on_backend (backend.withdraw_prefixes r.declaration prefixes)

  unfoldable pub set_failed_prefixes : LeaseOwner → List Ipv4Prefix → Tx B J ⊤
  set_failed_prefixes owner prefixes = do
    r ← current
    raise_if (not (is_owner r.owner owner)) conflict
    raise_if (not (is_active r.phase || is_suspended r.phase)) invalid_transition
    let desired = dedup (sort_prefixes prefixes)
    raise_if (any (λ p. not (has_remote_route r.declaration.routes p)) desired) conflict
    on_backend (backend.reconcile_routes r.declaration desired)
    if is_active r.phase then on_backend (backend.install_policy_rule r.declaration) else pure tt
    r' ← current
    save (record r' { failed_prefixes = desired })

  unfoldable pub renew_lease : LeaseOwner → Tx B J ⊤
  renew_lease owner = do
    r ← current
    raise_if (not (is_candidate_owner r owner)) conflict
    save (record r {
      owner = record r.owner { lease_deadline_mono_ms = owner.lease_deadline_mono_ms };
    })

  unfoldable pub update_mtu : LeaseOwner → ℕ → Tx B J ⊤
  update_mtu owner mtu = do
    raise_if (not (is_valid_mtu mtu)) invalid_transition
    r ← current
    raise_if (not (is_owner r.owner owner)) conflict
    raise_if (not (is_active r.phase) || leb r.declaration.effective_mtu mtu) invalid_transition
    on_backend (backend.update_link_mtu r.declaration mtu)
    r' ← current
    save (record r' { declaration = record r.declaration { effective_mtu = mtu } })

  unfoldable pub suspend_active : TransactionRecord → Tx B J ⊤
  suspend_active r = do
    raise_if (not (is_active r.phase)) invalid_transition
    on_backend (backend.remove_policy_rule r.declaration)
    clear_step step_policy_rule
    set_phase suspended

  unfoldable pub suspend : LeaseOwner → Tx B J ⊤
  unfolding suspend_active
  suspend owner = do
    r ← current
    raise_if (not (is_owner r.owner owner)) conflict
    if is_suspended r.phase then pure tt else suspend_active r

  unfoldable pub resume_suspended : TransactionRecord → Tx B J ⊤
  resume_suspended r = do
    raise_if (not (is_suspended r.phase)) invalid_transition
    on_backend (backend.install_policy_rule r.declaration)
    complete_step step_policy_rule
    set_phase active

  unfoldable pub resume : LeaseOwner → Tx B J ⊤
  unfolding resume_suspended
  resume owner = do
    r ← current
    raise_if (not (is_owner r.owner owner)) conflict
    if is_active r.phase then pure tt else resume_suspended r
