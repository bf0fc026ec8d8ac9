-- ===== src/Proto/Session.antt =====
-- `NetdSession` of linux/common/crates/candy-netd-proto/src/lib.rs: the lifecycle that netd keeps
-- for its one client. `apply` changes the session through `&mut self`, so it returns the session
-- beside its result also where it fails.
pub mod Atomic
pub mod Retry
pub mod Moves
pub mod Invariant
use candy_runtime.Prelude.{
  ℕ, ◌+◌, Bool, true, false, not, ◌&&◌, ◌||◌, Option, none, some, ltb, leb, ◌==◌, same,
  if◌then◌else◌, Result, ok, err, is_some,
}
use candy_runtime.Proto.Error.{NetdProtocolError}
use candy_runtime.Proto.Prefix.{Bytes-discrete}
use candy_runtime.Proto.Declaration.{
  PrepareDeclaration, PrepareDeclaration-discrete, Routes-discrete, Exclusions-discrete,
  FirewallPolicy-discrete,
}
use candy_runtime.Proto.Request.{LeaseOwner, NetdOperation, NetdRequest, validate_request}

pub data SessionPhase : Type 0 where
  stopped prepared active suspended draining : SessionPhase

pub data NetdSessionError : Type 0 where
  generation_conflict invalid_transition owner_mismatch invalid_declaration : NetdSessionError

pub record NetdSession : Type 0 where
  pub phase : SessionPhase
  pub owner : Option LeaseOwner
  pub declaration : Option PrepareDeclaration
  pub replacement_pending : Bool

-- `NetdSession::new`
abbrev pub new_session : NetdSession
new_session = record {
  phase = stopped;
  owner = none;
  declaration = none;
  replacement_pending = false;
}

abbrev pub Outcome : Type 0
Outcome = Result NetdSessionError (Unit {0}) × NetdSession

abbrev pub is_stopped : SessionPhase → Bool
is_stopped stopped = true
is_stopped _ = false

abbrev pub is_active : SessionPhase → Bool
is_active active = true
is_active _ = false

abbrev pub is_suspended : SessionPhase → Bool
is_suspended suspended = true
is_suspended _ = false

abbrev pub is_prepare : NetdOperation → Bool
is_prepare (NetdOperation.prepare d) = true
is_prepare _ = false

abbrev pub is_reconfigure : NetdOperation → Bool
is_reconfigure (NetdOperation.reconfigure d) = true
is_reconfigure _ = false

-- `Commit | LeaseRenew`
abbrev pub is_commit_or_renew : NetdOperation → Bool
is_commit_or_renew NetdOperation.commit = true
is_commit_or_renew NetdOperation.lease_renew = true
is_commit_or_renew _ = false

abbrev pub same_process : LeaseOwner → LeaseOwner → Bool
same_process a b = same Bytes-discrete a.instance_id b.instance_id && (a.pid == b.pid)

-- What the ownership checks at the head of `apply` leave in its two flags.
pub data Fence : Type 0 where
  keep_owner advancing_generation reconfigure_generation : Fence

-- The chain of `if`s on a retained owner, in its order.
unfoldable pub check_owner :
    SessionPhase → LeaseOwner → NetdOperation → LeaseOwner → Result NetdSessionError Fence
check_owner phase owner operation request =
    let stopped_prepare = is_stopped phase && is_prepare operation in
    let replaces = same_process request owner && not (request.generation == owner.generation) in
    if stopped_prepare && ltb owner.generation request.generation
    then ok advancing_generation
    else if is_suspended phase && is_reconfigure operation && replaces
    then ok reconfigure_generation
    else if is_active phase && is_reconfigure operation && replaces
    then ok reconfigure_generation
    else if is_active phase && is_commit_or_renew operation && replaces
    then ok reconfigure_generation
    else if stopped_prepare && (owner.generation == request.generation)
    then ok keep_owner
    else if stopped_prepare && ltb request.generation owner.generation
    then err generation_conflict
    else if not (same_process owner request)
    then err owner_mismatch
    else if not (owner.generation == request.generation)
    then err generation_conflict
    else ok keep_owner

unfoldable pub check_retained :
    Option LeaseOwner → SessionPhase → NetdOperation → LeaseOwner → Result NetdSessionError Fence
unfolding check_owner
check_retained none phase operation request = ok keep_owner
check_retained (some owner) phase operation request = check_owner phase owner operation request

abbrev pub enter : Fence → LeaseOwner → NetdSession → NetdSession
enter keep_owner request s = s
enter advancing_generation request s = record s { owner = none; declaration = none }
enter reconfigure_generation request s = record s { owner = some request }

unfoldable pub same_generation_retry_except_exclusions :
    PrepareDeclaration → PrepareDeclaration → Bool
same_generation_retry_except_exclusions retained retry =
    (retained.table_id == retry.table_id)
    && same Bytes-discrete retained.overlay_router_ipv4 retry.overlay_router_ipv4
    && (retained.effective_mtu == retry.effective_mtu)
    && same Routes-discrete retained.routes retry.routes
    && same FirewallPolicy-discrete retained.firewall retry.firewall

abbrev pub same_declaration : Option PrepareDeclaration → PrepareDeclaration → Bool
same_declaration none d = false
same_declaration (some c) d = same PrepareDeclaration-discrete c d

abbrev pub refuse : NetdSessionError → NetdSession → Outcome
refuse e s = (err e, s)

abbrev pub done : NetdSession → Outcome
done s = (ok tt, s)

-- A prepare beside a retained declaration.
unfoldable pub apply_prepare_again :
    PrepareDeclaration → PrepareDeclaration → LeaseOwner → NetdSession → Outcome
unfolding same_generation_retry_except_exclusions
apply_prepare_again existing d owner s =
    if same PrepareDeclaration-discrete existing d
    then done (if is_stopped s.phase then record s { owner = some owner; phase = prepared } else s)
    else if is_stopped s.phase && same_generation_retry_except_exclusions existing d
    then done (record s { declaration = some d; owner = some owner; phase = prepared })
    else refuse generation_conflict s

unfoldable pub apply_prepare : PrepareDeclaration → LeaseOwner → NetdSession → Outcome
unfolding apply_prepare_again
apply_prepare d owner s = elim s.declaration [
  | some existing ↦ apply_prepare_again existing d owner s
  | none ↦
      if is_stopped s.phase
      then done (record s { owner = some owner; declaration = some d; phase = prepared })
      else refuse invalid_transition s
]

unfoldable pub apply_commit : NetdSession → Outcome
apply_commit s = elim s.phase [
  | prepared ↦ done (record s { phase = if s.replacement_pending then draining else active })
  | active ↦ done s
  | draining ↦ done s
  | stopped ↦ refuse invalid_transition s
  | suspended ↦ refuse invalid_transition s
]

unfoldable pub apply_rollback : NetdSession → Outcome
apply_rollback s =
    if is_some s.owner
    then done (record s { phase = stopped; replacement_pending = false })
    else refuse invalid_transition s

unfoldable pub apply_lease_renew : LeaseOwner → NetdSession → Outcome
apply_lease_renew owner s =
    if is_some s.owner then done (record s { owner = some owner }) else refuse invalid_transition s

unfoldable pub apply_mtu_update : ℕ → NetdSession → Outcome
apply_mtu_update mtu s = elim s.declaration [
  | none ↦ refuse invalid_transition s
  | some d ↦
      if not (is_active s.phase) || leb d.effective_mtu mtu
      then refuse invalid_transition s
      else done (record s { declaration = some (record d { effective_mtu = mtu }) })
]

unfoldable pub apply_suspend : NetdSession → Outcome
apply_suspend s =
    if is_active s.phase then done (record s { phase = suspended }) else refuse invalid_transition s

unfoldable pub apply_reconfigure : PrepareDeclaration → NetdSession → Outcome
apply_reconfigure d s = elim s.phase [
  | prepared ↦
      if s.replacement_pending
      then if same_declaration s.declaration d then done s else refuse generation_conflict s
      else refuse invalid_transition s
  | suspended ↦ done (record s { declaration = some d })
  | active ↦
      if same_declaration s.declaration d
      then done s
      else done (record s { declaration = some d; replacement_pending = true; phase = prepared })
  | stopped ↦ refuse invalid_transition s
  | draining ↦ refuse invalid_transition s
]

unfoldable pub apply_resume : NetdSession → Outcome
apply_resume s =
    if is_suspended s.phase then done (record s { phase = active }) else refuse invalid_transition s

unfoldable pub apply_drain : NetdSession → Outcome
apply_drain s = elim s.phase [
  | draining ↦ done (record s { phase = active; replacement_pending = false })
  | _ ↦ refuse invalid_transition s
]

unfoldable pub apply_withdraw : NetdSession → Outcome
apply_withdraw s = if is_active s.phase then done s else refuse invalid_transition s

-- The four fields that a policy update may not change.
abbrev pub changes_tunnel : PrepareDeclaration → PrepareDeclaration → Bool
changes_tunnel current d =
    not (current.table_id == d.table_id)
    || not (same Bytes-discrete current.overlay_router_ipv4 d.overlay_router_ipv4)
    || not (current.effective_mtu == d.effective_mtu)
    || not (same Exclusions-discrete current.exclusions d.exclusions)

unfoldable pub apply_policy_update : PrepareDeclaration → NetdSession → Outcome
apply_policy_update d s =
    if not (is_active s.phase || is_suspended s.phase)
    then refuse invalid_transition s
    else elim s.declaration [
      | none ↦ refuse invalid_transition s
      | some current ↦
          if changes_tunnel current d
          then refuse invalid_transition s
          else done (record s { declaration = some d })
    ]

-- The `match` on the operation.
unfoldable pub apply_operation : NetdOperation → LeaseOwner → NetdSession → Outcome
unfolding apply_prepare apply_commit apply_rollback apply_lease_renew apply_mtu_update apply_suspend
    apply_reconfigure apply_resume apply_drain apply_withdraw apply_policy_update
apply_operation (NetdOperation.prepare d) owner s = apply_prepare d owner s
apply_operation NetdOperation.commit owner s = apply_commit s
apply_operation NetdOperation.rollback owner s = apply_rollback s
apply_operation NetdOperation.status owner s = done s
apply_operation NetdOperation.lease_renew owner s = apply_lease_renew owner s
apply_operation (NetdOperation.mtu_update mtu) owner s = apply_mtu_update mtu s
apply_operation NetdOperation.suspend owner s = apply_suspend s
apply_operation (NetdOperation.reconfigure d) owner s = apply_reconfigure d s
apply_operation NetdOperation.resume owner s = apply_resume s
apply_operation (NetdOperation.drain now) owner s = apply_drain s
apply_operation (NetdOperation.withdraw_prefixes ps) owner s = apply_withdraw s
apply_operation (NetdOperation.policy_update d) owner s = apply_policy_update d s

-- The operation behind the ownership checks, on the session as they left it.
unfoldable pub after_fence :
    Result NetdSessionError Fence → NetdOperation → LeaseOwner → NetdSession → Outcome
unfolding apply_operation
after_fence (err e) operation owner s = refuse e s
after_fence (ok fence) operation owner s = apply_operation operation owner (enter fence owner s)

unfoldable pub apply_fenced : NetdOperation → LeaseOwner → NetdSession → Outcome
unfolding check_retained after_fence
apply_fenced operation owner s =
    after_fence (check_retained s.owner s.phase operation owner) operation owner s

abbrev pub apply_validated :
    Result NetdProtocolError (Unit {0}) → NetdRequest → NetdSession → Outcome
apply_validated (err e) request s = refuse invalid_declaration s
apply_validated (ok valid) request s = apply_fenced request.operation request.owner s

-- `NetdSession::apply`
unfoldable pub apply : NetdRequest → NetdSession → Outcome
unfolding apply_fenced
apply request s = apply_validated (validate_request request) request s
