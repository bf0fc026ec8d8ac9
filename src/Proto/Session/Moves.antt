-- ===== src/Proto/Session/Moves.antt =====
-- The lifecycle as a diagram of phases, and what an accepted request keeps: the process that owns
-- the session, the generation of a stopped one, and the answer to a retry.
use candy_runtime.Prelude.{
  ◌≡◌, refl, Bool, true, false, some, Result, ok, err, arith, ◌≤◌, ◌⊎◌, ◌||◌,
}
use candy_runtime.Proto.Error.{NetdProtocolError}
use candy_runtime.Proto.Request.{NetdOperation, NetdRequest, LeaseOwner, validate_request}
use candy_runtime.Proto.Session.{
  SessionPhase, stopped, prepared, active, suspended, draining, NetdSession, apply_fenced,
  is_stopped, is_active, is_suspended, apply_validated, apply,
}

-- The edges of the diagram: an operation, the phase before it and the phase after it.
abbrev pub follows : NetdOperation → SessionPhase → SessionPhase → Bool
follows (NetdOperation.prepare d) stopped prepared = true
follows (NetdOperation.prepare d) prepared prepared = true
follows (NetdOperation.prepare d) active active = true
follows (NetdOperation.prepare d) suspended suspended = true
follows (NetdOperation.prepare d) draining draining = true
follows NetdOperation.commit prepared active = true
follows NetdOperation.commit prepared draining = true
follows NetdOperation.commit active active = true
follows NetdOperation.commit draining draining = true
follows NetdOperation.rollback before stopped = true
follows NetdOperation.status stopped stopped = true
follows NetdOperation.status prepared prepared = true
follows NetdOperation.status active active = true
follows NetdOperation.status suspended suspended = true
follows NetdOperation.status draining draining = true
follows NetdOperation.lease_renew stopped stopped = true
follows NetdOperation.lease_renew prepared prepared = true
follows NetdOperation.lease_renew active active = true
follows NetdOperation.lease_renew suspended suspended = true
follows NetdOperation.lease_renew draining draining = true
follows (NetdOperation.mtu_update mtu) active active = true
follows NetdOperation.suspend active suspended = true
follows (NetdOperation.reconfigure d) active prepared = true
follows (NetdOperation.reconfigure d) prepared prepared = true
follows (NetdOperation.reconfigure d) active active = true
follows (NetdOperation.reconfigure d) suspended suspended = true
follows NetdOperation.resume suspended active = true
follows (NetdOperation.drain now) draining active = true
follows (NetdOperation.withdraw_prefixes ps) active active = true
follows (NetdOperation.policy_update d) active active = true
follows (NetdOperation.policy_update d) suspended suspended = true
follows _ _ _ = false

fenced-follows :
    (op : NetdOperation) (owner : LeaseOwner) (s : NetdSession)
    → (apply_fenced op owner s).0 ≡ ok tt
    → follows op s.phase (apply_fenced op owner s).1.phase ≡ true
unfolding apply_fenced
fenced-follows NetdOperation.commit owner s h = ground arith
fenced-follows op owner s h = ground arith

-- Past validation an accepted request has taken `apply_fenced`.
accepted_cases :
    (v : Result NetdProtocolError (Unit {0})) (request : NetdRequest) (s : NetdSession)
    → (apply_validated v request s).0 ≡ ok tt
    → apply_validated v request s ≡ apply_fenced request.operation request.owner s
accepted_cases (err x) request s h = ground arith
accepted_cases (ok valid) request s h = refl

pub accepted :
    (request : NetdRequest) (s : NetdSession)
    → (apply request s).0 ≡ ok tt
    → apply request s ≡ apply_fenced request.operation request.owner s
unfolding apply
accepted request s h = accepted_cases (validate_request request) request s h

-- An accepted request moves the session along an edge of the lifecycle diagram.
pub apply-follows :
    (request : NetdRequest) (s : NetdSession)
    → (apply request s).0 ≡ ok tt
    → follows request.operation s.phase (apply request s).1.phase ≡ true
apply-follows request s h =
    rw (accepted request s h)
      (fenced-follows request.operation request.owner s (rw (accepted request s h) at h))

-- The operations with which a live session takes another generation.
abbrev pub may_change_generation : NetdOperation → SessionPhase → Bool
may_change_generation (NetdOperation.reconfigure d) phase = is_active phase || is_suspended phase
may_change_generation NetdOperation.commit phase = is_active phase
may_change_generation NetdOperation.lease_renew phase = is_active phase
may_change_generation _ phase = false

fenced-owner :
    (op : NetdOperation) (owner : LeaseOwner) (s : NetdSession) {o : LeaseOwner}
    → s.owner ≡ some o
    → is_stopped s.phase ≡ false
    → (apply_fenced op owner s).0 ≡ ok tt
    → (owner.instance_id ≡ o.instance_id)
      × (owner.pid ≡ o.pid)
      × ((owner.generation ≡ o.generation) ⊎ (may_change_generation op s.phase ≡ true))
unfolding apply_fenced
fenced-owner NetdOperation.commit owner s e live h = ground arith
fenced-owner op owner s e live h = ground arith

fenced_stopped :
    (op : NetdOperation) (owner : LeaseOwner) (s : NetdSession) {o : LeaseOwner}
    → s.owner ≡ some o
    → s.phase ≡ stopped
    → (apply_fenced op owner s).0 ≡ ok tt
    → o.generation ≤ owner.generation
unfolding apply_fenced
fenced_stopped NetdOperation.commit owner s e live h = ground arith
fenced_stopped op owner s e live h = ground arith

-- On a session that is not stopped, an accepted request comes from the process that owns it: the
-- instance and the pid are the retained owner's. Its generation is the retained one too, unless it
-- is a Reconfigure on an active or suspended session, or a Commit or LeaseRenew on an active one.
pub apply-owner :
    (request : NetdRequest) (s : NetdSession) {o : LeaseOwner}
    → s.owner ≡ some o
    → is_stopped s.phase ≡ false
    → (apply request s).0 ≡ ok tt
    → (request.owner.instance_id ≡ o.instance_id)
      × (request.owner.pid ≡ o.pid)
      × ((request.owner.generation ≡ o.generation)
          ⊎ (may_change_generation request.operation s.phase ≡ true))
apply-owner request s e live h =
    fenced-owner request.operation request.owner s e live (rw (accepted request s h) at h)

-- A stopped session that remembers an owner accepts no request of an older generation.
pub apply-stopped :
    (request : NetdRequest) (s : NetdSession) {o : LeaseOwner}
    → s.owner ≡ some o
    → s.phase ≡ stopped
    → (apply request s).0 ≡ ok tt
    → o.generation ≤ request.owner.generation
apply-stopped request s e live h =
    fenced_stopped request.operation request.owner s e live (rw (accepted request s h) at h)
