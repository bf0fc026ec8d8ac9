-- ===== src/Proto/Session/Atomic.antt =====
-- A refused request leaves the session as it was, although `apply` works in place.
use candy_runtime.Prelude.{◌≡◌, Result, ok, err, arith}
use candy_runtime.Proto.Error.{NetdProtocolError}
use candy_runtime.Proto.Request.{NetdOperation, NetdRequest, LeaseOwner, validate_request}
use candy_runtime.Proto.Session.{
  NetdSession, NetdSessionError, apply_fenced, apply_validated, apply,
}

apply_fenced-atomic :
    (op : NetdOperation) (owner : LeaseOwner) (s : NetdSession) {e : NetdSessionError}
    → (apply_fenced op owner s).0 ≡ err e
    → (apply_fenced op owner s).1 ≡ s
unfolding apply_fenced
apply_fenced-atomic NetdOperation.commit owner s h = ground arith
apply_fenced-atomic op owner s h = ground arith

apply_validated-atomic :
    (v : Result NetdProtocolError (Unit {0})) (request : NetdRequest) (s : NetdSession)
    {e : NetdSessionError}
    → (apply_validated v request s).0 ≡ err e
    → (apply_validated v request s).1 ≡ s
apply_validated-atomic (err x) request s h = ground arith
apply_validated-atomic (ok valid) request s h =
    apply_fenced-atomic request.operation request.owner s h

-- A request that is refused, for whatever reason, leaves all four fields of the session as they
-- were, also the owner and the declaration that the ownership checks overwrite.
pub apply-atomic :
    (request : NetdRequest) (s : NetdSession) {e : NetdSessionError}
    → (apply request s).0 ≡ err e
    → (apply request s).1 ≡ s
unfolding apply
apply-atomic request s h = apply_validated-atomic (validate_request request) request s h
