-- ===== src/Proto/Session/Retry.antt =====
-- Requests that a client may send again: a lost reply leads it to repeat the request.
use candy_runtime.Prelude.{◌≡◌, Bool, true, false, ok, arith, Result, err}
use candy_runtime.Proto.Error.{NetdProtocolError}
use candy_runtime.Proto.Request.{NetdOperation, NetdRequest, LeaseOwner, validate_request}
use candy_runtime.Proto.Session.{NetdSession, apply_fenced, apply_validated, apply}

-- Suspend, Resume and Drain are refused the second time, and so is a lowered MTU.
abbrev pub is_repeatable : NetdOperation → Bool
is_repeatable NetdOperation.suspend = false
is_repeatable NetdOperation.resume = false
is_repeatable (NetdOperation.drain now) = false
is_repeatable (NetdOperation.mtu_update mtu) = false
is_repeatable _ = true

fenced_again :
    (op : NetdOperation) (owner : LeaseOwner) (s : NetdSession)
    → is_repeatable op ≡ true
    → (apply_fenced op owner s).0 ≡ ok tt
    → apply_fenced op owner (apply_fenced op owner s).1 ≡ (ok tt, (apply_fenced op owner s).1)
unfolding apply_fenced
fenced_again NetdOperation.commit owner s r h = ground arith
fenced_again op owner s r h = ground arith

validated_again :
    (v : Result NetdProtocolError (Unit {0})) (request : NetdRequest) (s : NetdSession)
    → is_repeatable request.operation ≡ true
    → (apply_validated v request s).0 ≡ ok tt
    → apply_validated v request (apply_validated v request s).1
      ≡ (ok tt, (apply_validated v request s).1)
validated_again (err x) request s r h = ground arith
validated_again (ok valid) request s r h = fenced_again request.operation request.owner s r h

-- An accepted request other than Suspend, Resume, Drain and MtuUpdate is accepted again when it is
-- repeated at once, and the repetition changes nothing.
pub apply-again :
    (request : NetdRequest) (s : NetdSession)
    → is_repeatable request.operation ≡ true
    → (apply request s).0 ≡ ok tt
    → apply request (apply request s).1 ≡ (ok tt, (apply request s).1)
unfolding apply
apply-again request s r h = validated_again (validate_request request) request s r h
