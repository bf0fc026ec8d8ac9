-- ===== src/Netd/Fencing.antt =====
-- Ownership: which processes may drive the retained transaction of
-- linux/common/apps/candy-netd/src/network.rs.
use candy_runtime.Prelude.{
  Bool, true, false, ◌≡◌, refl, not, Option, none, some, Result, ok, err, arith, if◌then◌else◌,
  is_some, ◌&&◌,
}
use candy_runtime.Proto.Error.{NetdProtocolError}
use mathlib.Core.Path.{subst}
use candy_runtime.Proto.Declaration.{PrepareDeclaration}
use candy_runtime.Proto.Request.{LeaseOwner}
use candy_runtime.Netd.Record.{TransactionRecord, NetworkError, is_process, is_staging}
use candy_runtime.Netd.Interface.{
  ⊤, Tx, NetworkBackend, NetworkJournal, NetworkTransaction, ◌>>=◌, ◌>>◌, current, raise_if, read,
  continue,
}
use candy_runtime.Netd.Transaction.Lifecycle
use candy_runtime.Netd.Transaction.Lifecycle.{valid_or_backend, is_candidate_owner}
use candy_runtime.Netd.Transaction.Replace
use candy_runtime.Netd.Transaction.Policy
use candy_runtime.Netd.Transaction.Controller.{ControllerCall, perform}

abbrev pub is_ok : {A : Type 0} → Result NetworkError A → Bool
is_ok (ok a) = true
is_ok (err e) = false

module _ {B J : Type 0} ⦃backend : NetworkBackend B⦄ ⦃journal : NetworkJournal J⦄ where
  -- The call is refused and neither the record nor the backend nor the journal has changed.
  abbrev pub IsRefused :
      (s : NetworkTransaction B J) → Result NetworkError ⊤ × NetworkTransaction B J → Type 0
  IsRefused s p = (is_ok p.0 ≡ false) × (p.1 ≡ s)

  -- A method that reads the record and then checks something that fails.
  checked :
      (f : TransactionRecord → Tx B J ⊤) (s : NetworkTransaction B J) {r : TransactionRecord}
      → s.retained ≡ some r
      → IsRefused s (f r s)
      → IsRefused s ((current >>= f) s)
  unfolding ◌>>=◌
  checked f s {r} e h = by_record s.retained e
    where
      by_record : (o : Option TransactionRecord) → o ≡ some r → IsRefused s (continue (read o s) f)
      by_record none x = ground arith
      by_record (some r') x =
          let same_record : r ≡ r' = cc in subst (λ q. IsRefused s (f q s)) same_record h

  refused :
      (b : Bool) (e : NetworkError) (m : Tx B J ⊤) (s : NetworkTransaction B J)
      → b ≡ true
      → IsRefused s ((raise_if b e >> m) s)
  unfolding ◌>>◌
  refused true e m s h = (refl, refl)
  refused false e m s h = ground arith

  -- A check that may fail first, and one behind it that does.
  IsRefused-later :
      (b : Bool) (e : NetworkError) (m : Tx B J ⊤) (s : NetworkTransaction B J)
      → IsRefused s (m s)
      → IsRefused s ((raise_if b e >> m) s)
  unfolding ◌>>◌
  IsRefused-later true e m s h = (refl, refl)
  IsRefused-later false e m s h = h

  invalid_or :
      (v : Result NetdProtocolError ⊤) (m : Tx B J ⊤) (s : NetworkTransaction B J)
      → IsRefused s (m s)
      → IsRefused s ((valid_or_backend v >> m) s)
  unfolding ◌>>◌
  invalid_or (ok done) m s h = h
  invalid_or (err e) m s h = (refl, refl)

  either :
      (b : Bool) (m n : Tx B J ⊤) (s : NetworkTransaction B J)
      → IsRefused s (m s)
      → IsRefused s (n s)
      → IsRefused s ((if b then m else n) s)
  either true m n s hm hn = hm
  either false m n s hm hn = hn

  module _ (owner : LeaseOwner) (s : NetworkTransaction B J) {r : TransactionRecord}
      (e : s.retained ≡ some r) (h : is_process r.owner owner ≡ false) where
    foreign_candidate : not (is_candidate_owner r owner) ≡ true
    foreign_candidate = ground arith

    prepare_beside-foreign :
        (d : PrepareDeclaration) (o : Option TransactionRecord)
        → o ≡ some r
        → IsRefused s (Lifecycle.prepare_beside o owner d s)
    unfolding Lifecycle.prepare_beside Lifecycle.prepare_again
    prepare_beside-foreign d none x = ground arith
    prepare_beside-foreign d (some q) x = refused _ _ _ s (ground arith)

    rollback_candidate-foreign : IsRefused s (Lifecycle.rollback_candidate owner r s)
    unfolding Lifecycle.rollback_candidate
    rollback_candidate-foreign = refused _ _ _ s (ground arith)

    rollback_record-foreign : IsRefused s (Lifecycle.rollback_record owner r s)
    unfolding Lifecycle.rollback_record
    rollback_record-foreign = refused _ _ _ s (ground arith)

    rollback-foreign : IsRefused s (Lifecycle.rollback owner s)
    unfolding Lifecycle.rollback
    rollback-foreign = checked _ s e (
        either (is_some r.recovery_candidate && is_staging r.phase)
          (Lifecycle.rollback_candidate owner r) (Lifecycle.rollback_record owner r) s
          rollback_candidate-foreign rollback_record-foreign)

    perform_foreign : (call : ControllerCall) → IsRefused s (perform call owner s)
    unfolding perform Lifecycle.prepare Lifecycle.commit Lifecycle.drain_old
        Lifecycle.set_failed_prefixes Lifecycle.renew_lease Lifecycle.update_mtu Lifecycle.suspend
        Replace.reconfigure Policy.update_policy Lifecycle.resume Lifecycle.commit_with_drain
    perform_foreign (ControllerCall.prepare d) = prepare_beside-foreign d s.retained e
    perform_foreign ControllerCall.commit = checked _ s e (refused _ _ _ s foreign_candidate)
    perform_foreign (ControllerCall.commit_with_drain now timeout) =
        checked _ s e (refused _ _ _ s foreign_candidate)
    perform_foreign (ControllerCall.drain_old now) =
        checked _ s e (refused _ _ _ s foreign_candidate)
    perform_foreign (ControllerCall.set_failed_prefixes ps) =
        checked _ s e (refused _ _ _ s (ground arith))
    perform_foreign ControllerCall.rollback = rollback-foreign
    perform_foreign ControllerCall.renew_lease = checked _ s e (refused _ _ _ s foreign_candidate)
    perform_foreign (ControllerCall.update_mtu mtu) =
        IsRefused-later _ _ _ s (checked _ s e (refused _ _ _ s (ground arith)))
    perform_foreign ControllerCall.suspend = checked _ s e (refused _ _ _ s (ground arith))
    perform_foreign (ControllerCall.reconfigure d) =
        invalid_or _ _ s (checked _ s e (refused _ _ _ s (ground arith)))
    perform_foreign (ControllerCall.update_policy d) =
        invalid_or _ _ s (checked _ s e (refused _ _ _ s (ground arith)))
    perform_foreign ControllerCall.resume = checked _ s e (refused _ _ _ s (ground arith))

  -- While a record is retained, a call by another process than its owner's, whatever the call, is
  -- refused: the result is an error, and the record, the backend and the journal are as before.
  pub perform-foreign :
      (call : ControllerCall) (owner : LeaseOwner) (s : NetworkTransaction B J)
      {r : TransactionRecord}
      → s.retained ≡ some r
      → is_process r.owner owner ≡ false
      → IsRefused s (perform call owner s)
  perform-foreign call owner s e h = perform_foreign owner s e h call
