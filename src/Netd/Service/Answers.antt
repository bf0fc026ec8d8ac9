-- ===== src/Netd/Service/Answers.antt =====
-- What the answer of `NetdService` says of the service after it.
use candy_runtime.Prelude.{
  ℕ, ◌≡◌, refl, ◌∙◌, ◌⊎◌, inl, inr, Bool, true, false, Option, none, some, Result, ok, err, arith,
}
use candy_runtime.Proto.Request.{LeaseOwner, NetdOperation, NetdRequest}
use candy_runtime.Proto.Session.{NetdSessionError, NetdSession, apply}
use candy_runtime.Proto.Codec.Response.{ErrorCode, ResponseBody}
use candy_runtime.Netd.Record.{NetworkError}
use candy_runtime.Netd.Interface.{⊤, NetworkBackend, NetworkJournal}
use candy_runtime.Netd.Transaction.Controller.{ControllerCall}
use candy_runtime.Netd.Reply.{
  PeerCredentials, Host, NetdService, Reply, answered, committed, rolled_back, duplicated,
  is_status, is_unauthorized, drain_timeout_ms,
}
use candy_runtime.Netd.Service.{
  watch_owner, prepared_with, created, prepare_on, commit_at, call, process_operation,
  process_applied, process,
}

abbrev pub is_error : ResponseBody → Bool
is_error (ResponseBody.error code) = true
is_error _ = false

status_only : (op : NetdOperation) → is_status op ≡ true → op ≡ NetdOperation.status
status_only NetdOperation.status h = refl
status_only _ h = cc

other_than : (op : NetdOperation) → is_status op ≡ false → ¬ (op ≡ NetdOperation.status)
other_than op h e = cc

module _ {B J H : Type 0} where
  -- An error leaves the session and passes no descriptor; any other answer takes the next session,
  -- and passes a descriptor only where it says so.
  abbrev pub Settled : NetdRequest → NetdSession → NetdSession → Reply B J H → Type 0
  Settled r before next reply =
      ((is_error reply.body ≡ true) × (reply.after.session ≡ before) × (reply.transferred ≡ none))
      ⊎ ((is_error reply.body ≡ false)
          × (reply.after.session ≡ next)
          × ((reply.transferred ≡ none)
              ⊎ (reply.body ≡ ResponseBody.prepared r.owner.generation true)))

  module _ (r : NetdRequest) (before next : NetdSession) (body : ResponseBody)
      (fine : is_error body ≡ false) where
    Settled-answered :
        (m : Result NetworkError ⊤ × NetdService B J H)
        → m.1.session ≡ before
        → Settled r before next (answered r next body m)
    Settled-answered (ok done, s) h = inr (fine, refl, inl refl)
    Settled-answered (err e, s) h = inl (refl, h, refl)

    Settled-committed :
        (m : Result NetworkError ⊤ × NetdService B J H)
        → m.1.session ≡ before
        → Settled r before next (committed r next body m)
    Settled-committed (ok done, s) h = inr (fine, refl, inl refl)
    Settled-committed (err e, s) h = inl (refl, h, refl)

    Settled-rolled_back :
        (m : Result NetworkError ⊤ × NetdService B J H)
        → m.1.session ≡ before
        → Settled r before next (rolled_back r next body m)
    Settled-rolled_back (ok done, s) h = inr (fine, refl, inl refl)
    Settled-rolled_back (err e, s) h = inl (refl, h, refl)

module _ {B J H : Type 0} ⦃backend : NetworkBackend B⦄ ⦃journal : NetworkJournal J⦄
    ⦃host : Host H⦄ where
  session-call :
      (c : ControllerCall) (owner : LeaseOwner) (s : NetdService B J H)
      → (call c owner s).1.session ≡ s.session
  unfolding call
  session-call c owner s = refl

  session-watch_owner :
      (owner : LeaseOwner) (s : NetdService B J H) → (watch_owner owner s).session ≡ s.session
  unfolding watch_owner
  session-watch_owner owner s = ground arith

  module _ (r : NetdRequest) (before next : NetdSession) where
    Settled-duplicated :
        (s : NetdService B J H) (m : Option ℕ × H)
        → s.session ≡ before
        → Settled r before next (duplicated r next s m)
    Settled-duplicated s (none, h) e = inl (refl, e, refl)
    Settled-duplicated s (some descriptor, h) e = inr (refl, refl, inr refl)

    Settled-prepared_with :
        (tun : ℕ) (m : Result NetworkError ⊤ × NetdService B J H)
        → m.1.session ≡ before
        → Settled r before next (prepared_with r next tun m)
    Settled-prepared_with tun (ok done, s) e =
        let watched = watch_owner r.owner s in
        Settled-duplicated watched (host.duplicate tun watched.host)
          (session-watch_owner r.owner s ∙ e)
    Settled-prepared_with tun (err x, s) e = inl (refl, e, refl)

    Settled-created :
        (c : ControllerCall) (s : NetdService B J H) (m : Option ℕ × H)
        → s.session ≡ before
        → Settled r before next (created c r next s m)
    Settled-created c s (none, h) e = inl (refl, e, refl)
    Settled-created c s (some tun, h) e =
        let with_tun = record s { tun = some tun; host = h } in
        Settled-prepared_with tun (call c r.owner with_tun) (session-call c r.owner with_tun ∙ e)

    Settled-prepare_on :
        (tun : Option ℕ) (c : ControllerCall) (s : NetdService B J H)
        → s.session ≡ before
        → Settled r before next (prepare_on tun c r next s)
    Settled-prepare_on none c s e = Settled-created c s (host.create s.host) e
    Settled-prepare_on (some tun) c s e =
        Settled-prepared_with tun (call c r.owner s) (session-call c r.owner s ∙ e)

    Settled-commit_at :
        (s : NetdService B J H) (m : ℕ × H)
        → s.session ≡ before
        → Settled r before next (commit_at r next s m)
    Settled-commit_at s (now, h) e =
        let timed = record s { host = h } in
        Settled-committed r before next _ refl _
          (session-call (ControllerCall.commit_with_drain now drain_timeout_ms) r.owner timed ∙ e)

  Settled-process_operation :
      (op : NetdOperation) (r : NetdRequest) (next : NetdSession) (s : NetdService B J H)
      → Settled r s.session next (process_operation op r next s)
  unfolding process_operation
  Settled-process_operation (NetdOperation.prepare d) r next s =
      Settled-prepare_on r s.session next s.tun _ s refl
  Settled-process_operation NetdOperation.commit r next s =
      Settled-commit_at r s.session next s (host.monotonic_ms s.host) refl
  Settled-process_operation NetdOperation.rollback r next s =
      Settled-rolled_back r s.session next _ refl _ (session-call ControllerCall.rollback r.owner s)
  Settled-process_operation NetdOperation.status r next s = inr (refl, refl, inl refl)
  Settled-process_operation NetdOperation.lease_renew r next s =
      Settled-answered r s.session next _ refl _ (session-call ControllerCall.renew_lease r.owner s)
  Settled-process_operation (NetdOperation.mtu_update mtu) r next s =
      Settled-answered r s.session next _ refl _
        (session-call (ControllerCall.update_mtu mtu) r.owner s)
  Settled-process_operation NetdOperation.suspend r next s =
      Settled-answered r s.session next _ refl _ (session-call ControllerCall.suspend r.owner s)
  Settled-process_operation (NetdOperation.reconfigure d) r next s =
      Settled-answered r s.session next _ refl _
        (session-call (ControllerCall.reconfigure d) r.owner s)
  Settled-process_operation (NetdOperation.policy_update d) r next s =
      Settled-answered r s.session next _ refl _
        (session-call (ControllerCall.update_policy d) r.owner s)
  Settled-process_operation NetdOperation.resume r next s =
      Settled-answered r s.session next _ refl _ (session-call ControllerCall.resume r.owner s)
  Settled-process_operation (NetdOperation.drain now) r next s =
      Settled-answered r s.session next _ refl _
        (session-call (ControllerCall.drain_old now) r.owner s)
  Settled-process_operation (NetdOperation.withdraw_prefixes ps) r next s =
      Settled-answered r s.session next _ refl _
        (session-call (ControllerCall.set_failed_prefixes ps) r.owner s)

  -- What is known after the session has judged the request.
  abbrev pub Judged :
      NetdRequest → NetdSession → Result NetdSessionError ⊤ × NetdSession → Reply B J H → Type 0
  Judged r before verdict reply =
      ((is_error reply.body ≡ true) × (reply.after.session ≡ before) × (reply.transferred ≡ none))
      ⊎ ((verdict.0 ≡ ok tt)
          × (is_error reply.body ≡ false)
          × (reply.after.session ≡ verdict.1)
          × ((reply.transferred ≡ none)
              ⊎ (reply.body ≡ ResponseBody.prepared r.owner.generation true)))

  Judged-process_applied :
      (verdict : Result NetdSessionError ⊤ × NetdSession) (r : NetdRequest) (s : NetdService B J H)
      → Judged r s.session verdict (process_applied verdict r s)
  Judged-process_applied (err e, next) r s = inl (refl, refl, refl)
  Judged-process_applied (ok done, next) r s =
      elim (Settled-process_operation r.operation r next s) [
        | inl h ↦ inl h
        | inr (fine, same_session, passed) ↦ inr (refl, fine, same_session, passed)
      ]

  -- The peer has the user and the group of the service, and it is the owner's process.
  abbrev pub IsPermitted : NetdRequest → PeerCredentials → NetdService B J H → Type 0
  IsPermitted r peer s =
      (peer.uid ≡ s.allowed_uid) × (peer.gid ≡ s.allowed_gid) × (r.owner.pid ≡ peer.pid)

  permitted :
      (r : NetdRequest) (peer : PeerCredentials) (s : NetdService B J H)
      → is_unauthorized r peer s ≡ false
      → IsPermitted r peer s
  permitted r peer s h = ground arith

  forbidden :
      (r : NetdRequest) (peer : PeerCredentials) (s : NetdService B J H)
      → is_unauthorized r peer s ≡ true
      → ¬ IsPermitted r peer s
  forbidden r peer s h k = ground arith

  -- A foreign peer, a status that was answered, a refusal, and a request that was carried out.
  abbrev pub Processed : NetdRequest → PeerCredentials → NetdService B J H → Reply B J H → Type 0
  Processed r peer s reply =
      ((¬ IsPermitted r peer s)
        × (reply.body ≡ ResponseBody.error ErrorCode.unauthorized_peer)
        × (reply.after ≡ s)
        × (reply.transferred ≡ none))
      ⊎ (IsPermitted r peer s
          × (r.operation ≡ NetdOperation.status)
          × (reply.body ≡ ResponseBody.status s.session.phase r.owner.generation)
          × (reply.after ≡ s)
          × (reply.transferred ≡ none))
      ⊎ (IsPermitted r peer s
          × (¬ (r.operation ≡ NetdOperation.status))
          × (is_error reply.body ≡ true)
          × (reply.after.session ≡ s.session)
          × (reply.transferred ≡ none))
      ⊎ (IsPermitted r peer s
          × (¬ (r.operation ≡ NetdOperation.status))
          × ((apply r s.session).0 ≡ ok tt)
          × (is_error reply.body ≡ false)
          × (reply.after.session ≡ (apply r s.session).1)
          × ((reply.transferred ≡ none)
              ⊎ (reply.body ≡ ResponseBody.prepared r.owner.generation true)))

  -- Whatever the request and the peer: a peer that lacks the user or the group of the service, or is not
  -- the process of the request's owner, gets the error for an unauthorized peer, and the service stays
  -- as it was. To a permitted peer, a status is answered with the phase of the session and leaves all of
  -- the service. Of its other requests, an answer that is an error leaves the session as it was and
  -- passes no descriptor, and any other answer means that the session has accepted the request and
  -- stands where that takes it, and that a descriptor is passed only with the answer to a prepare.
  pub process-session :
      (r : NetdRequest) (peer : PeerCredentials) (s : NetdService B J H)
      → Processed r peer s (process r peer s)
  unfolding process
  process-session r peer s = by_tests (is_unauthorized r peer s) (is_status r.operation) refl refl
    where
      by_tests :
          (foreign status : Bool)
          → is_unauthorized r peer s ≡ foreign
          → is_status r.operation ≡ status
          → Processed r peer s (process r peer s)
      by_tests true status e f = rw e (inl (forbidden r peer s e, refl, refl, refl))
      by_tests false true e f =
          rw (e, f) (inr (inl (permitted r peer s e, status_only r.operation f, refl, refl, refl)))
      by_tests false false e f =
          rw (e, f)
            (elim (Judged-process_applied (apply r s.session) r s) [
              | inl (refused, same_session, passed) ↦ inr (
                  inr (
                    inl (
                      permitted r peer s e,
                      other_than r.operation f,
                      refused,
                      same_session,
                      passed,
                    )))
              | inr (judged, fine, same_session, passed) ↦ inr (
                  inr (
                    inr (
                      permitted r peer s e,
                      other_than r.operation f,
                      judged,
                      fine,
                      same_session,
                      passed,
                    )))
            ])
