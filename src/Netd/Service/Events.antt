-- ===== src/Netd/Service/Events.antt =====
-- The service over time: requests of any peers, recoveries of an orphan and shutdowns, in any order.
use candy_runtime.Prelude.{
  ℕ, ◌≡◌, refl, ap, ◌∙◌, ◌⊎◌, inl, inr, Bool, true, false, Option, none, some, List, [], ◌∷◌,
  Result, ok, err,
}
use mathlib.Core.Path.{subst, sym}
use candy_runtime.Proto.Request.{LeaseOwner, NetdRequest}
use candy_runtime.Proto.Session.{NetdSession, new_session}
use candy_runtime.Proto.Session.Invariant.{IsValid, apply-IsValid, serve_new-IsValid}
use candy_runtime.Netd.Record.{NetworkError, is_staging, TransactionRecord}
use candy_runtime.Netd.Interface.{⊤, NetworkBackend, NetworkJournal, NetworkTransaction}
use candy_runtime.Netd.Transaction.Recover.{recover_orphan}
use candy_runtime.Netd.Transaction.Controller.{ControllerCall, perform, retained_owner}
use candy_runtime.Proto.Declaration.{PrepareDeclaration}
use candy_runtime.Netd.Transaction.Lifecycle
use candy_runtime.Netd.Outcomes.{holding, given_up, rollback-restores}
use candy_runtime.Netd.Reply.{
  PeerCredentials, Host, NetdService, recovered, shut, with_network, reset,
}
use candy_runtime.Netd.Service.{
  call, process, recover_with, owner_is_alive, recover, shutdown_of, shutdown,
}
use candy_runtime.Netd.Service.Answers.{process-session}

pub data Event : Type 0 where
  asked : NetdRequest → PeerCredentials → Event
  orphan_checked : ℕ → Event
  shut_down : Event

new-IsValid : IsValid new_session
new-IsValid = serve_new-IsValid []

module _ {B J H : Type 0} where
  -- A session that is kept, or that is new.
  abbrev Keeps : NetdSession → NetdService B J H → Type 0
  Keeps before s = (s.session ≡ before) ⊎ (s.session ≡ new_session)

  Keeps-recovered :
      (before : NetdSession) (m : Result NetworkError Bool × NetdService B J H)
      → m.1.session ≡ before
      → Keeps before (recovered m).1
  Keeps-recovered before (ok true, s) e = inr refl
  Keeps-recovered before (ok false, s) e = inl e
  Keeps-recovered before (err x, s) e = inl e

  Keeps-shut :
      (before : NetdSession) (m : Result NetworkError ⊤ × NetdService B J H)
      → m.1.session ≡ before
      → Keeps before (shut m).1
  Keeps-shut before (ok done, s) e = inr refl
  Keeps-shut before (err x, s) e = inl e

  shut_ok :
      (m : Result NetworkError ⊤ × NetdService B J H)
      → (shut m).0 ≡ ok true
      → (m.0 ≡ ok tt) × ((shut m).1 ≡ reset m.1)
  shut_ok (ok done, s) e = (refl, refl)
  shut_ok (err x, s) e = cc

  kept-IsValid :
      (before : NetdSession) (s : NetdService B J H)
      → IsValid before
      → Keeps before s
      → IsValid s.session
  kept-IsValid before s h k = elim k [
    | inl e ↦ subst IsValid (sym e) h
    | inr e ↦ subst IsValid (sym e) new-IsValid
  ]

module _ {B J H : Type 0} ⦃backend : NetworkBackend B⦄ ⦃journal : NetworkJournal J⦄
    ⦃host : Host H⦄ where
  abbrev pub after_event : Event → NetdService B J H → NetdService B J H
  after_event (asked r peer) s = (process r peer s).after
  after_event (orphan_checked now) s = (recover now s).1
  after_event shut_down s = (shutdown s).1

  abbrev pub after_events : List Event → NetdService B J H → NetdService B J H
  after_events [] s = s
  after_events (event ∷ events) s = after_events events (after_event event s)

  Keeps-recover_with :
      (now : ℕ) (s : NetdService B J H) (m : Bool × H) → Keeps s.session (recover_with now s m).1
  Keeps-recover_with now s (alive, h) =
      Keeps-recovered s.session
        (
          (recover_orphan alive now s.network).0,
          record s { network = (recover_orphan alive now s.network).1; host = h },
        )
        refl

  Keeps-shutdown_of :
      (owner : Option LeaseOwner) (s : NetdService B J H) → Keeps s.session (shutdown_of owner s).1
  unfolding call
  Keeps-shutdown_of none s = inl refl
  Keeps-shutdown_of (some owner) s =
      Keeps-shut s.session (call ControllerCall.rollback owner s) refl

  event-IsValid :
      (event : Event) (s : NetdService B J H)
      → IsValid s.session
      → IsValid (after_event event s).session
  unfolding recover shutdown
  event-IsValid (asked r peer) s h = elim (process-session r peer s) [
    | inl (foreign, body, same_service, passed) ↦
        subst (λ (t : NetdService B J H). IsValid t.session) (sym same_service) h
    | inr (inl (permitted, status, body, same_service, passed)) ↦
        subst (λ (t : NetdService B J H). IsValid t.session) (sym same_service) h
    | inr (inr (inl (permitted, other, refused, same_session, passed))) ↦
        subst IsValid (sym same_session) h
    | inr (inr (inr (permitted, other, judged, fine, same_session, passed))) ↦
        subst IsValid (sym same_session) (apply-IsValid r s.session h)
  ]
  event-IsValid (orphan_checked now) s h =
      kept-IsValid s.session (recover now s).1 h
        (Keeps-recover_with now s (owner_is_alive (retained_owner s.network) s))
  event-IsValid shut_down s h =
      kept-IsValid s.session (shutdown s).1 h (Keeps-shutdown_of (retained_owner s.network) s)

  events-IsValid :
      (events : List Event) (s : NetdService B J H)
      → IsValid s.session
      → IsValid (after_events events s).session
  events-IsValid [] s h = h
  events-IsValid (event ∷ events) s h =
      events-IsValid events (after_event event s) (event-IsValid event s h)

  -- Whatever requests, recoveries and shutdowns a new service lives through, on whatever host,
  -- backend and journal, and with whatever failures of theirs: a session that is not stopped has an
  -- owner and a valid declaration, and only a prepared or draining one is marked as a replacement.
  pub after_events-IsValid :
      (events : List Event) (uid gid : ℕ) (h : H) (network : NetworkTransaction B J)
      → IsValid (after_events events (with_network uid gid h network)).session
  after_events-IsValid events uid gid h network =
      events-IsValid events (with_network uid gid h network) new-IsValid

  -- A shutdown beside a staged replacement that succeeds ends the session and leaves the tunnel of the
  -- old declaration: the record stays, in phase active, with its old owner and declaration, and
  -- without a candidate and a drain deadline.
  pub shutdown-keep_active :
      (s : NetdService B J H) (b : B) (j : J) (r : TransactionRecord) {c : PrepareDeclaration}
      → s.network ≡ holding b j r
      → r.recovery_candidate ≡ some c
      → is_staging r.phase ≡ true
      → (shutdown s).0 ≡ ok true
      → ((shutdown s).1.network.retained ≡ some (given_up r))
        × ((shutdown s).1.session ≡ new_session)
  unfolding shutdown call perform
  shutdown-keep_active s b j r {c = c} held candidate staging done =
      let opened : shutdown s ≡ shut (call ControllerCall.rollback r.owner s) = rw held refl in
      let (rolled, after) =
        shut_ok (call ControllerCall.rollback r.owner s) (ap (λ m. m.0) (sym opened) ∙ done) in
      let finished : (Lifecycle.rollback r.owner (holding b j r)).0 ≡ ok tt =
        ap (λ n. (Lifecycle.rollback r.owner n).0) (sym held) ∙ rolled in
      let (restored, owned) = rollback-restores r.owner b j r candidate staging finished in
      let final : (shutdown s).1 ≡ reset (call ControllerCall.rollback r.owner s).1 =
        ap (λ m. m.1) opened ∙ after in
      let rolled_record : (call ControllerCall.rollback r.owner s).1.network.retained
          ≡ some (given_up r) =
        ap (λ n. (Lifecycle.rollback r.owner n).1.retained) held ∙ restored in
      (ap (λ t. t.network.retained) final ∙ rolled_record, ap (λ t. t.session) final)
