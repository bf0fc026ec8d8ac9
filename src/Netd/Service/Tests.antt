-- ===== src/Netd/Service/Tests.antt =====
-- Runs of the service over a backend, a journal and a host in memory.
use candy_runtime.Prelude.{
  ◌≡◌, refl, ℕ, Bool, true, false, Option, none, some, [], ◌∷◌, ok, ◌+◌, ℕ_discrete,
}
use candy_runtime.Proto.Request.{NetdOperation, NetdRequest}
use candy_runtime.Proto.Session.{new_session}
use candy_runtime.Proto.Session.Invariant.{IsValid}
use candy_runtime.Proto.Tests.{declared, agent}
use candy_runtime.Netd.Record.{TransactionRecord}
use candy_runtime.Netd.Interface.{NetworkTransaction, ◌>>◌, save}
use candy_runtime.Netd.Transaction.Lifecycle
use candy_runtime.Netd.Transaction.Lifecycle.{discard_candidate}
use candy_runtime.Netd.Transaction.Controller.{perform}
use candy_runtime.Proto.Prefix.{Bytes-discrete}
use candy_runtime.Netd.Outcomes.{holding, given_up}
use candy_runtime.Netd.Tests.{simple_backend, simple_journal, replacing}
use candy_runtime.Netd.Reply.{PeerCredentials, Host, NetdService, with_network}
use candy_runtime.Netd.Service.{call, process, shutdown}
use candy_runtime.Netd.Service.Answers.{Processed, process-session}
use candy_runtime.Netd.Service.Events.{
  asked, orphan_checked, shut_down, after_events, after_events-IsValid, shutdown-keep_active,
}

-- A host whose state is the next descriptor; every process lives.
instance abbrev simple_host : Host ℕ
simple_host = record {
  create = λ h. (some h, h + 1);
  duplicate = λ descriptor h. (some h, h + 1);
  open_pidfd = λ pid h. (some h, h + 1);
  pidfd_is_ready = λ descriptor h. (false, h);
  process_is_alive = λ pid h. (true, h);
  monotonic_ms = λ h. (500, h);
}

abbrev empty : NetworkTransaction Bool (Option TransactionRecord)
empty = record { backend = true; journal = none; retained = none }

abbrev fresh : NetdService Bool (Option TransactionRecord) ℕ
fresh = with_network 1000 1000 3 empty

-- A service that was restarted beside a staged replacement.
abbrev staged : NetdService Bool (Option TransactionRecord) ℕ
staged = with_network 1000 1000 3 (holding true (some replacing) replacing)

abbrev peer : PeerCredentials
peer = record { pid = 40; uid = 1000; gid = 1000 }

abbrev ask : NetdOperation → NetdRequest
ask operation = record { request_id = 1; owner = agent; operation = operation }

process-session_example :
    Processed
      (ask (NetdOperation.prepare declared))
      peer
      fresh
      (process (ask (NetdOperation.prepare declared)) peer fresh)
process-session_example = process-session (ask (NetdOperation.prepare declared)) peer fresh

after_events-IsValid_example :
    IsValid
      (after_events
        (asked (ask (NetdOperation.prepare declared)) peer
          ∷ asked (ask NetdOperation.commit) peer
          ∷ orphan_checked 600
          ∷ shut_down
          ∷ [])
        fresh).session
after_events-IsValid_example =
    after_events-IsValid
      (asked (ask (NetdOperation.prepare declared)) peer
        ∷ asked (ask NetdOperation.commit) peer
        ∷ orphan_checked 600
        ∷ shut_down
        ∷ [])
      1000 1000 3 empty

staged_shuts_down : (shutdown staged).0 ≡ ok true
unfolding shutdown call perform Lifecycle.rollback ◌>>◌ save Bytes-discrete ℕ_discrete
    discard_candidate
staged_shuts_down = refl

shutdown-keep_active_example :
    ((shutdown staged).1.network.retained ≡ some (given_up replacing))
    × ((shutdown staged).1.session ≡ new_session)
shutdown-keep_active_example =
    shutdown-keep_active staged true (some replacing) replacing refl refl refl staged_shuts_down
