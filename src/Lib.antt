-- ===== src/Lib.antt =====
-- The privileged network daemon of the Candy runtime: its protocol, its session,
-- its network transaction with the journal, the service that joins them, and the
-- infrastructure service of the second protocol version.
--
-- candy-netd owns the TUN device, the routes, the firewall and the sysctls of a router. One
-- unprivileged agent drives it with requests. A request passes `NetdRequest::validate`, then
-- `NetdSession::apply`, the lifecycle that fences owners and generations, and then a method of
-- `NetworkTransaction`, which carries it out over a backend (the kernel) and a journal (a file), so
-- that a restarted daemon can undo or resume what a crash left.
--
-- Proto is linux/common/crates/candy-netd-proto/src/lib.rs:
--   Proto.Error, Proto.Prefix, Proto.Declaration and Proto.Request hold the data of a request and
--     its validation: `Ipv4Prefix::new` is `new_prefix`, `PrepareDeclaration::validate` is
--     `validate_declaration`, `NetdRequest::validate` is `validate_request`.
--   Proto.Codec is the wire format: Varint, Writer, Reader, Declaration and Frame are the helpers of
--     that file, Request and Response hold `encode` and `decode` of `NetdRequest` and
--     `NetdResponse`. A writer is the list of the bytes that it appends to `out`; a reader, of
--     Prelude.Parsers, is a function of the bytes that are left.
--   Proto.Session is `NetdSession`: `apply` checks ownership in `check_retained` and then runs one
--     function for each operation. It changes the session in place, so it returns the session beside
--     the result also on an error. Its child modules hold the proofs.
-- Netd is linux/common/apps/candy-netd/src, for the most part network.rs:
--   Netd.Record has the durable record, Netd.Interface the traits `NetworkBackend` and
--     `NetworkJournal` as instance arguments, and methods as functions of the state
--     (backend, journal, record) that return the state also on an error.
--   Netd.Transaction has the methods of `NetworkTransaction`, in the order of the calls that the
--     source makes: Cleanup, Lifecycle, Replace, Policy, Recover, and Controller for the trait
--     `NetworkController`.
--   Netd.Journal is linux/common/apps/candy-netd/src/journal.rs: Fields has its constants and fields,
--     Encode has `encode_record`, Decode has `decode_record`, File has
--     `FileNetworkJournal`. SHA-256 is a parameter; a theorem that needs it says that a digest has 32
--     bytes.
--   Netd.Reply and Netd.Service are `NetdService` of lib.rs there, its state and answers and its
--     methods: `process`, `recover_orphan` (`recover`) and `shutdown`, over the session and the
--     transaction. Its host is the interface `Host`: the TUN device, descriptors, process checks
--     and the clock.
--   Netd.V2 is the second protocol version, v2.rs and v2/clock.rs there, whose requests are
--     Proto.V2 (linux/common/crates/candy-netd-proto/src/v2.rs). Netd.V2.State is the durable state and
--     the checks of `InfrastructureJournal::load`; Service is `InfrastructureService`, over one
--     interface for the backend, the TUN factory, the journal file and the operating system; Device,
--     Exchange and Recovery are its methods, Infra, Prepare, Commit and Forward the arms of the match in
--     `process`, and Process is `process`. A method is of Prelude.Methods: it returns the service also
--     on an error, and every call may change the world. An `unwrap()` of none is the error `panic`.
--     Rules, Steps, Leads and Endings say how a method keeps a predicate on the state or leads from a
--     known state to another; Fencing, Tokens, Fenced, Handlers, Live, Updates and Served are the fencing
--     tokens, Administered and Authority the administrator, Settled the recovery, Repair the requests
--     about the infrastructure.
--   Netd.Triple has pre- and postconditions for success and for error; Netd.Durable, Netd.Fencing,
--     Netd.Outcomes and Netd.Replacement use them. Netd.Restarts joins Netd.Durable with the file.
--
-- A byte, u16, u32 or u64 is a number; the one sum that may overflow, the drain deadline, saturates
-- as in the source, and a shifted u32 mask is reduced modulo 2 ^ 32. A byte array is the list of its
-- bytes, and usize has 64 bits. No definition needs fuel: the source's loops are over lists or
-- counted, but for the loop that writes a varint, which recurs on the number that falls.
--
-- A backend and a journal are arbitrary, but for the restart of the daemon, where the journal is
-- `FileNetworkJournal` over the calls of the operating system, whose contract is `IsFileSystem`.
--
-- Not modelled: `FileNetworkJournal::new` and the names of its temporary files, the sockets and
-- logging of linux/common/apps/candy-netd/src/lib.rs, the Linux backend (netlink, nftables, sysctl), of the second
-- protocol version the JSON codec of serde, the file access of its journal, `serve_once` and the
-- domains of v2/domains.rs, and the other programs of the repository.
pub mod Prelude
pub mod Proto
pub mod Netd
