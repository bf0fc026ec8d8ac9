-- ===== src/Netd/Journal/Decode.antt =====
-- `decode_record` of linux/common/apps/candy-netd/src/journal.rs. SHA-256 is a parameter. Every
-- failure is the same error, so an offset that leaves the content is a read that fails.
use candy_runtime.Prelude.{
  ℕ, ◌+◌, ◌-◌, Bool, true, false, not, ◌||◌, List, [], ◌∷◌, Option, none, some, Result, ok, err,
  refuse_if, ltb, ◌==◌, same, if◌then◌else◌, length, take, drop,
}
use candy_runtime.Prelude.Parsers.{pure, lift, ◌>>=◌, ◌>>◌, take_bytes}
use candy_runtime.Proto.Prefix.{Ipv4Prefix, Bytes-discrete, prefix_lt}
use candy_runtime.Proto.Declaration.{PrepareDeclaration}
use candy_runtime.Proto.Request.{LeaseOwner, LeaseOwner-discrete, NetdOperation, NetdRequest}
use candy_runtime.Proto.Codec.Frame.{max_netd_frame_len}
use candy_runtime.Proto.Codec.Request.{decode_request}
use candy_runtime.Netd.Record.{
  TransactionPhase, SysctlChange, TransactionRecord, NetworkError, journal,
}
use candy_runtime.Netd.Journal.Fields.{
  Read, JournalVersion, v1, version_of, is_v3, is_v4, header_len, checksum_len, max_failed_prefixes,
  read_be, phase_of, has_unknown_step, change_lt, read_change, read_failed_prefix, read_rising,
}
use candy_runtime.Netd.Journal.Encode.{holds_candidate, is_foreign, or_journal}

abbrev pub is_v1 : JournalVersion → Bool
is_v1 v1 = true
is_v1 _ = false

-- `let NetdOperation::Prepare(declaration) = operation else { … }`
abbrev pub prepared_declaration : NetdOperation → Result NetworkError PrepareDeclaration
prepared_declaration (NetdOperation.prepare d) = ok d
prepared_declaration _ = err journal

-- A request of the given length.
unfoldable pub read_request_of : ℕ → Read NetdRequest
read_request_of len = do
  lift (refuse_if (ltb max_netd_frame_len len) journal)
  bytes ← take_bytes journal len
  request ← lift (or_journal (decode_request bytes))
  pure request

unfoldable pub read_active : Read NetdRequest
read_active = do
  len ← read_be 4
  lift (refuse_if (len == 0) journal)
  request ← read_request_of len
  pure request

abbrev pub Recovery : Type 0
Recovery = Option (PrepareDeclaration × Option LeaseOwner)

-- `recovery.owner != request.owner`
abbrev pub other_owner : LeaseOwner → LeaseOwner → Option LeaseOwner
other_owner owner candidate =
    if same LeaseOwner-discrete candidate owner then none else some candidate

unfoldable pub read_candidate : TransactionPhase → LeaseOwner → ℕ → Read Recovery
read_candidate phase owner len = do
  recovery ← read_request_of len
  lift (refuse_if (is_foreign owner recovery.owner || not (holds_candidate phase)) journal)
  candidate ← lift (prepared_declaration recovery.operation)
  pure (some (candidate, other_owner owner recovery.owner))

unfoldable pub read_recovery : JournalVersion → TransactionPhase → LeaseOwner → Read Recovery
read_recovery version phase owner = if is_v1 version then pure none else (do
  len ← read_be 4
  recovery ←
      (if len == 0
        then if is_v4 version then pure none else lift (err journal)
        else read_candidate phase owner len)
  pure recovery)

unfoldable pub read_failed : JournalVersion → Read (List Ipv4Prefix)
read_failed version =
    if is_v4 version
    then (do
      count ← read_be 2
      lift (refuse_if ((count == 0) || ltb max_failed_prefixes count) journal)
      failed ← read_rising prefix_lt read_failed_prefix none count
      pure failed)
    else pure []

unfoldable pub read_deadline : JournalVersion → Read ℕ
read_deadline version = if is_v3 version then read_be 8 else pure 0

abbrev pub candidate_of : Recovery → Option PrepareDeclaration
candidate_of none = none
candidate_of (some (d, owner)) = some d

abbrev pub candidate_owner_of : Recovery → Option LeaseOwner
candidate_owner_of none = none
candidate_owner_of (some (d, owner)) = owner

unfoldable pub read_sysctls : Read (List SysctlChange)
read_sysctls = do
  count ← read_be 1
  lift (refuse_if (ltb 4 count) journal)
  sysctls ← read_rising change_lt read_change none count
  pure sysctls

unfoldable pub read_record : Read TransactionRecord
read_record = do
  magic ← take_bytes journal 8
  version ← lift (version_of magic)
  code ← read_be 1
  phase ← lift (phase_of code)
  steps ← read_be 2
  lift (refuse_if (has_unknown_step steps) journal)
  sysctls ← read_sysctls
  deadline ← read_deadline version
  request ← read_active
  declaration ← lift (prepared_declaration request.operation)
  recovery ← read_recovery version phase request.owner
  failed ← read_failed version
  pure (record {
    owner = request.owner;
    declaration = declaration;
    recovery_candidate = candidate_of recovery;
    recovery_candidate_owner = candidate_owner_of recovery;
    phase = phase;
    completed_steps = steps;
    sysctls = sysctls;
    drain_deadline_mono_ms = deadline;
    failed_prefixes = failed;
  })

-- The content ends where the last field ends.
abbrev pub whole : {A : Type 0} → Result NetworkError (A × List ℕ) → Result NetworkError A
whole (ok (a, [])) = ok a
whole (ok (a, byte ∷ rest)) = err journal
whole (err e) = err e

module _ (digest : List ℕ → List ℕ) where
  unfoldable pub decode_content : List ℕ → List ℕ → Result NetworkError TransactionRecord
  decode_content content checksum =
      if not (same Bytes-discrete (digest content) checksum)
      then err journal
      else whole (read_record content)

  unfoldable pub decode_record : List ℕ → Result NetworkError TransactionRecord
  unfolding decode_content
  decode_record bytes =
      let content_len = length bytes - checksum_len in
      if ltb (length bytes) (header_len + checksum_len)
      then err journal
      else decode_content (take content_len bytes) (drop content_len bytes)
