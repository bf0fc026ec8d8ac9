-- ===== src/Netd/Journal/Encode.antt =====
-- `encode_record` of linux/common/apps/candy-netd/src/journal.rs. SHA-256 is a parameter.
use candy_runtime.Prelude.{
  ℕ, ◌%◌, ◌^◌, Bool, true, false, not, ◌&&◌, ◌||◌, List, [], ◌∷◌, ◌++◌, Option, none, some, Result,
  ok, err, refuse_if, ltb, if◌then◌else◌, length, all_pairs, any, is_empty, is_some, unwrap_or,
}
use candy_runtime.Prelude.Results.{◌>>=◌, ◌>>◌}
use candy_runtime.Prelude.Writers.{encode_each}
use candy_runtime.Proto.Error.{NetdProtocolError}
use candy_runtime.Proto.Prefix.{Ipv4Prefix, prefix_lt}
use candy_runtime.Proto.Declaration.{PrepareDeclaration}
use candy_runtime.Proto.Request.{LeaseOwner, NetdOperation, NetdRequest}
use candy_runtime.Proto.Codec.Request.{encode_request}
use candy_runtime.Netd.Record.{
  TransactionPhase, preparing, prepared, rolling_back, draining, SysctlChange, TransactionRecord,
  NetworkError, journal, is_process,
}
use candy_runtime.Netd.Journal.Fields.{
  JournalVersion, v1, v3, v4, magic_of, max_failed_prefixes, to_be_bytes, phase_code, change_lt,
  is_bad_change, change_bytes, canonical_prefix, prefix_bytes,
}

-- `p >= q` of the total order on prefixes is the negation of `p < q`.
abbrev pub refuses_prefixes : List Ipv4Prefix → Bool
refuses_prefixes ps =
    ltb max_failed_prefixes (length ps)
    || not (all_pairs prefix_lt ps)
    || any (λ p. not (canonical_prefix p)) ps

abbrev pub refuses_sysctls : List SysctlChange → Bool
refuses_sysctls cs = ltb 4 (length cs) || not (all_pairs change_lt cs) || any is_bad_change cs

-- The phases that may hold a candidate.
abbrev pub holds_candidate : TransactionPhase → Bool
holds_candidate preparing = true
holds_candidate prepared = true
holds_candidate draining = true
holds_candidate rolling_back = true
holds_candidate _ = false

abbrev pub refuses_candidate : TransactionRecord → Bool
refuses_candidate r = is_some r.recovery_candidate && not (holds_candidate r.phase)

-- The owner of a candidate is not the process of the record's owner, or of an earlier generation.
abbrev pub is_foreign : LeaseOwner → LeaseOwner → Bool
is_foreign owner candidate =
    not (is_process owner candidate) || ltb candidate.generation owner.generation

abbrev pub refuses_candidate_owner : TransactionRecord → Option LeaseOwner → Bool
refuses_candidate_owner r none = false
refuses_candidate_owner r (some candidate) =
    not (is_some r.recovery_candidate) || is_foreign r.owner candidate

unfoldable pub check_record : TransactionRecord → Result NetworkError (Unit {0})
check_record r =
    refuse_if (refuses_prefixes r.failed_prefixes) journal
    >> (refuse_if (refuses_sysctls r.sysctls) journal
        >> (refuse_if (refuses_candidate r) journal
            >> refuse_if (refuses_candidate_owner r r.recovery_candidate_owner) journal))

abbrev pub or_journal : {A : Type 0} → Result NetdProtocolError A → Result NetworkError A
or_journal (ok a) = ok a
or_journal (err e) = err journal

abbrev pub prepare_request : LeaseOwner → PrepareDeclaration → NetdRequest
prepare_request owner d = record {
  request_id = 1;
  owner = owner;
  operation = NetdOperation.prepare d;
}

-- The owner that a candidate is stored with.
abbrev pub candidate_owner : TransactionRecord → LeaseOwner
candidate_owner r = unwrap_or r.recovery_candidate_owner r.owner

abbrev pub present : {A : Type 0} → Result NetworkError A → Result NetworkError (Option A)
present (ok a) = ok (some a)
present (err e) = err e

-- `map(…).transpose()?`
unfoldable pub recovery_request :
    LeaseOwner → Option PrepareDeclaration → Result NetworkError (Option (List ℕ))
recovery_request owner none = ok none
recovery_request owner (some d) = present (or_journal (encode_request (prepare_request owner d)))

-- `u32::try_from(len).map_err(…)?`, and the same for u8
abbrev pub fits : ℕ → ℕ → Result NetworkError (Unit {0})
fits bits value = refuse_if (not (ltb value (2 ^ bits))) journal

abbrev pub version_for : List Ipv4Prefix → Option PrepareDeclaration → JournalVersion
version_for failed candidate =
    if not (is_empty failed) then v4 else if is_some candidate then v3 else v1

abbrev pub sized_bytes : List ℕ → List ℕ
sized_bytes bytes = to_be_bytes 4 (length bytes) ++ bytes

abbrev pub recovery_bytes : List Ipv4Prefix → Option (List ℕ) → List ℕ
recovery_bytes failed (some bytes) = sized_bytes bytes
recovery_bytes [] none = []
recovery_bytes (p ∷ ps) none = to_be_bytes 4 0

abbrev pub deadline_bytes : Option PrepareDeclaration → ℕ → List ℕ
deadline_bytes candidate deadline = if is_some candidate then to_be_bytes 8 deadline else []

abbrev pub failed_bytes : List Ipv4Prefix → List ℕ
failed_bytes [] = []
failed_bytes (p ∷ ps) =
    to_be_bytes 2 (length (p ∷ ps) % 2 ^ 16) ++ encode_each prefix_bytes (p ∷ ps)

abbrev pub sysctl_bytes : List SysctlChange → List ℕ
sysctl_bytes cs = to_be_bytes 1 (length cs) ++ encode_each change_bytes cs

unfoldable pub record_bytes : TransactionRecord → List ℕ → Option (List ℕ) → List ℕ
record_bytes r request recovery =
    magic_of (version_for r.failed_prefixes r.recovery_candidate)
    ++ (to_be_bytes 1 (phase_code r.phase)
        ++ (to_be_bytes 2 r.completed_steps
            ++ (sysctl_bytes r.sysctls
                ++ (deadline_bytes r.recovery_candidate r.drain_deadline_mono_ms
                    ++ (sized_bytes request
                        ++ (recovery_bytes r.failed_prefixes recovery
                            ++ failed_bytes r.failed_prefixes))))))

abbrev pub fits_option : Option (List ℕ) → Result NetworkError (Unit {0})
fits_option none = ok tt
fits_option (some bytes) = fits 32 (length bytes)

-- What the checksum is of.
unfoldable pub encode_content : TransactionRecord → Result NetworkError (List ℕ)
encode_content r = do
  check_record r
  request ← or_journal (encode_request (prepare_request r.owner r.declaration))
  recovery ← recovery_request (candidate_owner r) r.recovery_candidate
  fits 8 (length r.sysctls)
  fits 32 (length request)
  fits_option recovery
  ok (record_bytes r request recovery)

module _ (digest : List ℕ → List ℕ) where
  unfoldable pub encode_record : TransactionRecord → Result NetworkError (List ℕ)
  encode_record r = do content ← encode_content r; ok (content ++ digest content)
