-- ===== src/Netd/Journal/Restart.antt =====
-- A daemon that restarts on its journal file.
use candy_runtime.Prelude.{
  ℕ, ◌+◌, ◌*◌, ◌%◌, ◌^◌, ◌≤◌, ◌≡◌, refl, ◌∙◌, false, List, [], ◌∷◌, ◌++◌, Option, none, some, ok,
  arith, length, All,
}
use candy_runtime.Prelude.Writers.{encode_each}
use candy_runtime.Proto.Prefix.{Ipv4Prefix}
use candy_runtime.Proto.Declaration.{PrepareDeclaration}
use candy_runtime.Proto.Codec.Frame.{max_netd_frame_len}
use candy_runtime.Proto.Codec.Reader.Reads.{HasOctets}
use candy_runtime.Proto.Codec.Request.RoundTrip.{length-encode_request}
use candy_runtime.Proto.Request.{LeaseOwner}
use candy_runtime.Netd.Record.{SysctlChange, TransactionRecord}
use candy_runtime.Netd.Journal.Fields.{
  to_be_bytes, prefix_bytes, change_bytes, magic_of, phase_code, checksum_len,
}
use candy_runtime.Netd.Journal.Encode.{
  version_for, sysctl_bytes, sized_bytes, deadline_bytes, failed_bytes, recovery_bytes,
  record_bytes, prepare_request, candidate_owner, recovery_request, refuses_prefixes,
  refuses_sysctls,
}
use candy_runtime.Netd.Journal.File.{max_journal_len}
use candy_runtime.Netd.Journal.Reads.{length-to_be_bytes}
use candy_runtime.Netd.Journal.Stored.{Stored, candidate_stored, none_stored}
use candy_runtime.Netd.Journal.Parts.{Held}
use candy_runtime.Netd.Journal.RoundTrip.{length-append, magic_length}

length-prefix_bytes : (p : Ipv4Prefix) → HasOctets p → length (prefix_bytes p) ≡ 5
unfolding prefix_bytes
length-prefix_bytes p h = omega (arith, length-append p.network (p.prefix_len ∷ []), h)

length-prefixes :
    (ps : List Ipv4Prefix) → All HasOctets ps → length (encode_each prefix_bytes ps) ≡ 5 * length ps
unfolding encode_each
length-prefixes [] h = refl
length-prefixes (p ∷ ps) (h, hs) = omega (
  arith,
  length-append (prefix_bytes p) (encode_each prefix_bytes ps),
  length-prefix_bytes p h,
  length-prefixes ps hs,
)

length-changes : (cs : List SysctlChange) → length (encode_each change_bytes cs) ≡ 3 * length cs
unfolding encode_each change_bytes
length-changes [] = refl
length-changes (c ∷ cs) = omega (arith, length-changes cs)

deadline_bound :
    (candidate : Option PrepareDeclaration) (d : ℕ) → length (deadline_bytes candidate d) ≤ 8
deadline_bound none d = omega arith
deadline_bound (some c) d = omega (arith, length-to_be_bytes 8 d)

sized_bound : (bytes : List ℕ) → length (sized_bytes bytes) ≡ 4 + length bytes
sized_bound bytes =
    length-append (to_be_bytes 4 (length bytes)) bytes
    ∙ omega (arith, length-to_be_bytes 4 (length bytes))

recovery_held :
    (owner : LeaseOwner) (candidate : Option PrepareDeclaration) (recovery : Option (List ℕ))
    → recovery_request owner candidate ≡ ok recovery
    → Held (λ bytes. length bytes ≤ max_netd_frame_len) recovery
recovery_held owner none recovery e = rw (none_stored owner recovery e) tt
recovery_held owner (some d) recovery e =
    let (bytes, is_bytes, encoded) = candidate_stored owner d recovery e in
    rw is_bytes ((length-encode_request (prepare_request owner d) bytes encoded).1)

recovery_bound :
    (failed : List Ipv4Prefix) (recovery : Option (List ℕ))
    → Held (λ bytes. length bytes ≤ max_netd_frame_len) recovery
    → length (recovery_bytes failed recovery) ≤ 4 + max_netd_frame_len
recovery_bound failed (some bytes) h = omega (arith, sized_bound bytes)
recovery_bound [] none h = omega arith
recovery_bound (p ∷ ps) none h = omega (arith, length-to_be_bytes 4 0)

failed_bound :
    (failed : List Ipv4Prefix)
    → All HasOctets failed
    → length failed ≤ 1024
    → length (failed_bytes failed) ≤ 2 + 5 * 1024
failed_bound [] h few = omega arith
failed_bound (p ∷ ps) h few = omega (
  arith,
  length-append (to_be_bytes 2 (length (p ∷ ps) % 2 ^ 16)) (encode_each prefix_bytes (p ∷ ps)),
  length-to_be_bytes 2 (length (p ∷ ps) % 2 ^ 16),
  length-prefixes (p ∷ ps) h,
)

few_prefixes : (ps : List Ipv4Prefix) → refuses_prefixes ps ≡ false → length ps ≤ 1024
few_prefixes ps h = ground arith

few_changes : (cs : List SysctlChange) → refuses_sysctls cs ≡ false → length cs ≤ 4
few_changes cs h = ground arith

-- What is written fits the bound that a reader sets.
pub content_bound :
    (r : TransactionRecord) (content : List ℕ)
    → All HasOctets r.failed_prefixes
    → Stored r content
    → length content + checksum_len ≤ max_journal_len
unfolding record_bytes
content_bound r content octets s =
    let magic = magic_of (version_for r.failed_prefixes r.recovery_candidate) in
    let recovered = recovery_bytes r.failed_prefixes s.recovery in
    let failed = failed_bytes r.failed_prefixes in
    let request = sized_bytes s.request in
    let deadline = deadline_bytes r.recovery_candidate r.drain_deadline_mono_ms in
    let end = request ++ (recovered ++ failed) in
    let sysctls = sysctl_bytes r.sysctls in
    let steps = to_be_bytes 2 r.completed_steps in
    let phase = to_be_bytes 1 (phase_code r.phase) in
    rw s.content_bytes (
      omega (
        arith,
        length-append magic (phase ++ (steps ++ (sysctls ++ (deadline ++ end)))),
        magic_length (version_for r.failed_prefixes r.recovery_candidate),
        length-append phase (steps ++ (sysctls ++ (deadline ++ end))),
        length-to_be_bytes 1 (phase_code r.phase),
        length-append steps (sysctls ++ (deadline ++ end)),
        length-to_be_bytes 2 r.completed_steps,
        length-append sysctls (deadline ++ end),
        length-append (to_be_bytes 1 (length r.sysctls)) (encode_each change_bytes r.sysctls),
        length-to_be_bytes 1 (length r.sysctls),
        length-changes r.sysctls,
        few_changes r.sysctls s.checks.1,
        length-append deadline end,
        deadline_bound r.recovery_candidate r.drain_deadline_mono_ms,
        length-append request (recovered ++ failed),
        sized_bound s.request,
        length-encode_request (prepare_request r.owner r.declaration) s.request s.request_encoded,
        length-append recovered failed,
        recovery_bound r.failed_prefixes s.recovery
            (recovery_held (candidate_owner r) r.recovery_candidate s.recovery s.recovery_encoded),
        failed_bound r.failed_prefixes octets (few_prefixes r.failed_prefixes s.checks.0),
      ))
