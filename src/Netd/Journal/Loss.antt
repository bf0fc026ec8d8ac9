-- ===== src/Netd/Journal/Loss.antt =====
-- A record that is stored and not found again.
use candy_runtime.Prelude.{
  ℕ, ◌/◌, ◌^◌, ◌<◌, ◌≡◌, refl, true, List, [], ◌∷◌, ◌++◌, Option, none, some, ok, err, arith,
  length,
}
use mathlib.Core.List.{append-nil}
use candy_runtime.Prelude.Parsers.{lift, ◌>>=◌, ◌>>◌}
use candy_runtime.Prelude.Parsers.Reads.{Reads-lift, Reads-fixed, Reads-pure}
use candy_runtime.Prelude.Parsers.Ensures.{
  Fails, Fails-later, Fails-step, Fails-check, Fails-first, Fails-append,
}
use candy_runtime.Proto.Prefix.{Ipv4Prefix}
use candy_runtime.Proto.Declaration.{PrepareDeclaration}
use candy_runtime.Netd.Record.{TransactionRecord, journal}
use candy_runtime.Netd.Journal.Fields.{v4, magic_of, to_be_bytes, phase_code}
use candy_runtime.Netd.Journal.Encode.{version_for, deadline_bytes, record_bytes, encode_record}
use candy_runtime.Netd.Journal.Decode.{read_record, read_active, read_deadline, decode_record}
use candy_runtime.Netd.Journal.Reads.{
  Reads-be, version_of-magic_of, phase_of-phase_code, steps_known,
}
use candy_runtime.Netd.Journal.Stored.{Stored, stored}
use candy_runtime.Netd.Journal.Parts.{has_both, Reads-sysctls}
use candy_runtime.Netd.Journal.Content.{phase_bound}
use candy_runtime.Netd.Journal.RoundTrip.{header_written, decode_sealed, sealed}

-- The upper half of a small deadline.
high_bytes : (d : ℕ) → d < 2 ^ 32 → to_be_bytes 8 d ≡ to_be_bytes 4 0 ++ to_be_bytes 4 d
unfolding to_be_bytes
high_bytes d h =
    let none_left : d / 256 / 256 / 256 / 256 ≡ 0 = omega (arith, h) in rw none_left refl

-- The length of the request is read where the deadline stands.
Fails-deadline : (d : ℕ) → d < 2 ^ 32 → Fails read_active (to_be_bytes 8 d) journal
unfolding read_active ◌>>◌ lift ◌>>=◌
Fails-deadline d h = rw (high_bytes d h) (
    Fails-append (to_be_bytes 4 d)
      (record { run = λ rest. rw ((Reads-be 4 0 (omega arith)).run rest) refl }))

both_extensions :
    (failed : List Ipv4Prefix) (candidate : Option PrepareDeclaration) (d : ℕ)
    → has_both failed candidate ≡ true
    → (version_for failed candidate ≡ v4) × (deadline_bytes candidate d ≡ to_be_bytes 8 d)
both_extensions [] candidate d h = cc
both_extensions (p ∷ ps) none d h = cc
both_extensions (p ∷ ps) (some c) d h = (refl, refl)

Fails-record :
    (r : TransactionRecord) (content : List ℕ)
    → r.completed_steps < 64
    → has_both r.failed_prefixes r.recovery_candidate ≡ true
    → r.drain_deadline_mono_ms < 2 ^ 32
    → (s : Stored r content) → Fails read_record (record_bytes r s.request s.recovery) journal
unfolding read_record record_bytes read_deadline
Fails-record r content h b small s =
    let (version, deadline) =
      both_extensions r.failed_prefixes r.recovery_candidate r.drain_deadline_mono_ms b in
    let known = steps_known r.completed_steps h in
    rw (version, deadline)
      (Fails-later _ (Reads-fixed journal (magic_of v4) refl) (
        Fails-step _ (Reads-lift v4 (version_of-magic_of v4)) (
          Fails-later _ (Reads-be 1 (phase_code r.phase) (phase_bound r.phase)) (
            Fails-step _ (Reads-lift r.phase (phase_of-phase_code r.phase)) (
              Fails-later _ (Reads-be 2 r.completed_steps (omega (arith, h))) (
                Fails-check _ (rw known refl) (
                  Fails-later _ (Reads-sysctls r.sysctls s.checks.1) (
                    Fails-step _ (Reads-pure 0) (
                      Fails-first _
                        (Fails-append _ (Fails-deadline r.drain_deadline_mono_ms small)))))))))))

module _ (digest : List ℕ → List ℕ)
    (length-digest : (bytes : List ℕ) → length (digest bytes) ≡ 32) where
  -- A record with a candidate and with failed prefixes is stored without an error, and the file is
  -- then refused by the decoder, since the deadline stands where it expects a length. The drain
  -- deadline is below 2 ^ 32 ms, the record has only steps that exist, and the digest has 32 bytes.
  pub decode_record-has_both :
      (r : TransactionRecord) (bytes : List ℕ)
      → r.completed_steps < 64
      → has_both r.failed_prefixes r.recovery_candidate ≡ true
      → r.drain_deadline_mono_ms < 2 ^ 32
      → encode_record digest r ≡ ok bytes
      → decode_record digest bytes ≡ err journal
  decode_record-has_both r bytes h b small e =
      let (content, encoded, split) = sealed digest length-digest r bytes e in
      let s = stored r content encoded in
      let read : read_record content ≡ err journal =
        rw (s.content_bytes, ← append-nil (record_bytes r s.request s.recovery))
          ((Fails-record r content h b small s).run []) in
      rw (split, decode_sealed digest length-digest content (header_written r content s), read) refl
