-- ===== src/Netd/Journal/RoundTrip.antt =====
-- A journal file is read back.
use candy_runtime.Prelude.{
  ℕ, ◌<◌, ◌^◌, Option, none, some, All, ◌+◌, ◌-◌, ◌≤◌, ◌≡◌, refl, ap, ◌∙◌, true, false, List, [],
  ◌∷◌, ◌++◌, Result, ok, err, ltb, same, arith, length, take, drop,
}
use candy_runtime.Prelude.Results.{◌>>=◌}
use mathlib.Core.List.{append-nil}
use candy_runtime.Proto.Prefix.{Bytes-discrete}
use candy_runtime.Proto.Declaration.{PrepareDeclaration}
use candy_runtime.Proto.Codec.Reader.Reads.{HasOctets}
use candy_runtime.Proto.Codec.Declaration.RoundTrip.{
  IsTyped, FitsDeclaration, CanonicalDeclaration, made-IsTyped,
}
use candy_runtime.Proto.Codec.Request.RoundTrip.{IsOwner}
use candy_runtime.Netd.Record.{TransactionRecord, NetworkError}
use candy_runtime.Netd.Journal.Fields.{
  v1, magic_of, to_be_bytes, header_len, checksum_len, phase_code,
}
use candy_runtime.Netd.Journal.Encode.{
  version_for, sysctl_bytes, sized_bytes, deadline_bytes, record_bytes, encode_content,
  encode_record,
}
use candy_runtime.Netd.Journal.Decode.{read_record, whole, decode_content, decode_record}
use candy_runtime.Netd.Journal.Reads.{length-to_be_bytes}
use candy_runtime.Netd.Journal.Stored.{Stored, stored}
use candy_runtime.Netd.Journal.Parts.{IsRecord, Held, has_both, reloaded}
use candy_runtime.Netd.Journal.Content.{Reads-record}

-- What the types of the source say of a record; of the u16 of steps only the six that exist are set.
pub record FitsRecord (r : TransactionRecord) : Type 0 where
  pub owner_typed : IsOwner r.owner
  pub declaration_fits : FitsDeclaration r.declaration
  pub candidate_fits : Held FitsDeclaration r.recovery_candidate
  pub candidate_owner_typed : Held IsOwner r.recovery_candidate_owner
  pub steps_bound : r.completed_steps < 64
  pub deadline_bound : r.drain_deadline_mono_ms < 2 ^ 64
  pub octets : All HasOctets r.failed_prefixes

-- No prefix of the declarations of a record has host bits set.
pub record CanonicalRecord (r : TransactionRecord) : Type 0 where
  pub declaration : CanonicalDeclaration r.declaration
  pub candidate : Held CanonicalDeclaration r.recovery_candidate

candidate-IsTyped :
    (candidate : Option PrepareDeclaration)
    → Held FitsDeclaration candidate
    → Held CanonicalDeclaration candidate
    → Held IsTyped candidate
candidate-IsTyped none h k = tt
candidate-IsTyped (some d) h k = made-IsTyped d h k

pub made-IsRecord : (r : TransactionRecord) → FitsRecord r → CanonicalRecord r → IsRecord r
made-IsRecord r h k = record {
  owner_typed = h.owner_typed;
  declaration_typed = made-IsTyped r.declaration h.declaration_fits k.declaration;
  candidate_typed = candidate-IsTyped r.recovery_candidate h.candidate_fits k.candidate;
  candidate_owner_typed = h.candidate_owner_typed;
  steps_bound = h.steps_bound;
  deadline_bound = h.deadline_bound;
  octets = h.octets;
}

pub length-append : (xs ys : List ℕ) → length (xs ++ ys) ≡ length xs + length ys
length-append [] ys = omega arith
length-append (x ∷ xs) ys = omega (arith, length-append xs ys)

take-append : (xs ys : List ℕ) → take (length xs) (xs ++ ys) ≡ xs
take-append [] ys = refl
take-append (x ∷ xs) ys = ap (λ zs. x ∷ zs) (take-append xs ys)

drop-append : (xs ys : List ℕ) → drop (length xs) (xs ++ ys) ≡ ys
drop-append [] ys = refl
drop-append (x ∷ xs) ys = drop-append xs ys

pub same_bytes : (xs : List ℕ) → same Bytes-discrete xs xs ≡ true
same_bytes xs = by_decision (Bytes-discrete xs xs)
  where
    by_decision : (d : Dec (xs ≡ xs)) → elim d [ yes h ↦ true | no h ↦ false ] ≡ true
    by_decision (yes h) = refl
    by_decision (no h) = absurd (h refl)

pub magic_length : (v : _) → length (magic_of v) ≡ 8
magic_length v1 = refl
magic_length _ = refl

-- The fixed fields alone make a header.
pub header_written :
    (r : TransactionRecord) (content : List ℕ) → Stored r content → header_len ≤ length content
unfolding record_bytes
header_written r content s =
    let magic = magic_of (version_for r.failed_prefixes r.recovery_candidate) in
    let request = sized_bytes s.request in
    rw s.content_bytes (
      omega (
        arith,
        length-append magic _,
        magic_length (version_for r.failed_prefixes r.recovery_candidate),
        length-append (to_be_bytes 1 (phase_code r.phase)) _,
        length-to_be_bytes 1 (phase_code r.phase),
        length-append (to_be_bytes 2 r.completed_steps) _,
        length-to_be_bytes 2 r.completed_steps,
        length-append (sysctl_bytes r.sysctls) _,
        length-append (to_be_bytes 1 (length r.sysctls)) _,
        length-to_be_bytes 1 (length r.sysctls),
        length-append (deadline_bytes r.recovery_candidate r.drain_deadline_mono_ms) _,
        length-append request _,
        length-append (to_be_bytes 4 (length s.request)) s.request,
        length-to_be_bytes 4 (length s.request),
      ))

module _ (digest : List ℕ → List ℕ)
    (length-digest : (bytes : List ℕ) → length (digest bytes) ≡ checksum_len) where
  -- A checksum that is right.
  pub decode_sealed :
      (content : List ℕ)
      → header_len ≤ length content
      → decode_record digest (content ++ digest content) ≡ whole (read_record content)
  unfolding decode_record decode_content
  decode_sealed content h =
      let total : length (content ++ digest content) ≡ length content + 32 =
        length-append content (digest content) ∙ omega (arith, length-digest content) in
      let long : ltb (length (content ++ digest content)) (header_len + checksum_len) ≡ false =
        ground arith in
      let before : length (content ++ digest content) - checksum_len ≡ length content =
        omega arith in
      rw
        (
          long,
          before,
          take-append content (digest content),
          drop-append content (digest content),
          same_bytes (digest content),
        )
        refl

  pub sealed :
      (r : TransactionRecord) (bytes : List ℕ)
      → encode_record digest r ≡ ok bytes
      → (content : List ℕ) × (encode_content r ≡ ok content) × (bytes ≡ content ++ digest content)
  unfolding encode_record
  sealed r bytes e = by_content (encode_content r) refl e
    where
      by_content :
          (m : Result NetworkError (List ℕ))
          → encode_content r ≡ m
          → (m >>= λ content. ok (content ++ digest content)) ≡ ok bytes
          → (content : List ℕ) × (encode_content r ≡ ok content)
            × (bytes ≡ content ++ digest content)
      by_content (ok content) h k = (content, h, cc)
      by_content (err x) h k = cc

  -- A record that was stored is found again after a restart: every field comes back, but that the
  -- drain deadline is kept only beside a candidate, and that the owner of a candidate comes back only
  -- where it is not the owner of the record. The record holds what its types can hold, only steps
  -- that exist, and not a candidate and failed prefixes at once; no prefix of its declarations has
  -- host bits set, which the encoder does not check and the decoder refuses; the digest has 32 bytes.
  pub decode_record-encode_record :
      (r : TransactionRecord) (bytes : List ℕ)
      → FitsRecord r
      → CanonicalRecord r
      → has_both r.failed_prefixes r.recovery_candidate ≡ false
      → encode_record digest r ≡ ok bytes
      → decode_record digest bytes ≡ ok (reloaded r)
  decode_record-encode_record r bytes fits canonical b e =
      let (content, encoded, split) = sealed r bytes e in
      let s = stored r content encoded in
      let read : read_record content ≡ ok (reloaded r, []) =
        rw (s.content_bytes, ← append-nil (record_bytes r s.request s.recovery))
          ((Reads-record r content (made-IsRecord r fits canonical) b s).run []) in
      rw (split, decode_sealed content (header_written r content s), read) refl
