-- ===== src/Netd/Journal/Parts.antt =====
-- The parts of the content of a journal file are read back.
use candy_runtime.Prelude.{
  ℕ, ◌%◌, ◌^◌, ◌<◌, ◌≤◌, ◌≡◌, refl, Bool, true, false, not, ◌&&◌, ◌||◌, List, [], ◌∷◌, ◌++◌, Option,
  none, some, ok, refuse_if, ltb, ◌==◌, if◌then◌else◌, arith, length, All, all_pairs, any, is_some,
  is_empty, unwrap_or,
}
use candy_runtime.Prelude.Writers.{encode_each}
use candy_runtime.Prelude.Parsers.Reads.{
  Reads, Reads-bind, Reads-step, Reads-last, Reads-pure, Reads-lift, Reads-check, Reads-fixed,
}
use candy_runtime.Proto.Prefix.{Ipv4Prefix, prefix_lt}
use candy_runtime.Proto.Declaration.{PrepareDeclaration}
use candy_runtime.Proto.Request.{LeaseOwner, NetdRequest}
use candy_runtime.Proto.Codec.Frame.{max_netd_frame_len}
use candy_runtime.Proto.Codec.Declaration.RoundTrip.{IsTyped}
use candy_runtime.Proto.Codec.Request.{encode_request}
use candy_runtime.Proto.Codec.Request.RoundTrip.{
  IsOwner, IsRequest, decode_request-typed, length-encode_request,
}
use candy_runtime.Netd.Record.{TransactionPhase, SysctlChange, TransactionRecord, journal}
use candy_runtime.Netd.Journal.Fields.{
  to_be_bytes, change_lt, is_bad_change, change_bytes, canonical_prefix, max_failed_prefixes,
}
use candy_runtime.Netd.Journal.Encode.{
  refuses_prefixes, refuses_sysctls, holds_candidate, is_foreign, version_for, sized_bytes,
  deadline_bytes, failed_bytes,
}
use candy_runtime.Netd.Journal.Decode.{
  read_request_of, read_active, other_owner, read_candidate, read_failed, read_deadline,
  read_sysctls, prepared_declaration,
}
use candy_runtime.Netd.Journal.Reads.{
  Reads-be, Reads-change, IsFailed, Reads-failed_prefix, Reads-rising,
}
use candy_runtime.Netd.Journal.Stored.{All-any}

abbrev pub Held : {A : Type 0} → (A → Type 0) → Option A → Type 0
Held P none = Unit {0}
Held P (some a) = P a

-- What the types of the source say of a record, of whose u16 of steps only the six that exist are set,
-- and no prefix of its declarations with host bits set.
pub record IsRecord (r : TransactionRecord) : Type 0 where
  pub owner_typed : IsOwner r.owner
  pub declaration_typed : IsTyped r.declaration
  pub candidate_typed : Held IsTyped r.recovery_candidate
  pub candidate_owner_typed : Held IsOwner r.recovery_candidate_owner
  pub steps_bound : r.completed_steps < 64
  pub deadline_bound : r.drain_deadline_mono_ms < 2 ^ 64
  pub octets : All (λ p. length p.network ≡ 4) r.failed_prefixes

-- The two extensions of the format at once.
abbrev pub has_both : List Ipv4Prefix → Option PrepareDeclaration → Bool
has_both failed candidate = not (is_empty failed) && is_some candidate

abbrev pub reloaded_owner :
    LeaseOwner → Option PrepareDeclaration → Option LeaseOwner → Option LeaseOwner
reloaded_owner owner none candidate = none
reloaded_owner owner (some d) candidate = other_owner owner (unwrap_or candidate owner)

abbrev pub reloaded_deadline : Option PrepareDeclaration → ℕ → ℕ
reloaded_deadline candidate deadline = if is_some candidate then deadline else 0

-- The record that a restarted daemon finds.
abbrev pub reloaded : TransactionRecord → TransactionRecord
reloaded r = record r {
  recovery_candidate_owner = reloaded_owner r.owner r.recovery_candidate r.recovery_candidate_owner;
  drain_deadline_mono_ms = reloaded_deadline r.recovery_candidate r.drain_deadline_mono_ms;
}

module _ (q : NetdRequest) (bytes : List ℕ) (typed : IsRequest q)
    (e : encode_request q ≡ ok bytes) where
  Reads-request_of : Reads (read_request_of (length bytes)) bytes q
  unfolding read_request_of
  Reads-request_of =
      let bounds = length-encode_request q bytes e in
      let few : refuse_if (ltb max_netd_frame_len (length bytes)) journal ≡ ok tt = ground arith in
      let again = decode_request-typed q bytes typed e in
      Reads-check _ few (
        Reads-last _ (Reads-fixed journal bytes refl)
          (Reads-step _ (Reads-lift q (rw again refl)) (Reads-pure q)))

  pub Reads-candidate :
      {d : PrepareDeclaration} (phase : TransactionPhase) (owner : LeaseOwner)
      → prepared_declaration q.operation ≡ ok d
      → is_foreign owner q.owner ≡ false
      → holds_candidate phase ≡ true
      → Reads
          (read_candidate phase owner (length bytes))
          bytes
          (some (d, other_owner owner q.owner))
  unfolding read_candidate
  Reads-candidate {d = d} phase owner declared own held =
      let accepted : refuse_if (is_foreign owner q.owner || not (holds_candidate phase)) journal
          ≡ ok tt =
        rw (own, held) refl in
      Reads-last _ Reads-request_of
        (Reads-check _ accepted (Reads-step _ (Reads-lift d declared) (Reads-pure _)))

  pub Reads-active : Reads read_active (sized_bytes bytes) q
  unfolding read_active
  Reads-active =
      let bounds = length-encode_request q bytes e in
      let some_bytes : refuse_if (length bytes == 0) journal ≡ ok tt = ground arith in
      Reads-bind _ (Reads-be 4 (length bytes) (omega (arith, bounds)))
        (Reads-check _ some_bytes (Reads-last _ Reads-request_of (Reads-pure q)))

pub Reads-deadline :
    (failed : List Ipv4Prefix) (candidate : Option PrepareDeclaration) (deadline : ℕ)
    → has_both failed candidate ≡ false
    → deadline < 2 ^ 64
    → Reads
        (read_deadline (version_for failed candidate))
        (deadline_bytes candidate deadline)
        (reloaded_deadline candidate deadline)
unfolding read_deadline
Reads-deadline [] none deadline b h = Reads-pure 0
Reads-deadline [] (some d) deadline b h = Reads-be 8 deadline (omega (arith, h))
Reads-deadline (p ∷ ps) none deadline b h = Reads-pure 0
Reads-deadline (p ∷ ps) (some d) deadline b h = cc

All-IsFailed :
    (ps : List Ipv4Prefix)
    → All (λ p. length p.network ≡ 4) ps
    → any (λ p. not (canonical_prefix p)) ps ≡ false
    → All IsFailed ps
All-IsFailed [] h k = tt
All-IsFailed (p ∷ ps) h k =
    (record { octets = h.0; canonical = ground arith }, All-IsFailed ps h.1 (ground arith))

pub Reads-failed :
    (failed : List Ipv4Prefix) (candidate : Option PrepareDeclaration)
    → All (λ p. length p.network ≡ 4) failed
    → refuses_prefixes failed ≡ false
    → Reads (read_failed (version_for failed candidate)) (failed_bytes failed) failed
unfolding read_failed
Reads-failed [] none octets h = Reads-pure []
Reads-failed [] (some d) octets h = Reads-pure []
Reads-failed (p ∷ ps) candidate octets h =
    let n = length (p ∷ ps) in
    let few : n ≤ max_failed_prefixes = ground arith in
    let same_count : n % 2 ^ 16 ≡ n = omega (arith, few) in
    let rising : all_pairs prefix_lt (p ∷ ps) ≡ true = ground arith in
    let canonical : any (λ p. not (canonical_prefix p)) (p ∷ ps) ≡ false = ground arith in
    let accepted : refuse_if ((n == 0) || ltb max_failed_prefixes n) journal ≡ ok tt =
      ground arith in
    rw same_count (
      Reads-bind _ (Reads-be 2 n (omega (arith, few))) (
        Reads-check _ accepted (
          Reads-last _
            (Reads-rising prefix_lt Reads-failed_prefix (p ∷ ps)
              (All-IsFailed (p ∷ ps) octets canonical) rising)
            (Reads-pure (p ∷ ps)))))

pub Reads-sysctls :
    (cs : List SysctlChange)
    → refuses_sysctls cs ≡ false
    → Reads read_sysctls (to_be_bytes 1 (length cs) ++ encode_each change_bytes cs) cs
unfolding read_sysctls
Reads-sysctls cs h =
    let few : length cs ≤ 4 = ground arith in
    let accepted : refuse_if (ltb 4 (length cs)) journal ≡ ok tt = ground arith in
    let rising : all_pairs change_lt cs ≡ true = ground arith in
    let good : any is_bad_change cs ≡ false = ground arith in
    Reads-bind _ (Reads-be 1 (length cs) (omega (arith, few))) (
      Reads-check _ accepted (
        Reads-last _ (Reads-rising change_lt Reads-change cs (All-any is_bad_change cs good) rising)
          (Reads-pure cs)))
