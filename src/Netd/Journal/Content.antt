-- ===== src/Netd/Journal/Content.antt =====
-- The content of a journal file is read back as a whole.
use candy_runtime.Prelude.{
  ℕ, ◌^◌, ◌<◌, ◌≡◌, refl, true, false, not, ◌&&◌, ◌||◌, List, [], ◌∷◌, Option, none, some, ok, ltb,
  ◌==◌, same, arith, length, is_some, unwrap_or,
}
use mathlib.Core.Path.{subst}
use candy_runtime.Prelude.Parsers.{pure}
use candy_runtime.Prelude.Parsers.Reads.{
  Reads, Reads-bind, Reads-step, Reads-last, Reads-pure, Reads-lift, Reads-check, Reads-fixed,
}
use candy_runtime.Proto.Prefix.{Ipv4Prefix, Bytes-discrete}
use candy_runtime.Proto.Declaration.{PrepareDeclaration}
use candy_runtime.Proto.Request.{LeaseOwner, LeaseOwner-discrete}
use candy_runtime.Proto.Codec.Declaration.RoundTrip.{IsTyped}
use candy_runtime.Proto.Codec.Request.{encode_request}
use candy_runtime.Proto.Codec.Request.RoundTrip.{IsOwner, IsRequest, length-encode_request}
use candy_runtime.Netd.Record.{TransactionPhase, TransactionRecord, NetworkError, journal}
use candy_runtime.Netd.Journal.Fields.{v1, v3, magic_of, phase_code}
use candy_runtime.Netd.Journal.Encode.{
  refuses_candidate_owner, holds_candidate, is_foreign, prepare_request, candidate_owner,
  recovery_request, version_for, sized_bytes, recovery_bytes, record_bytes,
}
use candy_runtime.Netd.Journal.Decode.{
  read_active, Recovery, other_owner, read_recovery, candidate_of, candidate_owner_of, read_record,
}
use candy_runtime.Netd.Journal.Reads.{
  Reads-be, version_of-magic_of, phase_of-phase_code, steps_known,
}
use candy_runtime.Netd.Journal.Stored.{Stored, candidate_stored, none_stored}
use candy_runtime.Netd.Journal.Parts.{
  Held, IsRecord, has_both, reloaded_owner, reloaded_deadline, reloaded, Reads-candidate,
  Reads-active, Reads-deadline, Reads-failed, Reads-sysctls,
}

same_self : (o : LeaseOwner) → same LeaseOwner-discrete o o ≡ true
same_self o = by_decision (LeaseOwner-discrete o o)
  where
    by_decision : (d : Dec (o ≡ o)) → elim d [ yes h ↦ true | no h ↦ false ] ≡ true
    by_decision (yes h) = refl
    by_decision (no h) = absurd (h refl)

own_candidate : (o : LeaseOwner) → is_foreign o o ≡ false
own_candidate o = by_decision (Bytes-discrete o.instance_id o.instance_id)
  where
    by_decision :
        (d : Dec (o.instance_id ≡ o.instance_id))
        → (not (elim d [ yes h ↦ true | no h ↦ false ] && (o.pid == o.pid))
            || ltb o.generation o.generation)
          ≡ false
    by_decision (yes h) = ground arith
    by_decision (no h) = absurd (h refl)

candidate_is_own :
    (r : TransactionRecord)
    → refuses_candidate_owner r r.recovery_candidate_owner ≡ false
    → is_foreign r.owner (candidate_owner r) ≡ false
candidate_is_own r h = by_owner r.recovery_candidate_owner h
  where
    by_owner :
        (o : Option LeaseOwner)
        → refuses_candidate_owner r o ≡ false
        → is_foreign r.owner (unwrap_or o r.owner) ≡ false
    by_owner none h = own_candidate r.owner
    by_owner (some o) h = ground arith

abbrev recovered : LeaseOwner → Option PrepareDeclaration → Option LeaseOwner → Recovery
recovered owner none candidate = none
recovered owner (some d) candidate = some (d, other_owner owner (unwrap_or candidate owner))

Reads-stored_candidate :
    (phase : TransactionPhase) (owner w : LeaseOwner) (d : PrepareDeclaration) (bytes : List ℕ)
    → IsRequest (prepare_request w d)
    → encode_request (prepare_request w d) ≡ ok bytes
    → is_foreign owner w ≡ false
    → holds_candidate phase ≡ true
    → Reads (read_recovery v3 phase owner) (sized_bytes bytes) (some (d, other_owner owner w))
unfolding read_recovery
Reads-stored_candidate phase owner w d bytes typed e own held =
    let q = prepare_request w d in
    let bounds = length-encode_request q bytes e in
    let some_bytes : (length bytes == 0) ≡ false = ground arith in
    Reads-bind _ (Reads-be 4 (length bytes) (omega (arith, bounds))) (
      Reads-last _ (rw some_bytes (Reads-candidate q bytes typed e phase owner refl own held))
        (Reads-pure _))

Reads-recovery :
    (r : TransactionRecord) (failed : List Ipv4Prefix) (candidate : Option PrepareDeclaration)
    (recovery : Option (List ℕ))
    → has_both failed candidate ≡ false
    → IsOwner (candidate_owner r)
    → Held IsTyped candidate
    → recovery_request (candidate_owner r) candidate ≡ ok recovery
    → is_foreign r.owner (candidate_owner r) ≡ false
    → (is_some candidate && not (holds_candidate r.phase)) ≡ false
    → Reads
        (read_recovery (version_for failed candidate) r.phase r.owner)
        (recovery_bytes failed recovery)
        (recovered r.owner candidate r.recovery_candidate_owner)
unfolding read_recovery
Reads-recovery r [] none recovery b o t e own held =
    let none_written : recovery ≡ none = none_stored (candidate_owner r) recovery e in
    rw none_written (Reads-pure none)
Reads-recovery r [] (some d) recovery b o t e own held =
    let (bytes, written, encoded) = candidate_stored (candidate_owner r) d recovery e in
    let typed : IsRequest (prepare_request (candidate_owner r) d) = record {
      id_bound = omega arith;
      owner_typed = o;
      operation_typed = t;
    } in
    rw written (
      Reads-stored_candidate r.phase r.owner (candidate_owner r) d bytes typed encoded own
        (ground arith))
Reads-recovery r (p ∷ ps) none recovery b o t e own held =
    let none_written : recovery ≡ none = none_stored (candidate_owner r) recovery e in
    rw none_written
      (Reads-last _ (Reads-be 4 0 (omega arith)) (Reads-last _ (Reads-pure none) (Reads-pure none)))
Reads-recovery r (p ∷ ps) (some d) recovery b o t e own held = cc

candidate_recovered :
    (owner : LeaseOwner) (c : Option PrepareDeclaration) (o : Option LeaseOwner)
    → candidate_of (recovered owner c o) ≡ c
candidate_recovered owner none o = refl
candidate_recovered owner (some d) o = refl

owner_recovered :
    (owner : LeaseOwner) (c : Option PrepareDeclaration) (o : Option LeaseOwner)
    → candidate_owner_of (recovered owner c o) ≡ reloaded_owner owner c o
owner_recovered owner none o = refl
owner_recovered owner (some d) o = refl

IsOwner-typed : (r : TransactionRecord) → IsRecord r → IsOwner (candidate_owner r)
IsOwner-typed r h = by_owner r.recovery_candidate_owner h.candidate_owner_typed
  where
    by_owner : (o : Option LeaseOwner) → Held IsOwner o → IsOwner (unwrap_or o r.owner)
    by_owner none k = h.owner_typed
    by_owner (some o) k = k

Reads-request :
    (r : TransactionRecord) (bytes : List ℕ)
    → IsRecord r
    → encode_request (prepare_request r.owner r.declaration) ≡ ok bytes
    → Reads read_active (sized_bytes bytes) (prepare_request r.owner r.declaration)
Reads-request r bytes h e =
    Reads-active (prepare_request r.owner r.declaration) bytes
      (record {
        id_bound = omega arith;
        owner_typed = h.owner_typed;
        operation_typed = h.declaration_typed;
      })
      e

pub phase_bound : (p : TransactionPhase) → phase_code p < 256 ^ 1
phase_bound TransactionPhase.preparing = omega arith
phase_bound _ = omega arith

-- The record that is read, before its candidate is known.
abbrev reread : TransactionRecord → TransactionRecord
reread r =
    let recovery = recovered r.owner r.recovery_candidate r.recovery_candidate_owner in
    record r {
      recovery_candidate = candidate_of recovery;
      recovery_candidate_owner = candidate_owner_of recovery;
      drain_deadline_mono_ms = reloaded_deadline r.recovery_candidate r.drain_deadline_mono_ms;
    }

Reads-reread : (r : TransactionRecord) → Reads {E = NetworkError} (pure (reread r)) [] (reloaded r)
Reads-reread r =
    let same_record : reread r ≡ reloaded r =
      rw
        (
          candidate_recovered r.owner r.recovery_candidate r.recovery_candidate_owner,
          owner_recovered r.owner r.recovery_candidate r.recovery_candidate_owner,
        )
        refl in
    subst (λ v. Reads {E = NetworkError} (pure (reread r)) [] v) same_record (Reads-pure (reread r))

pub Reads-record :
    (r : TransactionRecord) (content : List ℕ)
    → IsRecord r
    → has_both r.failed_prefixes r.recovery_candidate ≡ false
    → (s : Stored r content) → Reads read_record (record_bytes r s.request s.recovery) (reloaded r)
unfolding read_record record_bytes
Reads-record r content h b s =
    let (prefixes, sysctls, candidate, own) = s.checks in
    let known = steps_known r.completed_steps h.steps_bound in
    Reads-bind _
      (Reads-fixed journal (magic_of (version_for r.failed_prefixes r.recovery_candidate))
        (eight (version_for r.failed_prefixes r.recovery_candidate)))
      (Reads-step _
        (Reads-lift _ (version_of-magic_of (version_for r.failed_prefixes r.recovery_candidate)))
        (Reads-bind _ (Reads-be 1 (phase_code r.phase) (phase_bound r.phase)) (
          Reads-step _ (Reads-lift _ (phase_of-phase_code r.phase)) (
            Reads-bind _ (Reads-be 2 r.completed_steps (omega (arith, h.steps_bound))) (
              Reads-check _ (rw known refl) (
                Reads-bind _ (Reads-sysctls r.sysctls sysctls) (
                  Reads-bind _
                    (Reads-deadline r.failed_prefixes r.recovery_candidate r.drain_deadline_mono_ms
                      b h.deadline_bound)
                    (Reads-bind _ (Reads-request r s.request h s.request_encoded) (
                      Reads-step _ (Reads-lift r.declaration refl) (
                        Reads-bind _
                          (Reads-recovery r r.failed_prefixes r.recovery_candidate s.recovery b
                            (IsOwner-typed r h) h.candidate_typed s.recovery_encoded
                            (candidate_is_own r own) candidate)
                          (Reads-last _
                            (Reads-failed r.failed_prefixes r.recovery_candidate h.octets prefixes)
                            (Reads-reread r))))))))))))
  where
    eight : (v : _) → length (magic_of v) ≡ 8
    eight v1 = refl
    eight _ = refl
