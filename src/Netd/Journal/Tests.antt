-- ===== src/Netd/Journal/Tests.antt =====
-- Runs of the journal's format at concrete records, with a digest of 32 bytes.
use candy_runtime.Proto.Request.{
  LeaseOwner-discrete, validate_request, validate_owner, validate_operation,
}
use candy_runtime.Proto.Declaration.{
  Exclusions-discrete, validate_declaration, out_of_bounds, has_conflict,
}
use candy_runtime.Netd.Record.{
  same_tunnel_declaration, TransactionRecord, journal, draining, rolling_back, ipv4_forward,
  candy_rp_filter,
}
use candy_runtime.Proto.Codec.Declaration.{
  encode_firewall, encode_exclusion, encode_route, encode_declaration,
}
use candy_runtime.Proto.Codec.Writer.{encode_boolean, encode_prefix}
use candy_runtime.Prelude.{
  ℕ_discrete, ◌≡◌, refl, true, false, some, List, [], ◌∷◌, ◌++◌, ◌^◌, ltb, ℕ, ok, err, arith,
  length,
}
use candy_runtime.Netd.Journal.Fields.{canonical_prefix, host_mask, to_be_bytes, has_unknown_step}
use candy_runtime.Proto.Prefix.{from_be_bytes, Bytes-discrete, new_prefix}
use candy_runtime.Proto.Tests.{lan, declared, replacement, agent}
use candy_runtime.Proto.Codec.Declaration.RoundTrip.{FitsDeclaration, CanonicalDeclaration}
use candy_runtime.Proto.Codec.Request.RoundTrip.{IsOwner, length-encode_request}
use candy_runtime.Netd.Transaction.Recover.{is_policy_update}
use candy_runtime.Netd.Journal.Encode.{
  check_record, encode_record, encode_content, recovery_request, record_bytes, prepare_request,
}
use candy_runtime.Proto.Codec.Request.{encode_request, request_bytes, owner_bytes, operation_bytes}
use candy_runtime.Netd.Journal.Decode.{decode_record}
use candy_runtime.Netd.Journal.Reads.{length-to_be_bytes}
use candy_runtime.Netd.Journal.Parts.{reloaded}
use candy_runtime.Netd.Journal.RoundTrip.{FitsRecord, CanonicalRecord, decode_record-encode_record}
use candy_runtime.Netd.Journal.Loss.{decode_record-has_both}
use candy_runtime.Netd.Journal.Accepted.{decode_record-check_record, decode_record-is_policy_update}
use candy_runtime.Proto.Codec.Frame.{ensure_frame}
use candy_runtime.Proto.Codec.Varint.{encode_varint}
use candy_runtime.Prelude.Loops.{falls}
use native.Mathlib.Decide.{dec_lt}
use candy_runtime.Prelude.Writers.{encode_each}

abbrev pub digest : List ℕ → List ℕ
digest bytes = to_be_bytes 32 (length bytes)

pub length-digest : (bytes : List ℕ) → length (digest bytes) ≡ 32
length-digest bytes = length-to_be_bytes 32 (length bytes)

-- An active tunnel that begins to drain towards another table.
abbrev pub replaced : TransactionRecord
replaced = record {
  owner = agent;
  declaration = declared;
  recovery_candidate = some replacement;
  recovery_candidate_owner = some (record agent { generation = 8 });
  phase = draining;
  completed_steps = 63;
  sysctls =
      record { key = ipv4_forward; original = 0; applied = 1 }
      ∷ record { key = candy_rp_filter; original = 1; applied = 2 }
      ∷ [];
  drain_deadline_mono_ms = 9000;
  failed_prefixes = [];
}

-- The same, where the routing daemon has reported a prefix.
abbrev reported : TransactionRecord
reported = record replaced { failed_prefixes = lan ∷ [] }

declared-FitsDeclaration : FitsDeclaration declared
declared-FitsDeclaration = record { router = refl; routes = (refl, tt); exclusions = (refl, tt) }

declared-CanonicalDeclaration : CanonicalDeclaration declared
unfolding new_prefix
declared-CanonicalDeclaration = record { routes = (refl, tt); exclusions = (refl, tt) }

pub replacement-FitsDeclaration : FitsDeclaration replacement
replacement-FitsDeclaration = record {
  router = refl;
  routes = declared-FitsDeclaration.routes;
  exclusions = declared-FitsDeclaration.exclusions;
}

pub replacement-CanonicalDeclaration : CanonicalDeclaration replacement
replacement-CanonicalDeclaration = record {
  routes = declared-CanonicalDeclaration.routes;
  exclusions = declared-CanonicalDeclaration.exclusions;
}

agent-IsOwner : IsOwner agent
agent-IsOwner = record {
  instance_length = refl;
  pid_bound = omega arith;
  generation_bound = omega arith;
  deadline_bound = omega arith;
}

pub successor-IsOwner : IsOwner (record agent { generation = 8 })
successor-IsOwner = record {
  instance_length = refl;
  pid_bound = omega arith;
  generation_bound = omega arith;
  deadline_bound = omega arith;
}

replaced-FitsRecord : FitsRecord replaced
replaced-FitsRecord = record {
  owner_typed = agent-IsOwner;
  declaration_fits = declared-FitsDeclaration;
  candidate_fits = replacement-FitsDeclaration;
  candidate_owner_typed = successor-IsOwner;
  steps_bound = omega arith;
  deadline_bound = omega arith;
  octets = tt;
}

replaced-CanonicalRecord : CanonicalRecord replaced
replaced-CanonicalRecord = record {
  declaration = declared-CanonicalDeclaration;
  candidate = replacement-CanonicalDeclaration;
}

abbrev pub request : List ℕ
request = request_bytes (prepare_request agent declared)

abbrev pub candidate : List ℕ
candidate = request_bytes (prepare_request (record agent { generation = 8 }) replacement)

pub request_encodes : encode_request (prepare_request agent declared) ≡ ok request
unfolding encode_request Bytes-discrete ℕ_discrete request_bytes validate_request validate_owner
    validate_operation validate_declaration out_of_bounds has_conflict ensure_frame encode_varint
    falls dec_lt owner_bytes operation_bytes encode_declaration encode_each encode_route
    encode_prefix encode_exclusion encode_firewall encode_boolean
request_encodes = refl

pub candidate_encodes :
    encode_request (prepare_request (record agent { generation = 8 }) replacement) ≡ ok candidate
unfolding encode_request Bytes-discrete ℕ_discrete request_bytes validate_request validate_owner
    validate_operation validate_declaration out_of_bounds has_conflict ensure_frame encode_varint
    falls dec_lt owner_bytes operation_bytes encode_declaration encode_each encode_route
    encode_prefix encode_exclusion encode_firewall encode_boolean
candidate_encodes = refl

request_fits : ltb (length request) (2 ^ 32) ≡ true
request_fits =
    let bounds = length-encode_request (prepare_request agent declared) request request_encodes in
    ground arith

pub candidate_fits : ltb (length candidate) (2 ^ 32) ≡ true
candidate_fits =
    let bounds =
      length-encode_request (prepare_request (record agent { generation = 8 }) replacement)
        candidate candidate_encodes in
    ground arith

abbrev pub file : TransactionRecord → List ℕ
file r = let content = record_bytes r request (some candidate) in content ++ digest content

pub replaced_encodes : encode_record digest replaced ≡ ok (file replaced)
unfolding encode_record encode_content check_record recovery_request Bytes-discrete ℕ_discrete
replaced_encodes = rw (request_encodes, candidate_encodes, request_fits, candidate_fits) refl

reported_encodes : encode_record digest reported ≡ ok (file reported)
unfolding encode_record encode_content check_record recovery_request canonical_prefix from_be_bytes
    host_mask Bytes-discrete ℕ_discrete
reported_encodes = rw (request_encodes, candidate_encodes, request_fits, candidate_fits) refl

decode_record-encode_record_example : decode_record digest (file replaced) ≡ ok (reloaded replaced)
decode_record-encode_record_example =
    decode_record-encode_record digest length-digest replaced (file replaced) replaced-FitsRecord
      replaced-CanonicalRecord refl replaced_encodes

decode_record-has_both_example : decode_record digest (file reported) ≡ err journal
decode_record-has_both_example =
    decode_record-has_both digest length-digest reported (file reported) (omega arith) refl
      (omega arith) reported_encodes

replaced_decodes : decode_record digest (file replaced) ≡ ok (reloaded replaced)
replaced_decodes =
    decode_record-encode_record digest length-digest replaced (file replaced) replaced-FitsRecord
      replaced-CanonicalRecord refl replaced_encodes

decode_record-check_record_example :
    (check_record (reloaded replaced) ≡ ok tt)
    × (has_unknown_step (reloaded replaced).completed_steps ≡ false)
decode_record-check_record_example =
    decode_record-check_record digest (file replaced) (reloaded replaced) replaced_decodes

-- A policy update that was interrupted, as the daemon holds it in memory.
abbrev interrupted : TransactionRecord
interrupted = record replaced {
  recovery_candidate = some declared;
  recovery_candidate_owner = some agent;
  phase = rolling_back;
}

interrupted_is_update : is_policy_update interrupted ≡ true
unfolding is_policy_update LeaseOwner-discrete ℕ_discrete same_tunnel_declaration Bytes-discrete
    Exclusions-discrete
interrupted_is_update = refl

interrupted-FitsRecord : FitsRecord interrupted
interrupted-FitsRecord = record {
  owner_typed = agent-IsOwner;
  declaration_fits = declared-FitsDeclaration;
  candidate_fits = declared-FitsDeclaration;
  candidate_owner_typed = agent-IsOwner;
  steps_bound = omega arith;
  deadline_bound = omega arith;
  octets = tt;
}

interrupted-CanonicalRecord : CanonicalRecord interrupted
interrupted-CanonicalRecord = record {
  declaration = declared-CanonicalDeclaration;
  candidate = declared-CanonicalDeclaration;
}

abbrev interrupted_file : List ℕ
interrupted_file =
    let content = record_bytes interrupted request (some request) in content ++ digest content

interrupted_encodes : encode_record digest interrupted ≡ ok interrupted_file
unfolding encode_record encode_content check_record recovery_request Bytes-discrete ℕ_discrete
interrupted_encodes = rw (request_encodes, request_fits) refl

interrupted_decodes : decode_record digest interrupted_file ≡ ok (reloaded interrupted)
interrupted_decodes =
    decode_record-encode_record digest length-digest interrupted interrupted_file
      interrupted-FitsRecord interrupted-CanonicalRecord refl interrupted_encodes

decode_record-is_policy_update_example : is_policy_update (reloaded interrupted) ≡ false
decode_record-is_policy_update_example =
    decode_record-is_policy_update digest interrupted_file (reloaded interrupted)
      interrupted_decodes
