-- ===== src/Proto/Codec/Tests.antt =====
-- Runs of the codec at concrete requests and responses.
use candy_runtime.Proto.Codec.Response.{
  check_body, response_bytes, body_bytes, ResponseBody, NetdResponse, encode_response,
  decode_response,
}
use candy_runtime.Proto.Codec.Request.{
  operation_bytes, owner_bytes, request_bytes, encode_request, decode_request, read_request,
  read_fields, decode_owner, decode_operation, decode_withdrawal,
}
use candy_runtime.Prelude.Loops.{falls}
use candy_runtime.Proto.Prefix.{Bytes-discrete, new_prefix}
use candy_runtime.Prelude.Parsers.{take_bytes, read_many}
use candy_runtime.Proto.Codec.Reader.{read_varint, read_narrow, read_prefix}
use candy_runtime.Proto.Codec.Frame.{ensure_frame}
use candy_runtime.Proto.Request.{
  validate_operation, validate_owner, NetdOperation, NetdRequest, validate_request,
}
use candy_runtime.Prelude.{
  ℕ_discrete, ◌≡◌, ◌^◌, ◌<◌, refl, some, none, List, [], ◌∷◌, ◌++◌, ℕ, ok, err, arith,
}
use candy_runtime.Proto.Tests.{agent, lan}
use candy_runtime.Proto.Error.{NetdProtocolError}
use candy_runtime.Proto.Codec.Writer.{encode_each, encode_prefix}
use candy_runtime.Proto.Codec.Varint.{encode_varint, decode_varint}
use candy_runtime.Proto.Codec.Varint.RoundTrip.{decode_varint-encode_varint}
use candy_runtime.Proto.Codec.Varint.Canonical.{decode_varint-canonical}
use candy_runtime.Proto.Codec.Reader.Exact.{AreBytes}
use candy_runtime.Proto.Codec.Request.RoundTrip.{
  IsRequest, FitsRequest, decode_request-encode_request,
}
use candy_runtime.Proto.Codec.Request.Canonical.{decode_request-canonical}
use candy_runtime.Proto.Codec.Response.RoundTrip.{IsResponse, decode_response-encode_response}
use candy_runtime.Proto.Codec.Response.Canonical.{decode_response-canonical}

abbrev renewal : NetdRequest
renewal = record { request_id = 300; owner = agent; operation = NetdOperation.mtu_update 1280 }

abbrev renewal_bytes : List ℕ
renewal_bytes =
    1 ∷ 6 ∷ 172 ∷ 2 ∷ 1 ∷ 0 ∷ 0 ∷ 0 ∷ 0 ∷ 0 ∷ 0 ∷ 0 ∷ 0 ∷ 0 ∷ 0 ∷ 0 ∷ 0 ∷ 0 ∷ 0 ∷ 0 ∷ 40 ∷ 7 ∷ 136
    ∷ 39 ∷ 128 ∷ 10 ∷ []

-- A varint with a needless last group, and one of eleven bytes' worth of bits, are refused.
varint_refusals :
    (decode_varint (128 ∷ 0 ∷ []) ≡ none)
    × (decode_varint (255 ∷ 255 ∷ 255 ∷ 255 ∷ 255 ∷ 255 ∷ 255 ∷ 255 ∷ 255 ∷ 2 ∷ []) ≡ none)
unfolding decode_varint
varint_refusals = (refl, refl)

renewal_encodes : encode_request renewal ≡ ok renewal_bytes
unfolding encode_request validate_request validate_owner Bytes-discrete ℕ_discrete
    validate_operation ensure_frame request_bytes encode_varint falls native.Mathlib.Decide.dec_lt
    owner_bytes operation_bytes
renewal_encodes = refl

decode_varint-encode_varint_example :
    decode_varint (encode_varint 300 ++ (7 ∷ [])) ≡ some (300, 7 ∷ [])
decode_varint-encode_varint_example = decode_varint-encode_varint 300 (7 ∷ []) (omega arith)

renewal-FitsRequest : FitsRequest renewal
renewal-FitsRequest = record {
  id_bound = omega arith;
  owner_typed = record {
    instance_length = refl;
    pid_bound = omega arith;
    generation_bound = omega arith;
    deadline_bound = omega arith;
  };
  operation_fits = omega arith;
}

-- A withdrawal of 10.0.0.1/24, which has host bits set, is valid and is encoded; the decoder refuses it.
abbrev unaligned : NetdRequest
unaligned = record renewal {
  operation =
      NetdOperation.withdraw_prefixes
        (record { network = 10 ∷ 0 ∷ 0 ∷ 1 ∷ []; prefix_len = 24 } ∷ []);
}

unaligned_refused :
    (encode_request unaligned ≡ ok (request_bytes unaligned))
    × (decode_request (request_bytes unaligned) ≡ err NetdProtocolError.invalid_declaration)
unfolding encode_request validate_request validate_owner Bytes-discrete ℕ_discrete
    validate_operation ensure_frame request_bytes encode_varint falls native.Mathlib.Decide.dec_lt
    owner_bytes operation_bytes encode_each encode_prefix decode_request read_request
    candy_runtime.Prelude.Parsers.◌>>=◌ read_fields read_varint decode_varint
    candy_runtime.Prelude.Parsers.◌>>◌ decode_owner take_bytes read_narrow decode_operation
    decode_withdrawal read_many read_prefix new_prefix
unaligned_refused = (refl, refl)

renewal_bytes-AreBytes : AreBytes renewal_bytes
renewal_bytes-AreBytes = ground arith

three_hundred : decode_varint (172 ∷ 2 ∷ 7 ∷ []) ≡ some (300, 7 ∷ [])
unfolding decode_varint
three_hundred = refl

decode_varint-canonical_example :
    ((172 ∷ 2 ∷ 7 ∷ []) ≡ encode_varint 300 ++ (7 ∷ [])) × (300 < 2 ^ 64)
decode_varint-canonical_example =
    decode_varint-canonical (172 ∷ 2 ∷ 7 ∷ []) 300 (7 ∷ []) (ground arith) three_hundred

-- The withdrawal of 10.0.0.0/24.
abbrev aligned : NetdRequest
aligned = record renewal { operation = NetdOperation.withdraw_prefixes (lan ∷ []) }

aligned-FitsRequest : FitsRequest aligned
aligned-FitsRequest = record {
  id_bound = omega arith;
  owner_typed = renewal-FitsRequest.owner_typed;
  operation_fits = (refl, tt);
}

lan_made : new_prefix (10 ∷ 0 ∷ 0 ∷ 0 ∷ []) 24 ≡ ok lan
unfolding new_prefix
lan_made = refl

aligned_encodes : encode_request aligned ≡ ok (request_bytes aligned)
unfolding encode_request validate_request validate_owner Bytes-discrete ℕ_discrete
    validate_operation ensure_frame request_bytes encode_varint falls native.Mathlib.Decide.dec_lt
    owner_bytes operation_bytes encode_each encode_prefix
aligned_encodes = refl

decode_request-encode_request_example : decode_request (request_bytes aligned) ≡ ok aligned
decode_request-encode_request_example =
    decode_request-encode_request aligned (request_bytes aligned) aligned-FitsRequest (lan_made, tt)
      aligned_encodes

renewal_decodes : decode_request renewal_bytes ≡ ok renewal
renewal_decodes =
    decode_request-encode_request renewal renewal_bytes renewal-FitsRequest tt renewal_encodes

decode_request-canonical_example :
    (encode_request renewal ≡ ok renewal_bytes)
    × (validate_request renewal ≡ ok tt)
    × IsRequest renewal
decode_request-canonical_example =
    decode_request-canonical renewal_bytes renewal renewal_bytes-AreBytes renewal_decodes

abbrev lowered : NetdResponse
lowered = record { request_id = 300; body = ResponseBody.mtu_updated 7 1280 }

abbrev lowered_bytes : List ℕ
lowered_bytes = 1 ∷ 7 ∷ 172 ∷ 2 ∷ 7 ∷ 128 ∷ 10 ∷ []

lowered_encodes : encode_response lowered ≡ ok lowered_bytes
unfolding encode_response check_body ensure_frame response_bytes encode_varint falls
    native.Mathlib.Decide.dec_lt body_bytes
lowered_encodes = refl

lowered-IsResponse : IsResponse lowered
lowered-IsResponse = record { id_bound = omega arith; body_typed = (omega arith, omega arith) }

decode_response-encode_response_example : decode_response lowered_bytes ≡ ok lowered
decode_response-encode_response_example =
    decode_response-encode_response lowered lowered_bytes lowered-IsResponse lowered_encodes

lowered_decodes : decode_response lowered_bytes ≡ ok lowered
lowered_decodes =
    decode_response-encode_response lowered lowered_bytes lowered-IsResponse lowered_encodes

decode_response-canonical_example :
    (encode_response lowered ≡ ok lowered_bytes) × IsResponse lowered
decode_response-canonical_example =
    decode_response-canonical lowered_bytes lowered (ground arith) lowered_decodes
