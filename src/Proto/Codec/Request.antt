-- ===== src/Proto/Codec/Request.antt =====
-- `NetdRequest::encode` and `NetdRequest::decode` of
-- linux/common/crates/candy-netd-proto/src/lib.rs.
pub mod RoundTrip
pub mod Canonical
use candy_runtime.Prelude.{
  ℕ, Bool, true, false, not, List, [], ◌∷◌, ◌++◌, Result, ok, err, ltb, ◌==◌, if◌then◌else◌,
  refuse_if, length,
}
use candy_runtime.Prelude.Results
use candy_runtime.Proto.Error.{
  NetdProtocolError, unsupported_version, unknown_enum, invalid_request, invalid_declaration,
  invalid_owner,
}
use candy_runtime.Proto.Declaration.{max_routes}
use candy_runtime.Proto.Request.{
  LeaseOwner, NetdOperation, NetdRequest, operation_tag, validate_request,
}
use candy_runtime.Proto.Codec.Varint.{encode_varint}
use candy_runtime.Proto.Codec.Writer.{encode_each, encode_prefix}
use candy_runtime.Proto.Codec.Frame.{ensure_frame, netd_protocol_version}
use candy_runtime.Proto.Codec.Declaration.{encode_declaration, decode_declaration}
use candy_runtime.Proto.Codec.Reader.{
  Reader, pure, lift, ◌>>=◌, ◌>>◌, read_varint, read_fixed, read_narrow, read_prefix, read_many,
  finish, result_of,
}

-- What follows the owner.
unfoldable pub operation_bytes : NetdOperation → List ℕ
operation_bytes (NetdOperation.prepare d) = encode_declaration d
operation_bytes (NetdOperation.reconfigure d) = encode_declaration d
operation_bytes (NetdOperation.policy_update d) = encode_declaration d
operation_bytes (NetdOperation.mtu_update mtu) = encode_varint mtu
operation_bytes (NetdOperation.drain now) = encode_varint now
operation_bytes (NetdOperation.withdraw_prefixes ps) =
    encode_varint (length ps) ++ encode_each encode_prefix ps
operation_bytes _ = []

unfoldable pub owner_bytes : LeaseOwner → List ℕ
owner_bytes o =
    o.instance_id
    ++ (encode_varint o.pid
        ++ (encode_varint o.generation ++ encode_varint o.lease_deadline_mono_ms))

unfoldable pub request_bytes : NetdRequest → List ℕ
request_bytes r =
    encode_varint netd_protocol_version
    ++ (encode_varint (operation_tag r.operation)
        ++ (encode_varint r.request_id ++ (owner_bytes r.owner ++ operation_bytes r.operation)))

-- The one failure between the validation and the frame.
abbrev pub withdraws_too_many : NetdOperation → Bool
withdraws_too_many (NetdOperation.withdraw_prefixes ps) = ltb max_routes (length ps)
withdraws_too_many _ = false

abbrev pub framed : List ℕ → Result NetdProtocolError (List ℕ)
framed bytes = Results.◌>>◌ (ensure_frame bytes) (ok bytes)

unfoldable pub encode_request : NetdRequest → Result NetdProtocolError (List ℕ)
encode_request r = Results.◌>>◌ (validate_request r) (
    Results.◌>>◌ (refuse_if (withdraws_too_many r.operation) invalid_request)
      (framed (request_bytes r)))

unfoldable pub decode_withdrawal : Reader NetdOperation
decode_withdrawal = do
  count ← read_varint
  lift (refuse_if (ltb max_routes count) invalid_request)
  prefixes ← read_many count read_prefix
  pure (NetdOperation.withdraw_prefixes prefixes)

-- The match on the tag.
unfoldable pub decode_operation : ℕ → Reader NetdOperation
decode_operation tag =
    if tag == 1
    then (do d ← decode_declaration; pure (NetdOperation.prepare d))
    else if tag == 2
    then pure NetdOperation.commit
    else if tag == 3
    then pure NetdOperation.rollback
    else if tag == 4
    then pure NetdOperation.status
    else if tag == 5
    then pure NetdOperation.lease_renew
    else if tag == 6
    then (do mtu ← read_narrow 16 invalid_declaration; pure (NetdOperation.mtu_update mtu))
    else if tag == 7
    then pure NetdOperation.suspend
    else if tag == 8
    then (do d ← decode_declaration; pure (NetdOperation.reconfigure d))
    else if tag == 9
    then pure NetdOperation.resume
    else if tag == 10
    then (do now ← read_varint; pure (NetdOperation.drain now))
    else if tag == 11
    then decode_withdrawal
    else if tag == 12
    then (do d ← decode_declaration; pure (NetdOperation.policy_update d))
    else lift (err unknown_enum)

unfoldable pub decode_owner : Reader LeaseOwner
decode_owner = do
  instance_id ← read_fixed 16
  pid ← read_narrow 32 invalid_owner
  generation ← read_varint
  lease_deadline_mono_ms ← read_varint
  pure (record {
    instance_id = instance_id;
    pid = pid;
    generation = generation;
    lease_deadline_mono_ms = lease_deadline_mono_ms;
  })

-- The fields of a request, in the order of the wire.
unfoldable pub read_fields : Reader NetdRequest
read_fields = do
  version ← read_varint
  lift (refuse_if (not (version == netd_protocol_version)) unsupported_version)
  tag ← read_varint
  request_id ← read_varint
  owner ← decode_owner
  operation ← decode_operation tag
  pure (record { request_id = request_id; owner = owner; operation = operation })

unfoldable pub read_request : Reader NetdRequest
read_request = do value ← read_fields; finish; lift (validate_request value); pure value

unfoldable pub decode_request : List ℕ → Result NetdProtocolError NetdRequest
decode_request input = Results.◌>>◌ (ensure_frame input) (result_of (read_request input))
