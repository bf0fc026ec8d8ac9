-- ===== src/Proto/Codec/Response.antt =====
-- `NetdResponse` of linux/common/crates/candy-netd-proto/src/lib.rs, its encoder and its decoder.
pub mod RoundTrip
pub mod Canonical
use candy_runtime.Prelude.{
  ℕ, Bool, true, false, not, ◌&&◌, List, [], ◌∷◌, ◌++◌, Result, ok, err, leb, ◌==◌, if◌then◌else◌,
  refuse_if,
}
use candy_runtime.Prelude.Results
use candy_runtime.Proto.Error.{
  NetdProtocolError, unsupported_version, unknown_enum, invalid_declaration,
}
use candy_runtime.Proto.Session.{SessionPhase, is_stopped}
use candy_runtime.Proto.Codec.Varint.{encode_varint}
use candy_runtime.Proto.Codec.Writer.{encode_boolean}
use candy_runtime.Proto.Codec.Frame.{ensure_frame, netd_protocol_version}
use candy_runtime.Proto.Codec.Request.{framed}
use candy_runtime.Proto.Request.{is_valid_mtu}
use candy_runtime.Proto.Codec.Reader.{
  Reader, pure, lift, ◌>>=◌, ◌>>◌, read_varint, read_narrow, read_boolean, finish, result_of,
}

pub data ErrorCode : Type 0 where
  invalid_request unauthorized_peer generation_conflict preflight_failed : ErrorCode
  system_failure drain_pending link_prepare_failed route_prepare_failed : ErrorCode
  firewall_prepare_failed sysctl_prepare_failed link_activate_failed : ErrorCode
  policy_activate_failed : ErrorCode

-- `code as u64`
abbrev pub error_tag : ErrorCode → ℕ
error_tag ErrorCode.invalid_request = 1
error_tag ErrorCode.unauthorized_peer = 2
error_tag ErrorCode.generation_conflict = 3
error_tag ErrorCode.preflight_failed = 4
error_tag ErrorCode.system_failure = 5
error_tag ErrorCode.drain_pending = 6
error_tag ErrorCode.link_prepare_failed = 7
error_tag ErrorCode.route_prepare_failed = 8
error_tag ErrorCode.firewall_prepare_failed = 9
error_tag ErrorCode.sysctl_prepare_failed = 10
error_tag ErrorCode.link_activate_failed = 11
error_tag ErrorCode.policy_activate_failed = 12

-- `ErrorCode::try_from`
abbrev pub error_code : ℕ → Result NetdProtocolError ErrorCode
error_code tag =
    if tag == 1
    then ok ErrorCode.invalid_request
    else if tag == 2
    then ok ErrorCode.unauthorized_peer
    else if tag == 3
    then ok ErrorCode.generation_conflict
    else if tag == 4
    then ok ErrorCode.preflight_failed
    else if tag == 5
    then ok ErrorCode.system_failure
    else if tag == 6
    then ok ErrorCode.drain_pending
    else if tag == 7
    then ok ErrorCode.link_prepare_failed
    else if tag == 8
    then ok ErrorCode.route_prepare_failed
    else if tag == 9
    then ok ErrorCode.firewall_prepare_failed
    else if tag == 10
    then ok ErrorCode.sysctl_prepare_failed
    else if tag == 11
    then ok ErrorCode.link_activate_failed
    else if tag == 12
    then ok ErrorCode.policy_activate_failed
    else err unknown_enum

-- `phase as u64` and `SessionPhase::try_from`
abbrev pub phase_tag : SessionPhase → ℕ
phase_tag SessionPhase.stopped = 1
phase_tag SessionPhase.prepared = 2
phase_tag SessionPhase.active = 3
phase_tag SessionPhase.suspended = 4
phase_tag SessionPhase.draining = 5

abbrev pub session_phase : ℕ → Result NetdProtocolError SessionPhase
session_phase tag =
    if tag == 1
    then ok SessionPhase.stopped
    else if tag == 2
    then ok SessionPhase.prepared
    else if tag == 3
    then ok SessionPhase.active
    else if tag == 4
    then ok SessionPhase.suspended
    else if tag == 5
    then ok SessionPhase.draining
    else err unknown_enum

-- The second field, where there is one: `tun_fd_attached`, `effective_mtu` or `count`.
pub data ResponseBody : Type 0 where
  prepared : ℕ → Bool → ResponseBody
  committed rolled_back : ℕ → ResponseBody
  status : SessionPhase → ℕ → ResponseBody
  lease_renewed : ℕ → ResponseBody
  mtu_updated : ℕ → ℕ → ResponseBody
  suspended reconfigured resumed drained : ℕ → ResponseBody
  prefixes_withdrawn : ℕ → ℕ → ResponseBody
  policy_updated : ℕ → ResponseBody
  error : ErrorCode → ResponseBody

pub record NetdResponse : Type 0 where
  pub request_id : ℕ
  pub body : ResponseBody

abbrev pub response_tag : ResponseBody → ℕ
response_tag (ResponseBody.prepared g b) = 1
response_tag (ResponseBody.committed g) = 2
response_tag (ResponseBody.rolled_back g) = 3
response_tag (ResponseBody.status p g) = 4
response_tag (ResponseBody.lease_renewed g) = 5
response_tag (ResponseBody.error c) = 6
response_tag (ResponseBody.mtu_updated g m) = 7
response_tag (ResponseBody.suspended g) = 8
response_tag (ResponseBody.reconfigured g) = 9
response_tag (ResponseBody.resumed g) = 10
response_tag (ResponseBody.drained g) = 11
response_tag (ResponseBody.prefixes_withdrawn g n) = 12
response_tag (ResponseBody.policy_updated g) = 13

unfoldable pub valid_generation : ℕ → Result NetdProtocolError (Unit {0})
valid_generation g = refuse_if (g == 0) NetdProtocolError.invalid_request

-- The checks of `encode` on the body.
unfoldable pub check_body : ResponseBody → Result NetdProtocolError (Unit {0})
unfolding valid_generation
check_body (ResponseBody.error c) = ok tt
check_body (ResponseBody.status p g) = if not (is_stopped p) then valid_generation g else ok tt
check_body (ResponseBody.mtu_updated g m) =
    Results.◌>>◌ (valid_generation g)
      (refuse_if (not (is_valid_mtu m)) NetdProtocolError.invalid_declaration)
check_body (ResponseBody.prepared g b) = valid_generation g
check_body (ResponseBody.committed g) = valid_generation g
check_body (ResponseBody.rolled_back g) = valid_generation g
check_body (ResponseBody.lease_renewed g) = valid_generation g
check_body (ResponseBody.suspended g) = valid_generation g
check_body (ResponseBody.reconfigured g) = valid_generation g
check_body (ResponseBody.resumed g) = valid_generation g
check_body (ResponseBody.drained g) = valid_generation g
check_body (ResponseBody.prefixes_withdrawn g n) = valid_generation g
check_body (ResponseBody.policy_updated g) = valid_generation g

unfoldable pub body_bytes : ResponseBody → List ℕ
body_bytes (ResponseBody.prepared g b) = encode_varint g ++ encode_boolean b
body_bytes (ResponseBody.committed g) = encode_varint g
body_bytes (ResponseBody.rolled_back g) = encode_varint g
body_bytes (ResponseBody.status p g) = encode_varint (phase_tag p) ++ encode_varint g
body_bytes (ResponseBody.lease_renewed g) = encode_varint g
body_bytes (ResponseBody.error c) = encode_varint (error_tag c)
body_bytes (ResponseBody.mtu_updated g m) = encode_varint g ++ encode_varint m
body_bytes (ResponseBody.suspended g) = encode_varint g
body_bytes (ResponseBody.reconfigured g) = encode_varint g
body_bytes (ResponseBody.resumed g) = encode_varint g
body_bytes (ResponseBody.drained g) = encode_varint g
body_bytes (ResponseBody.prefixes_withdrawn g n) = encode_varint g ++ encode_varint n
body_bytes (ResponseBody.policy_updated g) = encode_varint g

unfoldable pub response_bytes : NetdResponse → List ℕ
response_bytes r =
    encode_varint netd_protocol_version
    ++ (encode_varint (response_tag r.body) ++ (encode_varint r.request_id ++ body_bytes r.body))

unfoldable pub encode_response : NetdResponse → Result NetdProtocolError (List ℕ)
encode_response r =
    Results.◌>>◌ (refuse_if (r.request_id == 0) NetdProtocolError.invalid_request)
      (Results.◌>>◌ (check_body r.body) (framed (response_bytes r)))

unfoldable pub with_generation : (ℕ → ResponseBody) → Reader ResponseBody
with_generation make = do generation ← read_varint; pure (make generation)

unfoldable pub decode_body : ℕ → Reader ResponseBody
unfolding with_generation
decode_body tag =
    if tag == 1
    then (do g ← read_varint; b ← read_boolean; pure (ResponseBody.prepared g b))
    else if tag == 2
    then with_generation ResponseBody.committed
    else if tag == 3
    then with_generation ResponseBody.rolled_back
    else if tag == 4
    then (do
      t ← read_varint
      p ← lift (session_phase t)
      g ← read_varint
      pure (ResponseBody.status p g))
    else if tag == 5
    then with_generation ResponseBody.lease_renewed
    else if tag == 6
    then (do t ← read_varint; c ← lift (error_code t); pure (ResponseBody.error c))
    else if tag == 7
    then (do
      g ← read_varint
      m ← read_narrow 16 invalid_declaration
      pure (ResponseBody.mtu_updated g m))
    else if tag == 8
    then with_generation ResponseBody.suspended
    else if tag == 9
    then with_generation ResponseBody.reconfigured
    else if tag == 10
    then with_generation ResponseBody.resumed
    else if tag == 11
    then with_generation ResponseBody.drained
    else if tag == 12
    then (do g ← read_varint; n ← read_varint; pure (ResponseBody.prefixes_withdrawn g n))
    else if tag == 13
    then with_generation ResponseBody.policy_updated
    else lift (err unknown_enum)

unfoldable pub read_fields : Reader NetdResponse
read_fields = do
  version ← read_varint
  lift (refuse_if (not (version == netd_protocol_version)) unsupported_version)
  tag ← read_varint
  request_id ← read_varint
  body ← decode_body tag
  pure (record { request_id = request_id; body = body })

-- The value is encoded again for the checks of the encoder.
unfoldable pub read_response : Reader NetdResponse
read_response = do value ← read_fields; finish; checked ← lift (encode_response value); pure value

unfoldable pub decode_response : List ℕ → Result NetdProtocolError NetdResponse
decode_response input = Results.◌>>◌ (ensure_frame input) (result_of (read_response input))
