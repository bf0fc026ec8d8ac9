-- ===== src/Proto/Codec/Response/RoundTrip.antt =====
-- A response that was written is read back.
use candy_runtime.Prelude.{ℕ, ◌^◌, ◌<◌, ◌≡◌, refl, List, [], ok, arith}
use mathlib.Core.List.{append-nil}
use candy_runtime.Proto.Error.{invalid_declaration}
use candy_runtime.Proto.Session.{SessionPhase}
use candy_runtime.Proto.Codec.Varint.{encode_varint}
use candy_runtime.Proto.Codec.Frame.{ensure_frame, netd_protocol_version}
use candy_runtime.Proto.Codec.Request.{framed}
use candy_runtime.Proto.Codec.Response.{
  ErrorCode, error_tag, error_code, phase_tag, session_phase, ResponseBody, NetdResponse,
  response_tag, body_bytes, response_bytes, encode_response, with_generation, decode_body,
  read_fields, read_response, decode_response,
}
use candy_runtime.Proto.Codec.Reader.{◌>>◌, finish}
use candy_runtime.Proto.Codec.Reader.Reads.{
  Reads, Reads-bind, Reads-step, Reads-last, Reads-pure, Reads-lift, Reads-varint, Reads-narrow,
  Reads-boolean, Reads-check,
}

-- What the types of the source say of a response.
abbrev pub IsBody : ResponseBody → Type 0
IsBody (ResponseBody.prepared g b) = g < 2 ^ 64
IsBody (ResponseBody.committed g) = g < 2 ^ 64
IsBody (ResponseBody.rolled_back g) = g < 2 ^ 64
IsBody (ResponseBody.status p g) = g < 2 ^ 64
IsBody (ResponseBody.lease_renewed g) = g < 2 ^ 64
IsBody (ResponseBody.error c) = Unit {0}
IsBody (ResponseBody.mtu_updated g m) = (g < 2 ^ 64) × (m < 2 ^ 16)
IsBody (ResponseBody.suspended g) = g < 2 ^ 64
IsBody (ResponseBody.reconfigured g) = g < 2 ^ 64
IsBody (ResponseBody.resumed g) = g < 2 ^ 64
IsBody (ResponseBody.drained g) = g < 2 ^ 64
IsBody (ResponseBody.prefixes_withdrawn g n) = (g < 2 ^ 64) × (n < 2 ^ 64)
IsBody (ResponseBody.policy_updated g) = g < 2 ^ 64

pub record IsResponse (r : NetdResponse) : Type 0 where
  pub id_bound : r.request_id < 2 ^ 64
  pub body_typed : IsBody r.body

error_code-error_tag : (c : ErrorCode) → error_code (error_tag c) ≡ ok c
error_code-error_tag ErrorCode.invalid_request = refl
error_code-error_tag _ = refl

error_tag_bound : (c : ErrorCode) → error_tag c < 2 ^ 64
error_tag_bound ErrorCode.invalid_request = omega arith
error_tag_bound _ = omega arith

session_phase-phase_tag : (p : SessionPhase) → session_phase (phase_tag p) ≡ ok p
session_phase-phase_tag SessionPhase.stopped = refl
session_phase-phase_tag _ = refl

phase_tag_bound : (p : SessionPhase) → phase_tag p < 2 ^ 64
phase_tag_bound SessionPhase.stopped = omega arith
phase_tag_bound _ = omega arith

response_tag_bound : (b : ResponseBody) → response_tag b < 2 ^ 64
response_tag_bound (ResponseBody.committed g) = omega arith
response_tag_bound _ = omega arith

Reads-generation :
    (make : ℕ → ResponseBody) (g : ℕ)
    → g < 2 ^ 64
    → Reads (with_generation make) (encode_varint g) (make g)
unfolding with_generation
Reads-generation make g h = Reads-last _ (Reads-varint g h) (Reads-pure (make g))

Reads-body : (b : ResponseBody) → IsBody b → Reads (decode_body (response_tag b)) (body_bytes b) b
unfolding decode_body body_bytes
Reads-body (ResponseBody.prepared g b) h =
    Reads-bind _ (Reads-varint g h) (Reads-last _ (Reads-boolean b) (Reads-pure _))
Reads-body (ResponseBody.status p g) h =
    Reads-bind _ (Reads-varint (phase_tag p) (phase_tag_bound p)) (
      Reads-step _ (Reads-lift p (session_phase-phase_tag p))
        (Reads-last _ (Reads-varint g h) (Reads-pure _)))
Reads-body (ResponseBody.error c) h =
    Reads-last _ (Reads-varint (error_tag c) (error_tag_bound c))
      (Reads-step _ (Reads-lift c (error_code-error_tag c)) (Reads-pure _))
Reads-body (ResponseBody.mtu_updated g m) h =
    Reads-bind _ (Reads-varint g h.0)
      (Reads-last _ (Reads-narrow 16 invalid_declaration m h.1 (omega arith)) (Reads-pure _))
Reads-body (ResponseBody.prefixes_withdrawn g n) h =
    Reads-bind _ (Reads-varint g h.0) (Reads-last _ (Reads-varint n h.1) (Reads-pure _))
Reads-body (ResponseBody.committed g) h = Reads-generation _ g h
Reads-body (ResponseBody.rolled_back g) h = Reads-generation _ g h
Reads-body (ResponseBody.lease_renewed g) h = Reads-generation _ g h
Reads-body (ResponseBody.suspended g) h = Reads-generation _ g h
Reads-body (ResponseBody.reconfigured g) h = Reads-generation _ g h
Reads-body (ResponseBody.resumed g) h = Reads-generation _ g h
Reads-body (ResponseBody.drained g) h = Reads-generation _ g h
Reads-body (ResponseBody.policy_updated g) h = Reads-generation _ g h

Reads-fields : (r : NetdResponse) → IsResponse r → Reads read_fields (response_bytes r) r
unfolding read_fields response_bytes
Reads-fields r h = Reads-bind _ (Reads-varint netd_protocol_version (omega arith)) (
    Reads-check _ refl (
      Reads-bind _ (Reads-varint (response_tag r.body) (response_tag_bound r.body)) (
        Reads-bind _ (Reads-varint r.request_id h.id_bound)
          (Reads-last _ (Reads-body r.body h.body_typed) (Reads-pure r)))))

encoded :
    (r : NetdResponse) (bytes : List ℕ)
    → encode_response r ≡ ok bytes
    → (ensure_frame bytes ≡ ok tt) × (bytes ≡ response_bytes r)
unfolding encode_response
encoded r bytes e = ground arith

read_whole :
    (r : NetdResponse) (bytes : List ℕ)
    → read_fields bytes ≡ ok (r, [])
    → encode_response r ≡ ok bytes
    → read_response bytes ≡ ok (r, [])
unfolding read_response ◌>>◌ finish
read_whole r bytes e v = rw e (rw v refl)

-- A response that was encoded is decoded to itself, whatever its body. It holds what its types in
-- the source can hold.
pub decode_response-encode_response :
    (r : NetdResponse) (bytes : List ℕ)
    → IsResponse r
    → encode_response r ≡ ok bytes
    → decode_response bytes ≡ ok r
unfolding decode_response
decode_response-encode_response r bytes h e =
    let (framed, same_bytes) = encoded r bytes e in
    let fields : read_fields bytes ≡ ok (r, []) =
      rw (same_bytes, ← append-nil (response_bytes r)) ((Reads-fields r h).run []) in
    rw (framed, read_whole r bytes fields e) refl
