-- ===== src/Proto/Codec/Response/Canonical.antt =====
-- A response that is accepted was written in the one way there is.
use candy_runtime.Prelude.{ℕ, ◌^◌, ◌<◌, ◌≡◌, refl, ◌∙◌, List, [], ◌∷◌, Result, ok, err, ◌==◌, arith}
use candy_runtime.Prelude.Results
use mathlib.Core.Path.{sym}
use mathlib.Core.List.{append-nil}
use candy_runtime.Proto.Error.{NetdProtocolError, invalid_declaration}
use candy_runtime.Proto.Session.{SessionPhase}
use candy_runtime.Proto.Codec.Varint.{encode_varint}
use candy_runtime.Proto.Codec.Frame.{ensure_frame, netd_protocol_version}
use candy_runtime.Proto.Codec.Response.{
  ErrorCode, error_tag, error_code, phase_tag, session_phase, ResponseBody, NetdResponse,
  response_tag, body_bytes, response_bytes, encode_response, with_generation, decode_body,
  read_fields, read_response, decode_response,
}
use candy_runtime.Proto.Codec.Response.RoundTrip.{IsBody, IsResponse}
use candy_runtime.Proto.Codec.Reader.{pure, lift, ◌>>=◌, ◌>>◌, finish, result_of}
use candy_runtime.Proto.Codec.Reader.Exact.{
  Exact, AreBytes, Exact-bind, Exact-pure, Exact-lift, Exact-IsVarint, Exact-narrow, Exact-boolean,
  Exact-check, Exact-value, Exact-if, Exact-tag, inverted,
}

session_phase-tag : (t : ℕ) (p : SessionPhase) → session_phase t ≡ ok p → t ≡ phase_tag p
session_phase-tag t SessionPhase.stopped e = ground arith
session_phase-tag t _ e = ground arith

error_code-tag : (t : ℕ) (c : ErrorCode) → error_code t ≡ ok c → t ≡ error_tag c
error_code-tag t ErrorCode.invalid_request e = ground arith
error_code-tag t _ e = ground arith

-- What was read for a body with this tag.
abbrev Body : ℕ → ResponseBody → List ℕ → Type 0
Body tag b used = (used ≡ body_bytes b) × (tag ≡ response_tag b) × IsBody b

Exact-generation :
    (make : ℕ → ResponseBody) (tag : ℕ)
    → ((g : ℕ) → body_bytes (make g) ≡ encode_varint g)
    → ((g : ℕ) → tag ≡ response_tag (make g))
    → ((g : ℕ) → g < 2 ^ 64 → IsBody (make g))
    → Exact (with_generation make) (Body tag)
unfolding with_generation
Exact-generation make tag same_bytes same_tag typed =
    Exact-bind Exact-IsVarint
      λ g used h. Exact-pure _ (append-nil used ∙ h.0 ∙ sym (same_bytes g), same_tag g, typed g h.1)

Exact-Body : (tag : ℕ) → Exact (decode_body tag) (Body tag)
unfolding decode_body body_bytes
Exact-Body tag =
    Exact-if (tag == 1)
      (λ e. Exact-tag Body tag 1 e (
        Exact-bind Exact-IsVarint λ g u h.
          Exact-bind Exact-boolean
            λ b u' h'. Exact-pure _ (rw (h.0, h', append-nil) refl, refl, h.1)))
      λ n1.
        Exact-if (tag == 2)
          (λ e.
            Exact-tag Body tag 2 e
              (Exact-generation ResponseBody.committed 2 (λ g. refl) (λ g. refl) (λ g h. h)))
          λ n2.
            Exact-if (tag == 3)
              (λ e.
                Exact-tag Body tag 3 e
                  (Exact-generation ResponseBody.rolled_back 3 (λ g. refl) (λ g. refl) (λ g h. h)))
              λ n3.
                Exact-if (tag == 4)
                  (λ e. Exact-tag Body tag 4 e (
                    Exact-bind Exact-IsVarint λ t u h.
                      Exact-bind (Exact-value (session_phase t)) λ p u' h'.
                        Exact-bind Exact-IsVarint λ g u'' h''. Exact-pure _ (
                          rw (h.0, h'.0, h''.0, session_phase-tag t p h'.1, append-nil) refl,
                          refl,
                          h''.1,
                        )))
                  λ n4.
                    Exact-if (tag == 5)
                      (λ e. Exact-tag Body tag 5 e (
                        Exact-generation ResponseBody.lease_renewed 5 (λ g. refl) (λ g. refl)
                          (λ g h. h)))
                      λ n5.
                        Exact-if (tag == 6)
                          (λ e. Exact-tag Body tag 6 e (
                            Exact-bind Exact-IsVarint λ t u h.
                              Exact-bind (Exact-value (error_code t)) λ c u' h'. Exact-pure _ (
                                rw (h.0, h'.0, error_code-tag t c h'.1, append-nil) refl,
                                refl,
                                tt,
                              )))
                          λ n6.
                            Exact-if (tag == 7)
                              (λ e. Exact-tag Body tag 7 e (
                                Exact-bind Exact-IsVarint λ g u h.
                                  Exact-bind (Exact-narrow 16 invalid_declaration) λ m u' h'.
                                    Exact-pure _
                                      (rw (h.0, h'.0, append-nil) refl, refl, (h.1, h'.1))))
                              λ n7.
                                Exact-if (tag == 8)
                                  (λ e. Exact-tag Body tag 8 e (
                                    Exact-generation ResponseBody.suspended 8 (λ g. refl)
                                      (λ g. refl) (λ g h. h)))
                                  λ n8.
                                    Exact-if (tag == 9)
                                      (λ e. Exact-tag Body tag 9 e (
                                        Exact-generation ResponseBody.reconfigured 9 (λ g. refl)
                                          (λ g. refl) (λ g h. h)))
                                      λ n9.
                                        Exact-if (tag == 10)
                                          (λ e. Exact-tag Body tag 10 e (
                                            Exact-generation ResponseBody.resumed 10 (λ g. refl)
                                              (λ g. refl) (λ g h. h)))
                                          λ n10.
                                            Exact-if (tag == 11)
                                              (λ e. Exact-tag Body tag 11 e (
                                                Exact-generation ResponseBody.drained 11 (λ g. refl)
                                                  (λ g. refl) (λ g h. h)))
                                              λ n11.
                                                Exact-if (tag == 12)
                                                  (λ e. Exact-tag Body tag 12 e (
                                                    Exact-bind Exact-IsVarint λ g u h.
                                                      Exact-bind Exact-IsVarint λ n u' h'.
                                                        Exact-pure _ (
                                                          rw (h.0, h'.0, append-nil) refl,
                                                          refl,
                                                          (h.1, h'.1),
                                                        )))
                                                  λ n12.
                                                    Exact-if (tag == 13)
                                                      (λ e. Exact-tag Body tag 13 e (
                                                        Exact-generation ResponseBody.policy_updated
                                                          13 (λ g. refl) (λ g. refl) (λ g h. h)))
                                                      λ n13. Exact-lift _ (λ b e. cc)

Exact-fields : Exact read_fields (λ r used. (used ≡ response_bytes r) × IsResponse r)
unfolding read_fields response_bytes
Exact-fields = Exact-bind Exact-IsVarint λ version u1 h1. Exact-check _ λ known.
    Exact-bind Exact-IsVarint λ tag u2 h2. Exact-bind Exact-IsVarint λ request_id u3 h3.
      Exact-bind (Exact-Body tag) λ body u4 h4.
        let first : version ≡ netd_protocol_version = ground arith in
        Exact-pure _ (
          rw (h1.0, h2.0, h3.0, h4.0, h4.1, first, append-nil) refl,
          record { id_bound = h3.1; body_typed = h4.2 },
        )

-- What a decoder that succeeded has read and checked.
accepted :
    (bytes rest : List ℕ) (r : NetdResponse)
    → read_response bytes ≡ ok (r, rest)
    → (read_fields bytes ≡ ok (r, [])) × (again : List ℕ) × (encode_response r ≡ ok again)
unfolding read_response ◌>>◌ finish
accepted bytes rest r e =
    let (value, middle, first, second) = inverted (read_fields bytes) _ e in
    finished value middle (encode_response value) refl first second
  where
    finished :
        (value : NetdResponse) (middle : List ℕ) (c : Result NetdProtocolError (List ℕ))
        → encode_response value ≡ c
        → read_fields bytes ≡ ok (value, middle)
        → ((finish >> (lift c >>= λ checked. pure value)) middle) ≡ ok (r, rest)
        → (read_fields bytes ≡ ok (r, [])) × (again : List ℕ) × (encode_response r ≡ ok again)
    finished value [] (ok again) k first second = let same_value : value ≡ r = cc in (cc, again, cc)
    finished value [] (err x) k first second = cc
    finished value (b ∷ middle) c k first second = cc

decoded :
    (bytes : List ℕ) (r : NetdResponse)
    → decode_response bytes ≡ ok r
    → (ensure_frame bytes ≡ ok tt) × (rest : List ℕ) × (read_response bytes ≡ ok (r, rest))
unfolding decode_response
decoded bytes r e = by_parts (ensure_frame bytes) (read_response bytes) e
  where
    by_parts :
        (frame : Result NetdProtocolError (Unit {0}))
        (body : Result NetdProtocolError (NetdResponse × List ℕ))
        → Results.◌>>◌ frame (result_of body) ≡ ok r
        → (frame ≡ ok tt) × (rest : List ℕ) × (body ≡ ok (r, rest))
    by_parts (ok done) (ok (value, rest)) e = (refl, rest, cc)
    by_parts (ok done) (err x) e = cc
    by_parts (err x) body e = cc

-- An encoder that succeeds returns the bytes of the response.
encoded_bytes :
    (r : NetdResponse) (bytes : List ℕ) → encode_response r ≡ ok bytes → bytes ≡ response_bytes r
unfolding encode_response
encoded_bytes r bytes e = ground arith

-- Bytes that are decoded to a response are the encoding of that response, and it holds what its
-- types can hold. A byte is below 256.
pub decode_response-canonical :
    (bytes : List ℕ) (r : NetdResponse)
    → AreBytes bytes
    → decode_response bytes ≡ ok r
    → (encode_response r ≡ ok bytes) × IsResponse r
decode_response-canonical bytes r h e =
    let (frame, rest, read) = decoded bytes r e in
    let (fields, again, checked) = accepted bytes rest r read in
    let (used, split, h', (same_bytes, typed)) = Exact-fields.run bytes r [] h fields in
    let whole : bytes ≡ again =
      split ∙ append-nil used ∙ same_bytes ∙ sym (encoded_bytes r again checked) in
    (rw whole checked, typed)
