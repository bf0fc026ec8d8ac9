-- ===== src/Proto/Codec/Request/Canonical.antt =====
-- A request that is accepted is valid, and was written in the one way there is.
use candy_runtime.Prelude.{ℕ, ◌≡◌, refl, ◌∙◌, false, List, [], ◌∷◌, Result, ok, err, ◌==◌, arith}
use candy_runtime.Prelude.Results
use mathlib.Core.Path.{sym}
use mathlib.Core.List.{append-nil}
use candy_runtime.Proto.Error.{NetdProtocolError, invalid_declaration, invalid_owner}
use candy_runtime.Proto.Declaration.{PrepareDeclaration}
use candy_runtime.Proto.Request.{NetdOperation, NetdRequest, operation_tag, validate_request}
use candy_runtime.Proto.Codec.Writer.{encode_prefix}
use candy_runtime.Proto.Codec.Frame.{ensure_frame, netd_protocol_version}
use candy_runtime.Proto.Codec.Declaration.{encode_declaration, decode_declaration}
use candy_runtime.Proto.Codec.Declaration.RoundTrip.{IsTyped}
use candy_runtime.Proto.Codec.Request.{
  owner_bytes, operation_bytes, request_bytes, withdraws_too_many, encode_request,
  decode_withdrawal, decode_operation, decode_owner, read_fields, read_request, decode_request,
}
use candy_runtime.Proto.Codec.Reader.{pure, lift, ◌>>=◌, ◌>>◌, finish, result_of}
use candy_runtime.Proto.Codec.Reader.Reads.{IsPrefix}
use candy_runtime.Proto.Codec.Reader.Exact.{
  Exact, AreBytes, Exact-bind, Exact-pure, Exact-lift, Exact-IsVarint, Exact-IsFixed, Exact-narrow,
  Exact-prefix, Exact-many, Exact-check, Exact-if, Exact-tag, inverted,
}
use candy_runtime.Proto.Codec.Declaration.Canonical.{Exact-declaration}
use candy_runtime.Proto.Codec.Request.RoundTrip.{IsOwner, IsOperation, IsRequest}

Exact-IsOwner : Exact decode_owner (λ o used. (used ≡ owner_bytes o) × IsOwner o)
unfolding decode_owner owner_bytes
Exact-IsOwner = Exact-bind (Exact-IsFixed _ 16) λ instance_id u1 h1.
    Exact-bind (Exact-narrow 32 invalid_owner) λ pid u2 h2.
      Exact-bind Exact-IsVarint λ generation u3 h3. Exact-bind Exact-IsVarint λ deadline u4 h4.
        Exact-pure _ (
          rw (h1.0, h2.0, h3.0, h4.0, append-nil) refl,
          record {
            instance_length = h1.1;
            pid_bound = h2.1;
            generation_bound = h3.1;
            deadline_bound = h4.1;
          },
        )

-- What was read for an operation with this tag.
abbrev Operation : ℕ → NetdOperation → List ℕ → Type 0
Operation tag op used =
    (used ≡ operation_bytes op)
    × (tag ≡ operation_tag op)
    × IsOperation op
    × (withdraws_too_many op ≡ false)

Exact-withdrawal : Exact decode_withdrawal (Operation 11)
unfolding decode_withdrawal operation_bytes
Exact-withdrawal = Exact-bind Exact-IsVarint λ count u1 h1. Exact-check _ λ few.
    Exact-bind (Exact-many encode_prefix IsPrefix count Exact-prefix) λ ps u2 h2.
      Exact-pure _ (rw (h1.0, h2.0, h2.1, append-nil) refl, refl, h2.2, ground (arith, h2.1))

with_declaration :
    (make : PrepareDeclaration → NetdOperation) (tag : ℕ)
    → ((d : PrepareDeclaration) → operation_bytes (make d) ≡ encode_declaration d)
    → ((d : PrepareDeclaration) → tag ≡ operation_tag (make d))
    → ((d : PrepareDeclaration) → IsTyped d → IsOperation (make d))
    → ((d : PrepareDeclaration) → withdraws_too_many (make d) ≡ false)
    → Exact (decode_declaration >>= λ d. pure (make d)) (Operation tag)
with_declaration make tag same_bytes same_tag typed few = Exact-bind Exact-declaration λ d used h.
    Exact-pure (make d) (append-nil used ∙ h.0 ∙ sym (same_bytes d), same_tag d, typed d h.1, few d)

plain :
    (op : NetdOperation)
    → operation_bytes op ≡ []
    → IsOperation op
    → withdraws_too_many op ≡ false
    → Exact {E = NetdProtocolError} (pure op) (Operation (operation_tag op))
plain op none_used typed few = Exact-pure op (sym none_used, refl, typed, few)

Exact-Operation : (tag : ℕ) → Exact (decode_operation tag) (Operation tag)
unfolding decode_operation operation_bytes
Exact-Operation tag =
    Exact-if (tag == 1)
      (λ e.
        Exact-tag Operation tag 1 e
          (with_declaration NetdOperation.prepare 1 (λ d. refl) (λ d. refl) (λ d t. t) (λ d. refl)))
      λ n1.
        Exact-if (tag == 2)
          (λ e. Exact-tag Operation tag 2 e (plain NetdOperation.commit refl tt refl))
          λ n2.
            Exact-if (tag == 3)
              (λ e. Exact-tag Operation tag 3 e (plain NetdOperation.rollback refl tt refl))
              λ n3.
                Exact-if (tag == 4)
                  (λ e. Exact-tag Operation tag 4 e (plain NetdOperation.status refl tt refl))
                  λ n4.
                    Exact-if (tag == 5)
                      (λ e.
                        Exact-tag Operation tag 5 e (plain NetdOperation.lease_renew refl tt refl))
                      λ n5.
                        Exact-if (tag == 6)
                          (λ e. Exact-tag Operation tag 6 e (
                            Exact-bind (Exact-narrow 16 invalid_declaration)
                              λ mtu used h. Exact-pure _ (append-nil used ∙ h.0, refl, h.1, refl)))
                          λ n6.
                            Exact-if (tag == 7)
                              (λ e.
                                Exact-tag Operation tag 7 e
                                  (plain NetdOperation.suspend refl tt refl))
                              λ n7.
                                Exact-if (tag == 8)
                                  (λ e. Exact-tag Operation tag 8 e (
                                    with_declaration NetdOperation.reconfigure 8 (λ d. refl)
                                      (λ d. refl) (λ d t. t) (λ d. refl)))
                                  λ n8.
                                    Exact-if (tag == 9)
                                      (λ e.
                                        Exact-tag Operation tag 9 e
                                          (plain NetdOperation.resume refl tt refl))
                                      λ n9.
                                        Exact-if (tag == 10)
                                          (λ e. Exact-tag Operation tag 10 e (
                                            Exact-bind Exact-IsVarint λ now used h.
                                              Exact-pure _
                                                (append-nil used ∙ h.0, refl, h.1, refl)))
                                          λ n10.
                                            Exact-if (tag == 11)
                                              (λ e. Exact-tag Operation tag 11 e Exact-withdrawal)
                                              λ n11.
                                                Exact-if (tag == 12)
                                                  (λ e. Exact-tag Operation tag 12 e (
                                                    with_declaration NetdOperation.policy_update 12
                                                      (λ d. refl) (λ d. refl) (λ d t. t)
                                                      (λ d. refl)))
                                                  λ n12. Exact-lift _ (λ op e. cc)

Exact-fields :
    Exact read_fields
      (λ r used. (used ≡ request_bytes r) × IsRequest r × (withdraws_too_many r.operation ≡ false))
unfolding read_fields request_bytes
Exact-fields = Exact-bind Exact-IsVarint λ version u1 h1. Exact-check _ λ known.
    Exact-bind Exact-IsVarint λ tag u2 h2. Exact-bind Exact-IsVarint λ request_id u3 h3.
      Exact-bind Exact-IsOwner λ owner u4 h4. Exact-bind (Exact-Operation tag) λ operation u5 h5.
        let first : version ≡ netd_protocol_version = ground arith in
        Exact-pure _ (
          rw (h1.0, h2.0, h3.0, h4.0, h5.0, h5.1, first, append-nil) refl,
          record { id_bound = h3.1; owner_typed = h4.1; operation_typed = h5.2 },
          h5.3,
        )

-- What a decoder that succeeded has read and checked.
accepted :
    (bytes rest : List ℕ) (r : NetdRequest)
    → read_request bytes ≡ ok (r, rest)
    → (read_fields bytes ≡ ok (r, [])) × (validate_request r ≡ ok tt)
unfolding read_request ◌>>◌ finish
accepted bytes rest r e =
    let (value, middle, first, second) = inverted (read_fields bytes) _ e in
    finished value middle first second
  where
    finished :
        (value : NetdRequest) (middle : List ℕ)
        → read_fields bytes ≡ ok (value, middle)
        → ((finish >> (lift (validate_request value) >> pure value)) middle) ≡ ok (r, rest)
        → (read_fields bytes ≡ ok (r, [])) × (validate_request r ≡ ok tt)
    finished value [] first second = ground arith
    finished value (b ∷ middle) first second = cc

decoded :
    (bytes : List ℕ) (r : NetdRequest)
    → decode_request bytes ≡ ok r
    → (ensure_frame bytes ≡ ok tt) × (rest : List ℕ) × (read_request bytes ≡ ok (r, rest))
unfolding decode_request
decoded bytes r e = by_parts (ensure_frame bytes) (read_request bytes) e
  where
    by_parts :
        (frame : Result NetdProtocolError (Unit {0}))
        (body : Result NetdProtocolError (NetdRequest × List ℕ))
        → Results.◌>>◌ frame (result_of body) ≡ ok r
        → (frame ≡ ok tt) × (rest : List ℕ) × (body ≡ ok (r, rest))
    by_parts (ok done) (ok (value, rest)) e = (refl, rest, cc)
    by_parts (ok done) (err x) e = cc
    by_parts (err x) body e = cc

-- Bytes that are decoded are the encoding of the request that they are decoded to: no request has
-- two encodings, what is accepted passes validation, and it holds what its types can hold. A byte is
-- below 256.
pub decode_request-canonical :
    (bytes : List ℕ) (r : NetdRequest)
    → AreBytes bytes
    → decode_request bytes ≡ ok r
    → (encode_request r ≡ ok bytes) × (validate_request r ≡ ok tt) × IsRequest r
unfolding encode_request
decode_request-canonical bytes r h e =
    let (frame, rest, read) = decoded bytes r e in
    let (fields, valid) = accepted bytes rest r read in
    let (used, split, h', (same_bytes, typed, few)) = Exact-fields.run bytes r [] h fields in
    let whole : bytes ≡ request_bytes r = split ∙ append-nil used ∙ same_bytes in
    (rw (valid, few, ← whole, frame) refl, valid, typed)
