-- ===== src/Proto/Codec/Request/RoundTrip.antt =====
-- A request that was written is read back.
use candy_runtime.Prelude.{
  ℕ, ◌^◌, ◌<◌, ◌≤◌, ◌≡◌, ◌∷◌, refl, false, List, [], ◌++◌, ok, arith, length, All, ltb,
}
use mathlib.Core.List.{append-nil}
use candy_runtime.Proto.Error.{invalid_declaration, invalid_owner}
use candy_runtime.Proto.Prefix.{Ipv4Prefix}
use candy_runtime.Proto.Declaration.{max_routes}
use candy_runtime.Proto.Request.{
  LeaseOwner, NetdOperation, NetdRequest, operation_tag, validate_request, validate_operation,
}
use candy_runtime.Proto.Codec.Varint.{encode_varint}
use candy_runtime.Proto.Codec.Writer.{encode_each, encode_prefix}
use candy_runtime.Proto.Codec.Frame.{max_netd_frame_len, ensure_frame, netd_protocol_version}
use candy_runtime.Proto.Codec.Declaration.RoundTrip.{
  IsTyped, Reads-declaration, FitsDeclaration, CanonicalDeclaration, made-IsTyped,
}
use candy_runtime.Proto.Codec.Request.{
  owner_bytes, operation_bytes, request_bytes, withdraws_too_many, framed, encode_request,
  decode_withdrawal, decode_operation, decode_owner, read_fields, read_request, decode_request,
}
use candy_runtime.Proto.Codec.Reader.{◌>>◌, finish}
use candy_runtime.Proto.Codec.Reader.Reads.{
  Reads, Reads-bind, Reads-last, Reads-pure, Reads-varint, Reads-fixed, Reads-narrow, Reads-prefix,
  Reads-many, Reads-check, IsPrefix, HasOctets, IsCanonical, made_prefixes,
}

-- What the types of the source say of an owner.
pub record IsOwner (o : LeaseOwner) : Type 0 where
  pub instance_length : length o.instance_id ≡ 16
  pub pid_bound : o.pid < 2 ^ 32
  pub generation_bound : o.generation < 2 ^ 64
  pub deadline_bound : o.lease_deadline_mono_ms < 2 ^ 64

-- The types' bounds on an operation, and no prefix of it with host bits set.
abbrev pub IsOperation : NetdOperation → Type 0
IsOperation (NetdOperation.prepare d) = IsTyped d
IsOperation (NetdOperation.reconfigure d) = IsTyped d
IsOperation (NetdOperation.policy_update d) = IsTyped d
IsOperation (NetdOperation.mtu_update mtu) = mtu < 2 ^ 16
IsOperation (NetdOperation.drain now) = now < 2 ^ 64
IsOperation (NetdOperation.withdraw_prefixes ps) = All IsPrefix ps
IsOperation _ = Unit {0}

pub record IsRequest (r : NetdRequest) : Type 0 where
  pub id_bound : r.request_id < 2 ^ 64
  pub owner_typed : IsOwner r.owner
  pub operation_typed : IsOperation r.operation

-- What the types of the source say of an operation and of a request.
abbrev pub FitsOperation : NetdOperation → Type 0
FitsOperation (NetdOperation.prepare d) = FitsDeclaration d
FitsOperation (NetdOperation.reconfigure d) = FitsDeclaration d
FitsOperation (NetdOperation.policy_update d) = FitsDeclaration d
FitsOperation (NetdOperation.mtu_update mtu) = mtu < 2 ^ 16
FitsOperation (NetdOperation.drain now) = now < 2 ^ 64
FitsOperation (NetdOperation.withdraw_prefixes ps) = All HasOctets ps
FitsOperation _ = Unit {0}

pub record FitsRequest (r : NetdRequest) : Type 0 where
  pub id_bound : r.request_id < 2 ^ 64
  pub owner_typed : IsOwner r.owner
  pub operation_fits : FitsOperation r.operation

-- No prefix of an operation has host bits set, which `validate` does not ask for.
abbrev pub CanonicalOperation : NetdOperation → Type 0
CanonicalOperation (NetdOperation.prepare d) = CanonicalDeclaration d
CanonicalOperation (NetdOperation.reconfigure d) = CanonicalDeclaration d
CanonicalOperation (NetdOperation.policy_update d) = CanonicalDeclaration d
CanonicalOperation (NetdOperation.withdraw_prefixes ps) = All IsCanonical ps
CanonicalOperation _ = Unit {0}

made-IsOperation : (op : NetdOperation) → FitsOperation op → CanonicalOperation op → IsOperation op
made-IsOperation (NetdOperation.prepare d) h k = made-IsTyped d h k
made-IsOperation (NetdOperation.reconfigure d) h k = made-IsTyped d h k
made-IsOperation (NetdOperation.policy_update d) h k = made-IsTyped d h k
made-IsOperation (NetdOperation.mtu_update mtu) h k = h
made-IsOperation (NetdOperation.drain now) h k = h
made-IsOperation (NetdOperation.withdraw_prefixes ps) h k = made_prefixes (λ p. p) ps h k
made-IsOperation _ h k = tt

Reads-owner : (o : LeaseOwner) → IsOwner o → Reads decode_owner (owner_bytes o) o
unfolding decode_owner owner_bytes
Reads-owner o h = Reads-bind _ (Reads-fixed _ o.instance_id h.instance_length) (
    Reads-bind _ (Reads-narrow 32 invalid_owner o.pid h.pid_bound (omega (arith, h.pid_bound))) (
      Reads-bind _ (Reads-varint o.generation h.generation_bound)
        (Reads-last _ (Reads-varint o.lease_deadline_mono_ms h.deadline_bound) (Reads-pure o))))

withdrawal :
    (ps : List Ipv4Prefix)
    → All IsPrefix ps
    → ltb max_routes (length ps) ≡ false
    → Reads decode_withdrawal
        (encode_varint (length ps) ++ encode_each encode_prefix ps)
        (NetdOperation.withdraw_prefixes ps)
unfolding decode_withdrawal
withdrawal ps h few =
    Reads-bind _ (Reads-varint (length ps) (ground arith))
      (Reads-check _ (ground arith) (Reads-last _ (Reads-many ps Reads-prefix h) (Reads-pure _)))

Reads-operation :
    (op : NetdOperation)
    → IsOperation op
    → validate_operation op ≡ ok tt
    → withdraws_too_many op ≡ false
    → Reads (decode_operation (operation_tag op)) (operation_bytes op) op
unfolding decode_operation operation_bytes validate_operation
Reads-operation (NetdOperation.prepare d) t v w =
    Reads-last _ (Reads-declaration d t v) (Reads-pure _)
Reads-operation (NetdOperation.reconfigure d) t v w =
    Reads-last _ (Reads-declaration d t v) (Reads-pure _)
Reads-operation (NetdOperation.policy_update d) t v w =
    Reads-last _ (Reads-declaration d t v) (Reads-pure _)
Reads-operation (NetdOperation.mtu_update mtu) t v w =
    Reads-last _ (Reads-narrow 16 invalid_declaration mtu t (omega arith)) (Reads-pure _)
Reads-operation (NetdOperation.drain now) t v w = Reads-last _ (Reads-varint now t) (Reads-pure _)
Reads-operation (NetdOperation.withdraw_prefixes ps) t v w = withdrawal ps t w
Reads-operation NetdOperation.commit t v w = Reads-pure _
Reads-operation _ t v w = Reads-pure _

tag_bound : (op : NetdOperation) → operation_tag op < 2 ^ 64
tag_bound (NetdOperation.prepare d) = omega arith
tag_bound _ = omega arith

Reads-fields :
    (r : NetdRequest)
    → IsRequest r
    → validate_operation r.operation ≡ ok tt
    → withdraws_too_many r.operation ≡ false
    → Reads read_fields (request_bytes r) r
unfolding read_fields request_bytes
Reads-fields r h v w = Reads-bind _ (Reads-varint netd_protocol_version (omega arith)) (
    Reads-check _ refl (
      Reads-bind _ (Reads-varint (operation_tag r.operation) (tag_bound r.operation)) (
        Reads-bind _ (Reads-varint r.request_id h.id_bound) (
          Reads-bind _ (Reads-owner r.owner h.owner_typed)
            (Reads-last _ (Reads-operation r.operation h.operation_typed v w) (Reads-pure r))))))

-- What an encoder that succeeded has checked.
abbrev Encoded : NetdRequest → List ℕ → Type 0
Encoded r bytes =
    (validate_request r ≡ ok tt)
    × (withdraws_too_many r.operation ≡ false)
    × (ensure_frame bytes ≡ ok tt)
    × (bytes ≡ request_bytes r)

encoded : (r : NetdRequest) (bytes : List ℕ) → encode_request r ≡ ok bytes → Encoded r bytes
unfolding encode_request
encoded r bytes e = ground arith

-- The length of an encoding.
pub length-encode_request :
    (r : NetdRequest) (bytes : List ℕ)
    → encode_request r ≡ ok bytes
    → (0 < length bytes) × (length bytes ≤ max_netd_frame_len)
unfolding ensure_frame
length-encode_request r bytes e =
    let (v, w, framed, same_bytes) = encoded r bytes e in in_frame bytes framed
  where
    in_frame :
        (input : List ℕ)
        → ensure_frame input ≡ ok tt
        → (0 < length input) × (length input ≤ max_netd_frame_len)
    in_frame [] h = cc
    in_frame (b ∷ input) h = (omega arith, ground arith)

valid_operation :
    (r : NetdRequest) → validate_request r ≡ ok tt → validate_operation r.operation ≡ ok tt
unfolding validate_request
valid_operation r h = ground arith

read_whole :
    (r : NetdRequest) (bytes : List ℕ)
    → read_fields bytes ≡ ok (r, [])
    → validate_request r ≡ ok tt
    → read_request bytes ≡ ok (r, [])
unfolding read_request ◌>>◌ finish
read_whole r bytes e v = rw e (rw v refl)

pub decode_request-typed :
    (r : NetdRequest) (bytes : List ℕ)
    → IsRequest r
    → encode_request r ≡ ok bytes
    → decode_request bytes ≡ ok r
unfolding decode_request
decode_request-typed r bytes h e =
    let (v, w, framed, same_bytes) = encoded r bytes e in
    let fields : read_fields bytes ≡ ok (r, []) =
      rw (same_bytes, ← append-nil (request_bytes r))
        ((Reads-fields r h (valid_operation r v) w).run []) in
    rw (framed, read_whole r bytes fields v) refl

-- A request that was encoded is decoded to itself: whatever the operation, what one side writes is
-- what the other reads. The request holds what its types in the source can hold, and no prefix of its
-- operation has host bits set: the encoder does not check this, and the decoder refuses such a prefix.
pub decode_request-encode_request :
    (r : NetdRequest) (bytes : List ℕ)
    → FitsRequest r
    → CanonicalOperation r.operation
    → encode_request r ≡ ok bytes
    → decode_request bytes ≡ ok r
decode_request-encode_request r bytes h k e =
    let typed : IsRequest r = record {
      id_bound = h.id_bound;
      owner_typed = h.owner_typed;
      operation_typed = made-IsOperation r.operation h.operation_fits k;
    } in
    decode_request-typed r bytes typed e
