-- ===== src/Proto/Codec/Reader/Exact.antt =====
-- What an accepting reader took: the very bytes that would be written for its value.
use candy_runtime.Prelude.{
  ℕ, ◌^◌, ◌<◌, ◌≤◌, ◌≡◌, refl, ap, ◌∙◌, Bool, true, false, List, ◌++◌, Option, none, some, ok,
  arith, length,
}
use mathlib.Core.Path.{subst}
use mathlib.Core.List.{append-nil}
pub use candy_runtime.Prelude.Parsers.Exact.{
  AreBytes, Split, Exact, bytes_behind, inverted, IsFixed, Exact-bind, Exact-pure, Exact-lift,
  Exact-weaken, Exact-IsFixed, Exact-value, Exact-check, Exact-if, Exact-tag, Exact-many,
}
use candy_runtime.Proto.Error.{NetdProtocolError, invalid_declaration}
use candy_runtime.Proto.Prefix.{Ipv4Prefix, new_prefix}
use candy_runtime.Proto.Codec.Varint.{encode_varint, decode_varint}
use candy_runtime.Proto.Codec.Varint.Canonical.{decode_varint-canonical}
use candy_runtime.Proto.Codec.Writer.{encode_boolean, encode_prefix, flag}
use candy_runtime.Proto.Codec.Reader.{
  or_malformed, read_varint, narrow, read_narrow, in_range, read_count, to_boolean, read_boolean,
  read_prefix,
}
use candy_runtime.Proto.Codec.Reader.Reads.{IsPrefix}

abbrev IsVarint : ℕ → List ℕ → Type 0
IsVarint v used = (used ≡ encode_varint v) × (v < 2 ^ 64)

pub Exact-IsVarint : Exact read_varint IsVarint
unfolding read_varint
Exact-IsVarint = record {
  run = λ input v rest bytes e. by_answer input v rest bytes (decode_varint input) refl e;
}
  where
    by_answer :
        (input : List ℕ) (v : ℕ) (rest : List ℕ)
        → AreBytes input
        → (o : Option (ℕ × List ℕ)) → decode_varint input ≡ o
        → or_malformed o ≡ ok (v, rest)
        → Split IsVarint input v rest
    by_answer input v rest bytes none e h = cc
    by_answer input v rest bytes (some (w, more)) e h =
        let read : decode_varint input ≡ some (v, rest) = cc in
        let (split, fits) = decode_varint-canonical input v rest bytes read in
        (encode_varint v, split, bytes_behind _ rest (subst AreBytes split bytes), (refl, fits))

pub Exact-narrow :
    (bits : ℕ) (e : NetdProtocolError)
    → Exact (read_narrow bits e) (λ v used. (used ≡ encode_varint v) × (v < 2 ^ bits))
unfolding read_narrow
Exact-narrow bits e =
    Exact-bind Exact-IsVarint
      λ v used h. Exact-lift (narrow bits e v) λ w same_value. rw append-nil (ground arith)

pub Exact-count :
    (least most : ℕ)
    → Exact (read_count least most) (λ v used. (used ≡ encode_varint v) × (least ≤ v) × (v ≤ most))
unfolding read_count
Exact-count least most =
    Exact-bind Exact-IsVarint
      λ v used h. Exact-lift (in_range least most v) λ w same_value. rw append-nil (ground arith)

flag_read :
    (v : ℕ) (used : List ℕ) (b : Bool)
    → IsVarint v used
    → to_boolean v ≡ ok b
    → used ≡ encode_varint (flag b)
flag_read v used true h e = let one : v ≡ 1 = ground arith in rw (← one) h.0
flag_read v used false h e = let none_set : v ≡ 0 = ground arith in rw (← none_set) h.0

pub Exact-boolean : Exact read_boolean (λ b used. used ≡ encode_boolean b)
unfolding read_boolean encode_boolean
Exact-boolean = Exact-bind Exact-IsVarint λ v used h.
    Exact-lift (to_boolean v) λ b same_value. rw append-nil (flag_read v used b h same_value)

prefix_fields :
    (p : Ipv4Prefix) (network : List ℕ) (prefix_len : ℕ)
    → new_prefix network prefix_len ≡ ok p
    → (p.network ≡ network) × (p.prefix_len ≡ prefix_len)
unfolding new_prefix
prefix_fields p network prefix_len made = ground arith

prefix_made :
    (p : Ipv4Prefix) (network : List ℕ) (prefix_len : ℕ) (used used' : List ℕ)
    → IsFixed 4 network used
    → used' ≡ encode_varint prefix_len
    → new_prefix network prefix_len ≡ ok p
    → (used ++ used' ≡ p.network ++ encode_varint p.prefix_len) × IsPrefix p
prefix_made p network prefix_len used used' h e made =
    let (n, l) = prefix_fields p network prefix_len made in
    (
      cc,
      record {
        octets = ap length n ∙ h.1;
        made = ap (λ t. new_prefix t p.prefix_len) n ∙ ap (new_prefix network) l ∙ made;
      },
    )

pub Exact-prefix : Exact read_prefix (λ p used. (used ≡ encode_prefix p) × IsPrefix p)
unfolding read_prefix encode_prefix
Exact-prefix = Exact-bind (Exact-IsFixed _ 4) λ network used h.
    Exact-bind (Exact-narrow 8 invalid_declaration) λ prefix_len used' h'.
      Exact-lift (new_prefix network prefix_len)
        λ p made. rw append-nil (prefix_made p network prefix_len used used' h h'.0 made)
