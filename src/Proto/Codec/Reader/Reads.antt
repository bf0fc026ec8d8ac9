-- ===== src/Proto/Codec/Reader/Reads.antt =====
-- Reading back what was written, whatever follows it.
use candy_runtime.Prelude.{
  List, [], ◌∷◌, All, ℕ, ◌^◌, ◌<◌, ◌≤◌, ◌≡◌, refl, Bool, true, false, ok, arith, length,
}
pub use candy_runtime.Prelude.Parsers.Reads.{
  Reads, Reads-bind, Reads-step, Reads-last, Reads-pure, Reads-lift, Reads-check, Reads-fixed,
  Reads-many,
}
use candy_runtime.Proto.Error.{NetdProtocolError, invalid_declaration}
use candy_runtime.Proto.Prefix.{Ipv4Prefix, new_prefix}
use candy_runtime.Proto.Codec.Varint.{encode_varint}
use candy_runtime.Proto.Codec.Varint.RoundTrip.{decode_varint-encode_varint}
use candy_runtime.Proto.Codec.Writer.{encode_boolean, encode_prefix}
use candy_runtime.Proto.Codec.Reader.{
  read_varint, read_narrow, read_count, read_boolean, read_prefix,
}

pub Reads-varint : (v : ℕ) → v < 2 ^ 64 → Reads read_varint (encode_varint v) v
unfolding read_varint
Reads-varint v h = record { run = λ rest. rw (decode_varint-encode_varint v rest h) }

pub Reads-narrow :
    (bits : ℕ) (e : NetdProtocolError) (v : ℕ)
    → v < 2 ^ bits
    → v < 2 ^ 64
    → Reads (read_narrow bits e) (encode_varint v) v
unfolding read_narrow
Reads-narrow bits e v h g = Reads-last _ (Reads-varint v g) (Reads-lift v (ground arith))

pub Reads-count :
    (least most v : ℕ)
    → least ≤ v
    → v ≤ most
    → v < 2 ^ 64
    → Reads (read_count least most) (encode_varint v) v
unfolding read_count
Reads-count least most v h k g = Reads-last _ (Reads-varint v g) (Reads-lift v (ground arith))

pub Reads-boolean : (b : Bool) → Reads read_boolean (encode_boolean b) b
unfolding read_boolean encode_boolean
Reads-boolean true = Reads-last _ (Reads-varint 1 (omega arith)) (Reads-lift true refl)
Reads-boolean false = Reads-last _ (Reads-varint 0 (omega arith)) (Reads-lift false refl)

-- What the types of the source say of a prefix, whose fields are public: the network has four octets.
abbrev pub HasOctets : Ipv4Prefix → Type 0
HasOctets p = length p.network ≡ 4

-- What `Ipv4Prefix::new` checks: at most 32 bits, and no host bits set.
abbrev pub IsCanonical : Ipv4Prefix → Type 0
IsCanonical p = new_prefix p.network p.prefix_len ≡ ok p

-- A prefix that `Ipv4Prefix::new` could have made.
pub record IsPrefix (p : Ipv4Prefix) : Type 0 where
  pub octets : HasOctets p
  pub made : IsCanonical p

pub made_prefixes {ℓ} :
    {A : Type ℓ} (prefix : A → Ipv4Prefix) (xs : List A)
    → All (λ x. HasOctets (prefix x)) xs
    → All (λ x. IsCanonical (prefix x)) xs
    → All (λ x. IsPrefix (prefix x)) xs
made_prefixes prefix [] h k = tt
made_prefixes prefix (x ∷ xs) (h, hs) (k, ks) =
    (record { octets = h; made = k }, made_prefixes prefix xs hs ks)

prefix_bound : (p : Ipv4Prefix) → IsPrefix p → p.prefix_len < 33
unfolding new_prefix
prefix_bound p h = ground (arith, h.made)

pub Reads-prefix : (p : Ipv4Prefix) → IsPrefix p → Reads read_prefix (encode_prefix p) p
unfolding read_prefix encode_prefix
Reads-prefix p h =
    let small : p.prefix_len < 33 = prefix_bound p h in
    Reads-bind _ (Reads-fixed _ p.network h.octets) (
      Reads-last _ (Reads-narrow 8 invalid_declaration p.prefix_len (omega arith) (omega arith))
        (Reads-lift p h.made))
