-- ===== src/Proto/Codec/Reader.antt =====
-- `Reader` of linux/common/crates/candy-netd-proto/src/lib.rs. Its input and offset are the bytes
-- that are left; a reader that fails is not used again. A usize has 64 bits.
pub mod Reads
pub mod Exact
use candy_runtime.Prelude.{
  ℕ, zero, suc, ◌^◌, Bool, true, false, not, ◌||◌, List, [], ◌∷◌, Option, none, some, Result, ok,
  err, ltb, leb, ◌==◌, if◌then◌else◌, is_empty,
}
unfoldable pub use candy_runtime.Prelude.Parsers.{
  Parser, and_then, pure, lift, ◌>>=◌, ◌>>◌, take_bytes, read_many, result_of,
}
use candy_runtime.Proto.Error.{NetdProtocolError, malformed, invalid_declaration, trailing_bytes}
use candy_runtime.Proto.Prefix.{Ipv4Prefix, new_prefix}
use candy_runtime.Proto.Codec.Varint.{decode_varint}

abbrev pub Reader : Type 0 → Type 0
Reader A = Parser NetdProtocolError A

abbrev pub or_malformed : {A : Type 0} → Option A → Result NetdProtocolError A
or_malformed none = err malformed
or_malformed (some a) = ok a

-- `reader.varint()`
unfoldable pub read_varint : Reader ℕ
read_varint input = or_malformed (decode_varint input)

-- `reader.fixed::<N>()`
abbrev pub read_fixed : ℕ → Reader (List ℕ)
read_fixed n = take_bytes malformed n

-- `u8::try_from`, `u16::try_from` and `u32::try_from`, by the number of bits
abbrev pub narrow : ℕ → NetdProtocolError → ℕ → Result NetdProtocolError ℕ
narrow bits e value = if ltb value (2 ^ bits) then ok value else err e

unfoldable pub read_narrow : ℕ → NetdProtocolError → Reader ℕ
read_narrow bits e = do value ← read_varint; lift (narrow bits e value)

abbrev pub in_range : ℕ → ℕ → ℕ → Result NetdProtocolError ℕ
in_range least most value =
    if leb least value
    then (if leb value most then ok value else err invalid_declaration)
    else err invalid_declaration

-- `reader.count(min, max)`
unfoldable pub read_count : ℕ → ℕ → Reader ℕ
read_count least most = do value ← read_varint; lift (in_range least most value)

abbrev pub to_boolean : ℕ → Result NetdProtocolError Bool
to_boolean value = if value == 0 then ok false else if value == 1 then ok true else err malformed

unfoldable pub read_boolean : Reader Bool
read_boolean = do value ← read_varint; lift (to_boolean value)

unfoldable pub read_prefix : Reader Ipv4Prefix
read_prefix = do
  network ← read_fixed 4
  prefix_len ← read_narrow 8 invalid_declaration
  lift (new_prefix network prefix_len)

-- `reader.finish()`
unfoldable pub finish : Reader (Unit {0})
finish [] = ok (tt, [])
finish (byte ∷ rest) = err trailing_bytes
