-- ===== src/Proto/Codec/Writer.antt =====
-- What the encoders of linux/common/crates/candy-netd-proto/src/lib.rs append to `out`.
use candy_runtime.Prelude.{ℕ, Bool, true, false, List, ◌++◌}
unfoldable pub use candy_runtime.Prelude.Writers.{encode_each}
use candy_runtime.Proto.Prefix.{Ipv4Prefix}
use candy_runtime.Proto.Codec.Varint.{encode_varint}

abbrev pub flag : Bool → ℕ
flag true = 1
flag false = 0

unfoldable pub encode_boolean : Bool → List ℕ
encode_boolean b = encode_varint (flag b)

unfoldable pub encode_prefix : Ipv4Prefix → List ℕ
encode_prefix prefix = prefix.network ++ encode_varint prefix.prefix_len
