-- ===== src/Proto/Codec/Frame.antt =====
-- `ensure_frame` of linux/common/crates/candy-netd-proto/src/lib.rs.
use candy_runtime.Prelude.{ℕ, ◌*◌, ◌||◌, List, Result, ltb, length, is_empty, refuse_if}
use candy_runtime.Proto.Error.{NetdProtocolError, frame_size}

-- `MAX_NETD_FRAME_LEN` and `NETD_PROTOCOL_VERSION`
abbrev pub max_netd_frame_len : ℕ
max_netd_frame_len = 2 * 1024 * 1024

abbrev pub netd_protocol_version : ℕ
netd_protocol_version = 1

unfoldable pub ensure_frame : List ℕ → Result NetdProtocolError (Unit {0})
ensure_frame input = refuse_if (is_empty input || ltb max_netd_frame_len (length input)) frame_size
