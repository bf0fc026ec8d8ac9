-- ===== src/Proto/Error.antt =====
-- `NetdProtocolError` of linux/common/crates/candy-netd-proto/src/lib.rs.
pub data NetdProtocolError : Type 0 where
  frame_size unsupported_version unknown_enum malformed trailing_bytes : NetdProtocolError
  invalid_request invalid_owner invalid_declaration : NetdProtocolError
