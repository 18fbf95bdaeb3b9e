-- ===== src/Router/Binapi.antt =====
-- internal/router/binapi: the binary protocol of the RouterOS API.
pub mod Codec
pub mod Conn
pub mod Dialer
