-- ===== src/Awg.antt =====
-- internal/awg: AmneziaWG obfuscation of WireGuard packets.
pub mod Crypto
pub mod Transform
pub mod Junk
pub mod Identify
