-- ===== src/Proxy.antt =====
-- internal/proxy: the session table and the forwarding loops.
pub mod Sessions
pub mod Server
pub mod Client
