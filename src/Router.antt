-- ===== src/Router.antt =====
-- internal/router: the connection to RouterOS.
pub mod Binapi
pub mod Snapshot
pub mod Api
pub mod Table
pub mod Nat
pub mod Settings
pub mod Keys
pub mod Poller
pub mod Peers
pub mod Dialers
