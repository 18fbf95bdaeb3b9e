-- ===== src/Config.antt =====
-- internal/config/config.go.
pub mod Settings
pub mod Defaults
pub mod Convert
pub mod Check
pub mod Store
