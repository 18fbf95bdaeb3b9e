-- ===== src/Tests.antt =====
-- Concrete runs of the model and the theorems at concrete inputs.
mod Awg
mod Identify
mod Sessions
mod Nat
mod Auth
mod Proxy
mod Config
mod Router
mod Tables
mod Poller
mod Peers
mod Service
mod Web
