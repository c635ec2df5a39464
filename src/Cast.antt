-- ===== src/Cast.antt =====
-- src/cast: the CastV2 protocol engine.
pub mod Framing
pub mod Reader
pub mod Proto
pub mod RequestId
pub mod Namespaces
pub mod Connection
pub mod Mdns
pub mod Tofu
