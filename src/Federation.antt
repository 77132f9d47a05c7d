-- ===== src/Federation.antt =====
-- api/federation: the messages that nodes exchange, and the consent behind them.
pub mod Audit
pub mod Consent
pub mod Regulatory
pub mod Resilience
pub mod Local
pub mod Adapter
pub mod Capability
pub mod Identity
pub mod PeerStore
