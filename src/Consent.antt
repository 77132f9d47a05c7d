-- ===== src/Consent.antt =====
-- api/consent: the ledger of consents and the gate that asks it.
pub mod Ledger
pub mod Gate
pub mod Revocation
pub mod Covered
mod Tests
