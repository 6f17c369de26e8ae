-- ===== src/Attest.antt =====
-- Signed receipts and attestations, and the bundles that export them (src/repair/signature.ts,
-- src/control-plane/attestation.ts, src/control-plane/bundle.ts).
pub mod Json
pub mod Signature
pub mod Keys
pub mod Merkle
pub mod Payload
pub mod Bundle
