-- ===== src/Escrow.antt =====
-- packages/pearl-escrow: matching the funding of an escrow, building the transaction that spends
-- it, and asking the signer for it.
pub mod Types
pub mod Texts
pub mod Funding
pub mod UnsignedTx
pub mod SignerRequest
pub mod Paying
pub mod Asking
pub mod Matching
pub mod Tests
