-- ===== src/Usdc.antt =====
-- packages/usdc-escrow-client: the events of the Base USDC escrow contract.
pub mod Types
pub mod Events
pub mod Repository
pub mod Latest
pub mod Inserted
pub mod Ingest
mod Tests
