-- ===== src/Bridge.antt =====
-- services/bridge-service: deposits and exits of the Pearl bridge, as the relayer sees them.
pub mod Types
pub mod Exits
pub mod Exclusive
pub mod Keeps
pub mod Quorum
pub mod Blockers
pub mod Policy
pub mod Minting
pub mod Releasing
pub mod Approved
pub mod Spends
pub mod Matched
mod Tests
