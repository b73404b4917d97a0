-- ===== src/Watch.antt =====
-- services/pearl-indexer: watched addresses, and the scanner that looks for their deposits and
-- spends in each block.
pub mod Types
pub mod Repository
pub mod Funding
pub mod SpendKinds
pub mod Scanner
pub mod Tidy
pub mod Wells
pub mod Counted
pub mod Confirmed
pub mod Detached
pub mod Verdicts
pub mod Terms
pub mod Replay
pub mod Tests
