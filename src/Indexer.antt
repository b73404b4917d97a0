-- ===== src/Indexer.antt =====
-- services/pearl-indexer: the blocks of the Pearl chain, and the watched addresses.
pub mod Blocks
pub mod Sink
pub mod Linked
pub mod Polls
mod Tests
