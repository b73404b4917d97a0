-- ===== src/Settlement.antt =====
-- services/settlement-worker: from what is observed on the two chains to what is done next.
pub mod Types
pub mod Decision
pub mod Loop
pub mod Release
pub mod Refund
pub mod Once
pub mod BaseState
pub mod BaseTerms
mod Tests
