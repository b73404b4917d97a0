-- ===== src/Sdk.antt =====
-- packages/pearl-sdk: the vocabulary that the services share.

pub mod Amounts
pub mod RoundTrip
pub mod Trade
pub mod States
pub mod Phases
mod Tests
