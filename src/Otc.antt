-- ===== src/Otc.antt =====
-- services/otc-api: the order book with its prefunded orders, the quotes and the trades.
pub mod Types
pub mod Orders
pub mod Sweeps
pub mod Units
pub mod Calls
pub mod Accounts
pub mod Fills
pub mod Quotes
pub mod Trades
pub mod Reached
pub mod Fillable
pub mod Tests
