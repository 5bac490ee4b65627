-- ===== src/CtpTrade/Fields.antt =====
-- The structs of the trading interface (thirdparty/ctp), as far as `CTPTradeHandler` uses them.
pub mod Requests
pub mod Orders
pub mod Positions
pub mod Accounts
pub mod Session
