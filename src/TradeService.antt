-- ===== src/TradeService.antt =====
-- src/common/trade_service.h and trade_service.cpp.
pub mod Messages
pub mod Texts
pub mod Handlers
mod Tests
