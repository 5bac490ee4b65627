-- ===== src/Converter.antt =====
-- src/common/converter.h and converter.cpp.
pub mod Orders
pub mod Queries
pub mod Accounts
pub mod Quotes
pub mod Requests
pub mod OrderDir
pub mod RoundTrip
mod Tests
