-- ===== src/Structs.antt =====
-- The structs of src/common/common_struct.h, a module for each group.
mod Quotes
mod Trades
mod Accounts
pub use Quotes.*
pub use Trades.*
pub use Accounts.*
