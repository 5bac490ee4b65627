-- ===== src/Structs/Trades.antt =====
-- src/common/common_struct.h, the orders and the queries for them. `D` is the type of `double`.
use babeltrader.Common.{ℕ, Bytes}
use babeltrader.Common.Int.{ℤ}

pub record Order (D : Type 0) : Type 0 where
  pub user_id : Bytes
  pub order_id : Bytes
  pub outside_user_id : Bytes
  pub outside_id : Bytes
  pub client_order_id : Bytes
  pub market : Bytes
  pub exchange : Bytes
  pub type : Bytes
  pub symbol : Bytes
  pub contract : Bytes
  pub contract_id : Bytes
  pub order_type : Bytes
  pub order_flag1 : Bytes
  pub dir : Bytes
  pub price : D
  pub amount : D
  pub total_price : D
  pub ts : ℤ

pub record OrderStatusNotify (D : Type 0) : Type 0 where
  pub order_status : ℕ
  pub order_submit_status : ℕ
  pub amount : D
  pub dealed_amount : D

pub record OrderDealNotify (D : Type 0) : Type 0 where
  pub price : D
  pub amount : D
  pub trading_day : Bytes
  pub trade_id : Bytes
  pub ts : ℤ

pub record OrderQuery : Type 0 where
  pub qry_id : Bytes
  pub user_id : Bytes
  pub outside_id : Bytes
  pub market : Bytes
  pub exchange : Bytes
  pub type : Bytes
  pub symbol : Bytes
  pub contract : Bytes
  pub contract_id : Bytes

pub record TradeQuery : Type 0 where
  pub qry_id : Bytes
  pub user_id : Bytes
  pub trade_id : Bytes
  pub market : Bytes
  pub exchange : Bytes
  pub type : Bytes
  pub symbol : Bytes
  pub contract : Bytes
  pub contract_id : Bytes

pub record PositionQuery : Type 0 where
  pub qry_id : Bytes
  pub user_id : Bytes
  pub market : Bytes
  pub exchange : Bytes
  pub type : Bytes
  pub symbol : Bytes
  pub contract : Bytes
  pub contract_id : Bytes

pub record TradeAccountQuery : Type 0 where
  pub qry_id : Bytes
  pub user_id : Bytes
  pub market : Bytes
  pub currency_id : Bytes

pub record ProductQuery : Type 0 where
  pub qry_id : Bytes
  pub market : Bytes
  pub exchange : Bytes
  pub symbol : Bytes
  pub contract : Bytes

pub record TradingDayQuery : Type 0 where
  pub qry_id : Bytes
  pub market : Bytes

pub record OrderMapInfo (D : Type 0) : Type 0 where
  pub completed_ts : ℤ
  pub order : Order D
