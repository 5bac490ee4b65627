-- ===== src/CtpTrade/Fields/Positions.antt =====
-- The members that src/ctp-trade/ctp_trade_handler.cpp uses of the interface's structs for
-- the positions that `CTPTradeHandler` hears of. A text in an array of characters is given without its NUL, a
-- single character by its code.
use babeltrader.Common.{ℕ, Bytes}
use babeltrader.Common.Int.{ℤ}

pub record InvestorPositionField (D : Type 0) : Type 0 where
  pub instrument_id : Bytes
  pub broker_id : Bytes
  pub investor_id : Bytes
  pub posi_direction : ℕ
  pub hedge_flag : ℕ
  pub position_date : ℕ
  pub yd_position : ℤ
  pub position : ℤ
  pub long_frozen : ℤ
  pub short_frozen : ℤ
  pub long_frozen_amount : D
  pub short_frozen_amount : D
  pub open_volume : ℤ
  pub close_volume : ℤ
  pub open_amount : D
  pub close_amount : D
  pub position_cost : D
  pub pre_margin : D
  pub use_margin : D
  pub frozen_margin : D
  pub frozen_cash : D
  pub frozen_commission : D
  pub cash_in : D
  pub commission : D
  pub close_profit : D
  pub position_profit : D
  pub pre_settlement_price : D
  pub settlement_price : D
  pub trading_day : Bytes
  pub settlement_id : ℤ
  pub open_cost : D
  pub exchange_margin : D
  pub comb_position : ℤ
  pub comb_long_frozen : ℤ
  pub comb_short_frozen : ℤ
  pub close_profit_by_date : D
  pub close_profit_by_trade : D
  pub today_position : ℤ
  pub margin_rate_by_money : D
  pub margin_rate_by_volume : D
  pub strike_frozen : ℤ
  pub strike_frozen_amount : D
  pub abandon_frozen : ℤ
  pub exchange_id : Bytes
  pub yd_strike_frozen : ℤ
  pub invest_unit_id : Bytes

pub record InvestorPositionDetailField (D : Type 0) : Type 0 where
  pub instrument_id : Bytes
  pub broker_id : Bytes
  pub investor_id : Bytes
  pub hedge_flag : ℕ
  pub direction : ℕ
  pub open_date : Bytes
  pub trade_id : Bytes
  pub volume : ℤ
  pub open_price : D
  pub trading_day : Bytes
  pub settlement_id : ℤ
  pub trade_type : ℕ
  pub comb_instrument_id : Bytes
  pub exchange_id : Bytes
  pub close_profit_by_date : D
  pub close_profit_by_trade : D
  pub position_profit_by_date : D
  pub position_profit_by_trade : D
  pub margin : D
  pub exch_margin : D
  pub margin_rate_by_money : D
  pub margin_rate_by_volume : D
  pub last_settlement_price : D
  pub settlement_price : D
  pub close_volume : ℤ
  pub close_amount : D
  pub invest_unit_id : Bytes
