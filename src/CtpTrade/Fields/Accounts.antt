-- ===== src/CtpTrade/Fields/Accounts.antt =====
-- The members that src/ctp-trade/ctp_trade_handler.cpp uses of the interface's structs for
-- the accounts, products and instruments that `CTPTradeHandler` hears of. A text in an array of characters is given without its NUL, a
-- single character by its code.
use babeltrader.Common.{ℕ, Bytes}
use babeltrader.Common.Int.{ℤ}

pub record TradingAccountField (D : Type 0) : Type 0 where
  pub broker_id : Bytes
  pub account_id : Bytes
  pub pre_mortgage : D
  pub pre_credit : D
  pub pre_deposit : D
  pub pre_balance : D
  pub pre_margin : D
  pub interest_base : D
  pub interest : D
  pub deposit : D
  pub withdraw : D
  pub frozen_margin : D
  pub frozen_cash : D
  pub frozen_commission : D
  pub curr_margin : D
  pub cash_in : D
  pub commission : D
  pub close_profit : D
  pub position_profit : D
  pub balance : D
  pub available : D
  pub withdraw_quota : D
  pub reserve : D
  pub trading_day : Bytes
  pub settlement_id : ℤ
  pub credit : D
  pub mortgage : D
  pub exchange_margin : D
  pub delivery_margin : D
  pub exchange_delivery_margin : D
  pub reserve_balance : D
  pub currency_id : Bytes
  pub pre_fund_mortgage_in : D
  pub pre_fund_mortgage_out : D
  pub fund_mortgage_in : D
  pub fund_mortgage_out : D
  pub fund_mortgage_available : D
  pub mortgageable_fund : D
  pub spec_product_margin : D
  pub spec_product_frozen_margin : D
  pub spec_product_commission : D
  pub spec_product_frozen_commission : D
  pub spec_product_position_profit : D
  pub spec_product_close_profit : D
  pub spec_product_position_profit_by_alg : D
  pub spec_product_exchange_margin : D
  pub biz_type : ℕ
  pub frozen_swap : D
  pub remain_swap : D

pub record ProductField (D : Type 0) : Type 0 where
  pub product_id : Bytes
  pub product_name : Bytes
  pub exchange_id : Bytes
  pub product_class : ℕ
  pub volume_multiple : ℤ
  pub price_tick : D
  pub max_market_order_volume : ℤ
  pub min_market_order_volume : ℤ
  pub max_limit_order_volume : ℤ
  pub min_limit_order_volume : ℤ
  pub position_type : ℕ
  pub position_date_type : ℕ
  pub close_deal_type : ℕ
  pub trade_currency_id : Bytes
  pub mortgage_fund_use_range : ℕ
  pub exchange_product_id : Bytes
  pub underlying_multiple : D

pub record InstrumentField (D : Type 0) : Type 0 where
  pub instrument_id : Bytes
  pub exchange_id : Bytes
  pub instrument_name : Bytes
  pub exchange_inst_id : Bytes
  pub product_id : Bytes
  pub product_class : ℕ
  pub delivery_year : ℤ
  pub delivery_month : ℤ
  pub max_market_order_volume : ℤ
  pub min_market_order_volume : ℤ
  pub max_limit_order_volume : ℤ
  pub min_limit_order_volume : ℤ
  pub volume_multiple : ℤ
  pub price_tick : D
  pub create_date : Bytes
  pub open_date : Bytes
  pub expire_date : Bytes
  pub start_deliv_date : Bytes
  pub end_deliv_date : Bytes
  pub inst_life_phase : ℕ
  pub is_trading : ℤ
  pub position_type : ℕ
  pub position_date_type : ℕ
  pub long_margin_ratio : D
  pub short_margin_ratio : D
  pub max_margin_side_algorithm : ℕ
  pub underlying_instr_id : Bytes
  pub strike_price : D
  pub options_type : ℕ
  pub underlying_multiple : D
  pub combination_type : ℕ
