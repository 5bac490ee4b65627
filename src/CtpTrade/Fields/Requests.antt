-- ===== src/CtpTrade/Fields/Requests.antt =====
-- The members that src/ctp-trade/ctp_trade_handler.cpp uses of the interface's structs for
-- the requests of `CTPTradeHandler`. A text in an array of characters is given without its NUL, a
-- single character by its code.
use babeltrader.Common.{ℕ, Bytes}
use babeltrader.Common.Int.{ℤ}

pub record InputOrderField (D : Type 0) : Type 0 where
  pub broker_id : Bytes
  pub investor_id : Bytes
  pub instrument_id : Bytes
  pub order_ref : Bytes
  pub user_id : Bytes
  pub order_price_type : ℕ
  pub direction : ℕ
  pub comb_offset_flag : Bytes
  pub comb_hedge_flag : Bytes
  pub limit_price : D
  pub volume_total_original : ℤ
  pub time_condition : ℕ
  pub gtd_date : Bytes
  pub volume_condition : ℕ
  pub min_volume : ℤ
  pub contingent_condition : ℕ
  pub stop_price : D
  pub force_close_reason : ℕ
  pub is_auto_suspend : ℤ
  pub business_unit : Bytes
  pub request_id : ℤ
  pub user_force_close : ℤ
  pub is_swap_order : ℤ
  pub exchange_id : Bytes
  pub invest_unit_id : Bytes
  pub account_id : Bytes
  pub currency_id : Bytes
  pub client_id : Bytes
  pub ip_address : Bytes
  pub mac_address : Bytes

pub record InputOrderActionField (D : Type 0) : Type 0 where
  pub broker_id : Bytes
  pub investor_id : Bytes
  pub order_action_ref : ℤ
  pub order_ref : Bytes
  pub request_id : ℤ
  pub front_id : ℤ
  pub session_id : ℤ
  pub exchange_id : Bytes
  pub order_sys_id : Bytes
  pub action_flag : ℕ
  pub limit_price : D
  pub volume_change : ℤ
  pub user_id : Bytes
  pub instrument_id : Bytes
  pub invest_unit_id : Bytes
  pub ip_address : Bytes
  pub mac_address : Bytes

pub record QryOrderField : Type 0 where
  pub broker_id : Bytes
  pub investor_id : Bytes
  pub instrument_id : Bytes
  pub exchange_id : Bytes
  pub order_sys_id : Bytes
  pub insert_time_start : Bytes
  pub insert_time_end : Bytes
  pub invest_unit_id : Bytes

pub record QryTradeField : Type 0 where
  pub broker_id : Bytes
  pub investor_id : Bytes
  pub instrument_id : Bytes
  pub exchange_id : Bytes
  pub trade_id : Bytes
  pub trade_time_start : Bytes
  pub trade_time_end : Bytes
  pub invest_unit_id : Bytes

pub record QryInvestorPositionField : Type 0 where
  pub broker_id : Bytes
  pub investor_id : Bytes
  pub instrument_id : Bytes
  pub exchange_id : Bytes
  pub invest_unit_id : Bytes

pub record QryInvestorPositionDetailField : Type 0 where
  pub broker_id : Bytes
  pub investor_id : Bytes
  pub instrument_id : Bytes
  pub exchange_id : Bytes
  pub invest_unit_id : Bytes

pub record QryTradingAccountField : Type 0 where
  pub broker_id : Bytes
  pub investor_id : Bytes
  pub currency_id : Bytes
  pub biz_type : ℕ
  pub account_id : Bytes

pub record QryProductField : Type 0 where
  pub product_id : Bytes
  pub product_class : ℕ
  pub exchange_id : Bytes

pub record QryInstrumentField : Type 0 where
  pub instrument_id : Bytes
  pub exchange_id : Bytes
  pub exchange_inst_id : Bytes
  pub product_id : Bytes
