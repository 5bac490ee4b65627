-- ===== src/CtpTrade/Fields/Orders.antt =====
-- The members that src/ctp-trade/ctp_trade_handler.cpp uses of the interface's structs for
-- the orders and the trades that `CTPTradeHandler` hears of. A text in an array of characters is given without its NUL, a
-- single character by its code.
use babeltrader.Common.{ℕ, Bytes}
use babeltrader.Common.Int.{ℤ}

pub record OrderField (D : Type 0) : Type 0 where
  pub broker_id : Bytes
  pub investor_id : Bytes
  pub instrument_id : Bytes
  pub order_ref : Bytes
  pub user_id : Bytes
  pub order_price_type : ℕ
  pub direction : ℕ
  pub comb_offset_flag : Bytes
  pub comb_hedge_flag : Bytes
  pub limit_price : D
  pub volume_total_original : ℤ
  pub time_condition : ℕ
  pub gtd_date : Bytes
  pub volume_condition : ℕ
  pub min_volume : ℤ
  pub contingent_condition : ℕ
  pub stop_price : D
  pub force_close_reason : ℕ
  pub is_auto_suspend : ℤ
  pub business_unit : Bytes
  pub request_id : ℤ
  pub order_local_id : Bytes
  pub exchange_id : Bytes
  pub participant_id : Bytes
  pub client_id : Bytes
  pub exchange_inst_id : Bytes
  pub trader_id : Bytes
  pub order_submit_status : ℕ
  pub notify_sequence : ℤ
  pub trading_day : Bytes
  pub settlement_id : ℤ
  pub order_sys_id : Bytes
  pub order_source : ℕ
  pub order_status : ℕ
  pub order_type : ℕ
  pub volume_traded : ℤ
  pub volume_total : ℤ
  pub insert_date : Bytes
  pub insert_time : Bytes
  pub active_time : Bytes
  pub suspend_time : Bytes
  pub update_time : Bytes
  pub cancel_time : Bytes
  pub active_trader_id : Bytes
  pub clearing_part_id : Bytes
  pub sequence_no : ℤ
  pub front_id : ℤ
  pub session_id : ℤ
  pub user_product_info : Bytes
  pub status_msg : Bytes
  pub user_force_close : ℤ
  pub active_user_id : Bytes
  pub broker_order_seq : ℤ
  pub relative_order_sys_id : Bytes
  pub zce_total_traded_volume : ℤ
  pub is_swap_order : ℤ
  pub branch_id : Bytes
  pub invest_unit_id : Bytes
  pub account_id : Bytes
  pub currency_id : Bytes
  pub ip_address : Bytes
  pub mac_address : Bytes

pub record TradeField (D : Type 0) : Type 0 where
  pub broker_id : Bytes
  pub investor_id : Bytes
  pub instrument_id : Bytes
  pub order_ref : Bytes
  pub user_id : Bytes
  pub exchange_id : Bytes
  pub trade_id : Bytes
  pub direction : ℕ
  pub order_sys_id : Bytes
  pub participant_id : Bytes
  pub client_id : Bytes
  pub trading_role : ℕ
  pub exchange_inst_id : Bytes
  pub offset_flag : ℕ
  pub hedge_flag : ℕ
  pub price : D
  pub volume : ℤ
  pub trade_date : Bytes
  pub trade_time : Bytes
  pub trade_type : ℕ
  pub price_source : ℕ
  pub trader_id : Bytes
  pub order_local_id : Bytes
  pub clearing_part_id : Bytes
  pub business_unit : Bytes
  pub sequence_no : ℤ
  pub trading_day : Bytes
  pub settlement_id : ℤ
  pub broker_order_seq : ℤ
  pub trade_source : ℕ
  pub invest_unit_id : Bytes
