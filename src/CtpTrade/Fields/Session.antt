-- ===== src/CtpTrade/Fields/Session.antt =====
-- The members that src/ctp-trade/ctp_trade_handler.cpp uses of the interface's structs for
-- a session of `CTPTradeHandler`. A text in an array of characters is given without its NUL, a
-- single character by its code.
use babeltrader.Common.{Bytes}
use babeltrader.Common.Int.{ℤ}

pub record RspInfoField : Type 0 where
  pub error_id : ℤ
  pub error_msg : Bytes

pub record ReqAuthenticateField : Type 0 where
  pub broker_id : Bytes
  pub user_id : Bytes
  pub auth_code : Bytes
  pub app_id : Bytes

pub record RspAuthenticateField : Type 0 where
  pub broker_id : Bytes
  pub user_id : Bytes
  pub user_product_info : Bytes
  pub app_id : Bytes

pub record ReqUserLoginField : Type 0 where
  pub broker_id : Bytes
  pub user_id : Bytes
  pub password : Bytes

pub record RspUserLoginField : Type 0 where
  pub trading_day : Bytes
  pub login_time : Bytes
  pub broker_id : Bytes
  pub user_id : Bytes
  pub system_name : Bytes
  pub front_id : ℤ
  pub session_id : ℤ
  pub max_order_ref : Bytes
  pub shfe_time : Bytes
  pub dce_time : Bytes
  pub czce_time : Bytes
  pub ffex_time : Bytes
  pub ine_time : Bytes

pub record UserPasswordUpdateField : Type 0 where
  pub broker_id : Bytes
  pub user_id : Bytes
  pub old_password : Bytes
  pub new_password : Bytes

pub record SettlementInfoConfirmField : Type 0 where
  pub broker_id : Bytes
  pub investor_id : Bytes
  pub confirm_date : Bytes
  pub confirm_time : Bytes
  pub settlement_id : ℤ
  pub account_id : Bytes
  pub currency_id : Bytes
