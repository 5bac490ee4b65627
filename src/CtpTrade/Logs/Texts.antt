-- ===== src/CtpTrade/Logs/Texts.antt =====
-- What `CTPTradeHandler` logs by a writer is JSON (src/ctp-trade/ctp_trade_handler.cpp).
use babeltrader.Common.{Bool, List, Option, none, some, ◌≡◌, true, refl}
use babeltrader.Common.Int.{ℤ}
use babeltrader.Json.{Event}
use babeltrader.Json.Grammar.{IsJson}
use babeltrader.Json.Numbers.{written, all_finite, written-IsJson}
use babeltrader.CtpTrade.Fields.Requests.{
  InputOrderField, InputOrderActionField, QryOrderField, QryTradeField, QryInvestorPositionField,
  QryInvestorPositionDetailField, QryTradingAccountField, QryProductField, QryInstrumentField,
}
use babeltrader.CtpTrade.Fields.Orders.{OrderField, TradeField}
use babeltrader.CtpTrade.Fields.Positions.{InvestorPositionField, InvestorPositionDetailField}
use babeltrader.CtpTrade.Fields.Accounts.{TradingAccountField, ProductField, InstrumentField}
use babeltrader.CtpTrade.Fields.Session.{
  RspInfoField, RspAuthenticateField, RspUserLoginField, UserPasswordUpdateField,
  SettlementInfoConfirmField,
}
use babeltrader.CtpTrade.Logs.Requests.{
  serialize_ctp_input_order, serialize_ctp_action_order, serialize_ctp_query_order,
  serialize_ctp_query_trade, serialize_ctp_query_position, serialize_ctp_query_position_detail,
  serialize_ctp_query_trade_account, serialize_ctp_query_product, serialize_ctp_query_instrument,
}
use babeltrader.CtpTrade.Logs.Orders.{serialize_ctp_order, serialize_ctp_trade}
use babeltrader.CtpTrade.Logs.Positions.{serialize_ctp_position, serialize_ctp_position_detail}
use babeltrader.CtpTrade.Logs.Accounts.{
  serialize_ctp_trading_account, serialize_ctp_product, serialize_ctp_instrument,
}
use babeltrader.CtpTrade.Logs.Connection.{
  output_heartbeat_warning, output_front_connected, output_front_disconnected, output_rsperror,
  output_password_update, output_authenticate, output_rsp_user_login, output_rsp_user_logout,
  output_rsp_settlement_confirm,
}
use babeltrader.CtpTrade.Logs.Sent.{
  output_order_insert, output_order_action, output_order_query, output_trade_query,
  output_position_query, output_position_detail_query, output_trade_account_query,
  output_product_query, output_instrument_query,
}
use babeltrader.CtpTrade.Logs.Heard.{
  output_rsp_order_insert, output_err_rtn_order_insert, output_rtn_order, output_rtn_trade,
  output_rsp_order_action,
}
use babeltrader.CtpTrade.Logs.Rows.{
  output_rsp_order_query, output_rsp_trade_query, output_rsp_position_query,
  output_rsp_position_detail_query, output_rsp_trading_account_query, output_rsp_product_query,
  output_rsp_instrument_query,
}

-- Everything that the handler logs by a writer, with what it is made of. It also logs plain texts, each
-- a `note` of CtpTrade.Handler.
pub data Log (D : Type 0) : Type 0 where
  heartbeat_warning : ℤ → Log D
  order_insert : InputOrderField D → Log D
  order_action : InputOrderActionField D → Log D
  order_query : QryOrderField → Log D
  trade_query : QryTradeField → Log D
  position_query : QryInvestorPositionField → Log D
  position_detail_query : QryInvestorPositionDetailField → Log D
  trade_account_query : QryTradingAccountField → Log D
  product_query : QryProductField → Log D
  instrument_query : QryInstrumentField → Log D
  front_connected : Log D
  front_disconnected : ℤ → Log D
  rsperror : RspInfoField → ℤ → Log D
  password_update : UserPasswordUpdateField → RspInfoField → ℤ → Log D
  authenticate : RspAuthenticateField → RspInfoField → ℤ → Log D
  rsp_user_login : RspUserLoginField → RspInfoField → ℤ → Log D
  rsp_user_logout : RspInfoField → ℤ → Log D
  rsp_settlement_confirm : SettlementInfoConfirmField → RspInfoField → ℤ → Log D
  rsp_order_insert : InputOrderField D → RspInfoField → ℤ → Log D
  err_rtn_order_insert : InputOrderField D → RspInfoField → Log D
  rtn_order : OrderField D → Log D
  rtn_trade : TradeField D → Log D
  rsp_order_action : InputOrderActionField D → RspInfoField → ℤ → Log D
  rsp_order_query : Option (OrderField D) → Option RspInfoField → ℤ → Bool → Log D
  rsp_trade_query : Option (TradeField D) → Option RspInfoField → ℤ → Bool → Log D
  rsp_position_query : Option (InvestorPositionField D) → Option RspInfoField → ℤ → Bool → Log D
  rsp_position_detail_query :
      Option (InvestorPositionDetailField D) → Option RspInfoField → ℤ → Bool → Log D
  rsp_trading_account_query :
      Option (TradingAccountField D) → Option RspInfoField → ℤ → Bool → Log D
  rsp_product_query : Option (ProductField D) → Option RspInfoField → ℤ → Bool → Log D
  rsp_instrument_query :
      (D → ℤ) → Option (InstrumentField D) → Option RspInfoField → ℤ → Bool → Log D

module _ {D : Type 0} where
  unfoldable pub logged : Log D → List (Event D)
  unfolding output_heartbeat_warning output_order_insert output_order_action output_order_query
      output_trade_query output_position_query output_position_detail_query
      output_trade_account_query output_product_query output_instrument_query output_front_connected
      output_front_disconnected output_rsperror output_password_update output_authenticate
      output_rsp_user_login output_rsp_user_logout output_rsp_settlement_confirm
      output_rsp_order_insert output_err_rtn_order_insert output_rtn_order output_rtn_trade
      output_rsp_order_action output_rsp_order_query output_rsp_trade_query
      output_rsp_position_query output_rsp_position_detail_query output_rsp_trading_account_query
      output_rsp_product_query output_rsp_instrument_query
  logged (heartbeat_warning n_time_lapse) = output_heartbeat_warning n_time_lapse
  logged (order_insert req) = output_order_insert req
  logged (order_action req) = output_order_action req
  logged (order_query req) = output_order_query req
  logged (trade_query req) = output_trade_query req
  logged (position_query req) = output_position_query req
  logged (position_detail_query req) = output_position_detail_query req
  logged (trade_account_query req) = output_trade_account_query req
  logged (product_query req) = output_product_query req
  logged (instrument_query req) = output_instrument_query req
  logged front_connected = output_front_connected
  logged (front_disconnected reason) = output_front_disconnected reason
  logged (rsperror info n_request_id) = output_rsperror info n_request_id
  logged (password_update field info n_request_id) = output_password_update field info n_request_id
  logged (authenticate field info n_request_id) = output_authenticate field info n_request_id
  logged (rsp_user_login field info n_request_id) = output_rsp_user_login field info n_request_id
  logged (rsp_user_logout info n_request_id) = output_rsp_user_logout info n_request_id
  logged (rsp_settlement_confirm field info n_request_id) =
      output_rsp_settlement_confirm field info n_request_id
  logged (rsp_order_insert field info n_request_id) =
      output_rsp_order_insert field info n_request_id
  logged (err_rtn_order_insert field info) = output_err_rtn_order_insert field info
  logged (rtn_order field) = output_rtn_order field
  logged (rtn_trade field) = output_rtn_trade field
  logged (rsp_order_action field info n_request_id) =
      output_rsp_order_action field info n_request_id
  logged (rsp_order_query field info n_request_id is_last) =
      output_rsp_order_query field info n_request_id is_last
  logged (rsp_trade_query field info n_request_id is_last) =
      output_rsp_trade_query field info n_request_id is_last
  logged (rsp_position_query field info n_request_id is_last) =
      output_rsp_position_query field info n_request_id is_last
  logged (rsp_position_detail_query field info n_request_id is_last) =
      output_rsp_position_detail_query field info n_request_id is_last
  logged (rsp_trading_account_query field info n_request_id is_last) =
      output_rsp_trading_account_query field info n_request_id is_last
  logged (rsp_product_query field info n_request_id is_last) =
      output_rsp_product_query field info n_request_id is_last
  logged (rsp_instrument_query to_int field info n_request_id is_last) =
      output_rsp_instrument_query to_int field info n_request_id is_last

  logged-spells : (l : Log D) → IsJson (logged l)
  unfolding logged output_heartbeat_warning output_order_insert output_order_action
      output_order_query output_trade_query output_position_query output_position_detail_query
      output_trade_account_query output_product_query output_instrument_query output_front_connected
      output_front_disconnected output_rsperror output_password_update output_authenticate
      output_rsp_user_login output_rsp_user_logout output_rsp_settlement_confirm
      output_rsp_order_insert output_err_rtn_order_insert output_rtn_order output_rtn_trade
      output_rsp_order_action output_rsp_order_query output_rsp_trade_query
      output_rsp_position_query output_rsp_position_detail_query output_rsp_trading_account_query
      output_rsp_product_query output_rsp_instrument_query serialize_ctp_input_order
      serialize_ctp_action_order serialize_ctp_query_order serialize_ctp_query_trade
      serialize_ctp_query_position serialize_ctp_query_position_detail
      serialize_ctp_query_trade_account serialize_ctp_query_product serialize_ctp_query_instrument
      serialize_ctp_order serialize_ctp_trade serialize_ctp_position serialize_ctp_position_detail
      serialize_ctp_trading_account serialize_ctp_product serialize_ctp_instrument
  logged-spells (heartbeat_warning n_time_lapse) = refl
  logged-spells (order_insert req) = refl
  logged-spells (order_action req) = refl
  logged-spells (order_query req) = refl
  logged-spells (trade_query req) = refl
  logged-spells (position_query req) = refl
  logged-spells (position_detail_query req) = refl
  logged-spells (trade_account_query req) = refl
  logged-spells (product_query req) = refl
  logged-spells (instrument_query req) = refl
  logged-spells front_connected = refl
  logged-spells (front_disconnected reason) = refl
  logged-spells (rsperror info n_request_id) = refl
  logged-spells (password_update field info n_request_id) = refl
  logged-spells (authenticate field info n_request_id) = refl
  logged-spells (rsp_user_login field info n_request_id) = refl
  logged-spells (rsp_user_logout info n_request_id) = refl
  logged-spells (rsp_settlement_confirm field info n_request_id) = refl
  logged-spells (rsp_order_insert field info n_request_id) = refl
  logged-spells (err_rtn_order_insert field info) = refl
  logged-spells (rtn_order field) = refl
  logged-spells (rtn_trade field) = refl
  logged-spells (rsp_order_action field info n_request_id) = refl
  logged-spells (rsp_order_query none none n_request_id is_last) = refl
  logged-spells (rsp_order_query none (some info) n_request_id is_last) = refl
  logged-spells (rsp_order_query (some field) none n_request_id is_last) = refl
  logged-spells (rsp_order_query (some field) (some info) n_request_id is_last) = refl
  logged-spells (rsp_trade_query none none n_request_id is_last) = refl
  logged-spells (rsp_trade_query none (some info) n_request_id is_last) = refl
  logged-spells (rsp_trade_query (some field) none n_request_id is_last) = refl
  logged-spells (rsp_trade_query (some field) (some info) n_request_id is_last) = refl
  logged-spells (rsp_position_query none none n_request_id is_last) = refl
  logged-spells (rsp_position_query none (some info) n_request_id is_last) = refl
  logged-spells (rsp_position_query (some field) none n_request_id is_last) = refl
  logged-spells (rsp_position_query (some field) (some info) n_request_id is_last) = refl
  logged-spells (rsp_position_detail_query none none n_request_id is_last) = refl
  logged-spells (rsp_position_detail_query none (some info) n_request_id is_last) = refl
  logged-spells (rsp_position_detail_query (some field) none n_request_id is_last) = refl
  logged-spells (rsp_position_detail_query (some field) (some info) n_request_id is_last) = refl
  logged-spells (rsp_trading_account_query none none n_request_id is_last) = refl
  logged-spells (rsp_trading_account_query none (some info) n_request_id is_last) = refl
  logged-spells (rsp_trading_account_query (some field) none n_request_id is_last) = refl
  logged-spells (rsp_trading_account_query (some field) (some info) n_request_id is_last) = refl
  logged-spells (rsp_product_query none none n_request_id is_last) = refl
  logged-spells (rsp_product_query none (some info) n_request_id is_last) = refl
  logged-spells (rsp_product_query (some field) none n_request_id is_last) = refl
  logged-spells (rsp_product_query (some field) (some info) n_request_id is_last) = refl
  logged-spells (rsp_instrument_query to_int none none n_request_id is_last) = refl
  logged-spells (rsp_instrument_query to_int none (some info) n_request_id is_last) = refl
  logged-spells (rsp_instrument_query to_int (some field) none n_request_id is_last) = refl
  logged-spells (rsp_instrument_query to_int (some field) (some info) n_request_id is_last) = refl

  -- What a function of the handler logs by a writer has the structure of one JSON text if all the doubles
  -- in it are numbers, neither NaN nor infinite: brackets match, a key and a value alternate, and no key
  -- of an object comes twice. The texts in it are bytes in whatever encoding they came.
  pub logged-IsJson :
      (finite : D → Bool) (l : Log D)
      → all_finite finite (logged l) ≡ true
      → IsJson (written finite (logged l))
  logged-IsJson finite l h = written-IsJson finite (logged l) (logged-spells l) h
