-- ===== src/CtpTrade/Logs/Sent.antt =====
-- What src/ctp-trade/ctp_trade_handler.cpp logs before it sends a request.
use babeltrader.Common.{List}
use babeltrader.Json.{Event}
use babeltrader.CtpTrade.Logs.{message, data_object}
use babeltrader.CtpTrade.Fields.Requests.{
  InputOrderField, InputOrderActionField, QryOrderField, QryTradeField, QryInvestorPositionField,
  QryInvestorPositionDetailField, QryTradingAccountField, QryProductField, QryInstrumentField,
}
use babeltrader.CtpTrade.Logs.Requests.{
  serialize_ctp_input_order, serialize_ctp_action_order, serialize_ctp_query_order,
  serialize_ctp_query_trade, serialize_ctp_query_position, serialize_ctp_query_position_detail,
  serialize_ctp_query_trade_account, serialize_ctp_query_product, serialize_ctp_query_instrument,
}

module _ {D : Type 0} where
  unfoldable pub output_order_insert : InputOrderField D → List (Event D)
  output_order_insert req = message "ctp_orderinsert" (data_object (serialize_ctp_input_order req))

  unfoldable pub output_order_action : InputOrderActionField D → List (Event D)
  output_order_action req = message "ctp_orderaction" (data_object (serialize_ctp_action_order req))

  unfoldable pub output_order_query : QryOrderField → List (Event D)
  output_order_query req = message "ctp_orderquery" (data_object (serialize_ctp_query_order req))

  unfoldable pub output_trade_query : QryTradeField → List (Event D)
  output_trade_query req = message "ctp_tradequery" (data_object (serialize_ctp_query_trade req))

  unfoldable pub output_position_query : QryInvestorPositionField → List (Event D)
  output_position_query req =
      message "ctp_positionquery" (data_object (serialize_ctp_query_position req))

  unfoldable pub output_position_detail_query : QryInvestorPositionDetailField → List (Event D)
  output_position_detail_query req =
      message "ctp_positiondetailquery" (data_object (serialize_ctp_query_position_detail req))

  unfoldable pub output_trade_account_query : QryTradingAccountField → List (Event D)
  output_trade_account_query req =
      message "ctp_tradeaccountquery" (data_object (serialize_ctp_query_trade_account req))

  unfoldable pub output_product_query : QryProductField → List (Event D)
  output_product_query req =
      message "ctp_productquery" (data_object (serialize_ctp_query_product req))

  unfoldable pub output_instrument_query : QryInstrumentField → List (Event D)
  output_instrument_query req =
      message "ctp_instrumentquery" (data_object (serialize_ctp_query_instrument req))
