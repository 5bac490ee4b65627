-- ===== src/CtpTrade/Logs/Requests.antt =====
-- The writers of the requests of the handler, for the logs of
-- src/ctp-trade/ctp_trade_handler.cpp.
use babeltrader.Common.{List, [], ◌∷◌}
use babeltrader.Json.{Event, string, int, double}
use babeltrader.CtpTrade.Fields.Requests.{
  InputOrderField, InputOrderActionField, QryOrderField, QryTradeField, QryInvestorPositionField,
  QryInvestorPositionDetailField, QryTradingAccountField, QryProductField, QryInstrumentField,
}
use babeltrader.CtpTrade.Logs.{members, one_char}

module _ {D : Type 0} where
  unfoldable pub serialize_ctp_input_order : InputOrderField D → List (Event D)
  serialize_ctp_input_order input_order = members (
      ("BrokerID", string input_order.broker_id)
      ∷ ("InvestorID", string input_order.investor_id)
      ∷ ("InstrumentID", string input_order.instrument_id)
      ∷ ("OrderRef", string input_order.order_ref)
      ∷ ("UserID", string input_order.user_id)
      ∷ ("OrderPriceType", string (one_char input_order.order_price_type))
      ∷ ("Direction", string (one_char input_order.direction))
      ∷ ("CombOffsetFlag", string input_order.comb_offset_flag)
      ∷ ("CombHedgeFlag", string input_order.comb_hedge_flag)
      ∷ ("LimitPrice", double input_order.limit_price)
      ∷ ("VolumeTotalOriginal", int input_order.volume_total_original)
      ∷ ("TimeCondition", string (one_char input_order.time_condition))
      ∷ ("GTDDate", string input_order.gtd_date)
      ∷ ("VolumeCondition", string (one_char input_order.volume_condition))
      ∷ ("MinVolume", int input_order.min_volume)
      ∷ ("ContingentCondition", string (one_char input_order.contingent_condition))
      ∷ ("StopPrice", double input_order.stop_price)
      ∷ ("ForceCloseReason", string (one_char input_order.force_close_reason))
      ∷ ("IsAutoSuspend", int input_order.is_auto_suspend)
      ∷ ("BusinessUnit", string input_order.business_unit)
      ∷ ("RequestID", int input_order.request_id)
      ∷ ("UserForceClose", int input_order.user_force_close)
      ∷ ("IsSwapOrder", int input_order.is_swap_order)
      ∷ ("ExchangeID", string input_order.exchange_id)
      ∷ ("InvestUnitID", string input_order.invest_unit_id)
      ∷ ("AccountID", string input_order.account_id)
      ∷ ("CurrencyID", string input_order.currency_id)
      ∷ ("ClientID", string input_order.client_id)
      ∷ ("IPAddress", string input_order.ip_address)
      ∷ ("MacAddress", string input_order.mac_address)
      ∷ [])

  unfoldable pub serialize_ctp_action_order : InputOrderActionField D → List (Event D)
  serialize_ctp_action_order action_order = members (
      ("BrokerID", string action_order.broker_id)
      ∷ ("InvestorID", string action_order.investor_id)
      ∷ ("OrderActionRef", int action_order.order_action_ref)
      ∷ ("OrderRef", string action_order.order_ref)
      ∷ ("RequestID", int action_order.request_id)
      ∷ ("FrontID", int action_order.front_id)
      ∷ ("SessionID", int action_order.session_id)
      ∷ ("ExchangeID", string action_order.exchange_id)
      ∷ ("OrderSysID", string action_order.order_sys_id)
      ∷ ("ActionFlag", string (one_char action_order.action_flag))
      ∷ ("LimitPrice", double action_order.limit_price)
      ∷ ("VolumeChange", int action_order.volume_change)
      ∷ ("UserID", string action_order.user_id)
      ∷ ("InstrumentID", string action_order.instrument_id)
      ∷ ("InvestUnitID", string action_order.invest_unit_id)
      ∷ ("IPAddress", string action_order.ip_address)
      ∷ ("MacAddress", string action_order.mac_address)
      ∷ [])

  unfoldable pub serialize_ctp_query_order : QryOrderField → List (Event D)
  serialize_ctp_query_order qry_order = members (
      ("BrokerID", string qry_order.broker_id)
      ∷ ("InvestorID", string qry_order.investor_id)
      ∷ ("InstrumentID", string qry_order.instrument_id)
      ∷ ("ExchangeID", string qry_order.exchange_id)
      ∷ ("OrderSysID", string qry_order.order_sys_id)
      ∷ ("InsertTimeStart", string qry_order.insert_time_start)
      ∷ ("InsertTimeEnd", string qry_order.insert_time_end)
      ∷ ("InvestUnitID", string qry_order.invest_unit_id)
      ∷ [])

  unfoldable pub serialize_ctp_query_trade : QryTradeField → List (Event D)
  serialize_ctp_query_trade qry_trade = members (
      ("BrokerID", string qry_trade.broker_id)
      ∷ ("InvestorID", string qry_trade.investor_id)
      ∷ ("InstrumentID", string qry_trade.instrument_id)
      ∷ ("ExchangeID", string qry_trade.exchange_id)
      ∷ ("TradeID", string qry_trade.trade_id)
      ∷ ("TradeTimeStart", string qry_trade.trade_time_start)
      ∷ ("TradeTimeEnd", string qry_trade.trade_time_end)
      ∷ ("InvestUnitID", string qry_trade.invest_unit_id)
      ∷ [])

  unfoldable pub serialize_ctp_query_position : QryInvestorPositionField → List (Event D)
  serialize_ctp_query_position qry_position = members (
      ("BrokerID", string qry_position.broker_id)
      ∷ ("InvestorID", string qry_position.investor_id)
      ∷ ("ExchangeID", string qry_position.exchange_id)
      ∷ ("InstrumentID", string qry_position.instrument_id)
      ∷ ("InvestUnitID", string qry_position.invest_unit_id)
      ∷ [])

  unfoldable pub serialize_ctp_query_position_detail :
      QryInvestorPositionDetailField → List (Event D)
  serialize_ctp_query_position_detail qry_position = members (
      ("BrokerID", string qry_position.broker_id)
      ∷ ("InvestorID", string qry_position.investor_id)
      ∷ ("ExchangeID", string qry_position.exchange_id)
      ∷ ("InstrumentID", string qry_position.instrument_id)
      ∷ ("InvestUnitID", string qry_position.invest_unit_id)
      ∷ [])

  unfoldable pub serialize_ctp_query_trade_account : QryTradingAccountField → List (Event D)
  serialize_ctp_query_trade_account tradeing_account = members (
      ("BrokerID", string tradeing_account.broker_id)
      ∷ ("InvestorID", string tradeing_account.investor_id)
      ∷ ("CurrencyID", string tradeing_account.currency_id)
      ∷ ("BizType", string (one_char tradeing_account.biz_type))
      ∷ ("AccountID", string tradeing_account.account_id)
      ∷ [])

  unfoldable pub serialize_ctp_query_product : QryProductField → List (Event D)
  serialize_ctp_query_product qry_product = members (
      ("ProductID", string qry_product.product_id)
      ∷ ("ProductClass", string (one_char qry_product.product_class))
      ∷ ("ExchangeID", string qry_product.exchange_id)
      ∷ [])

  unfoldable pub serialize_ctp_query_instrument : QryInstrumentField → List (Event D)
  serialize_ctp_query_instrument qry_instrument = members (
      ("InstrumentID", string qry_instrument.instrument_id)
      ∷ ("ExchangeID", string qry_instrument.exchange_id)
      ∷ ("ExchangeInstID", string qry_instrument.exchange_inst_id)
      ∷ ("ProductID", string qry_instrument.product_id)
      ∷ [])
