-- ===== src/CtpTrade/Logs/Orders.antt =====
-- The writers of the orders and the trades that the handler hears of, for the logs of
-- src/ctp-trade/ctp_trade_handler.cpp.
use babeltrader.Common.{List, [], ◌∷◌}
use babeltrader.Json.{Event, string, int, double}
use babeltrader.CtpTrade.Fields.Orders.{OrderField, TradeField}
use babeltrader.CtpTrade.Logs.{members, one_char}

module _ {D : Type 0} where
  unfoldable pub serialize_ctp_order : OrderField D → List (Event D)
  serialize_ctp_order order = members (
      ("BrokerID", string order.broker_id)
      ∷ ("InvestorID", string order.investor_id)
      ∷ ("InstrumentID", string order.instrument_id)
      ∷ ("OrderRef", string order.order_ref)
      ∷ ("UserID", string order.user_id)
      ∷ ("OrderPriceType", string (one_char order.order_price_type))
      ∷ ("Direction", string (one_char order.direction))
      ∷ ("CombOffsetFlag", string order.comb_offset_flag)
      ∷ ("CombHedgeFlag", string order.comb_hedge_flag)
      ∷ ("LimitPrice", double order.limit_price)
      ∷ ("VolumeTotalOriginal", int order.volume_total_original)
      ∷ ("TimeCondition", string (one_char order.time_condition))
      ∷ ("GTDDate", string order.gtd_date)
      ∷ ("VolumeCondition", string (one_char order.volume_condition))
      ∷ ("MinVolume", int order.min_volume)
      ∷ ("ContingentCondition", string (one_char order.contingent_condition))
      ∷ ("StopPrice", double order.stop_price)
      ∷ ("ForceCloseReason", string (one_char order.force_close_reason))
      ∷ ("IsAutoSuspend", int order.is_auto_suspend)
      ∷ ("BusinessUnit", string order.business_unit)
      ∷ ("RequestID", int order.request_id)
      ∷ ("OrderLocalID", string order.order_local_id)
      ∷ ("ExchangeID", string order.exchange_id)
      ∷ ("ParticipantID", string order.participant_id)
      ∷ ("ClientID", string order.client_id)
      ∷ ("ExchangeInstID", string order.exchange_inst_id)
      ∷ ("TraderID", string order.trader_id)
      ∷ ("OrderSubmitStatus", string (one_char order.order_submit_status))
      ∷ ("NotifySequence", int order.notify_sequence)
      ∷ ("TradingDay", string order.trading_day)
      ∷ ("SettlementID", int order.settlement_id)
      ∷ ("OrderSysID", string order.order_sys_id)
      ∷ ("OrderSource", string (one_char order.order_source))
      ∷ ("OrderStatus", string (one_char order.order_status))
      ∷ ("OrderType", string (one_char order.order_type))
      ∷ ("VolumeTraded", int order.volume_traded)
      ∷ ("VolumeTotal", int order.volume_total)
      ∷ ("InsertDate", string order.insert_date)
      ∷ ("InsertTime", string order.insert_time)
      ∷ ("ActiveTime", string order.active_time)
      ∷ ("SuspendTime", string order.suspend_time)
      ∷ ("UpdateTime", string order.update_time)
      ∷ ("CancelTime", string order.cancel_time)
      ∷ ("ActiveTraderID", string order.active_trader_id)
      ∷ ("ClearingPartID", string order.clearing_part_id)
      ∷ ("SequenceNo", int order.sequence_no)
      ∷ ("FrontID", int order.front_id)
      ∷ ("SessionID", int order.session_id)
      ∷ ("UserProductInfo", string order.user_product_info)
      ∷ ("StatusMsg", string order.status_msg)
      ∷ ("UserForceClose", int order.user_force_close)
      ∷ ("ActiveUserID", string order.active_user_id)
      ∷ ("BrokerOrderSeq", int order.broker_order_seq)
      ∷ ("RelativeOrderSysID", string order.relative_order_sys_id)
      ∷ ("ZCETotalTradedVolume", int order.zce_total_traded_volume)
      ∷ ("IsSwapOrder", int order.is_swap_order)
      ∷ ("BranchID", string order.branch_id)
      ∷ ("InvestUnitID", string order.invest_unit_id)
      ∷ ("AccountID", string order.account_id)
      ∷ ("CurrencyID", string order.currency_id)
      ∷ ("IPAddress", string order.ip_address)
      ∷ ("MacAddress", string order.mac_address)
      ∷ [])

  unfoldable pub serialize_ctp_trade : TradeField D → List (Event D)
  serialize_ctp_trade trade = members (
      ("BrokerID", string trade.broker_id)
      ∷ ("InvestorID", string trade.investor_id)
      ∷ ("InstrumentID", string trade.instrument_id)
      ∷ ("OrderRef", string trade.order_ref)
      ∷ ("UserID", string trade.user_id)
      ∷ ("ExchangeID", string trade.exchange_id)
      ∷ ("TradeID", string trade.trade_id)
      ∷ ("Direction", string (one_char trade.direction))
      ∷ ("OrderSysID", string trade.order_sys_id)
      ∷ ("ParticipantID", string trade.participant_id)
      ∷ ("ClientID", string trade.client_id)
      ∷ ("TradingRole", string (one_char trade.trading_role))
      ∷ ("ExchangeInstID", string trade.exchange_inst_id)
      ∷ ("OffsetFlag", string (one_char trade.offset_flag))
      ∷ ("HedgeFlag", string (one_char trade.hedge_flag))
      ∷ ("Price", double trade.price)
      ∷ ("Volume", int trade.volume)
      ∷ ("TradeDate", string trade.trade_date)
      ∷ ("TradeTime", string trade.trade_time)
      ∷ ("TradeType", string (one_char trade.trade_type))
      ∷ ("PriceSource", string (one_char trade.price_source))
      ∷ ("TraderID", string trade.trader_id)
      ∷ ("OrderLocalID", string trade.order_local_id)
      ∷ ("ClearingPartID", string trade.clearing_part_id)
      ∷ ("BusinessUnit", string trade.business_unit)
      ∷ ("SequenceNo", int trade.sequence_no)
      ∷ ("TradingDay", string trade.trading_day)
      ∷ ("SettlementID", int trade.settlement_id)
      ∷ ("BrokerOrderSeq", int trade.broker_order_seq)
      ∷ ("TradeSource", string (one_char trade.trade_source))
      ∷ ("InvestUnitID", string trade.invest_unit_id)
      ∷ [])
