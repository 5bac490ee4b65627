-- ===== src/CtpTrade/Logs/Positions.antt =====
-- The writers of the positions that the handler hears of, for the logs of
-- src/ctp-trade/ctp_trade_handler.cpp.
use babeltrader.Common.{List, [], ◌∷◌}
use babeltrader.Json.{Event, string, int, double}
use babeltrader.CtpTrade.Fields.Positions.{InvestorPositionField, InvestorPositionDetailField}
use babeltrader.CtpTrade.Logs.{members, one_char}

module _ {D : Type 0} where
  unfoldable pub serialize_ctp_position : InvestorPositionField D → List (Event D)
  serialize_ctp_position investor_position = members (
      ("InstrumentID", string investor_position.instrument_id)
      ∷ ("BrokerID", string investor_position.broker_id)
      ∷ ("InvestorID", string investor_position.investor_id)
      ∷ ("PosiDirection", string (one_char investor_position.posi_direction))
      ∷ ("HedgeFlag", string (one_char investor_position.hedge_flag))
      ∷ ("PositionDate", string (one_char investor_position.position_date))
      ∷ ("YdPosition", int investor_position.yd_position)
      ∷ ("Position", int investor_position.position)
      ∷ ("LongFrozen", int investor_position.long_frozen)
      ∷ ("ShortFrozen", int investor_position.short_frozen)
      ∷ ("LongFrozenAmount", double investor_position.long_frozen_amount)
      ∷ ("ShortFrozenAmount", double investor_position.short_frozen_amount)
      ∷ ("OpenVolume", int investor_position.open_volume)
      ∷ ("CloseVolume", int investor_position.close_volume)
      ∷ ("OpenAmount", double investor_position.open_amount)
      ∷ ("CloseAmount", double investor_position.close_amount)
      ∷ ("PositionCost", double investor_position.position_cost)
      ∷ ("PreMargin", double investor_position.pre_margin)
      ∷ ("UseMargin", double investor_position.use_margin)
      ∷ ("FrozenMargin", double investor_position.frozen_margin)
      ∷ ("FrozenCash", double investor_position.frozen_cash)
      ∷ ("FrozenCommission", double investor_position.frozen_commission)
      ∷ ("CashIn", double investor_position.cash_in)
      ∷ ("Commission", double investor_position.commission)
      ∷ ("CloseProfit", double investor_position.close_profit)
      ∷ ("PositionProfit", double investor_position.position_profit)
      ∷ ("PreSettlementPrice", double investor_position.pre_settlement_price)
      ∷ ("SettlementPrice", double investor_position.settlement_price)
      ∷ ("TradingDay", string investor_position.trading_day)
      ∷ ("SettlementID", int investor_position.settlement_id)
      ∷ ("OpenCost", double investor_position.open_cost)
      ∷ ("ExchangeMargin", double investor_position.exchange_margin)
      ∷ ("CombPosition", int investor_position.comb_position)
      ∷ ("CombLongFrozen", int investor_position.comb_long_frozen)
      ∷ ("CombShortFrozen", int investor_position.comb_short_frozen)
      ∷ ("CloseProfitByDate", double investor_position.close_profit_by_date)
      ∷ ("CloseProfitByTrade", double investor_position.close_profit_by_trade)
      ∷ ("TodayPosition", int investor_position.today_position)
      ∷ ("MarginRateByMoney", double investor_position.margin_rate_by_money)
      ∷ ("MarginRateByVolume", double investor_position.margin_rate_by_volume)
      ∷ ("StrikeFrozen", int investor_position.strike_frozen)
      ∷ ("StrikeFrozenAmount", double investor_position.strike_frozen_amount)
      ∷ ("AbandonFrozen", int investor_position.abandon_frozen)
      ∷ ("ExchangeID", string investor_position.exchange_id)
      ∷ ("YdStrikeFrozen", int investor_position.yd_strike_frozen)
      ∷ ("InvestUnitID", string investor_position.invest_unit_id)
      ∷ [])

  unfoldable pub serialize_ctp_position_detail : InvestorPositionDetailField D → List (Event D)
  serialize_ctp_position_detail investor_position_detail = members (
      ("InstrumentID", string investor_position_detail.instrument_id)
      ∷ ("BrokerID", string investor_position_detail.broker_id)
      ∷ ("InvestorID", string investor_position_detail.investor_id)
      ∷ ("HedgeFlag", string (one_char investor_position_detail.hedge_flag))
      ∷ ("Direction", string (one_char investor_position_detail.direction))
      ∷ ("OpenDate", string investor_position_detail.open_date)
      ∷ ("TradeID", string investor_position_detail.trade_id)
      ∷ ("Volume", int investor_position_detail.volume)
      ∷ ("OpenPrice", double investor_position_detail.open_price)
      ∷ ("TradingDay", string investor_position_detail.trading_day)
      ∷ ("SettlementID", int investor_position_detail.settlement_id)
      ∷ ("TradeType", string (one_char investor_position_detail.trade_type))
      ∷ ("CombInstrumentID", string investor_position_detail.comb_instrument_id)
      ∷ ("ExchangeID", string investor_position_detail.exchange_id)
      ∷ ("CloseProfitByDate", double investor_position_detail.close_profit_by_date)
      ∷ ("CloseProfitByTrade", double investor_position_detail.close_profit_by_trade)
      ∷ ("PositionProfitByDate", double investor_position_detail.position_profit_by_date)
      ∷ ("PositionProfitByTrade", double investor_position_detail.position_profit_by_trade)
      ∷ ("Margin", double investor_position_detail.margin)
      ∷ ("ExchMargin", double investor_position_detail.exch_margin)
      ∷ ("MarginRateByMoney", double investor_position_detail.margin_rate_by_money)
      ∷ ("MarginRateByVolume", double investor_position_detail.margin_rate_by_volume)
      ∷ ("LastSettlementPrice", double investor_position_detail.last_settlement_price)
      ∷ ("SettlementPrice", double investor_position_detail.settlement_price)
      ∷ ("CloseVolume", int investor_position_detail.close_volume)
      ∷ ("CloseAmount", double investor_position_detail.close_amount)
      ∷ ("InvestUnitID", string investor_position_detail.invest_unit_id)
      ∷ [])
