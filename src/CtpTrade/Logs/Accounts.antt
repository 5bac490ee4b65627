-- ===== src/CtpTrade/Logs/Accounts.antt =====
-- The writers of the accounts, products and instruments that the handler hears of, for the logs of
-- src/ctp-trade/ctp_trade_handler.cpp.
use babeltrader.Common.{List, [], ◌∷◌}
use babeltrader.Common.Int.{ℤ}
use babeltrader.Json.{Event, string, int, double}
use babeltrader.CtpTrade.Fields.Accounts.{TradingAccountField, ProductField, InstrumentField}
use babeltrader.CtpTrade.Logs.{members, one_char}

module _ {D : Type 0} where
  unfoldable pub serialize_ctp_trading_account : TradingAccountField D → List (Event D)
  serialize_ctp_trading_account trading_account = members (
      ("BrokerID", string trading_account.broker_id)
      ∷ ("AccountID", string trading_account.account_id)
      ∷ ("PreMortgage", double trading_account.pre_mortgage)
      ∷ ("PreCredit", double trading_account.pre_credit)
      ∷ ("PreDeposit", double trading_account.pre_deposit)
      ∷ ("PreBalance", double trading_account.pre_balance)
      ∷ ("PreMargin", double trading_account.pre_margin)
      ∷ ("InterestBase", double trading_account.interest_base)
      ∷ ("Interest", double trading_account.interest)
      ∷ ("Deposit", double trading_account.deposit)
      ∷ ("Withdraw", double trading_account.withdraw)
      ∷ ("FrozenMargin", double trading_account.frozen_margin)
      ∷ ("FrozenCash", double trading_account.frozen_cash)
      ∷ ("FrozenCommission", double trading_account.frozen_commission)
      ∷ ("CurrMargin", double trading_account.curr_margin)
      ∷ ("CashIn", double trading_account.cash_in)
      ∷ ("Commission", double trading_account.commission)
      ∷ ("CloseProfit", double trading_account.close_profit)
      ∷ ("PositionProfit", double trading_account.position_profit)
      ∷ ("Balance", double trading_account.balance)
      ∷ ("Available", double trading_account.available)
      ∷ ("WithdrawQuota", double trading_account.withdraw_quota)
      ∷ ("Reserve", double trading_account.reserve)
      ∷ ("TradingDay", string trading_account.trading_day)
      ∷ ("SettlementID", int trading_account.settlement_id)
      ∷ ("Credit", double trading_account.credit)
      ∷ ("Mortgage", double trading_account.mortgage)
      ∷ ("ExchangeMargin", double trading_account.exchange_margin)
      ∷ ("DeliveryMargin", double trading_account.delivery_margin)
      ∷ ("ExchangeDeliveryMargin", double trading_account.exchange_delivery_margin)
      ∷ ("ReserveBalance", double trading_account.reserve_balance)
      ∷ ("CurrencyID", string trading_account.currency_id)
      ∷ ("PreFundMortgageIn", double trading_account.pre_fund_mortgage_in)
      ∷ ("PreFundMortgageOut", double trading_account.pre_fund_mortgage_out)
      ∷ ("FundMortgageIn", double trading_account.fund_mortgage_in)
      ∷ ("FundMortgageOut", double trading_account.fund_mortgage_out)
      ∷ ("FundMortgageAvailable", double trading_account.fund_mortgage_available)
      ∷ ("MortgageableFund", double trading_account.mortgageable_fund)
      ∷ ("SpecProductMargin", double trading_account.spec_product_margin)
      ∷ ("SpecProductFrozenMargin", double trading_account.spec_product_frozen_margin)
      ∷ ("SpecProductCommission", double trading_account.spec_product_commission)
      ∷ ("SpecProductFrozenCommission", double trading_account.spec_product_frozen_commission)
      ∷ ("SpecProductPositionProfit", double trading_account.spec_product_position_profit)
      ∷ ("SpecProductCloseProfit", double trading_account.spec_product_close_profit)
      ∷ (
        "SpecProductPositionProfitByAlg",
        double trading_account.spec_product_position_profit_by_alg,
      )
      ∷ ("SpecProductExchangeMargin", double trading_account.spec_product_exchange_margin)
      ∷ ("BizType", string (one_char trading_account.biz_type))
      ∷ ("FrozenSwap", double trading_account.frozen_swap)
      ∷ ("RemainSwap", double trading_account.remain_swap)
      ∷ [])

  unfoldable pub serialize_ctp_product : ProductField D → List (Event D)
  serialize_ctp_product product = members (
      ("ProductID", string product.product_id)
      ∷ ("ProductName", string product.product_name)
      ∷ ("ExchangeID", string product.exchange_id)
      ∷ ("ProductClass", string (one_char product.product_class))
      ∷ ("VolumeMultiple", int product.volume_multiple)
      ∷ ("PriceTick", double product.price_tick)
      ∷ ("MaxMarketOrderVolume", int product.max_market_order_volume)
      ∷ ("MinMarketOrderVolume", int product.min_market_order_volume)
      ∷ ("MaxLimitOrderVolume", int product.max_limit_order_volume)
      ∷ ("MinLimitOrderVolume", int product.min_limit_order_volume)
      ∷ ("PositionType", string (one_char product.position_type))
      ∷ ("PositionDateType", string (one_char product.position_date_type))
      ∷ ("CloseDealType", string (one_char product.close_deal_type))
      ∷ ("TradeCurrencyID", string product.trade_currency_id)
      ∷ ("MortgageFundUseRange", string (one_char product.mortgage_fund_use_range))
      ∷ ("ExchangeProductID", string product.exchange_product_id)
      ∷ ("UnderlyingMultiple", double product.underlying_multiple)
      ∷ [])

  unfoldable pub serialize_ctp_instrument : (D → ℤ) → InstrumentField D → List (Event D)
  serialize_ctp_instrument to_int instrument = members (
      ("InstrumentID", string instrument.instrument_id)
      ∷ ("ExchangeID", string instrument.exchange_id)
      ∷ ("InstrumentName", string instrument.instrument_name)
      ∷ ("ExchangeInstID", string instrument.exchange_inst_id)
      ∷ ("ProductID", string instrument.product_id)
      ∷ ("ProductClass", string (one_char instrument.product_class))
      ∷ ("DeliveryYear", int instrument.delivery_year)
      ∷ ("DeliveryMonth", int instrument.delivery_month)
      ∷ ("MaxMarketOrderVolume", int instrument.max_market_order_volume)
      ∷ ("MinMarketOrderVolume", int instrument.min_market_order_volume)
      ∷ ("MaxLimitOrderVolume", int instrument.max_limit_order_volume)
      ∷ ("MinLimitOrderVolume", int instrument.min_limit_order_volume)
      ∷ ("VolumeMultiple", int instrument.volume_multiple)
      ∷ ("PriceTick", int (to_int instrument.price_tick))
      ∷ ("CreateDate", string instrument.create_date)
      ∷ ("OpenDate", string instrument.open_date)
      ∷ ("ExpireDate", string instrument.expire_date)
      ∷ ("StartDelivDate", string instrument.start_deliv_date)
      ∷ ("EndDelivDate", string instrument.end_deliv_date)
      ∷ ("InstLifePhase", string (one_char instrument.inst_life_phase))
      ∷ ("IsTrading", int instrument.is_trading)
      ∷ ("PositionType", string (one_char instrument.position_type))
      ∷ ("PositionDateType", string (one_char instrument.position_date_type))
      ∷ ("LongMarginRatio", double instrument.long_margin_ratio)
      ∷ ("ShortMarginRatio", double instrument.short_margin_ratio)
      ∷ ("MaxMarginSideAlgorithm", string (one_char instrument.max_margin_side_algorithm))
      ∷ ("UnderlyingInstrID", string instrument.underlying_instr_id)
      ∷ ("StrikePrice", double instrument.strike_price)
      ∷ ("OptionsType", string (one_char instrument.options_type))
      ∷ ("UnderlyingMultiple", double instrument.underlying_multiple)
      ∷ ("CombinationType", string (one_char instrument.combination_type))
      ∷ [])
