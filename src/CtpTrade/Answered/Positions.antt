-- ===== src/CtpTrade/Answered/Positions.antt =====
-- The conversions of positions, accounts and products (src/ctp-trade/ctp_trade_handler.cpp). Each fills
-- a struct that its constructor has set to empty texts and zeros.
use babeltrader.Common.{codes, [], if◌then◌else◌, ◌==◌}
use babeltrader.Common.Int.{pos}
use babeltrader.Common.Double.{Double}
use babeltrader.Structs.{PositionSummaryType1, PositionDetailType1, TradeAccountType1, ProductType1}
use babeltrader.Utils.{span_symbol}
use babeltrader.CtpTrade.{extend_ctp_id}
use babeltrader.CtpTrade.Fields.Positions.{InvestorPositionField, InvestorPositionDetailField}
use babeltrader.CtpTrade.Fields.Accounts.{TradingAccountField, ProductField, InstrumentField}
use babeltrader.CtpTrade.Handler.{CtpTradeConf}
use babeltrader.CtpTrade.Answered.{
  convert_position_dir_ctp2common, convert_hedge_flag_ctp2common, convert_date_type_ctp2common,
  convert_product_type_ctp2common,
}

module _ (F : Double) where
  open F use {D, of_int}

  unfoldable pub convert_position_ctp2common : InvestorPositionField D → PositionSummaryType1 D
  convert_position_ctp2common p_position =
      let parts = span_symbol p_position.instrument_id in
      record {
        market = codes "ctp";
        outside_user_id = p_position.investor_id;
        exchange = p_position.exchange_id;
        type = [];
        symbol = parts.0;
        contract = parts.1;
        contract_id = parts.1;
        dir = convert_position_dir_ctp2common p_position.posi_direction;
        order_flag1 = convert_hedge_flag_ctp2common p_position.hedge_flag;
        date_type = convert_date_type_ctp2common p_position.position_date;
        amount = of_int p_position.position;
        closed_amount = of_int p_position.close_volume;
        today_amount = of_int p_position.today_position;
        margin = p_position.use_margin;
        margin_rate_by_money = p_position.margin_rate_by_money;
        margin_rate_by_vol = p_position.margin_rate_by_volume;
        long_frozen = of_int p_position.long_frozen;
        short_frozen = of_int p_position.short_frozen;
        frozen_margin = p_position.frozen_margin;
        trading_day = p_position.trading_day;
        pre_settlement_price = p_position.pre_settlement_price;
        settlement_price = p_position.settlement_price;
        open_cost = p_position.open_cost;
        position_cost = p_position.position_cost;
        position_profit = p_position.position_profit;
        close_profit_by_date = p_position.close_profit_by_date;
        close_profit_by_trade = p_position.close_profit_by_trade;
      }

  unfoldable pub convert_position_detail_ctp2common :
      InvestorPositionDetailField D → PositionDetailType1 D
  convert_position_detail_ctp2common p_position_detail =
      let parts = span_symbol p_position_detail.instrument_id in
      record {
        market = codes "ctp";
        outside_user_id = p_position_detail.investor_id;
        exchange = p_position_detail.exchange_id;
        type = [];
        symbol = parts.0;
        contract = parts.1;
        contract_id = parts.1;
        dir = if p_position_detail.direction == b'0' then codes "long" else codes "short";
        order_flag1 = convert_hedge_flag_ctp2common p_position_detail.hedge_flag;
        open_date = p_position_detail.open_date;
        trading_day = p_position_detail.trading_day;
        trade_id =
            extend_ctp_id p_position_detail.investor_id p_position_detail.trading_day
              p_position_detail.trade_id;
        amount = of_int p_position_detail.volume;
        closed_amount = of_int p_position_detail.close_volume;
        closed_money = p_position_detail.close_amount;
        pre_settlement_price = p_position_detail.last_settlement_price;
        settlement_price = p_position_detail.settlement_price;
        open_price = p_position_detail.open_price;
        margin = p_position_detail.margin;
        margin_rate_by_money = p_position_detail.margin_rate_by_money;
        margin_rate_by_vol = p_position_detail.margin_rate_by_volume;
        close_profit_by_date = p_position_detail.close_profit_by_date;
        close_profit_by_trade = p_position_detail.close_profit_by_trade;
        position_profit_by_date = p_position_detail.position_profit_by_date;
        position_profit_by_trade = p_position_detail.position_profit_by_trade;
      }

  unfoldable pub convert_trade_account_ctp2common : TradingAccountField D → TradeAccountType1 D
  convert_trade_account_ctp2common p_trading_account = record {
    market = codes "ctp";
    outside_user_id = p_trading_account.account_id;
    pre_credit = of_int (pos 0);
    pre_balance = p_trading_account.pre_balance;
    pre_margin = p_trading_account.pre_margin;
    interest = p_trading_account.interest;
    deposit = p_trading_account.deposit;
    withdraw = p_trading_account.withdraw;
    credit = p_trading_account.credit;
    margin = p_trading_account.curr_margin;
    commission = p_trading_account.commission;
    close_profit = p_trading_account.close_profit;
    position_profit = p_trading_account.position_profit;
    frozen_margin = p_trading_account.frozen_margin;
    frozen_cash = p_trading_account.frozen_cash;
    frozen_commision = p_trading_account.frozen_commission;
    balance = p_trading_account.balance;
    available = p_trading_account.available;
    currency_id = p_trading_account.currency_id;
    trading_day = p_trading_account.trading_day;
  }

  unfoldable pub convert_product_ctp2common : CtpTradeConf → ProductField D → ProductType1 D
  convert_product_ctp2common conf p_product = record {
    market = codes "ctp";
    outside_user_id = conf.user_id;
    exchange = p_product.exchange_id;
    type = convert_product_type_ctp2common p_product.product_class;
    symbol = p_product.product_id;
    contract = [];
    contract_id = [];
    vol_multiple = of_int p_product.volume_multiple;
    price_tick = p_product.price_tick;
    long_margin_ratio = of_int (pos 0);
    short_margin_ratio = of_int (pos 0);
  }

  unfoldable pub convert_instrument_ctp2common : CtpTradeConf → InstrumentField D → ProductType1 D
  convert_instrument_ctp2common conf p_instrument =
      let parts = span_symbol p_instrument.instrument_id in
      record {
        market = codes "ctp";
        outside_user_id = conf.user_id;
        exchange = p_instrument.exchange_id;
        type = convert_product_type_ctp2common p_instrument.product_class;
        symbol = parts.0;
        contract = parts.1;
        contract_id = parts.1;
        vol_multiple = of_int p_instrument.volume_multiple;
        price_tick = p_instrument.price_tick;
        long_margin_ratio = p_instrument.long_margin_ratio;
        short_margin_ratio = p_instrument.short_margin_ratio;
      }
