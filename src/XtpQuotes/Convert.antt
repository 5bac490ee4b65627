-- ===== src/XtpQuotes/Convert.antt =====
-- From the structs of the XTP interface to those of the services: the `Convert…` of `XTPQuoteHandler`
-- (src/xtp-quotes/xtp_quote_handler.cpp). What a conversion does not set stays 0.
use babeltrader.Common.{ℕ, Bytes, List, [], ◌∷◌, if◌then◌else◌, ◌==◌, take}
use babeltrader.Common.Int.{ℤ, pos}
use babeltrader.Common.Double.{Double}
use babeltrader.Structs.{
  Quote, PriceVol, MarketData, OrderBook, OrderBookLevel2Entrust, OrderBookLevel2Trade,
  OrderBookLevel2,
}
use babeltrader.Enum.{exchange_unknown, info1_market_data}
use babeltrader.Utils.{Tm, xtp_get_timestamp}
use babeltrader.XtpQuotes.Fields.{
  XtpMarketData, XtpOrderBook, XtpTick, entrust, trade, XtpTickByTick,
}

-- The enumerators of src/common/enum.h that only this handler names.
abbrev pub market_xtp : ℕ
market_xtp = 3

abbrev pub exchange_sse : ℕ
exchange_sse = 6

abbrev pub exchange_szse : ℕ
exchange_szse = 7

abbrev pub product_type_option : ℕ
product_type_option = 2

abbrev pub product_type_spot : ℕ
product_type_spot = 3

abbrev pub info1_order_book : ℕ
info1_order_book = 3

abbrev pub info1_level2 : ℕ
info1_level2 = 4

unfoldable pub convert_exchange_type_common2xtp : ℕ → ℕ
convert_exchange_type_common2xtp exchange =
    if exchange == exchange_sse then 1 else (if exchange == exchange_szse then 2 else 3)

unfoldable pub convert_exchange_type_xtp2common : ℕ → ℕ
convert_exchange_type_xtp2common exchange_type =
    if exchange_type == 1
    then exchange_sse
    else (if exchange_type == 2 then exchange_szse else exchange_unknown)

-- Buy, sell, borrow and lend.
unfoldable pub convert_order_action : ℕ → ℕ
convert_order_action side =
    if side == b'1'
    then 6
    else (if side == b'2' then 7 else (if side == b'G' then 8 else (if side == b'F' then 9 else 0)))

-- Market, limit and best.
unfoldable pub convert_order_type : ℕ → ℕ
convert_order_type order_type =
    if order_type == b'1'
    then 2
    else (if order_type == b'2' then 1 else (if order_type == b'U' then 3 else 0))

-- Buy, sell, cancel and deal.
unfoldable pub convert_trade_flag : ℕ → ℕ
convert_trade_flag trade_flag =
    if trade_flag == b'B'
    then 1
    else (if trade_flag == b'S'
        then 2
        else (if trade_flag == b'4' then 3 else (if trade_flag == b'F' then 4 else 0)))

abbrev pub xtp_quote : ℕ → ℕ → ℕ → Bytes → Quote
xtp_quote exchange_id type info1 ticker = record {
  market = market_xtp;
  exchange = convert_exchange_type_xtp2common exchange_id;
  type = type;
  info1 = info1;
  symbol = take 15 ticker;
  contract = [];
  contract_id = [];
  info2 = 0;
}

module _ (F : Double) (mktime : Tm → ℤ) where
  open F use {D, of_int}

  -- The loop over the arrays of a book: a price and a volume at each place.
  abbrev pub levels : List D → List ℤ → List (PriceVol D)
  levels (p ∷ ps) (n ∷ ns) = record { price = p; vol = n } ∷ levels ps ns
  levels _ _ = []

  unfoldable pub market_data_quote : XtpMarketData D → Quote
  unfolding convert_exchange_type_xtp2common
  market_data_quote d =
      xtp_quote d.exchange_id (if d.is_option then product_type_option else product_type_spot)
        info1_market_data d.ticker

  unfoldable pub convert_market_data : XtpMarketData D → MarketData D
  convert_market_data d = record {
    ts = xtp_get_timestamp mktime d.data_time;
    last = d.last_price;
    bid_ask_len = 10;
    bids = levels d.bid d.bid_qty;
    asks = levels d.ask d.ask_qty;
    vol = of_int d.qty;
    turnover = d.turnover;
    avg_price = d.avg_price;
    pre_settlement = d.pre_settl_price;
    pre_close = d.pre_close_price;
    pre_open_interest = of_int d.pre_total_long_positon;
    settlement = d.settl_price;
    close = d.close_price;
    open_interest = of_int d.total_long_positon;
    upper_limit = d.upper_limit_price;
    lower_limit = d.lower_limit_price;
    open_price = d.open_price;
    high = d.high_price;
    low = d.low_price;
    trading_day = [];
    action_day = [];
  }

  unfoldable pub order_book_quote : XtpOrderBook D → Quote
  unfolding convert_exchange_type_xtp2common
  order_book_quote b = xtp_quote b.exchange_id 0 info1_order_book b.ticker

  unfoldable pub convert_order_book : XtpOrderBook D → OrderBook D
  convert_order_book b = record {
    ts = xtp_get_timestamp mktime b.data_time;
    last = b.last_price;
    vol = of_int b.qty;
    bid_ask_len = 10;
    bids = levels b.bid b.bid_qty;
    asks = levels b.ask b.ask_qty;
  }

  unfoldable pub tick_by_tick_quote : XtpTickByTick D → Quote
  unfolding convert_exchange_type_xtp2common
  tick_by_tick_quote t = xtp_quote t.exchange_id 0 info1_level2 t.ticker

  abbrev pub no_entrust : OrderBookLevel2Entrust D
  no_entrust = record {
    channel_no = pos 0;
    seq = pos 0;
    price = of_int (pos 0);
    vol = of_int (pos 0);
    dir = 0;
    order_type = 0;
  }

  abbrev pub no_trade : OrderBookLevel2Trade D
  no_trade = record {
    channel_no = pos 0;
    seq = pos 0;
    price = of_int (pos 0);
    vol = of_int (pos 0);
    bid_no = pos 0;
    ask_no = pos 0;
    trade_flag = 0;
  }

  -- `entrust` and `trade` share their bytes; the one that `action` does not name is given as empty.
  abbrev pub level2_at : ℤ → XtpTick D → OrderBookLevel2 D
  unfolding convert_order_action convert_order_type convert_trade_flag
  level2_at ts (entrust e) = record {
    ts = ts;
    seq = pos 0;
    action = 1;
    entrust = record {
      channel_no = e.channel_no;
      seq = e.seq;
      price = e.price;
      vol = of_int e.qty;
      dir = convert_order_action e.side;
      order_type = convert_order_type e.ord_type;
    };
    trade = no_trade;
  }
  level2_at ts (trade t) = record {
    ts = ts;
    seq = pos 0;
    action = 2;
    entrust = no_entrust;
    trade = record {
      channel_no = t.channel_no;
      seq = t.seq;
      price = t.price;
      vol = of_int t.qty;
      bid_no = t.bid_no;
      ask_no = t.ask_no;
      trade_flag = convert_trade_flag t.trade_flag;
    };
  }

  unfoldable pub convert_tick_by_tick : XtpTickByTick D → OrderBookLevel2 D
  convert_tick_by_tick t = level2_at (xtp_get_timestamp mktime t.data_time) t.tick
