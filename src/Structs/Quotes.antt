-- ===== src/Structs/Quotes.antt =====
-- src/common/common_struct.h, the quotes. `D` is the type of `double`. A `char` array holds the text up
-- to its NUL; an enumeration and a `uint8_t` are numbers (see Enum); an `int64_t` is an integer.
-- `open` is a keyword here: the field of that name is `open_price`.
use babeltrader.Common.{ℕ, List, Bytes}
use babeltrader.Common.Int.{ℤ}

pub record Quote : Type 0 where
  pub market : ℕ
  pub exchange : ℕ
  pub type : ℕ
  pub info1 : ℕ
  pub symbol : Bytes
  pub contract : Bytes
  pub contract_id : Bytes
  pub info2 : ℕ

pub record PriceVol (D : Type 0) : Type 0 where
  pub price : D
  pub vol : ℤ

pub record MarketData (D : Type 0) : Type 0 where
  pub ts : ℤ
  pub last : D
  pub bid_ask_len : ℕ
  pub bids : List (PriceVol D)
  pub asks : List (PriceVol D)
  pub vol : D
  pub turnover : D
  pub avg_price : D
  pub pre_settlement : D
  pub pre_close : D
  pub pre_open_interest : D
  pub settlement : D
  pub close : D
  pub open_interest : D
  pub upper_limit : D
  pub lower_limit : D
  pub open_price : D
  pub high : D
  pub low : D
  pub trading_day : Bytes
  pub action_day : Bytes

pub record OrderBook (D : Type 0) : Type 0 where
  pub ts : ℤ
  pub last : D
  pub vol : D
  pub bid_ask_len : ℕ
  pub bids : List (PriceVol D)
  pub asks : List (PriceVol D)

pub record OrderBookLevel2Entrust (D : Type 0) : Type 0 where
  pub channel_no : ℤ
  pub seq : ℤ
  pub price : D
  pub vol : D
  pub dir : ℕ
  pub order_type : ℕ

pub record OrderBookLevel2Trade (D : Type 0) : Type 0 where
  pub channel_no : ℤ
  pub seq : ℤ
  pub price : D
  pub vol : D
  pub bid_no : ℤ
  pub ask_no : ℤ
  pub trade_flag : ℕ

pub record OrderBookLevel2 (D : Type 0) : Type 0 where
  pub ts : ℤ
  pub seq : ℤ
  pub action : ℕ
  pub entrust : OrderBookLevel2Entrust D
  pub trade : OrderBookLevel2Trade D

pub record Kline (D : Type 0) : Type 0 where
  pub ts : ℤ
  pub open_price : D
  pub high : D
  pub low : D
  pub close : D
  pub vol : D

pub record QuoteMarketData (D : Type 0) : Type 0 where
  pub quote_type : ℕ
  pub quote : Quote
  pub market_data : MarketData D

pub record QuoteOrderBook (D : Type 0) : Type 0 where
  pub quote_type : ℕ
  pub quote : Quote
  pub order_book : OrderBook D

pub record QuoteOrderBookLevel2 (D : Type 0) : Type 0 where
  pub quote_type : ℕ
  pub quote : Quote
  pub level2 : OrderBookLevel2 D

pub record QuoteKline (D : Type 0) : Type 0 where
  pub quote_type : ℕ
  pub quote : Quote
  pub kline : Kline D
