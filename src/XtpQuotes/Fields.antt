-- ===== src/XtpQuotes/Fields.antt =====
-- The members that src/xtp-quotes/xtp_quote_handler.cpp reads of the structs that the XTP interface
-- hands in. An exchange is its number there: 1 is Shanghai, 2 is Shenzhen, 3 is unknown. The arrays of a
-- book have ten entries, a time is no negative number, a single character is its code.
use babeltrader.Common.{ℕ, Bytes, Bool, List}
use babeltrader.Common.Int.{ℤ}

pub record XtpRspInfo : Type 0 where
  pub error_id : ℤ
  pub error_msg : Bytes

pub record XtpSpecificTicker : Type 0 where
  pub exchange_id : ℕ
  pub ticker : Bytes

-- `is_option` is the test of `data_type`.
pub record XtpMarketData (D : Type 0) : Type 0 where
  pub exchange_id : ℕ
  pub ticker : Bytes
  pub is_option : Bool
  pub last_price : D
  pub pre_close_price : D
  pub open_price : D
  pub high_price : D
  pub low_price : D
  pub close_price : D
  pub pre_total_long_positon : ℤ
  pub total_long_positon : ℤ
  pub pre_settl_price : D
  pub settl_price : D
  pub upper_limit_price : D
  pub lower_limit_price : D
  pub pre_delta : D
  pub curr_delta : D
  pub data_time : ℕ
  pub qty : ℤ
  pub turnover : D
  pub avg_price : D
  pub bid : List D
  pub ask : List D
  pub bid_qty : List ℤ
  pub ask_qty : List ℤ
  pub trades_count : ℤ

pub record XtpOrderBook (D : Type 0) : Type 0 where
  pub exchange_id : ℕ
  pub ticker : Bytes
  pub last_price : D
  pub qty : ℤ
  pub turnover : D
  pub trades_count : ℤ
  pub bid : List D
  pub ask : List D
  pub bid_qty : List ℤ
  pub ask_qty : List ℤ
  pub data_time : ℕ

pub record XtpEntrust (D : Type 0) : Type 0 where
  pub channel_no : ℤ
  pub seq : ℤ
  pub price : D
  pub qty : ℤ
  pub side : ℕ
  pub ord_type : ℕ

pub record XtpTrade (D : Type 0) : Type 0 where
  pub channel_no : ℤ
  pub seq : ℤ
  pub price : D
  pub qty : ℤ
  pub money : D
  pub bid_no : ℤ
  pub ask_no : ℤ
  pub trade_flag : ℕ

-- The union, by its `type`: 1 and 2.
pub data XtpTick (D : Type 0) : Type 0 where
  entrust : XtpEntrust D → XtpTick D
  trade : XtpTrade D → XtpTick D

pub record XtpTickByTick (D : Type 0) : Type 0 where
  pub exchange_id : ℕ
  pub ticker : Bytes
  pub seq : ℤ
  pub data_time : ℕ
  pub tick : XtpTick D
